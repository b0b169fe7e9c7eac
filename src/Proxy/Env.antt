-- ===== src/Proxy/Env.antt =====
-- pkg/proxy/env_allowlist.go and `setEnv` of pkg/proxy/backup.go: which entries a caller may put into
-- the environment of the process. The names of the variables are constants of
-- vendor/github.com/longhorn/backupstore/types.
use longhorn_instance_manage.Base.{
  Text, Bool, false, not, ◌||◌, Option, none, some, List, [], ◌∷◌, Dict, Error, failed, external,
  codes, text_eq, is_empty, if◌then◌else◌, contains, insert, and_then,
}
use longhorn_instance_manage.Strings.{cut}
pub mod Laws
mod Tests

-- The constants of `btypes`.
pub record BackupTypes : Type 0 where
  pub aws_access_key : Text
  pub aws_secret_key : Text
  pub aws_end_point : Text
  pub aws_cert : Text
  pub virtual_hosted_style : Text
  pub aws_sign_accept_encoding : Text
  pub cifs_username : Text
  pub cifs_password : Text
  pub az_blob_account_name : Text
  pub az_blob_account_key : Text
  pub az_blob_endpoint : Text
  pub az_blob_cert : Text
  pub https_proxy : Text
  pub http_proxy : Text
  pub no_proxy : Text

abbrev pub backup_env_allowlist : BackupTypes → List Text
backup_env_allowlist t =
    t.aws_access_key ∷ t.aws_secret_key ∷ t.aws_end_point ∷ t.aws_cert ∷ t.virtual_hosted_style
    ∷ t.aws_sign_accept_encoding ∷ t.cifs_username ∷ t.cifs_password ∷ t.az_blob_account_name
    ∷ t.az_blob_account_key ∷ t.az_blob_endpoint ∷ t.az_blob_cert ∷ t.https_proxy ∷ t.http_proxy
    ∷ t.no_proxy ∷ []

-- Whether the map has that key.
unfoldable pub has_key : Text → List Text → Bool
has_key k [] = false
has_key k (j ∷ js) = text_eq j k || has_key k js

module _ (types : BackupTypes) where
  unfoldable pub is_backup_env_allowed : Text → Bool
  unfolding has_key
  is_backup_env_allowed key = has_key key (backup_env_allowlist types)

  -- The error of one entry.
  unfoldable pub validate_entry : Text → Option Error
  unfolding is_backup_env_allowed
  validate_entry env = elim (cut b'=' env) [
    | none ↦ some (failed (codes "malformed env entry: expected KEY=VALUE"))
    | some (key, value) ↦
        if is_empty key
        then some (failed (codes "malformed env entry: empty key"))
        else if not (is_backup_env_allowed key)
        then some (failed (codes "env key is not permitted by the backup env allowlist"))
        else none
  ]

  unfoldable pub validate_backup_env : List Text → Option Error
  unfolding validate_entry
  validate_backup_env [] = none
  validate_backup_env (env ∷ envs) = elim (validate_entry env) [
    | some e ↦ some e
    | none ↦ validate_backup_env envs
  ]

-- `os.Setenv`: a NUL byte, or a key that is empty or has an equals sign, is refused.
abbrev pub storable : Text → Text → Bool
storable key value = not (is_empty key || contains b'=' key || contains 0 key || contains 0 value)

unfoldable pub setenv : Text → Text → Dict Text → Dict Text × Option Error
setenv key value environ =
    if storable key value
    then (insert key value environ, none)
    else (environ, some (external (codes "invalid argument")))

-- The second loop of `setEnv`, which ends at the first error.
unfoldable pub set_entry : Text → Dict Text → Dict Text × Option Error
unfolding setenv
set_entry env environ = elim (cut b'=' env) [
  | none ↦ (environ, some (failed (codes "invalid environment entry: expected KEY=VALUE")))
  | some (key, value) ↦ setenv key value environ
]

unfoldable pub set_all : List Text → Dict Text → Dict Text × Option Error
unfolding set_entry
set_all [] environ = (environ, none)
set_all (env ∷ envs) environ = and_then (set_entry env environ) (set_all envs)

unfoldable pub set_env : BackupTypes → List Text → Dict Text → Dict Text × Option Error
unfolding validate_backup_env set_all
set_env types envs environ = elim (validate_backup_env types envs) [
  | some e ↦ (environ, some e)
  | none ↦ set_all envs environ
]
