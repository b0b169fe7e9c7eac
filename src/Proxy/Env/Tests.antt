-- ===== src/Proxy/Env/Tests.antt =====
-- Runs of `setEnv`.
use longhorn_instance_manage.Base.{
  ◌≡◌, ◌≢◌, refl, [], ◌∷◌, ◌++◌, Text, codes, none, some, external, text_eq, map, Dict,
}
use longhorn_instance_manage.Instance.Ops.{insert_all}
use longhorn_instance_manage.Strings.{cut}
use longhorn_instance_manage.Proxy.Env.{
  set_env, is_backup_env_allowed, has_key, validate_entry, validate_backup_env,
}
use longhorn_instance_manage.Proxy.Env.Laws.{entry, set_env-rejected, set_env-partial}
use longhorn_instance_manage.Proxy.Examples.{types}

-- A good entry before and after one that names a library for the loader.
abbrev good : Text
good = codes "AWS_CERT=c"

abbrev bad : Text
bad = codes "LD_PRELOAD=x.so"

abbrev path_only : Dict Text
path_only = (codes "PATH", codes "/bin") ∷ []

set_env-rejected_example :
    ((set_env types (good ∷ bad ∷ good ∷ []) path_only).0 ≡ path_only)
    × ((set_env types (good ∷ bad ∷ good ∷ []) path_only).1 ≢ none)
unfolding validate_entry is_backup_env_allowed has_key cut text_eq
set_env-rejected_example = set_env-rejected types (good ∷ []) (good ∷ []) bad path_only (λ h. cc)

-- The second value has a NUL byte.
abbrev stored : Text × Text
stored = (codes "AWS_ACCESS_KEY_ID", codes "k")

abbrev with_nul : Text × Text
with_nul = (codes "AWS_CERT", 0 ∷ [])

set_env-partial_example :
    set_env types (map entry (stored ∷ []) ++ entry with_nul ∷ []) path_only
    ≡ (insert_all (stored ∷ []) path_only, some (external (codes "invalid argument")))
unfolding is_backup_env_allowed has_key text_eq validate_backup_env
set_env-partial_example =
    set_env-partial types (stored ∷ []) with_nul [] path_only (((refl, refl, refl), refl), tt)
      (refl, refl, refl) refl refl
