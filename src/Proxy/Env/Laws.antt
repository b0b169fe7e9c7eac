-- ===== src/Proxy/Env/Laws.antt =====
-- What `setEnv` may do to the environment of the process.
use longhorn_instance_manage.Base.{
  Text, ◌≡◌, ◌∙◌, subst, sym, append_nil, ◌≢◌, refl, true, false, none, some, List, [], ◌∷◌, ◌++◌,
  map, Dict, Error, external, codes, text_eq, text_eq_iff, is_empty, contains, insert, lookup,
  lookup-insert, arith, Option-cases, Bool-cases, inl, inr,
}
use longhorn_instance_manage.Instance.Ops.{insert_all}
use longhorn_instance_manage.Strings.{cut}
use longhorn_instance_manage.Strings.Cut.{cut-some, cut-append}
use longhorn_instance_manage.Proxy.Env.{
  BackupTypes, is_backup_env_allowed, validate_entry, validate_backup_env, storable, setenv,
  set_entry, set_all, set_env,
}

-- An entry is KEY=VALUE with an allowed key.
abbrev pub IsEntry : BackupTypes → Text × Text → Type 0
IsEntry types (key, value) =
    (contains b'=' key ≡ false) × (is_empty key ≡ false) × (is_backup_env_allowed types key ≡ true)

abbrev pub entry : Text × Text → Text
entry (key, value) = key ++ b'=' ∷ value

module _ (types : BackupTypes) where
  setenv-keeps :
      (k key value : Text) (environ : Dict Text)
      → text_eq key k ≡ false
      → lookup k (setenv key value environ).0 ≡ lookup k environ
  unfolding setenv
  setenv-keeps k key value environ h = ground (arith, lookup-insert key k value environ)

  -- The key of an entry that passes is not one that is refused.
  set_entry-keeps :
      (k env : Text) (environ : Dict Text)
      → validate_entry types env ≡ none
      → is_backup_env_allowed types k ≡ false
      → lookup k (set_entry env environ).0 ≡ lookup k environ
  unfolding set_entry validate_entry
  set_entry-keeps k env environ valid h = elim (Option-cases (cut b'=' env)) [
    | inl e ↦ rw (e, set_entry) refl
    | inr ((key, value), e) ↦
        let cases : text_eq key k ≡ false = ground (arith, text_eq_iff key k) in
        rw (e, set_entry) (setenv-keeps k key value environ cases)
  ]

  set_all-keeps :
      (k : Text) (envs : List Text) (environ : Dict Text)
      → validate_backup_env types envs ≡ none
      → is_backup_env_allowed types k ≡ false
      → lookup k (set_all envs environ).0 ≡ lookup k environ
  unfolding set_all validate_backup_env
  set_all-keeps k [] environ valid h = refl
  set_all-keeps k (env ∷ envs) environ valid h =
      ground (arith, set_entry-keeps k env environ, set_all-keeps k envs (set_entry env environ).0)

  -- Whatever the entries are and however the call ends, a variable that is not on the allowlist keeps its value.
  pub set_env-keeps :
      (k : Text) (envs : List Text) (environ : Dict Text)
      → is_backup_env_allowed types k ≡ false
      → lookup k (set_env types envs environ).0 ≡ lookup k environ
  unfolding set_env
  set_env-keeps k envs environ h = elim (Option-cases (validate_backup_env types envs)) [
    | inl valid ↦ rw (valid, set_env) (set_all-keeps k envs environ valid h)
    | inr (e, invalid) ↦ rw (invalid, set_env) refl
  ]

  -- An entry that passes the check and that `os.Setenv` takes.
  abbrev pub IsStored : Text × Text → Type 0
  IsStored pair = IsEntry types pair × (storable pair.0 pair.1 ≡ true)

  abbrev pub AllStored : List (Text × Text) → Type 0
  AllStored [] = Unit
  AllStored (pair ∷ pairs) = IsStored pair × AllStored pairs

  validate-entry :
      (pair : Text × Text) → IsEntry types pair → validate_entry types (entry pair) ≡ none
  unfolding validate_entry
  validate-entry (key, value) v = rw (cut-append b'=' key value v.0, validate_entry) (ground arith)

  validate_entry-IsEntry :
      (env : Text)
      → validate_entry types env ≡ none
      → (pair : Text × Text) × (env ≡ entry pair) × IsEntry types pair
  unfolding validate_entry
  validate_entry-IsEntry env h = elim (Option-cases (cut b'=' env)) [
    | inl e ↦ ground arith
    | inr ((key, value), e) ↦
        let (joined, first) = cut-some b'=' env key value e in
        ((key, value), joined, (first, ground arith, ground arith))
  ]

  set_entry-entry :
      (pair : Text × Text) (environ : Dict Text)
      → IsEntry types pair
      → set_entry (entry pair) environ ≡ setenv pair.0 pair.1 environ
  unfolding set_entry
  set_entry-entry (key, value) environ v = rw (cut-append b'=' key value v.0, set_entry) refl

  validate_stored :
      (pairs : List (Text × Text)) (rest : List Text)
      → AllStored pairs
      → validate_backup_env types (map entry pairs ++ rest) ≡ validate_backup_env types rest
  unfolding validate_backup_env
  validate_stored [] rest v = refl
  validate_stored (pair ∷ pairs) rest v =
      rw (validate-entry pair v.0.0, validate_backup_env) (validate_stored pairs rest v.1)

  set_all-stored :
      (pair : Text × Text) (envs : List Text) (environ : Dict Text)
      → IsStored pair
      → set_all (entry pair ∷ envs) environ ≡ set_all envs (insert pair.0 pair.1 environ)
  unfolding set_all setenv
  set_all-stored pair envs environ v =
      rw (set_entry-entry pair environ v.0, v.1, set_all, setenv) refl

  set_all-refused :
      (pair : Text × Text) (envs : List Text) (environ : Dict Text)
      → IsEntry types pair
      → storable pair.0 pair.1 ≡ false
      → set_all (entry pair ∷ envs) environ ≡ (environ, some (external (codes "invalid argument")))
  unfolding set_all setenv
  set_all-refused pair envs environ v refused =
      rw (set_entry-entry pair environ v, refused, set_all, setenv) refl

  set_stored :
      (pairs : List (Text × Text)) (rest : List Text) (environ : Dict Text)
      → AllStored pairs
      → set_all (map entry pairs ++ rest) environ ≡ set_all rest (insert_all pairs environ)
  unfolding insert_all
  set_stored [] rest environ v = refl
  set_stored (pair ∷ pairs) rest environ v =
      set_all-stored pair (map entry pairs ++ rest) environ v.0
      ∙ set_stored pairs rest (insert pair.0 pair.1 environ) v.1

  set_env-split :
      (pairs : List (Text × Text)) (rest : List Text) (environ : Dict Text)
      → AllStored pairs
      → validate_backup_env types rest ≡ none
      → set_env types (map entry pairs ++ rest) environ ≡ set_all rest (insert_all pairs environ)
  unfolding set_env
  set_env-split pairs rest environ v h =
      rw (validate_stored pairs rest v, h, set_env) (set_stored pairs rest environ v)

  -- Entries KEY=VALUE with allowed keys, in which the system takes each key and value, are all set, in their order.
  pub set_env-stored :
      (pairs : List (Text × Text)) (environ : Dict Text)
      → AllStored pairs
      → set_env types (map entry pairs) environ ≡ (insert_all pairs environ, none)
  unfolding set_all validate_backup_env
  set_env-stored pairs environ v =
      subst (λ envs. set_env types envs environ ≡ (insert_all pairs environ, none))
        (append_nil (map entry pairs)) (set_env-split pairs [] environ v refl)

  validate_next :
      (env : Text) (envs : List Text)
      → validate_backup_env types (env ∷ envs) ≡ none
      → (validate_entry types env ≡ none) × (validate_backup_env types envs ≡ none)
  unfolding validate_backup_env
  validate_next env envs h = ground arith

  set_all_next :
      (pair : Text × Text) (env : Text) (envs : List Text) (environ environ' : Dict Text)
      → env ≡ entry pair
      → IsEntry types pair
      → set_all (env ∷ envs) environ ≡ (environ', none)
      → IsStored pair × (set_all envs (insert pair.0 pair.1 environ) ≡ (environ', none))
  set_all_next pair env envs environ environ' joined own h =
      elim (Bool-cases (storable pair.0 pair.1)) [
        | inl stored ↦
            let step = set_all-stored pair envs environ (own, stored) in
            (
              (own, stored),
              sym step ∙ subst (λ e. set_all (e ∷ envs) environ ≡ (environ', none)) joined h,
            )
        | inr refused ↦ let step = set_all-refused pair envs environ own refused in cc
      ]

  -- What the entries `envs` are, once they have turned `environ` into `environ'`.
  abbrev Applied : List Text → Dict Text → Dict Text → Type 0
  Applied envs environ environ' =
      (pairs : List (Text × Text)) × (envs ≡ map entry pairs)
      × AllStored pairs
      × (environ' ≡ insert_all pairs environ)

  add_stored :
      (pair : Text × Text) (env : Text) (envs : List Text) (environ environ' : Dict Text)
      → env ≡ entry pair
      → IsStored pair
      → Applied envs (insert pair.0 pair.1 environ) environ'
      → Applied (env ∷ envs) environ environ'
  unfolding insert_all
  add_stored pair env envs environ environ' joined v (pairs, same, all, result) =
      (pair ∷ pairs, cc, (v, all), result)

  set_all_ok :
      (envs : List Text) (environ environ' : Dict Text)
      → validate_backup_env types envs ≡ none
      → set_all envs environ ≡ (environ', none)
      → (pairs : List (Text × Text)) × (envs ≡ map entry pairs)
        × AllStored pairs
        × (environ' ≡ insert_all pairs environ)
  unfolding set_all validate_backup_env setenv insert_all
  set_all_ok [] environ environ' valid h = ([], refl, tt, cc)
  set_all_ok (env ∷ envs) environ environ' valid h =
      let (first, others) = validate_next env envs valid in
      let (pair, joined, own) = validate_entry-IsEntry env first in
      let (stored, later) = set_all_next pair env envs environ environ' joined own h in
      add_stored pair env envs environ environ' joined stored
        (set_all_ok envs (insert pair.0 pair.1 environ) environ' others later)

  -- A call that returns no error was given only entries KEY=VALUE with allowed keys, and has set them all, in their order.
  pub set_env-ok :
      (envs : List Text) (environ environ' : Dict Text)
      → set_env types envs environ ≡ (environ', none)
      → (pairs : List (Text × Text)) × (envs ≡ map entry pairs)
        × AllStored pairs
        × (environ' ≡ insert_all pairs environ)
  unfolding set_env
  set_env-ok envs environ environ' h = elim (Option-cases (validate_backup_env types envs)) [
    | inl valid ↦
        let run : set_env types envs environ ≡ set_all envs environ = rw (valid, set_env) refl in
        set_all_ok envs environ environ' valid (sym run ∙ h)
    | inr (e, invalid) ↦
        let run : set_env types envs environ ≡ (environ, some e) = rw (invalid, set_env) refl in cc
  ]

  validate_rejects :
      (before after : List Text) (env : Text)
      → validate_entry types env ≢ none
      → (e : Error) × (validate_backup_env types (before ++ env ∷ after) ≡ some e)
  unfolding validate_backup_env
  validate_rejects [] after env bad = elim (Option-cases (validate_entry types env)) [
    | inl e ↦ absurd (bad e)
    | inr (e, refused) ↦ (e, rw (refused, validate_backup_env) refl)
  ]
  validate_rejects (first ∷ before) after env bad =
      elim (Option-cases (validate_entry types first)) [
        | inl h ↦ rw (h, validate_backup_env) (validate_rejects before after env bad)
        | inr (e, refused) ↦ (e, rw (refused, validate_backup_env) refl)
      ]

  -- One entry that does not pass the check, wherever it stands, keeps the call from setting anything.
  pub set_env-rejected :
      (before after : List Text) (env : Text) (environ : Dict Text)
      → validate_entry types env ≢ none
      → ((set_env types (before ++ env ∷ after) environ).0 ≡ environ)
        × ((set_env types (before ++ env ∷ after) environ).1 ≢ none)
  unfolding set_env
  set_env-rejected before after env environ bad =
      let (e, refused) = validate_rejects before after env bad in
      rw (refused, set_env) (refl, λ h. cc)

  -- An entry that passes the check and that the system refuses, such as a value with a NUL byte, ends the call with an error after the entries before it are set.
  pub set_env-partial :
      (pairs : List (Text × Text)) (pair : Text × Text) (after : List Text) (environ : Dict Text)
      → AllStored pairs
      → IsEntry types pair
      → storable pair.0 pair.1 ≡ false
      → validate_backup_env types after ≡ none
      → set_env types (map entry pairs ++ entry pair ∷ after) environ
        ≡ (insert_all pairs environ, some (external (codes "invalid argument")))
  unfolding validate_backup_env
  set_env-partial pairs pair after environ v w refused h =
      set_env-split pairs (entry pair ∷ after) environ v
        (rw (validate-entry pair w, h, validate_backup_env) refl)
      ∙ set_all-refused pair after (insert_all pairs environ) w refused
