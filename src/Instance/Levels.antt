-- ===== src/Instance/Levels.antt =====
-- pkg/instance/log.go: the level and the flags of the log. The level of the instance manager is that of
-- vendor/github.com/sirupsen/logrus, whose `ParseLevel` is an argument; the log of the second data engine
-- is that of the SPDK service.
use longhorn_instance_manage.Base.{
  ℤ, Text, ◌≡◌, refl, Option, none, some, [], Error, status, internal, unimplemented, Result, ok,
  err, inl, inr, Option-cases,
}
use longhorn_instance_manage.Instance.{DataEngine, v1, v2, ops_of}
use longhorn_instance_manage.Proxy.Calls.{internal_of, acted_internal}

-- The client of the SPDK service, as far as its log is concerned.
pub record LogClient (S : Type 0) : Type 0 where
  pub connect : S → Option Error
  pub log_set_level : Text → S → S × Option Error
  pub log_set_flags : Text → S → S × Option Error
  pub log_get_flags : S → Result Text

-- The level of this process, by its name, and the SPDK service.
pub record Logs (S : Type 0) : Type 0 where
  pub level : Text
  pub spdk : S

-- `strings.ToUpper`, and the name of the level that `ParseLevel` finds.
pub record LogLibrary : Type 0 where
  pub to_upper : Text → Text
  pub parse_level : Text → Result Text

module _ {S : Type 0} (lib : LogLibrary) (spdk : LogClient S) where
  -- `logSetLevel`.
  unfoldable pub log_set_level : Text → Logs S → Logs S × Result (Unit {0})
  log_set_level level w = elim (lib.parse_level level) [
    | err e ↦ (w, err e)
    | ok name ↦ (record w { level = name }, ok tt)
  ]

  -- A call of the SPDK service, if it can be reached.
  unfoldable pub on_spdk_log : (S → S × Option Error) → Logs S → Logs S × Result (Unit {0})
  unfolding acted_internal
  on_spdk_log next w = elim (spdk.connect w.spdk) [
    | some e ↦ (w, err (status internal))
    | none ↦ let (s, answer) = acted_internal (next w.spdk) in (record w { spdk = s }, answer)
  ]

  unfoldable pub set_level : Option DataEngine → Text → Logs S → Logs S × Result (Unit {0})
  unfolding log_set_level on_spdk_log
  set_level none level w = (w, err (status unimplemented))
  set_level (some v1) level w = log_set_level level w
  set_level (some v2) level w = on_spdk_log (spdk.log_set_level (lib.to_upper level)) w

  unfoldable pub set_flags : Option DataEngine → Text → Logs S → Logs S × Result (Unit {0})
  unfolding on_spdk_log
  set_flags none flags w = (w, err (status unimplemented))
  set_flags (some v1) flags w = (w, ok tt)
  set_flags (some v2) flags w = on_spdk_log (spdk.log_set_flags flags) w

  -- Both data engines answer with the level of this process.
  unfoldable pub get_level : Option DataEngine → Logs S → Result Text
  get_level none w = err (status unimplemented)
  get_level (some engine) w = ok w.level

  unfoldable pub get_flags : Option DataEngine → Logs S → Result Text
  unfolding internal_of
  get_flags none w = err (status unimplemented)
  get_flags (some v1) w = ok []
  get_flags (some v2) w = elim (spdk.connect w.spdk) [
    | some e ↦ err (status internal)
    | none ↦ internal_of (spdk.log_get_flags w.spdk)
  ]

  unfoldable pub serve_set_level : ℤ → Text → Logs S → Logs S × Result (Unit {0})
  unfolding set_level ops_of
  serve_set_level engine level w = set_level (ops_of engine) level w

  unfoldable pub serve_get_level : ℤ → Logs S → Result Text
  unfolding get_level ops_of
  serve_get_level engine w = get_level (ops_of engine) w

  on_spdk_log-level :
      (next : S → S × Option Error) (w : Logs S) → (on_spdk_log next w).0.level ≡ w.level
  unfolding on_spdk_log
  on_spdk_log-level next w = elim (Option-cases (spdk.connect w.spdk)) [
    | inl h ↦ rw (h, on_spdk_log) refl
    | inr (e, h) ↦ rw (h, on_spdk_log) refl
  ]
