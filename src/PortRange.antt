-- ===== src/PortRange.antt =====
-- The two copies of `ParsePortRange`, in pkg/process/process_manager.go and pkg/util/util.go.
pub mod Laws
mod Tests
use longhorn_instance_manage.Base.{
  ℤ, Text, Option, none, some, List, [], ◌∷◌, Error, failed, external, Result, ok, err, ◌>>=◌,
  codes, int32, is_empty, if◌then◌else◌,
}
use longhorn_instance_manage.Strings.{split, trim_space, atoi}

abbrev pub or_fail {ℓ} : {A : Type ℓ} → Option A → Error → Result A
or_fail none e = err e
or_fail (some a) e = ok a

-- Both ends, read as `int` and converted to `int32`.
abbrev both_ends : Option ℤ → Option ℤ → Error → Error → Result (ℤ × ℤ)
both_ends first second start end = do
  port_start ← or_fail first start
  port_end ← or_fail second end
  ok (int32 port_start, int32 port_end)

abbrev parse_ends : Error → Error → Error → List Text → Result (ℤ × ℤ)
parse_ends format start end (first ∷ second ∷ []) =
    both_ends (atoi (trim_space first)) (atoi (trim_space second)) start end
parse_ends format start end _ = err format

-- `process.ParsePortRange`.
unfoldable pub parse_port_range : Text → Result (ℤ × ℤ)
parse_port_range s =
    if is_empty s
    then err (failed (codes "empty port range"))
    else parse_ends (failed (codes "invalid format for range"))
        (failed (codes "invalid start port for range"))
        (failed (codes "invalid end port for range")) (split b'-' s)

-- `util.ParsePortRange`, which the SPDK target's ports go through.
unfoldable pub parse_spdk_port_range : Text → Result (ℤ × ℤ)
parse_spdk_port_range s =
    parse_ends (failed (codes "invalid format for SPDK port range"))
      (external (codes "strconv.Atoi")) (external (codes "strconv.Atoi")) (split b'-' s)
