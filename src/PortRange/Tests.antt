-- ===== src/PortRange/Tests.antt =====
-- Texts that the two copies of `ParsePortRange` read.
use longhorn_instance_manage.Base.{◌≡◌, refl, pos, ◌∷◌, ◌++◌, codes, ok, int32, arith}
use longhorn_instance_manage.Strings.{itoa, split, atoi, trim_space}
use longhorn_instance_manage.PortRange.{parse_port_range, parse_spdk_port_range}
use longhorn_instance_manage.PortRange.Laws.{
  parse_port_range_agree, parse_port_range-itoa, succeeds,
}

spaces : parse_port_range (codes " 10000 - 20000 ") ≡ ok (pos 10000, pos 20000)
unfolding parse_port_range split atoi trim_space int32
spaces = refl

-- An end that does not fit in 32 bits is not refused.
wraps : parse_port_range (codes "1-4294967297") ≡ ok (pos 1, pos 1)
unfolding parse_port_range split atoi trim_space int32
wraps = refl

parse_port_range_agree_example :
    succeeds (parse_port_range (codes "1-x")) ≡ succeeds (parse_spdk_port_range (codes "1-x"))
parse_port_range_agree_example = parse_port_range_agree (codes "1-x")

parse_port_range-itoa_example :
    parse_port_range (itoa (pos 10000) ++ b'-' ∷ itoa (pos 5000000000))
    ≡ ok (int32 (pos 10000), int32 (pos 5000000000))
parse_port_range-itoa_example = parse_port_range-itoa 10000 5000000000 (omega arith) (omega arith)
