-- ===== src/PortRange/Laws.antt =====
-- What `ParsePortRange` accepts and returns.
use longhorn_instance_manage.Base.{
  ℕ, ℤ, pos, ◌≤◌, Text, ◌≡◌, refl, inl, Option, none, some, false, List, [], ◌∷◌, ◌++◌, arith,
  Error, Result, ok, err, int32, is_empty, IsInt32, int32-IsInt32, ap,
}
use longhorn_instance_manage.Strings.{split, trim_space, atoi, itoa, max_int64}
use longhorn_instance_manage.Strings.Split.{split-Lacks, split-append}
use longhorn_instance_manage.Strings.Decimal.{atoi-itoa, itoa_pos-Lacks, trim_space-itoa_pos}
use longhorn_instance_manage.PortRange.{
  both_ends, parse_ends, parse_port_range, parse_spdk_port_range,
}

-- A successful parse, with what the errors say left out.
abbrev pub succeeds : Result (ℤ × ℤ) → Option (ℤ × ℤ)
succeeds (ok r) = some r
succeeds (err e) = none

parse_ends_errors :
    (f s e f' s' e' : Error) (ws : List Text)
    → succeeds (parse_ends f s e ws) ≡ succeeds (parse_ends f' s' e' ws)
parse_ends_errors f s e f' s' e' [] = refl
parse_ends_errors f s e f' s' e' (w ∷ []) = refl
parse_ends_errors f s e f' s' e' (w ∷ v ∷ []) = ground arith
parse_ends_errors f s e f' s' e' (w ∷ v ∷ u ∷ ws) = refl

-- The two copies of `ParsePortRange` accept the same texts, with the same two ports.
pub parse_port_range_agree :
    (s : Text) → succeeds (parse_port_range s) ≡ succeeds (parse_spdk_port_range s)
unfolding parse_port_range parse_spdk_port_range split
parse_port_range_agree [] = refl
parse_port_range_agree (c ∷ s) = parse_ends_errors _ _ _ _ _ _ (split b'-' (c ∷ s))

ends_IsInt32 :
    (o o' : Option ℤ) (s e : Error) (lo hi : ℤ)
    → both_ends o o' s e ≡ ok (lo, hi)
    → IsInt32 lo × IsInt32 hi
ends_IsInt32 none o' s e lo hi h = cc
ends_IsInt32 (some a) none s e lo hi h = cc
ends_IsInt32 (some a) (some b) s e lo hi h = ground (arith, int32-IsInt32 a, int32-IsInt32 b)

parse_ends-IsInt32 :
    (f s e : Error) (ws : List Text) (lo hi : ℤ)
    → parse_ends f s e ws ≡ ok (lo, hi)
    → IsInt32 lo × IsInt32 hi
parse_ends-IsInt32 f s e [] lo hi h = cc
parse_ends-IsInt32 f s e (w ∷ []) lo hi h = cc
parse_ends-IsInt32 f s e (w ∷ v ∷ []) lo hi h =
    ends_IsInt32 (atoi (trim_space w)) (atoi (trim_space v)) s e lo hi h
parse_ends-IsInt32 f s e (w ∷ v ∷ u ∷ ws) lo hi h = cc

split-ports :
    (a b : ℕ) → split b'-' (itoa (pos a) ++ b'-' ∷ itoa (pos b)) ≡ itoa (pos a) ∷ itoa (pos b) ∷ []
split-ports a b =
    rw (split-append b'-' (itoa (pos a)) (itoa (pos b)) (itoa_pos-Lacks b'-' a (inl (omega arith))))
      (ap (λ ws. itoa (pos a) ∷ ws)
        (split-Lacks b'-' (itoa (pos b)) (itoa_pos-Lacks b'-' b (inl (omega arith)))))

-- Both ends of a range that `ParsePortRange` accepts are 32-bit integers.
pub parse_port_range-IsInt32 :
    (s : Text) (lo hi : ℤ) → parse_port_range s ≡ ok (lo, hi) → IsInt32 lo × IsInt32 hi
unfolding parse_port_range
parse_port_range-IsInt32 [] lo hi h = cc
parse_port_range-IsInt32 (c ∷ s) lo hi h = parse_ends-IsInt32 _ _ _ (split b'-' (c ∷ s)) lo hi h

is_empty-append : (s t : Text) (c : ℕ) → is_empty (s ++ c ∷ t) ≡ false
is_empty-append [] t c = refl
is_empty-append (d ∷ s) t c = refl

-- Two 64-bit numbers that are not negative, printed around a dash, are read back by
-- `ParsePortRange`, each wrapped to 32 bits: an end that does not fit is not refused.
pub parse_port_range-itoa :
    (a b : ℕ)
    → a ≤ max_int64
    → b ≤ max_int64
    → parse_port_range (itoa (pos a) ++ b'-' ∷ itoa (pos b)) ≡ ok (int32 (pos a), int32 (pos b))
unfolding parse_port_range
parse_port_range-itoa a b ha hb = rw (
  is_empty-append (itoa (pos a)) (itoa (pos b)) b'-',
  split-ports a b,
  trim_space-itoa_pos a,
  trim_space-itoa_pos b,
  atoi-itoa (pos a) (ha, omega arith),
  atoi-itoa (pos b) (hb, omega arith),
)
