-- ===== src/Strings/Decimal.antt =====
-- `strconv.Itoa` prints what `strconv.Atoi` reads.
use longhorn_instance_manage.Base.{
  ℕ, pos, zero, suc, ◌+◌, ◌/◌, ◌%◌, ◌≤◌, ◌<◌, Text, ◌≡◌, refl, ◌≢◌, some, [], ◌∷◌, arith, ◌==◌,
  Bool-cases, inl, inr, ◌⊎◌, ℤ, negsuc, pos_part, neg_part,
}
use longhorn_instance_manage.Strings.{
  trim_left, trim_right, trim_space, digits_value, parse_digits, atoi, emit, format, itoa,
  max_int64, positive,
}
use longhorn_instance_manage.Strings.Split.{Lacks}

abbrev pub AllDigits : Text → Type 0
AllDigits [] = Unit
AllDigits (c ∷ s) = (b'0' ≤ c) × (c ≤ b'9') × AllDigits s

emit-AllDigits : (f n : ℕ) (out : Text) → AllDigits out → AllDigits (emit f n out)
unfolding emit
emit-AllDigits zero n out h = h
emit-AllDigits (suc f) n out h =
    ground (arith, emit-AllDigits f (n / 10) ((b'0' + n % 10) ∷ out) (omega arith, omega arith, h))

-- Enough fuel: reading the digits in front of `out` first gives `n`.
digits_value-emit :
    (f n : ℕ) (out : Text) → n ≤ f → digits_value 0 (emit f n out) ≡ digits_value n out
unfolding emit digits_value
digits_value-emit zero n out h = ground arith
digits_value-emit (suc f) n out h =
    ground (arith, digits_value-emit f (n / 10) ((b'0' + n % 10) ∷ out))

emit-ne-nil : (f n : ℕ) (out : Text) → out ≢ [] → emit f n out ≢ []
unfolding emit
emit-ne-nil zero n out h = h
emit-ne-nil (suc f) n out h =
    ground (arith, h, emit-ne-nil f (n / 10) ((b'0' + n % 10) ∷ out) (λ e. cc))

format-AllDigits : (n : ℕ) → AllDigits (format n)
unfolding format
format-AllDigits n = elim (Bool-cases (n == 0)) [
  | inl e ↦ rw e (omega arith, omega arith, tt)
  | inr e ↦ rw e (emit-AllDigits n n [] tt)
]

emit_pos-ne-nil : (n : ℕ) → n ≢ 0 → emit n n [] ≢ []
unfolding emit
emit_pos-ne-nil zero h = absurd (h refl)
emit_pos-ne-nil (suc m) h =
    ground (arith, emit-ne-nil m (suc m / 10) ((b'0' + suc m % 10) ∷ []) (λ e. cc))

pub format-ne-nil : (n : ℕ) → format n ≢ []
unfolding format
format-ne-nil n = ground (arith, emit_pos-ne-nil n)

parse_digits_ne-nil : (s : Text) → s ≢ [] → parse_digits s ≡ digits_value 0 s
unfolding parse_digits
parse_digits_ne-nil [] h = absurd (h refl)
parse_digits_ne-nil (c ∷ s) h = refl

parse_digits-format : (n : ℕ) → parse_digits (format n) ≡ some n
parse_digits-format n =
    rw (parse_digits_ne-nil _ (format-ne-nil n))
      (unfold format digits_value in ground (arith, digits_value-emit n n []))

atoi-AllDigits : (s : Text) → AllDigits s → atoi s ≡ positive (parse_digits s)
unfolding atoi
atoi-AllDigits [] h = unfold parse_digits in refl
atoi-AllDigits (c ∷ s) h = ground arith

abbrev pub IsInt64 : ℤ → Type 0
IsInt64 a = (pos_part a ≤ max_int64) × (neg_part a ≤ max_int64 + 1)

-- `Itoa` prints every 64-bit integer in a form that `Atoi` reads back.
pub atoi-itoa : (a : ℤ) → IsInt64 a → atoi (itoa a) ≡ some a
unfolding itoa
atoi-itoa (pos n) h =
    rw (atoi-AllDigits _ (format-AllDigits n), parse_digits-format n) (ground arith)
atoi-itoa (negsuc n) h = unfold atoi in ground (arith, parse_digits-format (n + 1))

AllDigits-Lacks : (b : ℕ) (s : Text) → (b < b'0') ⊎ (b'9' < b) → AllDigits s → Lacks b s
AllDigits-Lacks b [] k h = tt
AllDigits-Lacks b (c ∷ s) k h = (ground arith, AllDigits-Lacks b s k h.2)

pub itoa_pos-Lacks : (b n : ℕ) → (b < b'0') ⊎ (b'9' < b) → Lacks b (itoa (pos n))
unfolding itoa
itoa_pos-Lacks b n k = AllDigits-Lacks b (format n) k (format-AllDigits n)

trim_left-AllDigits : (s : Text) → AllDigits s → trim_left s ≡ s
unfolding trim_left
trim_left-AllDigits [] h = refl
trim_left-AllDigits (c ∷ s) h = ground arith

trim_right-AllDigits : (s : Text) → AllDigits s → trim_right s ≡ s
unfolding trim_right
trim_right-AllDigits [] h = refl
trim_right-AllDigits (c ∷ []) h = ground arith
trim_right-AllDigits (c ∷ d ∷ s) h = rw (trim_right-AllDigits (d ∷ s) h.2)

pub trim_space-itoa_pos : (n : ℕ) → trim_space (itoa (pos n)) ≡ itoa (pos n)
unfolding trim_space itoa
trim_space-itoa_pos n =
    rw (trim_left-AllDigits _ (format-AllDigits n), trim_right-AllDigits _ (format-AllDigits n))
