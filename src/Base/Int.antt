-- ===== src/Base/Int.antt =====
-- Signed integers over the native numbers, and the 32-bit integers of the program as their values
-- reduced into [-2^31, 2^31).
use Prim.Native.Nat.{ℕ, suc, ◌+◌, ◌-◌, ◌%◌, ◌≤◌, ◌<◌}
use mathlib.Core.Path.{◌≡◌, refl}
use mathlib.Core.Logic.{◌⊎◌, inl, inr}
use mathlib.Core.Bool.{Bool, ◌&&◌}
use native.Mathlib.Omega.{arith}
use longhorn_instance_manage.Base.Tests.{ltb, leb, ◌==◌, if◌then◌else◌}

-- `negsuc n` is -(n + 1).
pub data ℤ : Type 0 where
  pos : ℕ → ℤ
  negsuc : ℕ → ℤ

abbrev pub pos_part : ℤ → ℕ
pos_part (pos n) = n
pos_part (negsuc n) = 0

abbrev pub neg_part : ℤ → ℕ
neg_part (pos n) = 0
neg_part (negsuc n) = suc n

-- a - b, as an integer.
abbrev pub sub_ℕ : ℕ → ℕ → ℤ
sub_ℕ a b = if leb b a then pos (a - b) else negsuc (b - a - 1)

infixl 65 ◌+ℤ◌ ◌-ℤ◌
infix 50 ◌≤ℤ◌ ◌<ℤ◌
unfoldable pub ◌+ℤ◌ : ℤ → ℤ → ℤ
a +ℤ b = sub_ℕ (pos_part a + pos_part b) (neg_part a + neg_part b)

unfoldable pub ◌-ℤ◌ : ℤ → ℤ → ℤ
a -ℤ b = sub_ℕ (pos_part a + neg_part b) (neg_part a + pos_part b)

abbrev pub ◌≤ℤ◌ : ℤ → ℤ → Type 0
a ≤ℤ b = pos_part a + neg_part b ≤ pos_part b + neg_part a

abbrev pub ◌<ℤ◌ : ℤ → ℤ → Type 0
a <ℤ b = pos_part a + neg_part b < pos_part b + neg_part a

abbrev pub leb_ℤ : ℤ → ℤ → Bool
leb_ℤ a b = leb (pos_part a + neg_part b) (pos_part b + neg_part a)

abbrev pub ltb_ℤ : ℤ → ℤ → Bool
ltb_ℤ a b = ltb (pos_part a + neg_part b) (pos_part b + neg_part a)

abbrev pub eq_ℤ : ℤ → ℤ → Bool
eq_ℤ a b = (pos_part a + neg_part b) == (pos_part b + neg_part a)

-- `lo ≤ q ≤ hi`.
abbrev pub in_range : ℤ → ℤ → ℤ → Bool
in_range lo hi q = leb_ℤ lo q && leb_ℤ q hi

pub +ℤ_parts :
    (a b : ℤ)
    → pos_part (a +ℤ b) + neg_part a + neg_part b ≡ neg_part (a +ℤ b) + pos_part a + pos_part b
unfolding ◌+ℤ◌
+ℤ_parts a b = ground arith

pub -ℤ_parts :
    (a b : ℤ)
    → pos_part (a -ℤ b) + neg_part a + pos_part b ≡ neg_part (a -ℤ b) + pos_part a + neg_part b
unfolding ◌-ℤ◌
-ℤ_parts a b = ground arith

pub eq_of_parts : (a b : ℤ) → pos_part a + neg_part b ≡ pos_part b + neg_part a → a ≡ b
eq_of_parts a b h = ground arith

-- One of the two parts is 0.
pub parts_lem : (a : ℤ) → (pos_part a ≡ 0) ⊎ (neg_part a ≡ 0)
parts_lem (pos n) = inr refl
parts_lem (negsuc n) = inl refl

pub ruleset int_laws = (arith, +ℤ_parts, -ℤ_parts, eq_of_parts)

-- Go's conversion to `int32`: the value modulo 2^32, in two's complement.
abbrev pub from_word : ℕ → ℤ
from_word w = if ltb w 2_147_483_648 then pos w else negsuc (4_294_967_296 - w - 1)

unfoldable pub int32 : ℤ → ℤ
int32 (pos n) = from_word (n % 4_294_967_296)
int32 (negsuc n) = from_word (4_294_967_295 - n % 4_294_967_296)

abbrev pub IsInt32 : ℤ → Type 0
IsInt32 a = (pos_part a < 2_147_483_648) × (neg_part a ≤ 2_147_483_648)

pub int32-IsInt32 : (a : ℤ) → IsInt32 (int32 a)
unfolding int32
int32-IsInt32 (pos n) = ground arith
int32-IsInt32 (negsuc n) = ground arith

pub int32_of_IsInt32 : (a : ℤ) → IsInt32 a → int32 a ≡ a
unfolding int32
int32_of_IsInt32 (pos n) h = ground arith
int32_of_IsInt32 (negsuc n) h = ground arith
