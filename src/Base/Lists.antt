-- ===== src/Base/Lists.antt =====
-- Lists measured by native numbers.
use Prim.Native.Nat.{ℕ, suc, ◌+◌}
use mathlib.Core.Path.{◌≡◌, refl}
use mathlib.Core.List.{List, [], ◌∷◌, ◌++◌}
use native.Mathlib.Omega.{arith}

module _ {ℓ} {A : Type ℓ} where
  abbrev pub length : List A → ℕ
  length [] = 0
  length (x ∷ xs) = suc (length xs)

  pub length-append : (xs ys : List A) → length (xs ++ ys) ≡ length xs + length ys
  length-append [] ys = omega arith
  length-append (x ∷ xs) ys = omega (arith, length-append xs ys)

  pub append_nil : (xs : List A) → xs ++ [] ≡ xs
  append_nil [] = refl
  append_nil (x ∷ xs) = rw (append_nil xs) refl

-- The same elements in another order, with the steps that lead there.
pub data Reordered {ℓ} {A : Type ℓ} : List A → List A → Type ℓ where
  nil : Reordered [] []
  cons : (x : A) {xs ys : List A} → Reordered xs ys → Reordered (x ∷ xs) (x ∷ ys)
  swap : (x y : A) (l : List A) → Reordered (x ∷ y ∷ l) (y ∷ x ∷ l)
  trans : {xs ys zs : List A} → Reordered xs ys → Reordered ys zs → Reordered xs zs
