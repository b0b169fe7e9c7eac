-- ===== src/Base/Sets.antt =====
-- A set of numbers as a list.
use Prim.Native.Nat.{ℕ}
use mathlib.Core.Bool.{Bool, false, not, ◌&&◌, ◌||◌}
use mathlib.Core.List.{List, [], ◌∷◌}
use mathlib.Core.Path.{◌≡◌, refl}
use native.Mathlib.Omega.{arith}
use longhorn_instance_manage.Base.Tests.{◌==◌, if◌then◌else◌}

abbrev pub remove : ℕ → List ℕ → List ℕ
remove r [] = []
remove r (i ∷ is) = if i == r then is else i ∷ remove r is

abbrev pub contains : ℕ → List ℕ → Bool
contains r [] = false
contains r (i ∷ is) = i == r || contains r is

-- Each number stands once.
abbrev pub Distinct : List ℕ → Type 0
Distinct [] = Unit
Distinct (i ∷ is) = (contains i is ≡ false) × Distinct is

pub contains-remove :
    (i j : ℕ) (is : List ℕ)
    → Distinct is
    → contains j (remove i is) ≡ (contains j is && not (i == j))
contains-remove i j [] d = refl
contains-remove i j (k ∷ is) d = ground (arith, contains-remove i j is d.1, d.0)

pub remove-Distinct : (i : ℕ) (is : List ℕ) → Distinct is → Distinct (remove i is)
remove-Distinct i [] d = tt
remove-Distinct i (k ∷ is) d =
    ground (arith, remove-Distinct i is d.1, contains-remove i k is d.1, d.0)
