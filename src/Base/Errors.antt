-- ===== src/Base/Errors.antt =====
-- Go's `(value, error)` pairs, and `panic`, the end of the program at a nil pointer. A text inside an error is dropped: an error is its gRPC code, or the
-- place that reports it, or what code outside the repository reports.
use longhorn_instance_manage.Base.Texts.{Text}
use mathlib.Core.Path.{◌≡◌, refl}
use mathlib.Core.Logic.{◌⊎◌, inl, inr}
use mathlib.Core.Option.{Option, none, some}

pub data Code : Type 0 where
  canceled invalid_argument not_found already_exists unimplemented internal : Code

pub data Error : Type 0 where
  status : Code → Error
  failed : Text → Error
  external : Text → Error
  panic : Error

-- What a call returns: its error, or its value.
pub data Result {ℓ} (A : Type ℓ) : Type ℓ where
  err : Error → Result A
  ok : A → Result A

-- `if err != nil { return err }`.
infixl 5 ◌>>=◌
abbrev pub ◌>>=◌ {ℓ κ} : {A : Type ℓ} → {B : Type κ} → Result A → (A → Result B) → Result B
err failure >>= next = err failure
ok value >>= next = next value

-- A change of the state, and the next one unless the first failed.
abbrev pub and_then {ℓ} :
    {S : Type ℓ} → S × Option Error → (S → S × Option Error) → S × Option Error
and_then (s, some e) next = (s, some e)
and_then (s, none) next = next s

-- A sequence of two calls returns a value only if both do.
pub >>=-eq-ok {ℓ κ} :
    {A : Type ℓ}
    → {B : Type κ} → (first : Result A) (next : A → Result B) → {result : B}
    → (first >>= next) ≡ ok result
    → (value : A) × (first ≡ ok value) × (next value ≡ ok result)
>>=-eq-ok (err failure) next e = cc
>>=-eq-ok (ok value) next e = (value, refl, e)

pub Result-cases {ℓ} :
    {A : Type ℓ} (r : Result A) → ((e : Error) × (r ≡ err e)) ⊎ ((a : A) × (r ≡ ok a))
Result-cases (err e) = inl (e, refl)
Result-cases (ok a) = inr (a, refl)
