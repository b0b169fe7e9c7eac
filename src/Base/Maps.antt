-- ===== src/Base/Maps.antt =====
-- A Go map with text keys, as an association list in which each key stands once.
use longhorn_instance_manage.Base.Texts.{Text, text_eq, text_eq_iff}
use mathlib.Core.Path.{◌≡◌, refl}
use mathlib.Core.Bool.{false}
use mathlib.Core.Option.{Option, none, some}
use mathlib.Core.List.{List, [], ◌∷◌}
use native.Mathlib.Omega.{arith}
use longhorn_instance_manage.Base.Tests.{if◌then◌else◌}

abbrev pub Dict {ℓ} : Type ℓ → Type ℓ
Dict V = List (Text × V)

module _ {ℓ} {V : Type ℓ} where
  unfoldable pub lookup : Text → Dict V → Option V
  lookup k [] = none
  lookup k ((j, v) ∷ m) = if text_eq j k then some v else lookup k m

  unfoldable pub insert : Text → V → Dict V → Dict V
  insert k v [] = (k, v) ∷ []
  insert k v ((j, w) ∷ m) = if text_eq j k then (k, v) ∷ m else (j, w) ∷ insert k v m

  unfoldable pub delete : Text → Dict V → Dict V
  delete k [] = []
  delete k ((j, w) ∷ m) = if text_eq j k then m else (j, w) ∷ delete k m

  -- Each key stands once.
  unfoldable pub UniqueKeys : Dict V → Type ℓ
  UniqueKeys [] = Unit
  UniqueKeys ((k, v) ∷ m) = (lookup k m ≡ none) × UniqueKeys m

  pub lookup-insert :
      (k j : Text) (v : V) (m : Dict V)
      → lookup j (insert k v m) ≡ (if text_eq k j then some v else lookup j m)
  unfolding lookup insert
  lookup-insert k j v [] = refl
  lookup-insert k j v ((i, w) ∷ m) =
      ground (arith, text_eq_iff k j, text_eq_iff i k, text_eq_iff i j, lookup-insert k j v m)

  pub lookup-delete_ne :
      (k j : Text) (m : Dict V) → text_eq k j ≡ false → lookup j (delete k m) ≡ lookup j m
  unfolding lookup delete
  lookup-delete_ne k j [] h = refl
  lookup-delete_ne k j ((i, w) ∷ m) h =
      ground (arith, text_eq_iff k j, text_eq_iff i k, text_eq_iff i j, lookup-delete_ne k j m h)

  pub lookup-delete_self : (k : Text) (m : Dict V) → UniqueKeys m → lookup k (delete k m) ≡ none
  unfolding lookup delete UniqueKeys
  lookup-delete_self k [] u = refl
  lookup-delete_self k ((i, w) ∷ m) u = ground (arith, text_eq_iff i k, lookup-delete_self k m u.1)

  pub insert-UniqueKeys : (k : Text) (v : V) (m : Dict V) → UniqueKeys m → UniqueKeys (insert k v m)
  unfolding lookup insert UniqueKeys
  insert-UniqueKeys k v [] u = (refl, tt)
  insert-UniqueKeys k v ((i, w) ∷ m) u =
      ground (
        arith,
        text_eq_iff i k,
        text_eq_iff k i,
        lookup-insert k i v m,
        insert-UniqueKeys k v m u.1,
      )

  delete-none : (k j : Text) (m : Dict V) → lookup j m ≡ none → lookup j (delete k m) ≡ none
  unfolding lookup delete
  delete-none k j [] h = refl
  delete-none k j ((i, w) ∷ m) h =
      ground (arith, text_eq_iff i k, text_eq_iff i j, delete-none k j m)

  pub delete-UniqueKeys : (k : Text) (m : Dict V) → UniqueKeys m → UniqueKeys (delete k m)
  unfolding delete UniqueKeys
  delete-UniqueKeys k [] u = tt
  delete-UniqueKeys k ((i, w) ∷ m) u =
      ground (arith, delete-none k i m u.0, delete-UniqueKeys k m u.1)
