-- ===== src/Strings/Cut.antt =====
-- `strings.Cut` and `strings.TrimPrefix`.
use longhorn_instance_manage.Base.{
  ℕ, Text, ◌≡◌, refl, none, some, [], ◌∷◌, ◌++◌, arith, contains, false,
}
use longhorn_instance_manage.Strings.{cut, strip_prefix, trim_prefix}

-- A cut is at the first separator.
pub cut-some :
    (sep : ℕ) (s before after : Text)
    → cut sep s ≡ some (before, after)
    → (s ≡ before ++ sep ∷ after) × (contains sep before ≡ false)
unfolding cut
cut-some sep [] before after h = cc
cut-some sep (c ∷ s) [] after h = ground (arith, cut-some sep s [] after)
cut-some sep (c ∷ s) (d ∷ before) after h = ground (arith, cut-some sep s before after)

pub cut-append :
    (sep : ℕ) (before after : Text)
    → contains sep before ≡ false
    → cut sep (before ++ sep ∷ after) ≡ some (before, after)
unfolding cut
cut-append sep [] after h = ground arith
cut-append sep (c ∷ before) after h = ground (arith, cut-append sep before after)

pub cut-none : (sep : ℕ) (s : Text) → contains sep s ≡ false → cut sep s ≡ none
unfolding cut
cut-none sep [] h = refl
cut-none sep (c ∷ s) h = ground (arith, cut-none sep s)

strip_prefix-append : (prefix s : Text) → strip_prefix prefix (prefix ++ s) ≡ some s
unfolding strip_prefix
strip_prefix-append [] s = refl
strip_prefix-append (p ∷ prefix) s = ground (arith, strip_prefix-append prefix s)

pub trim_prefix-append : (prefix s : Text) → trim_prefix prefix (prefix ++ s) ≡ s
unfolding trim_prefix
trim_prefix-append prefix s = rw (strip_prefix-append prefix s) refl
