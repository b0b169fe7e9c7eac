-- ===== src/Names.antt =====
-- `ProcessNameToVolumeName` of pkg/util/util.go: the volume of an engine process.
mod Tests
use longhorn_instance_manage.Base.{
  ℕ, Text, ◌≡◌, ◌≢◌, refl, ap, ◌∙◌, Option, none, some, List, [], ◌∷◌, ◌++◌, arith, ◌==◌, codes,
  if◌then◌else◌, Bool-cases, inl, inr,
}
use longhorn_instance_manage.Strings.{split, join, put_front}
use longhorn_instance_manage.Strings.Split.{Lacks, split-Lacks, join-split, split-ne-nil}

abbrev push : Text → Option (List Text) → Option (List Text)
push w none = none
push w (some ws) = some (w ∷ ws)

-- `nameSlices[:len(nameSlices)-2]`, which panics on fewer than two.
unfoldable pub drop_last_two : List Text → Option (List Text)
drop_last_two [] = none
drop_last_two (a ∷ []) = none
drop_last_two (a ∷ b ∷ []) = some []
drop_last_two (a ∷ b ∷ c ∷ rest) = push a (drop_last_two (b ∷ c ∷ rest))

abbrev join_words : Option (List Text) → Option Text
join_words none = none
join_words (some ws) = some (join (codes "-") ws)

unfoldable pub process_name_to_volume_name : Text → Option Text
unfolding drop_last_two
process_name_to_volume_name name = join_words (drop_last_two (split b'-' name))

drop_last_two_lem : (ws : List Text) (a b : Text) → drop_last_two (ws ++ a ∷ b ∷ []) ≡ some ws
unfolding drop_last_two
drop_last_two_lem [] a b = refl
drop_last_two_lem (w ∷ []) a b = refl
drop_last_two_lem (w ∷ v ∷ []) a b = refl
drop_last_two_lem (w ∷ v ∷ u ∷ ws) a b = ap (push w) (drop_last_two_lem (v ∷ u ∷ ws) a b)

put_front-append :
    (c : ℕ) (ws vs : List Text) → ws ≢ [] → put_front c (ws ++ vs) ≡ put_front c ws ++ vs
put_front-append c [] vs ne = absurd (ne refl)
put_front-append c (w ∷ ws) vs ne = refl

-- A text with a separator inside is split into the parts of both sides.
split-both : (sep : ℕ) (s t : Text) → split sep (s ++ sep ∷ t) ≡ split sep s ++ split sep t
unfolding split
split-both sep [] t = ground arith
split-both sep (c ∷ s) t = elim (Bool-cases (c == sep)) [
  | inl e ↦ rw (e, split-both sep s t)
  | inr e ↦
      rw (e, split-both sep s t)
        (put_front-append c (split sep s) (split sep t) (split-ne-nil sep s))
]

split-suffix : (s : Text) → Lacks b'-' s → split b'-' (b'e' ∷ b'-' ∷ s) ≡ codes "e" ∷ s ∷ []
unfolding split
split-suffix s h = rw (split-Lacks b'-' s h)

-- The name of a volume, whatever dashes are in it, followed by `-e-` and a suffix without a dash gives
-- the name of the volume back.
pub process_name_to_volume_name-engine :
    (volume suffix : Text)
    → Lacks b'-' suffix
    → process_name_to_volume_name (volume ++ b'-' ∷ b'e' ∷ b'-' ∷ suffix) ≡ some volume
unfolding process_name_to_volume_name
process_name_to_volume_name-engine volume suffix h = rw (
  split-both b'-' volume (b'e' ∷ b'-' ∷ suffix),
  split-suffix suffix h,
  drop_last_two_lem (split b'-' volume) (codes "e") suffix,
  join-split b'-' volume,
)
