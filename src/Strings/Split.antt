-- ===== src/Strings/Split.antt =====
-- `strings.Split` and `strings.Join`.
use longhorn_instance_manage.Base.{
  ℕ, Text, ◌≡◌, refl, ◌≢◌, List, [], ◌∷◌, ◌++◌, arith, ◌==◌, Bool-cases, inl, inr,
}
use longhorn_instance_manage.Strings.{split, join, put_front}

-- No byte of the text is `b`.
abbrev pub Lacks : ℕ → Text → Type 0
Lacks b [] = Unit
Lacks b (c ∷ s) = (c ≢ b) × Lacks b s

pub split-Lacks : (sep : ℕ) (s : Text) → Lacks sep s → split sep s ≡ s ∷ []
unfolding split
split-Lacks sep [] h = refl
split-Lacks sep (c ∷ s) h = ground (arith, split-Lacks sep s h.1)

pub split-append : (sep : ℕ) (s t : Text) → Lacks sep s → split sep (s ++ sep ∷ t) ≡ s ∷ split sep t
unfolding split
split-append sep [] t h = ground arith
split-append sep (c ∷ s) t h = ground (arith, split-append sep s t h.1)

pub split-ne-nil : (sep : ℕ) (s : Text) → split sep s ≢ []
unfolding split
split-ne-nil sep [] = ground arith
split-ne-nil sep (c ∷ s) = ground (arith, split-ne-nil sep s)

join-put_front :
    (sep : Text) (c : ℕ) (ws : List Text) → ws ≢ [] → join sep (put_front c ws) ≡ c ∷ join sep ws
unfolding join
join-put_front sep c [] h = absurd (h refl)
join-put_front sep c (w ∷ []) h = refl
join-put_front sep c (w ∷ v ∷ ws) h = refl

join-nil_front : (sep : Text) (ws : List Text) → ws ≢ [] → join sep ([] ∷ ws) ≡ sep ++ join sep ws
unfolding join
join-nil_front sep [] h = absurd (h refl)
join-nil_front sep (w ∷ ws) h = refl

-- Joining the parts with the separator gives the text back.
pub join-split : (sep : ℕ) (s : Text) → join (sep ∷ []) (split sep s) ≡ s
unfolding split
join-split sep [] = unfold join in refl
join-split sep (c ∷ s) = elim (Bool-cases (c == sep)) [
  | inl e ↦ rw (e, join-nil_front _ _ (split-ne-nil sep s), join-split sep s) (ground arith)
  | inr e ↦ rw (e, join-put_front _ c _ (split-ne-nil sep s), join-split sep s)
]
