-- ===== src/Strings/Sort.antt =====
-- `sort.Strings`: its result does not depend on the order it is given.
use longhorn_instance_manage.Base.{
  Text, ◌≡◌, ◌∙◌, ap, refl, true, false, List, [], ◌∷◌, arith, Reordered, nil, cons, swap, trans,
}
use longhorn_instance_manage.Strings.{text_leb, insert_sorted, sort_texts}

text_leb_total : (s t : Text) → text_leb s t ≡ false → text_leb t s ≡ true
unfolding text_leb
text_leb_total [] t h = cc
text_leb_total (c ∷ s) [] h = refl
text_leb_total (c ∷ s) (d ∷ t) h = ground (arith, text_leb_total s t)

text_leb_antisym : (s t : Text) → text_leb s t ≡ true → text_leb t s ≡ true → s ≡ t
unfolding text_leb
text_leb_antisym [] [] h k = refl
text_leb_antisym [] (d ∷ t) h k = cc
text_leb_antisym (c ∷ s) [] h k = cc
text_leb_antisym (c ∷ s) (d ∷ t) h k = ground (arith, text_leb_antisym s t)

text_leb_trans : (s t u : Text) → text_leb s t ≡ true → text_leb t u ≡ true → text_leb s u ≡ true
unfolding text_leb
text_leb_trans [] t u h k = refl
text_leb_trans (c ∷ s) [] u h k = cc
text_leb_trans (c ∷ s) (d ∷ t) [] h k = cc
text_leb_trans (c ∷ s) (d ∷ t) (e ∷ u) h k = ground (arith, text_leb_trans s t u)

insert_sorted_comm :
    (x y : Text) (l : List Text)
    → insert_sorted x (insert_sorted y l) ≡ insert_sorted y (insert_sorted x l)
unfolding insert_sorted
insert_sorted_comm x y [] =
    ground (arith, text_leb_total x y, text_leb_total y x, text_leb_antisym x y)
insert_sorted_comm x y (z ∷ l) = ground (
  arith,
  insert_sorted_comm x y l,
  text_leb_total x y,
  text_leb_total y x,
  text_leb_antisym x y,
  text_leb_trans x y z,
  text_leb_trans y x z,
)

pub sort_texts-Reordered : {xs ys : List Text} → Reordered xs ys → sort_texts xs ≡ sort_texts ys
unfolding sort_texts
sort_texts-Reordered nil = refl
sort_texts-Reordered (cons x d) = ap (insert_sorted x) (sort_texts-Reordered d)
sort_texts-Reordered (swap x y l) = insert_sorted_comm x y (sort_texts l)
sort_texts-Reordered (trans d e) = sort_texts-Reordered d ∙ sort_texts-Reordered e
