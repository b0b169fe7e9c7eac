-- ===== src/Broadcaster/Deliver.antt =====
-- What an item of the input does.
use longhorn_instance_manage.Base.{
  ℕ, ◌≡◌, refl, false, List, [], ◌∷◌, if◌then◌else◌, contains, Distinct, arith,
}
use longhorn_instance_manage.Broadcaster.{Channel, Broadcaster, at, offer, offer_all, deliver}
use longhorn_instance_manage.Broadcaster.Closes.{Reachable, Reachable-WellFormed}

module _ {A : Type 0} where
  offer_all_other :
      (item : A) (is : List ℕ) (h : ℕ → Channel A) (j : ℕ)
      → contains j is ≡ false
      → offer_all item is h j ≡ h j
  unfolding offer_all
  offer_all_other item [] h j e = refl
  offer_all_other item (i ∷ is) h j e =
      ground (arith, offer_all_other item is (at h i (offer item)) j)

  offer_all_one :
      (item : A) (is : List ℕ) (h : ℕ → Channel A) (j : ℕ)
      → Distinct is
      → offer_all item is h j ≡ (if contains j is then offer item (h j) else h j)
  unfolding offer_all
  offer_all_one item [] h j d = refl
  offer_all_one item (i ∷ is) h j d = ground (
    arith,
    offer_all_one item is (at h i (offer item)) j d.1,
    offer_all_other item is (at h i (offer item)) j,
    d.0,
  )

  -- In every state that a broadcaster reaches, an item goes once, behind what is there, to each
  -- subscriber whose channel has room; no other channel changes, and so none that is closed is sent to.
  pub deliver-offer :
      (b : Broadcaster A) (item : A) (i : ℕ)
      → Reachable b
      → (deliver item b).channels i
        ≡ (if contains i b.subs then offer item (b.channels i) else b.channels i)
  unfolding deliver
  deliver-offer b item i r =
      offer_all_one item b.subs b.channels i (Reachable-WellFormed b r).distinct
