-- ===== src/Broadcaster/Closes.antt =====
-- Which channels are closed, and how often, in every state that a broadcaster can reach.
use longhorn_instance_manage.Base.{
  ℕ, suc, ◌≤◌, ◌<◌, ◌≡◌, refl, Bool, true, false, Option, List, [], ◌∷◌, Text, length,
  length-append, if◌then◌else◌, contains, Distinct, contains-remove, remove-Distinct, arith,
  Bool-cases, inl, inr, Option-cases, ◌∙◌,
}
use longhorn_instance_manage.Broadcaster.{
  Channel, Broadcaster, capacity, at, close_channel, unsub, subscribed, subscribe, has_room, offer,
  offer_all, deliver, close_all, finish, receive, drop_first, new_broadcaster,
}

-- How often a channel is closed, by whether it is subscribed.
abbrev pub expected_closes : Bool → ℕ
expected_closes true = 0
expected_closes false = 1

module _ {A : Type 0} where
  -- One step: a call of `Subscribe`, an `unsub` of any channel (its context is done, or it was too
  -- slow), an item of the input, its end, or a subscriber that receives.
  pub data Step (b : Broadcaster A) : Broadcaster A → Type 0 where
    subscribes : (e : Option Text) → Step b (subscribe e b).0
    leaves : (i : ℕ) → Step b (unsub i b)
    delivers : (item : A) → Step b (deliver item b)
    finishes : Step b (finish b)
    receives : (i : ℕ) → Step b (receive i b)

  pub data Reachable : Broadcaster A → Type 0 where
    initial : Reachable new_broadcaster
    step : {b b' : Broadcaster A} → Reachable b → Step b b' → Reachable b'

  pub record WellFormed (b : Broadcaster A) : Type 0 where
    pub distinct : Distinct b.subs
    pub below : (i : ℕ) → contains i b.subs ≡ true → i < b.next
    pub closed : (i : ℕ) → i < b.next → (b.channels i).closes ≡ expected_closes (contains i b.subs)
    pub bounded : (i : ℕ) → length (b.channels i).buffer ≤ capacity

  offer_all_closes :
      (item : A) (is : List ℕ) (h : ℕ → Channel A) (j : ℕ)
      → (offer_all item is h j).closes ≡ (h j).closes
  unfolding offer_all offer
  offer_all_closes item [] h j = refl
  offer_all_closes item (i ∷ is) h j =
      ground (arith, offer_all_closes item is (at h i (offer item)) j)

  offer_bounded :
      (item : A) (c : Channel A)
      → length c.buffer ≤ capacity
      → length (offer item c).buffer ≤ capacity
  unfolding offer has_room
  offer_bounded item c h = ground (arith, length-append c.buffer (item ∷ []))

  at_bounded :
      (h : ℕ → Channel A) (i : ℕ) (f : Channel A → Channel A)
      → ((c : Channel A) → length c.buffer ≤ capacity → length (f c).buffer ≤ capacity)
      → ((j : ℕ) → length (h j).buffer ≤ capacity)
      → (j : ℕ) → length (at h i f j).buffer ≤ capacity
  at_bounded h i f keeps bounded j = ground (arith, keeps (h j), bounded j)

  offer_all_bounded :
      (item : A) (is : List ℕ) (h : ℕ → Channel A)
      → ((j : ℕ) → length (h j).buffer ≤ capacity)
      → (j : ℕ) → length (offer_all item is h j).buffer ≤ capacity
  unfolding offer_all
  offer_all_bounded item [] h bounded j = bounded j
  offer_all_bounded item (i ∷ is) h bounded j =
      offer_all_bounded item is (at h i (offer item))
        (at_bounded h i (offer item) (offer_bounded item) bounded) j

  close_all_buffer :
      (is : List ℕ) (h : ℕ → Channel A) (j : ℕ) → (close_all is h j).buffer ≡ (h j).buffer
  unfolding close_all
  close_all_buffer [] h j = refl
  close_all_buffer (i ∷ is) h j = ground (arith, close_all_buffer is (at h i close_channel) j)

  close_all_closes :
      (is : List ℕ) (h : ℕ → Channel A) (j : ℕ)
      → Distinct is
      → (close_all is h j).closes ≡ (if contains j is then suc (h j).closes else (h j).closes)
  unfolding close_all
  close_all_closes [] h j d = refl
  close_all_closes (i ∷ is) h j d =
      ground (arith, close_all_closes is (at h i close_channel) j d.1, d.0)

  initial-WellFormed : WellFormed new_broadcaster
  unfolding new_broadcaster
  initial-WellFormed = record {
    distinct = tt;
    below = λ i h. cc;
    closed = λ i lt. absurd (omega arith);
    bounded = λ i. omega arith;
  }

  fresh_lem : (b : Broadcaster A) → WellFormed b → contains b.next b.subs ≡ false
  fresh_lem b v = elim (Bool-cases (contains b.next b.subs)) [
    | inl h ↦ absurd (omega (arith, v.below b.next h))
    | inr h ↦ h
  ]

  subscribed-WellFormed : (b : Broadcaster A) → WellFormed b → WellFormed (subscribed b).0
  unfolding subscribed
  subscribed-WellFormed b v = record {
    distinct = (fresh_lem b v, v.distinct);
    below = λ i h. ground (arith, v.below i, h);
    closed = λ i lt. ground (arith, v.closed i, fresh_lem b v);
    bounded = λ i. ground (arith, v.bounded i);
  }

  started : (b : Broadcaster A) → WellFormed b → WellFormed (record b { running = true })
  started b v = record {
    distinct = v.distinct;
    below = v.below;
    closed = v.closed;
    bounded = v.bounded;
  }

  subscribe-WellFormed :
      (e : Option Text) (b : Broadcaster A) → WellFormed b → WellFormed (subscribe e b).0
  unfolding subscribe
  subscribe-WellFormed e b v = elim (Bool-cases b.running) [
    | inl h ↦ rw h (subscribed-WellFormed (record b { running = true }) (started b v))
    | inr h ↦ elim (Option-cases e) [
      | inr (x, k) ↦ rw (h, k) v
      | inl k ↦ rw (h, k) (subscribed-WellFormed (record b { running = true }) (started b v))
    ]
  ]

  unsub-WellFormed : (i : ℕ) (b : Broadcaster A) → WellFormed b → WellFormed (unsub i b)
  unfolding unsub
  unsub-WellFormed i b v = elim (Bool-cases (contains i b.subs)) [
    | inr h ↦ rw h v
    | inl h ↦ rw h (record {
      distinct = remove-Distinct i b.subs v.distinct;
      below = λ j e. ground (arith, v.below j, contains-remove i j b.subs v.distinct, e);
      closed = λ j lt. ground (arith, v.closed j lt, contains-remove i j b.subs v.distinct, h);
      bounded = λ j. ground (arith, v.bounded j);
    })
  ]

  deliver-WellFormed : (item : A) (b : Broadcaster A) → WellFormed b → WellFormed (deliver item b)
  unfolding deliver
  deliver-WellFormed item b v = record {
    distinct = v.distinct;
    below = v.below;
    closed = λ i lt. offer_all_closes item b.subs b.channels i ∙ v.closed i lt;
    bounded = offer_all_bounded item b.subs b.channels v.bounded;
  }

  finish-WellFormed : (b : Broadcaster A) → WellFormed b → WellFormed (finish b)
  unfolding finish
  finish-WellFormed b v = record {
    distinct = tt;
    below = λ i h. cc;
    closed = λ i lt. ground (arith, close_all_closes b.subs b.channels i v.distinct, v.closed i lt);
    bounded = λ i. ground (arith, close_all_buffer b.subs b.channels i, v.bounded i);
  }

  length-drop_first : (xs : List A) → length (drop_first xs) ≤ length xs
  length-drop_first [] = omega arith
  length-drop_first (x ∷ xs) = omega arith

  shorter :
      (c : Channel A)
      → length c.buffer ≤ capacity
      → length (record c { buffer = drop_first c.buffer }).buffer ≤ capacity
  shorter c h = omega (arith, length-drop_first c.buffer)

  receive-WellFormed : (i : ℕ) (b : Broadcaster A) → WellFormed b → WellFormed (receive i b)
  unfolding receive
  receive-WellFormed i b v = record {
    distinct = v.distinct;
    below = v.below;
    closed = λ j lt. ground (arith, v.closed j lt);
    bounded =
        at_bounded b.channels i (λ (c : Channel A). record c { buffer = drop_first c.buffer })
          shorter v.bounded;
  }

  Step-WellFormed :
      (b : Broadcaster A) {b' : Broadcaster A} → Step b b' → WellFormed b → WellFormed b'
  Step-WellFormed b (subscribes e) v = subscribe-WellFormed e b v
  Step-WellFormed b (leaves i) v = unsub-WellFormed i b v
  Step-WellFormed b (delivers item) v = deliver-WellFormed item b v
  Step-WellFormed b finishes v = finish-WellFormed b v
  Step-WellFormed b (receives i) v = receive-WellFormed i b v

  pub Reachable-WellFormed : (b : Broadcaster A) → Reachable b → WellFormed b
  Reachable-WellFormed b initial = initial-WellFormed
  Reachable-WellFormed b (step r s) = Step-WellFormed _ s (Reachable-WellFormed _ r)

  -- In every state that a broadcaster reaches by subscriptions, removals in any order and number,
  -- items, ends of the input and receives, a channel that was made is closed exactly once if it is no
  -- longer subscribed, and not at all if it is.
  pub closed_once :
      (b : Broadcaster A) (i : ℕ)
      → Reachable b
      → i < b.next
      → (b.channels i).closes ≡ expected_closes (contains i b.subs)
  closed_once b i r lt = (Reachable-WellFormed b r).closed i lt
