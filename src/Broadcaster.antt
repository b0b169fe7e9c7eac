-- ===== src/Broadcaster.antt =====
-- pkg/util/broadcaster/broadcaster.go: the subscriptions, and each section of code that holds the
-- lock. A subscriber's channel is a number, its place among the channels that were made.
pub mod Closes
pub mod Deliver
mod Tests
use longhorn_instance_manage.Base.{
  ℕ, suc, ◌+◌, Bool, true, false, Option, none, some, List, [], ◌∷◌, ◌++◌, Text, length, ltb, ◌==◌,
  if◌then◌else◌, contains, remove,
}

-- What a subscriber has not received, oldest first, and how often the channel was closed.
pub record Channel (A : Type 0) : Type 0 where
  pub buffer : List A
  pub closes : ℕ

pub record Broadcaster (A : Type 0) : Type 0 where
  pub running : Bool
  pub subs : List ℕ
  -- the channels that were made, and the next free place
  pub channels : ℕ → Channel A
  pub next : ℕ
  -- the goroutines `b.unsub(sub, true)` for subscribers that were too slow
  pub leaving : List ℕ

-- The capacity of a channel.
abbrev pub capacity : ℕ
capacity = 100

module _ {A : Type 0} where
  abbrev pub at : (ℕ → Channel A) → ℕ → (Channel A → Channel A) → ℕ → Channel A
  at h i f j = if j == i then f (h j) else h j

  abbrev pub close_channel : Channel A → Channel A
  close_channel c = record c { closes = suc c.closes }

  abbrev pub new_channel : Channel A → Channel A
  new_channel c = record { buffer = []; closes = 0 }

  unfoldable pub unsub : ℕ → Broadcaster A → Broadcaster A
  unsub i b =
      if contains i b.subs
      then record b { channels = at b.channels i close_channel; subs = remove i b.subs }
      else b

  unfoldable pub subscribed : Broadcaster A → Broadcaster A × Option ℕ
  subscribed b = (
    record b {
      subs = b.next ∷ b.subs;
      channels = at b.channels b.next new_channel;
      next = suc b.next;
    },
    some b.next,
  )

  -- `connect_error` is the answer of `connect`, called when nothing streams.
  unfoldable pub subscribe : Option Text → Broadcaster A → Broadcaster A × Option ℕ
  unfolding subscribed
  subscribe connect_error b = if b.running then subscribed b else elim connect_error [
    | some e ↦ (b, none)
    | none ↦ subscribed (record b { running = true })
  ]

  unfoldable pub has_room : Channel A → Bool
  has_room c = ltb (length c.buffer) capacity

  unfoldable pub offer : A → Channel A → Channel A
  unfolding has_room
  offer item c = if has_room c then record c { buffer = c.buffer ++ item ∷ [] } else c

  -- The loop over the subscribers: each one is offered the item, and those without room leave.
  unfoldable pub offer_all : A → List ℕ → (ℕ → Channel A) → ℕ → Channel A
  unfolding offer
  offer_all item [] h = h
  offer_all item (i ∷ is) h = offer_all item is (at h i (offer item))

  unfoldable pub slow : List ℕ → (ℕ → Channel A) → List ℕ
  unfolding has_room
  slow [] h = []
  slow (i ∷ is) h = if has_room (h i) then slow is h else i ∷ slow is h

  -- One item of the input.
  unfoldable pub deliver : A → Broadcaster A → Broadcaster A
  unfolding offer_all slow
  deliver item b = record b {
    channels = offer_all item b.subs b.channels;
    leaving = b.leaving ++ slow b.subs b.channels;
  }

  unfoldable pub close_all : List ℕ → (ℕ → Channel A) → ℕ → Channel A
  close_all [] h = h
  close_all (i ∷ is) h = close_all is (at h i close_channel)

  -- The end of the input: every subscriber is removed, as `unsub` does.
  unfoldable pub finish : Broadcaster A → Broadcaster A
  unfolding close_all
  finish b = record b { channels = close_all b.subs b.channels; subs = []; running = false }

  abbrev pub drop_first : List A → List A
  drop_first [] = []
  drop_first (x ∷ xs) = xs

  -- A subscriber receives an item.
  unfoldable pub receive : ℕ → Broadcaster A → Broadcaster A
  receive i b = record b {
    channels = at b.channels i (λ c. record c { buffer = drop_first c.buffer });
  }

  unfoldable pub new_broadcaster : Broadcaster A
  new_broadcaster = record {
    running = false;
    subs = [];
    channels = λ i. record { buffer = []; closes = 0 };
    next = 0;
    leaving = [];
  }
