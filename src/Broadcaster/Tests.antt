-- ===== src/Broadcaster/Tests.antt =====
-- A subscriber, an item, and the subscriber's end.
use longhorn_instance_manage.Base.{ℕ, ◌≡◌, refl, none, [], ◌∷◌, arith, contains}
use longhorn_instance_manage.Broadcaster.{Broadcaster, new_broadcaster, subscribe, deliver, unsub}
use longhorn_instance_manage.Broadcaster.Closes.{
  Reachable, initial, step, subscribes, delivers, leaves, closed_once, expected_closes,
}

abbrev one_subscriber : Broadcaster ℕ
one_subscriber = (subscribe none new_broadcaster).0

abbrev one_item : Broadcaster ℕ
one_item = deliver 7 one_subscriber

-- The context ends, and the subscriber was too slow as well.
abbrev left_twice : Broadcaster ℕ
left_twice = unsub 0 (unsub 0 one_item)

subscriber-Reachable : Reachable one_subscriber
subscriber-Reachable = step initial (subscribes none)

item-Reachable : Reachable one_item
item-Reachable = step subscriber-Reachable (delivers 7)

left-Reachable : Reachable left_twice
left-Reachable = step (step item-Reachable (leaves 0)) (leaves 0)

received : (one_item.channels 0).buffer ≡ 7 ∷ []
unfolding subscribe new_broadcaster deliver
received = refl

closed_once_example : (left_twice.channels 0).closes ≡ expected_closes (contains 0 left_twice.subs)
unfolding subscribe new_broadcaster deliver unsub
closed_once_example = closed_once left_twice 0 left-Reachable (omega arith)
