-- ===== src/Instance/Watch.antt =====
-- pkg/instance/instance.go: the loops that watch processes, replicas, engines, engine frontends,
-- shards and shard groups, and tell the client of each change.
use longhorn_instance_manage.Base.{
  ℕ, suc, ◌+◌, ◌<◌, ◌≡◌, ◌≢◌, refl, Option, none, some, List, [], ◌∷◌, leb, arith, if◌then◌else◌,
  Text,
}

abbrev pub max_monitor_retry_count : ℕ
max_monitor_retry_count = 10

-- What a round of the loop meets: the context is done, or the stream returns an item, the error
-- `Canceled`, or another error.
pub data Event : Type 0 where
  context_done item canceled receive_error : Event

-- How a loop ends; `watching` if the events are over and it has not.
pub data Ending : Type 0 where
  watching done_ending canceled_ending gave_up : Ending

-- One watch: what is left to receive, the failures so far, and the notifications sent.
unfoldable pub watch : List Event → ℕ → ℕ → Ending × ℕ
watch [] failures sent =
    if leb max_monitor_retry_count failures then (gave_up, sent) else (watching, sent)
watch (event ∷ rest) failures sent =
    let received = watch rest failures (suc sent) in
    let failed = watch rest (suc failures) sent in
    if leb max_monitor_retry_count failures then (gave_up, sent) else elim event [
      | context_done ↦ (done_ending, sent)
      | item ↦ received
      | canceled ↦ (canceled_ending, sent)
      | receive_error ↦ failed
    ]

-- Each loop opens its own stream first.
unfoldable pub open_watch : Option Text → List Event → Option (Ending × ℕ)
unfolding watch
open_watch (some e) events = none
open_watch none events = some (watch events 0 0)

unfoldable pub watch_process : Option Text → List Event → Option (Ending × ℕ)
unfolding open_watch
watch_process = open_watch

unfoldable pub watch_spdk_replica : Option Text → List Event → Option (Ending × ℕ)
unfolding open_watch
watch_spdk_replica = open_watch

unfoldable pub watch_spdk_engine : Option Text → List Event → Option (Ending × ℕ)
unfolding open_watch
watch_spdk_engine = open_watch

unfoldable pub watch_spdk_engine_frontend : Option Text → List Event → Option (Ending × ℕ)
unfolding open_watch
watch_spdk_engine_frontend = open_watch

unfoldable pub watch_spdk_shard : Option Text → List Event → Option (Ending × ℕ)
unfolding open_watch
watch_spdk_shard = open_watch

unfoldable pub watch_spdk_shard_group : Option Text → List Event → Option (Ending × ℕ)
unfolding open_watch
watch_spdk_shard_group = open_watch

-- The items and the errors among the events.
unfoldable pub items : List Event → ℕ
items [] = 0
items (item ∷ rest) = suc (items rest)
items (event ∷ rest) = items rest

unfoldable pub receive_errors : List Event → ℕ
receive_errors [] = 0
receive_errors (receive_error ∷ rest) = suc (receive_errors rest)
receive_errors (event ∷ rest) = receive_errors rest

-- Nothing but items and errors.
abbrev pub Uninterrupted : List Event → Type 0
Uninterrupted [] = Unit
Uninterrupted (event ∷ rest) = (event ≢ context_done) × (event ≢ canceled) × Uninterrupted rest

watch_total :
    (events : List Event) (failures sent : ℕ)
    → Uninterrupted events
    → (watch events failures sent).0 ≡ (
        if leb max_monitor_retry_count (failures + receive_errors events)
        then gave_up
        else watching)
unfolding watch receive_errors
watch_total [] failures sent u = ground arith
watch_total (context_done ∷ rest) failures sent u = absurd (u.0 refl)
watch_total (canceled ∷ rest) failures sent u = absurd (u.1 refl)
watch_total (item ∷ rest) failures sent u = ground (arith, watch_total rest failures (suc sent) u.2)
watch_total (receive_error ∷ rest) failures sent u =
    ground (arith, watch_total rest (suc failures) sent u.2)

-- How the watch ended, whatever it has sent.
abbrev pub ending_of : Option (Ending × ℕ) → Option Ending
ending_of none = none
ending_of (some (ending, sent)) = some ending

-- A watch of processes that meets only items and errors gives up exactly when it has met 10 errors in
-- all, however many items it has received between them.
pub watch_process-gave_up :
    (events : List Event)
    → Uninterrupted events
    → ending_of (watch_process none events)
      ≡ some (if leb max_monitor_retry_count (receive_errors events) then gave_up else watching)
unfolding watch_process
watch_process-gave_up events u = ground (arith, watch_total events 0 0 u)

watch_sent :
    (events : List Event) (failures sent : ℕ)
    → failures + receive_errors events < max_monitor_retry_count
    → Uninterrupted events
    → watch events failures sent ≡ (watching, sent + items events)
unfolding watch receive_errors items
watch_sent [] failures sent few u = ground arith
watch_sent (context_done ∷ rest) failures sent few u = absurd (u.0 refl)
watch_sent (canceled ∷ rest) failures sent few u = absurd (u.1 refl)
watch_sent (item ∷ rest) failures sent few u =
    ground (arith, watch_sent rest failures (suc sent) (omega arith) u.2)
watch_sent (receive_error ∷ rest) failures sent few u =
    ground (arith, watch_sent rest (suc failures) sent (omega arith) u.2)

-- A watch of processes that meets only items and fewer than 10 errors has sent one notification for
-- each item, and goes on.
pub watch_process-items :
    (events : List Event)
    → receive_errors events < max_monitor_retry_count
    → Uninterrupted events
    → watch_process none events ≡ some (watching, items events)
unfolding watch_process
watch_process-items events few u = ground (arith, watch_sent events 0 0 (omega arith) u)
