-- ===== src/Process/Stop.antt =====
-- What `StopWithSignal` and the goroutines of a process do to it.
use longhorn_instance_manage.Base.{
  ℕ, ◌+◌, ◌*◌, ◌≡◌, ◌≢◌, refl, Text, Bool, true, false, ◌&&◌, Option, none, some, arith, ltb, ◌⊎◌,
  inl, inr,
}
use longhorn_instance_manage.Process.{
  Process, starting, running, stopping, StopPlan, stop_plan, stop_mark, stop_not_running,
  close_logger, start, run_begin, run_exit, health_result, is_stopped, wait_interval, wait_count,
}

-- A process that runs, or is about to.
abbrev pub IsActive : Process → Type 0
IsActive p = (p.state ≡ starting) ⊎ (p.state ≡ running)

-- For every process and time, `StopWithSignal` plans one thing at most: to stop, to kill, or to close
-- the log.
pub stop_plan_exclusive :
    (p : Process) (now : ℕ)
    → let plan = stop_plan p now in
      (plan.need_stop && plan.need_timeout_kill ≡ false)
      × (plan.need_stop && plan.need_close_logger ≡ false)
      × (plan.need_timeout_kill && plan.need_close_logger ≡ false)
unfolding stop_plan
stop_plan_exclusive p now = ground arith

-- The plan of a repeated call: nothing within the 60 s of the first call, a kill afterwards.
abbrev pub retry_plan : ℕ → ℕ → StopPlan
retry_plan first now = record {
  need_stop = false;
  need_timeout_kill = ltb (first + wait_interval * wait_count) now;
  need_close_logger = false;
}

-- The first call of `StopWithSignal` on a process that is starting or running plans to stop it and
-- marks it `stopping`; a second call plans nothing within 60 s of the first one, and a kill afterwards.
pub stop_again :
    (p : Process) (first now : ℕ)
    → IsActive p
    → (stop_plan p first
        ≡ record { need_stop = true; need_timeout_kill = false; need_close_logger = false })
      × ((stop_mark first p).state ≡ stopping)
      × (stop_plan (stop_mark first p) now ≡ retry_plan first now)
unfolding stop_plan stop_mark
stop_again p first now active = ground arith

-- If the command of a process that was starting or running exits after a first call of
-- `StopWithSignal`, a second call still plans a kill once 60 s have passed, and nothing before.
pub stop_after_exit :
    (p : Process) (first now : ℕ) (e : Option Text)
    → IsActive p
    → stop_plan (run_exit e (stop_mark first p)) now ≡ retry_plan first now
unfolding stop_plan stop_mark run_exit
stop_after_exit p first now none active = ground arith
stop_after_exit p first now (some e) active = ground arith

-- The changes of a process, one for each section of its code.
pub data Change : Type 0 where
  starts : Option Text → Change
  begins : Change
  exits : Option Text → Change
  marks : ℕ → Change
  finds_no_command : Change
  closes : Change
  health : Bool → Change

unfoldable pub apply_change : Change → Process → Process
apply_change (starts e) p = (start e p).0
apply_change begins p = run_begin p
apply_change (exits e) p = run_exit e p
apply_change (marks now) p = stop_mark now p
apply_change finds_no_command p = stop_not_running p
apply_change closes p = close_logger p
apply_change (health healthy) p = (health_result healthy p).0

-- No change of a stopped or failed process but the end of the health check's goroutine makes it other
-- than stopped or failed.
pub final_stays :
    (c : Change) (p : Process)
    → ((healthy : Bool) → c ≢ health healthy)
    → is_stopped p ≡ true
    → is_stopped (apply_change c p) ≡ true
unfolding apply_change is_stopped start run_begin run_exit stop_mark stop_not_running close_logger
final_stays (starts none) p late h = h
final_stays (starts (some e)) p late h = refl
final_stays begins p late h = h
final_stays (exits none) p late h = refl
final_stays (exits (some e)) p late h = refl
final_stays (marks now) p late h = ground arith
final_stays finds_no_command p late h = ground arith
final_stays closes p late h = h
final_stays (health b) p late h = absurd (late b refl)

marked_stopping :
    (now : ℕ) (p : Process) → (stop_mark now p).state ≡ stopping → (p.state ≡ stopping) ⊎ IsActive p
unfolding stop_mark
marked_stopping now p h = ground arith

-- A change after which a process is `stopping` found it so, or is the locked section of
-- `StopWithSignal` on a process that is starting or running.
pub enters_stopping :
    (c : Change) (p : Process)
    → (apply_change c p).state ≡ stopping
    → (p.state ≡ stopping) ⊎ (IsActive p × ((now : ℕ) × (c ≡ marks now)))
unfolding apply_change start run_begin run_exit stop_not_running close_logger health_result
enters_stopping (starts none) p h = inl h
enters_stopping (starts (some e)) p h = ground arith
enters_stopping begins p h = inl h
enters_stopping (exits none) p h = ground arith
enters_stopping (exits (some e)) p h = ground arith
enters_stopping (marks now) p h = elim (marked_stopping now p h) [
  | inl s ↦ inl s
  | inr a ↦ inr (a, (now, refl))
]
enters_stopping finds_no_command p h = ground arith
enters_stopping closes p h = inl h
enters_stopping (health healthy) p h = ground arith
