-- ===== src/Process.antt =====
-- pkg/process/process.go: one process, as each of its critical sections changes it. Time is a number
-- of nanoseconds, an argument of the operation that reads the clock.
pub mod Stop
pub mod Response
pub mod Health
mod Tests
use longhorn_instance_manage.Base.{
  ℕ, ℤ, pos, ◌+◌, ◌*◌, Text, Bool, true, false, not, ◌&&◌, ◌||◌, Option, none, some, List, ◌∷◌, ltb,
  eq_ℤ, if◌then◌else◌, Dict,
}

-- The constants of pkg/types/types.go.
abbrev pub wait_interval : ℕ
wait_interval = 100_000_000

abbrev pub wait_count : ℕ
wait_count = 600

pub data State : Type 0 where
  starting running stopping stopped error : State

-- What `exec.Cmd` shows of the operating system's process: `Process == nil`, then started, then
-- `ProcessState != nil`.
pub data Command : Type 0 where
  not_started started exited : Command

pub record Process : Type 0 where
  pub name : Text
  pub binary : Text
  pub args : List Text
  pub port_count : ℤ
  pub port_args : List Text
  pub uuid : Text
  pub state : State
  pub error_msg : Text
  pub conditions : Dict Bool
  pub port_start : ℤ
  pub port_end : ℤ
  pub deletion_timestamp : Option ℕ
  pub cmd : Option Command
  -- how often `logger.Close` was called
  pub logger_closes : ℕ

abbrev pub is_stopped_state : State → Bool
is_stopped_state stopped = true
is_stopped_state error = true
is_stopped_state _ = false

abbrev pub is_stopping_state : State → Bool
is_stopping_state stopping = true
is_stopping_state s = is_stopped_state s

unfoldable pub is_stopped : Process → Bool
is_stopped p = is_stopped_state p.state

-- `IsRunning` of `BinaryCommand`.
unfoldable pub is_running : Command → Bool
is_running started = true
is_running _ = false

-- Where `Start` gets its command: an error text, or a new command.
unfoldable pub start : Option Text → Process → Process × Option Text
start (some e) p = (record p { state = error; error_msg = e }, some e)
start none p = (record p { cmd = some not_started }, none)

-- The goroutine that runs the command: the operating system starts it, and `Run` returns.
unfoldable pub run_begin : Process → Process
run_begin p = record p { cmd = some started }

unfoldable pub run_exit : Option Text → Process → Process
run_exit (some e) p = record p { cmd = some exited; state = error; error_msg = e }
run_exit none p = record p { cmd = some exited; state = stopped }

-- What `StopWithSignal` decides under the lock.
pub record StopPlan : Type 0 where
  pub need_stop : Bool
  pub need_timeout_kill : Bool
  pub need_close_logger : Bool

abbrev timed_out : Option ℕ → ℕ → Bool
timed_out none now = false
timed_out (some t) now = ltb (t + wait_interval * wait_count) now

abbrev is_none : Option ℕ → Bool
is_none none = true
is_none (some t) = false

unfoldable pub stop_plan : Process → ℕ → StopPlan
stop_plan p now =
    let need_stop = not (is_stopping_state p.state) in
    let need_timeout_kill = not need_stop && timed_out p.deletion_timestamp now in
    record {
      need_stop = need_stop;
      need_timeout_kill = need_timeout_kill;
      need_close_logger =
          not need_stop
          && not need_timeout_kill
          && is_none p.deletion_timestamp
          && is_stopped_state p.state;
    }

-- The locked section, and the `Close` of a call that has nothing to stop.
unfoldable pub stop_mark : ℕ → Process → Process
unfolding stop_plan
stop_mark now p =
    let plan = stop_plan p now in
    if plan.need_stop
    then record p { state = stopping; deletion_timestamp = some now }
    else if plan.need_close_logger
    then record p { logger_closes = p.logger_closes + 1 }
    else p

-- What the goroutine of `StopWithSignal` does first: it finds no running command, or it sends the
-- signal and waits, or it kills at once. `has_cmd` is false where the command was still nil when it was
-- read, before the goroutine started.
pub data StopStart : Type 0 where
  not_running signal_and_wait kill : StopStart

abbrev is_cmd_running : Option Command → Bool
is_cmd_running none = false
is_cmd_running (some c) = is_running c

unfoldable pub stop_start : StopPlan → Bool → Process → StopStart
unfolding is_running
stop_start plan has_cmd p =
    if not (has_cmd && is_cmd_running p.cmd)
    then not_running
    else if plan.need_stop
    then signal_and_wait
    else kill

-- The command is gone: the state is set, unless it is final already.
unfoldable pub stop_not_running : Process → Process
stop_not_running p = if is_stopped_state p.state then p else record p { state = stopped }

-- The deferred `Close`.
unfoldable pub close_logger : Process → Process
close_logger p = record p { logger_closes = p.logger_closes + 1 }

-- The goroutine that waits for the service: a process without ports is set running at once.
-- `healthy` is the answer of `WaitForRunning`. The new state is announced; or `Stop` is called; or
-- the process has stopped by itself.
pub data AfterHealth : Type 0 where
  announce must_stop nothing : AfterHealth

unfoldable pub health_result : Bool → Process → Process × AfterHealth
unfolding is_stopped
health_result healthy p =
    if not (eq_ℤ p.port_start (pos 0)) && not healthy
    then (p, if is_stopped p then nothing else must_stop)
    else (record p { state = running }, announce)
