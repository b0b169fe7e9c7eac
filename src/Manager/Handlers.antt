-- ===== src/Manager/Handlers.antt =====
-- The handlers of pkg/process/process_manager.go, and the goroutines that they start, as sequences of
-- sections. Where a call waits, on a channel or in `time.Sleep`, the other goroutines run.
use longhorn_instance_manage.Base.{
  Bool, ℕ, pos, zero, suc, ◌+◌, Text, true, not, Option, none, some, List, [], ◌∷◌, ◌++◌, Error,
  status, external, invalid_argument, not_found, text_eq, is_empty, if◌then◌else◌, ◌||◌, ◌&&◌, Dict,
  lookup, Result, ok, err, map,
}
use longhorn_instance_manage.Bitmap.{PortBitmap}
use longhorn_instance_manage.Process.{
  Process, starting, StopPlan, start, stop_plan, stop_mark, stop_start, not_running,
  signal_and_wait, kill, stop_not_running, close_logger, is_stopped, wait_count,
}
use longhorn_instance_manage.Process.Response.{ProcessResponse, ProcessSpec, rpc_response}
use longhorn_instance_manage.Manager.{
  Manager, Signal, sigint, sigkill, Goroutine, run_command, wait_healthy, unregister, stop, update,
  register_process, is_current, unregister_locked,
}

-- What a call meets outside the manager: the answers of the log file, of the UUID generator, of
-- `NewCommand` and of the clock, and what the other goroutines do at its k-th wait.
pub record Env (B : Type 0) : Type 0 where
  pub logger_error : Option Text
  pub uuid : Text
  pub command_error : Option Text
  pub now : ℕ → ℕ
  pub others : ℕ → Manager B → Manager B

unfoldable pub new_process : ProcessSpec → Text → Process
new_process spec uuid = record {
  name = spec.name;
  binary = spec.binary;
  args = spec.args;
  port_count = spec.port_count;
  port_args = spec.port_args;
  uuid = uuid;
  state = starting;
  error_msg = [];
  conditions = [];
  port_start = pos 0;
  port_end = pos 0;
  deletion_timestamp = none;
  cmd = none;
  logger_closes = 0;
}

abbrev pub respond : (ℕ → Process) → Text × ℕ → Text × ProcessResponse
respond h (k, r) = ((h r).name, rpc_response (h r))

-- A process that the table no longer has under its name is reported as deleted.
unfoldable pub mark_deleted : Option ℕ → ProcessResponse → ProcessResponse
mark_deleted none resp = record resp { deleted = true }
mark_deleted (some i) resp = resp

module _ {B : Type 0} where
  abbrev pub add_object : Process → Manager B → Manager B
  add_object p m = record m { heap = update m.heap m.next p; next = suc m.next }

  abbrev pub modify : ℕ → (Process → Process) → Manager B → Manager B
  modify r f m = record m { heap = update m.heap r (f (m.heap r)) }

  abbrev pub send : ℕ → Manager B → Manager B
  send r m = record m { updates = m.updates ++ r ∷ [] }

  abbrev pub spawn : Goroutine → Manager B → Manager B
  spawn g m = record m { goroutines = m.goroutines ++ g ∷ [] }

  abbrev pub signal : ℕ → Signal → Manager B → Manager B
  signal r s m = record m { signals = m.signals ++ (r, s) ∷ [] }

  unfoldable pub start_result : ℕ → Process × Option Text → Manager B → Manager B × Option Text
  start_result r (p, some e) m = (record m { heap = update m.heap r p }, some e)
  start_result r (p, none) m =
      (spawn (wait_healthy r) (spawn (run_command r) (record m { heap = update m.heap r p })), none)

  -- `Start`.
  unfoldable pub start_process : Option Text → ℕ → Manager B → Manager B × Option Text
  unfolding start_result
  start_process e r m = start_result r (start e (m.heap r)) m

  -- `StopWithSignal`.
  unfoldable pub stop_with_signal : Signal → ℕ → ℕ → Manager B → Manager B
  stop_with_signal s now r m =
      let plan = stop_plan (m.heap r) now in
      let marked = modify r (stop_mark now) m in
      if plan.need_stop || plan.need_timeout_kill
      then spawn (stop r s plan) (send r marked)
      else marked

  -- `for i := 0; i < WaitCount; i++ { if p.IsStopped() { … }; time.Sleep(…) }`, with the number of
  -- rounds left.
  unfoldable pub wait_stopped : (ℕ → Manager B → Manager B) → ℕ → ℕ → Manager B → Manager B
  wait_stopped others zero r m = m
  wait_stopped others (suc n) r m =
      let rest = wait_stopped others n r (others (n + 8) m) in
      if is_stopped (m.heap r) then m else rest

  -- The goroutine of `StopWithSignal`; `has_cmd` says whether the command that was read before it started
  -- is there.
  unfoldable pub stop_goroutine : Env B → ℕ → Signal → StopPlan → Bool → Manager B → Manager B
  stop_goroutine env r s plan has_cmd m = elim (stop_start plan has_cmd (m.heap r)) [
    | not_running ↦ modify r close_logger (modify r stop_not_running m)
    | signal_and_wait ↦
        let waited = wait_stopped env.others wait_count r (signal r s m) in
        modify r close_logger
          (if is_stopped (waited.heap r) then waited else signal r sigkill waited)
    | kill ↦ modify r close_logger (signal r sigkill m)
  ]

  unfoldable pub process_get : Text → Manager B → Result ProcessResponse
  process_get name m = elim (lookup name m.processes) [
    | none ↦ err (status not_found)
    | some r ↦ ok (rpc_response (m.heap r))
  ]

  unfoldable pub process_list : Manager B → Dict ProcessResponse
  process_list m = map (respond m.heap) m.processes

  unfoldable pub monitor_next : List ℕ → Manager B → Manager B × Option ProcessResponse
  unfolding mark_deleted
  monitor_next [] m = (m, none)
  monitor_next (r ∷ rest) m = (
    record m { updates = rest },
    some (mark_deleted (lookup (m.heap r).name m.processes) (rpc_response (m.heap r))),
  )

  -- One round of `startMonitoring`: the response that goes to the broadcaster.
  unfoldable pub monitor : Manager B → Manager B × Option ProcessResponse
  unfolding monitor_next
  monitor m = monitor_next m.updates m

module _ {B : Type 0} (bm : PortBitmap B) where
  unfoldable pub unregister_process : ℕ → Manager B → Manager B
  unregister_process r m = if is_current bm r m then spawn (unregister r) m else m

  unfoldable pub unregister_goroutine : Env B → ℕ → Manager B → Manager B
  unregister_goroutine env r m =
      let waited = wait_stopped env.others wait_count r m in
      if is_stopped (waited.heap r)
      then send r (unregister_locked bm r (env.others 0 waited))
      else waited

  unfoldable pub create_started : ℕ → Manager B × Option Text → Manager B
  create_started r (m, some e) = send r m
  create_started r (m, none) = m

  unfoldable pub create_registered :
      Env B → ℕ → Manager B × Option Error → Manager B × Result ProcessResponse
  unfolding create_started
  create_registered env r (m, some e) = (modify r close_logger m, err e)
  create_registered env r (m, none) =
      let sent = env.others 0 (send r m) in
      let done = env.others 1 (create_started r (start_process env.command_error r sent)) in
      (done, ok (rpc_response (done.heap r)))

  unfoldable pub process_create :
      Env B → ProcessSpec → Manager B → Manager B × Result ProcessResponse
  unfolding create_registered
  process_create env spec m =
      if is_empty spec.name || is_empty spec.binary
      then (m, err (status invalid_argument))
      else elim env.logger_error [
        | some e ↦ (m, err (external e))
        | none ↦
            create_registered env m.next
              (register_process bm m.next (add_object (new_process spec env.uuid) m))
      ]

  unfoldable pub process_delete :
      Env B → Text → Text → Manager B → Manager B × Result ProcessResponse
  unfolding unregister_process
  process_delete env name uuid m = elim (lookup name m.processes) [
    | none ↦ (m, err (status not_found))
    | some r ↦
        if not (is_empty uuid) && not (text_eq (m.heap r).uuid uuid)
        then (m, err (status not_found))
        else (let stopped = env.others 0 (stop_with_signal sigint (env.now 0) r m) in
            (
              unregister_process r stopped,
              ok (record (rpc_response (stopped.heap r)) { deleted = true }),
            ))
  ]
