-- ===== src/Manager/History.antt =====
-- The invariant along every history of the manager.
use longhorn_instance_manage.Base.{ℕ, Text, Bool, Option, List, [], ◌∷◌}
use longhorn_instance_manage.Bitmap.{PortBitmap}
use longhorn_instance_manage.Process.{
  Process, AfterHealth, announce, must_stop, nothing, health_result, run_begin, run_exit,
}
use longhorn_instance_manage.Manager.{Manager, sigint}
use longhorn_instance_manage.Manager.Handlers.{Env, monitor, monitor_next}
use longhorn_instance_manage.Manager.Invariant.{Inv}
use longhorn_instance_manage.Manager.Local.{
  Local, Local-Inv, Local-refl, Local-trans, log_lem, modify-Local, run_begin-Keeps, run_exit-Keeps,
  health_result-Keeps, stop_with_signal-Local, Keeps,
}
use longhorn_instance_manage.Manager.Calls.{stop_goroutine-Known, unregister_goroutine-Inv}
use longhorn_instance_manage.Manager.Create.{process_create-Inv, process_delete-Inv}
use longhorn_instance_manage.Manager.Conditions.{check_mount_points-Local}
use longhorn_instance_manage.Manager.Swap.{process_replace-Inv}
use longhorn_instance_manage.Manager.Run.{
  Action, create, delete, replace, command_begins, command_exits, health_checked, stops,
  unregisters, monitors, checks_mounts, command_exit, after_health, health_goroutine, run_action,
  Permits, run, AllPermitted,
}

module _ {B : Type 0} (bm : PortBitmap B) where
  command_exit-Local : (r : ℕ) (e : Option Text) (m : Manager B) → Local bm m (command_exit r e m)
  unfolding command_exit
  command_exit-Local r e m =
      Local-trans bm m _ (modify-Local bm r (run_exit e) m (run_exit-Keeps e _))
        (log_lem bm _ _ m.goroutines m.signals)

  after_health-Local :
      (env : Env B) (r : ℕ) (res : Process × AfterHealth) (m : Manager B)
      → Keeps (m.heap r) res.0
      → Local bm m (after_health env r res m)
  unfolding after_health
  after_health-Local env r (p, announce) m k =
      Local-trans bm m _ (modify-Local bm r (λ _. p) m k) (log_lem bm _ _ m.goroutines m.signals)
  after_health-Local env r (p, must_stop) m k =
      Local-trans bm m _ (modify-Local bm r (λ _. p) m k)
        (stop_with_signal-Local bm sigint (env.now 0) r _)
  after_health-Local env r (p, nothing) m k = modify-Local bm r (λ _. p) m k

  health_goroutine-Local :
      (env : Env B) (r : ℕ) (healthy : Bool) (m : Manager B)
      → Local bm m (health_goroutine env r healthy m)
  unfolding health_goroutine
  health_goroutine-Local env r healthy m =
      after_health-Local env r (health_result healthy (m.heap r)) m
        (health_result-Keeps healthy (m.heap r))

  monitor_next-Local : (u : List ℕ) (m : Manager B) → Local bm m (monitor_next u m).0
  unfolding monitor_next
  monitor_next-Local [] m = Local-refl bm m
  monitor_next-Local (r ∷ rest) m = log_lem bm m rest m.goroutines m.signals

  monitor-Local : (m : Manager B) → Local bm m (monitor m).0
  unfolding monitor
  monitor-Local m = monitor_next-Local m.updates m

  -- Every action keeps the invariant.
  pub run_action-Inv :
      (env : Env B) (a : Action) (m : Manager B)
      → Permits bm env a m
      → Inv bm m
      → Inv bm (run_action bm env a m)
  unfolding run_action
  run_action-Inv env (create spec) m p v = process_create-Inv bm env spec m v p.0 p.1
  run_action-Inv env (delete name uuid) m p v = process_delete-Inv bm env name uuid m v p
  run_action-Inv env (replace spec terminate) m p v =
      process_replace-Inv bm env spec terminate m v p.0 p.1
  run_action-Inv env (command_begins r) m p v =
      Local-Inv bm m (modify-Local bm r run_begin m (run_begin-Keeps _)) v
  run_action-Inv env (command_exits r e) m p v = Local-Inv bm m (command_exit-Local r e m) v
  run_action-Inv env (health_checked r healthy) m p v =
      Local-Inv bm m (health_goroutine-Local env r healthy m) v
  run_action-Inv env (stops r s plan has_cmd) m p v =
      (stop_goroutine-Known bm env r s plan has_cmd m p.1 (record { inv = v; exists = p.0 })).inv
  run_action-Inv env (unregisters r) m p v =
      unregister_goroutine-Inv bm env r m p.1 (record { inv = v; exists = p.0 })
  run_action-Inv env monitors m p v = Local-Inv bm m (monitor-Local m) v
  run_action-Inv env (checks_mounts is_engine mounts) m p v =
      Local-Inv bm m (check_mount_points-Local is_engine mounts bm m) v

  -- Every history of calls and goroutines that starts in a well-formed manager ends in one, if each
  -- call gets a fresh UUID, each goroutine acts on a process that exists, and the goroutines that
  -- run while a call waits keep managers well formed, remove no object and leave the call's own
  -- replacement alone.
  pub run-Inv :
      (acts : List (Env B × Action)) (m : Manager B)
      → AllPermitted bm acts m
      → Inv bm m
      → Inv bm (run bm acts m)
  unfolding run
  run-Inv [] m p v = v
  run-Inv ((env, a) ∷ rest) m p v =
      run-Inv rest (run_action bm env a m) p.1 (run_action-Inv env a m p.0 v)
