-- ===== src/Manager/Run.antt =====
-- `NewManager`, the goroutines of a process, and a history of the manager: any calls and goroutines,
-- in any order.
use longhorn_instance_manage.Base.{
  ℕ, ℤ, ◌<◌, Text, ◌≡◌, Bool, Option, some, List, [], ◌∷◌, external, Result, ok, ◌>>=◌, lookup,
  codes,
}
use longhorn_instance_manage.Bitmap.{PortBitmap}
use longhorn_instance_manage.PortRange.{parse_port_range, or_fail}
use longhorn_instance_manage.Process.{
  Process, StopPlan, AfterHealth, announce, must_stop, nothing, health_result, run_begin, run_exit,
}
use longhorn_instance_manage.Process.Response.{ProcessSpec}
use longhorn_instance_manage.Manager.{Manager, Signal, sigint}
use longhorn_instance_manage.Manager.Handlers.{
  Env, modify, send, stop_with_signal, stop_goroutine, unregister_goroutine, process_create,
  process_delete, monitor, new_process,
}
use longhorn_instance_manage.Manager.Replace.{process_replace}
use longhorn_instance_manage.Manager.Invariant.{IsFresh}
use longhorn_instance_manage.Manager.Rely.{Rely}
use longhorn_instance_manage.Manager.Conditions.{check_mount_points}

-- An object that nothing points to.
pub no_object : Process
unfolding new_process
no_object =
    new_process (record { name = []; binary = []; args = []; port_count = ℤ.pos 0; port_args = [] })
      []

pub data Action : Type 0 where
  create : ProcessSpec → Action
  delete : Text → Text → Action
  replace : ProcessSpec → Text → Action
  command_begins : ℕ → Action
  command_exits : ℕ → Option Text → Action
  health_checked : ℕ → Bool → Action
  stops : ℕ → Signal → StopPlan → Bool → Action
  unregisters : ℕ → Action
  monitors : Action
  checks_mounts : (Text → Bool) → (Text → Option Bool) → Action

module _ {B : Type 0} where
  unfoldable pub empty_manager : ℤ → ℤ → B → Manager B
  empty_manager start end bitmap = record {
    port_range_min = start;
    port_range_max = end;
    processes = [];
    available_ports = bitmap;
    heap = λ r. no_object;
    next = 0;
    updates = [];
    goroutines = [];
    signals = [];
    replacing = [];
  }

  -- The first goroutine of `Start`, when `Run` returns.
  unfoldable pub command_exit : ℕ → Option Text → Manager B → Manager B
  command_exit r e m = send r (modify r (run_exit e) m)

  unfoldable pub after_health : Env B → ℕ → Process × AfterHealth → Manager B → Manager B
  after_health env r (p, announce) m = send r (modify r (λ _. p) m)
  after_health env r (p, must_stop) m = stop_with_signal sigint (env.now 0) r (modify r (λ _. p) m)
  after_health env r (p, nothing) m = modify r (λ _. p) m

  -- The second goroutine of `Start`, when `WaitForRunning` returns.
  unfoldable pub health_goroutine : Env B → ℕ → Bool → Manager B → Manager B
  unfolding after_health
  health_goroutine env r healthy m = after_health env r (health_result healthy (m.heap r)) m

module _ {B : Type 0} (bm : PortBitmap B) where
  unfoldable pub new_manager : Text → Result (Manager B)
  new_manager port_range = do
    ends ← parse_port_range port_range
    bitmap ← or_fail (bm.new_bitmap ends.0 ends.1) (external (codes "NewBitmap"))
    ok (empty_manager ends.0 ends.1 bitmap)

  unfoldable pub run_action : Env B → Action → Manager B → Manager B
  run_action env (create spec) m = (process_create bm env spec m).0
  run_action env (delete name uuid) m = (process_delete bm env name uuid m).0
  run_action env (replace spec terminate) m = (process_replace bm env spec terminate m).0
  run_action env (command_begins r) m = modify r run_begin m
  run_action env (command_exits r e) m = command_exit r e m
  run_action env (health_checked r healthy) m = health_goroutine env r healthy m
  run_action env (stops r s plan has_cmd) m = stop_goroutine env r s plan has_cmd m
  run_action env (unregisters r) m = unregister_goroutine bm env r m
  run_action env monitors m = (monitor m).0
  run_action env (checks_mounts is_engine mounts) m = check_mount_points is_engine mounts m

  -- What an action may expect: a new UUID, other goroutines that rely on the same invariant, and a
  -- process that exists.
  abbrev pub Permits : Env B → Action → Manager B → Type 0
  Permits env (create spec) m = IsFresh bm m env.uuid × Rely bm env.others m.next
  Permits env (delete name uuid) m =
      (r : ℕ) → lookup name m.processes ≡ some r → Rely bm env.others r
  Permits env (replace spec terminate) m = IsFresh bm m env.uuid × Rely bm env.others m.next
  Permits env (command_begins r) m = r < m.next
  Permits env (command_exits r e) m = r < m.next
  Permits env (health_checked r healthy) m = r < m.next
  Permits env (stops r s plan has_cmd) m = (r < m.next) × Rely bm env.others r
  Permits env (unregisters r) m = (r < m.next) × Rely bm env.others r
  Permits env monitors m = Unit
  Permits env (checks_mounts is_engine mounts) m = Unit

  unfoldable pub run : List (Env B × Action) → Manager B → Manager B
  run [] m = m
  run ((env, a) ∷ rest) m = run rest (run_action env a m)

  abbrev pub AllPermitted : List (Env B × Action) → Manager B → Type 0
  AllPermitted [] m = Unit
  AllPermitted ((env, a) ∷ rest) m = Permits env a m × AllPermitted rest (run_action env a m)
