-- ===== src/Manager/Tests/Late.antt =====
-- A replacement that comes too late: while it waits, the old process is deleted, and another one is
-- created under its name.
use longhorn_instance_manage.Base.{
  pos, zero, suc, ◌≡◌, ◌≢◌, refl, true, none, some, List, [], ◌∷◌, codes, err, arith, lookup,
  status, already_exists, int32, ◌+ℤ◌, ◌-ℤ◌, text_eq, insert, ◌<◌, delete,
}
use longhorn_instance_manage.Bitmap.FirstFit.{Ports, first_fit}
use longhorn_instance_manage.Process.{start, is_stopped, run_exit, stop_plan, stop_mark}
use longhorn_instance_manage.Manager.{
  Manager, is_current, commit_replace, unregister_locked, register_process, init_process_replace,
  contains, allocate_process_ports, append_port_args,
}
use longhorn_instance_manage.Manager.Handlers.{
  Env, process_create, process_delete, new_process, add_object, start_process, unregister_goroutine,
  wait_stopped, stop_with_signal,
}
use longhorn_instance_manage.Manager.Replace.{replace_committed}
use longhorn_instance_manage.Manager.Invariant.{Inv, IsFresh}
use longhorn_instance_manage.Manager.Begin.{init_process_replace-Inv}
use longhorn_instance_manage.Manager.Calls.{added-Inv, added-IsNewest}
use longhorn_instance_manage.Manager.Run.{
  empty_manager, run, run_action, Action, create, command_exits, command_exit, unregisters,
  AllPermitted,
}
use longhorn_instance_manage.Manager.History.{run-Inv}
use longhorn_instance_manage.Manager.Requests.{late_replacement, Freed}
use longhorn_instance_manage.Manager.Tests.{
  spec, quiet, quiet-Rely, one_process, one-Inv, second_lem, differ,
}

abbrev added : Manager Ports
added = add_object (new_process (spec (codes "a") (codes "newer") (pos 3)) (codes "u1")) one_process

-- `ProcessReplace` has its ports.
abbrev begun : Manager Ports
begun = (init_process_replace first_fit 1 added).0

begun-Inv : Inv first_fit begun
unfolding run run_action process_create lookup register_process empty_manager allocate_process_ports
    new_process first_fit ◌-ℤ◌ ◌+ℤ◌ append_port_args int32 start_process start insert text_eq
    init_process_replace process_delete unregister_goroutine is_stopped wait_stopped command_exit
    run_exit unregister_locked stop_with_signal stop_plan stop_mark delete is_current
begun-Inv =
    init_process_replace-Inv first_fit 1 added
      (added-Inv first_fit (quiet (codes "u1")) (spec (codes "a") (codes "newer") (pos 3))
        one_process one-Inv second_lem)
      (added-IsNewest first_fit (quiet (codes "u1")) (spec (codes "a") (codes "newer") (pos 3))
        one_process one-Inv)

abbrev others : List (Env Ports × Action)
others =
    (quiet [], Action.delete (codes "a") (codes "u0"))
    ∷ (quiet [], command_exits 0 none)
    ∷ (quiet [], unregisters 0)
    ∷ []

abbrev third : Env Ports × Action
third = (quiet (codes "u2"), create (spec (codes "a") (codes "third") (pos 4)))

abbrev emptied : Manager Ports
emptied = run first_fit others begun

abbrev taken : Manager Ports
taken = run first_fit (third ∷ []) emptied

emptied_permits : AllPermitted first_fit others begun
unfolding run run_action process_create lookup register_process empty_manager allocate_process_ports
    new_process first_fit ◌-ℤ◌ ◌+ℤ◌ append_port_args int32 start_process start insert text_eq
    init_process_replace process_delete unregister_goroutine is_stopped wait_stopped command_exit
    run_exit unregister_locked stop_with_signal stop_plan stop_mark delete is_current
emptied_permits = ((λ r e. quiet-Rely [] r), (omega arith, ((omega arith, quiet-Rely [] 0), tt)))

third_lem : IsFresh first_fit emptied (codes "u2")
unfolding run run_action process_create lookup register_process empty_manager allocate_process_ports
    new_process first_fit ◌-ℤ◌ ◌+ℤ◌ append_port_args int32 start_process start insert text_eq
    init_process_replace process_delete unregister_goroutine is_stopped wait_stopped command_exit
    run_exit unregister_locked stop_with_signal stop_plan stop_mark delete is_current
third_lem zero lt e = differ (codes "u0") (codes "u2") refl e
third_lem (suc zero) lt e = differ (codes "u1") (codes "u2") refl e
third_lem (suc (suc i)) lt e = omega arith

emptied-Inv : Inv first_fit emptied
emptied-Inv = run-Inv first_fit others begun emptied_permits begun-Inv

taken-Inv : Inv first_fit taken
taken-Inv =
    run-Inv first_fit (third ∷ []) emptied ((third_lem, quiet-Rely (codes "u2") _), tt) emptied-Inv

holds_ports : contains 1 taken.replacing ≡ true
unfolding run run_action process_create lookup register_process empty_manager allocate_process_ports
    new_process first_fit ◌-ℤ◌ ◌+ℤ◌ append_port_args int32 start_process start insert text_eq
    init_process_replace process_delete unregister_goroutine is_stopped wait_stopped command_exit
    run_exit unregister_locked stop_with_signal stop_plan stop_mark delete is_current
holds_ports = refl

found_third : lookup (taken.heap 1).name taken.processes ≡ some 2
unfolding run run_action process_create lookup register_process empty_manager allocate_process_ports
    new_process first_fit ◌-ℤ◌ ◌+ℤ◌ append_port_args int32 start_process start insert text_eq
    init_process_replace process_delete unregister_goroutine is_stopped wait_stopped command_exit
    run_exit unregister_locked stop_with_signal stop_plan stop_mark delete is_current
found_third = refl

other_uuid : (taken.heap 2).uuid ≢ (taken.heap 0).uuid
unfolding run run_action process_create lookup register_process empty_manager allocate_process_ports
    new_process first_fit ◌-ℤ◌ ◌+ℤ◌ append_port_args int32 start_process start insert text_eq
    init_process_replace process_delete unregister_goroutine is_stopped wait_stopped command_exit
    run_exit unregister_locked stop_with_signal stop_plan stop_mark delete is_current
other_uuid = differ (codes "u2") (codes "u0") refl

late_replacement_example :
    ((replace_committed first_fit (quiet []) 1 (commit_replace first_fit 1 0 taken)).1
      ≡ err (status already_exists))
    × ((replace_committed first_fit (quiet []) 1 (commit_replace first_fit 1 0 taken)).0.processes
        ≡ taken.processes)
    × Freed first_fit 1 taken
        (replace_committed first_fit (quiet []) 1 (commit_replace first_fit 1 0 taken)).0
late_replacement_example =
    late_replacement first_fit (quiet []) 1 0 2 taken taken-Inv holds_ports found_third other_uuid

-- The old process's goroutine comes once more.
found_again : lookup (taken.heap 0).name taken.processes ≡ some 2
unfolding run run_action process_create lookup register_process empty_manager allocate_process_ports
    new_process first_fit ◌-ℤ◌ ◌+ℤ◌ append_port_args int32 start_process start insert text_eq
    init_process_replace process_delete unregister_goroutine is_stopped wait_stopped command_exit
    run_exit unregister_locked stop_with_signal stop_plan stop_mark delete is_current
found_again = refl

begun_old : 0 < begun.next
unfolding run run_action process_create lookup register_process empty_manager allocate_process_ports
    new_process first_fit ◌-ℤ◌ ◌+ℤ◌ append_port_args int32 start_process start insert text_eq
    init_process_replace process_delete unregister_goroutine is_stopped wait_stopped command_exit
    run_exit unregister_locked stop_with_signal stop_plan stop_mark delete is_current
begun_old = omega arith

begun_holds : contains 1 begun.replacing ≡ true
unfolding run run_action process_create lookup register_process empty_manager allocate_process_ports
    new_process first_fit ◌-ℤ◌ ◌+ℤ◌ append_port_args int32 start_process start insert text_eq
    init_process_replace process_delete unregister_goroutine is_stopped wait_stopped command_exit
    run_exit unregister_locked stop_with_signal stop_plan stop_mark delete is_current
begun_holds = refl
