-- ===== src/Manager/Tests.antt =====
-- Runs of the process manager over a bitmap of eleven ports.
mod Late
use longhorn_instance_manage.Base.{
  ℕ, ℤ, pos, zero, suc, ◌≡◌, ◌≢◌, refl, false, none, some, [], ◌∷◌, Text, codes, ok, arith, ◌<◌,
  lookup, ◌≤ℤ◌, in_range, int32, ◌||◌, ◌+ℤ◌, ◌-ℤ◌, text_eq, text_eq_iff, insert, ◌++◌,
}
use longhorn_instance_manage.Bitmap.FirstFit.{Ports, first_fit}
use longhorn_instance_manage.Strings.{split, atoi, trim_space}
use longhorn_instance_manage.PortRange.{parse_port_range}
use longhorn_instance_manage.Process.{Process, start}
use longhorn_instance_manage.Process.Response.{ProcessSpec}
use longhorn_instance_manage.Manager.{
  Manager, register_process, allocate_process_ports, append_port_args,
}
use longhorn_instance_manage.Manager.Requests.{register_process-Answers, Answers}
use longhorn_instance_manage.Manager.Allocation.{allocate_process_ports-Outcome, Outcome}
use longhorn_instance_manage.Manager.Handlers.{Env, process_create, new_process, start_process}
use longhorn_instance_manage.Manager.Invariant.{Inv, IsFresh, InBitmap}
use longhorn_instance_manage.Manager.Rely.{Rely}
use longhorn_instance_manage.Manager.Run.{
  empty_manager, new_manager, run, run_action, Action, create, AllPermitted,
}
use longhorn_instance_manage.Manager.History.{run-Inv}
use longhorn_instance_manage.Manager.Safety.{run_no_conflict, run_no_leak, new_manager-Inv, HasPort}

abbrev ports : Ports
ports = record { base = pos 10000; limit = pos 10010; free = in_range (pos 10000) (pos 10010) }

abbrev fresh : Manager Ports
fresh = empty_manager (pos 10000) (pos 10010) ports

-- Nothing fails, and no other goroutine runs.
abbrev pub quiet : Text → Env Ports
quiet uuid = record {
  logger_error = none;
  uuid = uuid;
  command_error = none;
  now = λ k. 5;
  others = λ k m. m;
}

abbrev pub spec : Text → Text → ℤ → ProcessSpec
spec name binary n = record {
  name = name;
  binary = binary;
  args = [];
  port_count = n;
  port_args = codes "--listen,0.0.0.0:" ∷ [];
}

abbrev first : Env Ports × Action
first = (quiet (codes "u0"), create (spec (codes "a") (codes "engine") (pos 3)))

abbrev second : Env Ports × Action
second = (quiet (codes "u1"), create (spec (codes "b") (codes "engine") (pos 2)))

abbrev pub one_process : Manager Ports
one_process = run first_fit (first ∷ []) fresh

abbrev two_processes : Manager Ports
two_processes = run first_fit (first ∷ second ∷ []) fresh

pub quiet-Rely : (u : Text) (r : ℕ) → Rely first_fit (quiet u).others r
quiet-Rely u r = record { keeps = λ k m v. v; grows = λ k m. omega arith; holds = λ k m h. h }

pub differ : (s t : Text) → text_eq s t ≡ false → s ≢ t
differ s t h = ground (arith, text_eq_iff s t)

a_not_b : codes "a" ≢ codes "b"
unfolding text_eq
a_not_b = differ (codes "a") (codes "b") refl

positive : pos 1 ≤ℤ fresh.port_range_min
unfolding empty_manager
positive = omega arith

made : new_manager first_fit (codes "10000-10010") ≡ ok fresh
unfolding new_manager first_fit parse_port_range split atoi trim_space int32
made = refl

fresh_lem : (u : Text) → IsFresh first_fit fresh u
unfolding empty_manager
fresh_lem u i lt e = omega arith

pub second_lem : IsFresh first_fit one_process (codes "u1")
unfolding run run_action process_create lookup register_process empty_manager allocate_process_ports
    new_process first_fit ◌-ℤ◌ ◌+ℤ◌ append_port_args int32 start_process start insert text_eq
second_lem zero lt e = differ (codes "u0") (codes "u1") refl e
second_lem (suc i) lt e = omega arith

-- The first process has its name in the table.
pub in_table : lookup (codes "a") one_process.processes ≡ some 0
unfolding run run_action process_create lookup register_process empty_manager allocate_process_ports
    new_process first_fit ◌-ℤ◌ ◌+ℤ◌ append_port_args int32 start_process start insert text_eq
in_table = refl

permitted : AllPermitted first_fit (first ∷ second ∷ []) fresh
unfolding empty_manager run_action run
permitted = (
  (fresh_lem (codes "u0"), quiet-Rely (codes "u0") 0),
  ((second_lem, quiet-Rely (codes "u1") _), tt),
)

found_a : lookup (codes "a") two_processes.processes ≡ some 0
unfolding run run_action process_create lookup register_process empty_manager allocate_process_ports
    new_process first_fit ◌-ℤ◌ ◌+ℤ◌ append_port_args int32 start_process start insert text_eq
found_a = refl

found_b : lookup (codes "b") two_processes.processes ≡ some 1
unfolding run run_action process_create lookup register_process empty_manager allocate_process_ports
    new_process first_fit ◌-ℤ◌ ◌+ℤ◌ append_port_args int32 start_process start insert text_eq
found_b = refl

has_a : HasPort two_processes.heap 0 (pos 10002)
unfolding run run_action process_create lookup register_process empty_manager allocate_process_ports
    new_process first_fit ◌-ℤ◌ ◌+ℤ◌ append_port_args int32 start_process start insert text_eq
has_a = refl

has_b : HasPort two_processes.heap 1 (pos 10004)
unfolding run run_action process_create lookup register_process empty_manager allocate_process_ports
    new_process first_fit ◌-ℤ◌ ◌+ℤ◌ append_port_args int32 start_process start insert text_eq
has_b = refl

run_no_conflict_example : ¬ HasPort two_processes.heap 1 (pos 10002)
run_no_conflict_example =
    run_no_conflict first_fit (codes "10000-10010") fresh (first ∷ second ∷ []) (codes "a")
      (codes "b") 0 1 (pos 10002) made positive permitted a_not_b found_a found_b (omega arith)
      has_a

taken_port : first_fit.is_free two_processes.available_ports (pos 10004) ≡ false
unfolding run run_action process_create lookup register_process empty_manager allocate_process_ports
    new_process first_fit ◌-ℤ◌ ◌+ℤ◌ append_port_args int32 start_process start insert text_eq
taken_port = refl

idle : two_processes.replacing ≡ []
unfolding run run_action process_create lookup register_process empty_manager allocate_process_ports
    new_process first_fit ◌-ℤ◌ ◌+ℤ◌ append_port_args int32 start_process start insert text_eq
idle = refl

inside : InBitmap first_fit two_processes.available_ports (pos 10004)
unfolding run run_action process_create lookup register_process empty_manager allocate_process_ports
    new_process first_fit ◌-ℤ◌ ◌+ℤ◌ append_port_args int32 start_process start insert text_eq
inside = refl

run_no_leak_example :
    (k : Text) × (r : ℕ) × (lookup k two_processes.processes ≡ some r)
    × HasPort two_processes.heap r (pos 10004)
run_no_leak_example =
    run_no_leak first_fit (codes "10000-10010") fresh (first ∷ second ∷ []) (pos 10004) made
      positive permitted idle inside taken_port

fresh-Inv : Inv first_fit fresh
fresh-Inv = new_manager-Inv first_fit (codes "10000-10010") fresh made positive

run-Inv_example : Inv first_fit two_processes
run-Inv_example = run-Inv first_fit (first ∷ second ∷ []) fresh permitted fresh-Inv

pub one-Inv : Inv first_fit one_process
one-Inv = run-Inv first_fit (first ∷ []) fresh (permitted.0, tt) fresh-Inv

register_process-Answers_example :
    Answers first_fit 0 one_process (register_process first_fit 0 one_process)
register_process-Answers_example = register_process-Answers first_fit 0 one_process one-Inv

engine : Process
unfolding new_process
engine = new_process (spec (codes "c") (codes "engine") (pos 4)) (codes "u2")

allocate_process_ports-Outcome_example :
    Outcome first_fit ports engine (allocate_process_ports first_fit ports engine)
unfolding first_fit
allocate_process_ports-Outcome_example =
    allocate_process_ports-Outcome first_fit ports engine
      (record { positive = omega arith; fits = (omega arith, omega arith) })
