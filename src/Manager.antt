-- ===== src/Manager.antt =====
-- pkg/process/process_manager.go: the process manager's state, and each section of code that it runs
-- under its lock. A `*Process` is a number, the place of the process in the heap.
pub mod Logs
pub mod Handlers
pub mod Replace
pub mod Local
pub mod Rely
pub mod Calls
pub mod Create
pub mod Swap
pub mod Run
pub mod History
pub mod Safety
pub mod Requests
pub mod Allocation
pub mod Holders
pub mod Release
pub mod Invariant
pub mod Grant
pub mod Move
pub mod Sections
pub mod Begin
pub mod Conditions
pub mod Tests
pub use longhorn_instance_manage.Base.{contains, remove}
use longhorn_instance_manage.Base.{
  ℕ, ℤ, pos, suc, ◌+ℤ◌, Text, Bool, true, false, Option, none, some, List, [], ◌∷◌, ◌++◌, Error,
  status, failed, already_exists, not_found, length, codes, ltb_ℤ, eq_ℤ, int32, ◌==◌, text_eq,
  if◌then◌else◌, ◌||◌, Dict, lookup, insert, delete, Result, ok, err,
}
use longhorn_instance_manage.Bitmap.{PortBitmap}
use longhorn_instance_manage.Process.{Process, StopPlan}
use longhorn_instance_manage.Strings.{split, itoa}

pub data Signal : Type 0 where
  sighup sigint sigkill : Signal

-- The goroutines that the manager starts: the two of `Start`, that of `StopWithSignal`, and that of
-- `unregisterProcess`.
pub data Goroutine : Type 0 where
  run_command wait_healthy unregister : ℕ → Goroutine
  stop : ℕ → Signal → StopPlan → Goroutine

pub record Manager (B : Type 0) : Type 0 where
  pub port_range_min : ℤ
  pub port_range_max : ℤ
  pub processes : Dict ℕ
  pub available_ports : B
  -- the objects that exist, and the next free place
  pub heap : ℕ → Process
  pub next : ℕ
  -- what was sent on `processUpdateCh` and is not yet received, oldest first
  pub updates : List ℕ
  -- the goroutines started, and the signals sent to commands, oldest first
  pub goroutines : List Goroutine
  pub signals : List (ℕ × Signal)
  -- the local variable `p` of each call of `ProcessReplace` that holds ports
  pub replacing : List ℕ

abbrev pub update : (ℕ → Process) → ℕ → Process → ℕ → Process
update h r p i = if i == r then p else h i

-- The loop over `PortArgs`: the arguments so far, and the error of the argument that does not fit.
unfoldable pub append_port_args : ℤ → ℤ → ℕ → List Text → List Text → List Text × Option Error
append_port_args start end i [] args = (args, none)
append_port_args start end i (arg ∷ rest) args =
    let next =
      append_port_args start end (suc i) rest (args ++ split b',' (arg ++ itoa (start +ℤ pos i))) in
    if ltb_ℤ end (int32 (start +ℤ int32 (pos i)))
    then (args, some (failed (codes "cannot fit port args")))
    else next

module _ {B : Type 0} (bm : PortBitmap B) where
  pub allocate_ports : B → ℤ → Result (ℤ × ℤ × B)
  allocate_ports b n =
      if ltb_ℤ n (pos 0)
      then err (failed (codes "invalid port count"))
      else if eq_ℤ n (pos 0)
      then ok (pos 0, pos 0, b)
      else elim (bm.allocate_range b n) [
        | none ↦ err (failed (codes "failed to allocate ports"))
        | some (s, e, b') ↦ ok (s, e, b')
      ]

  pub release_ports : B → ℤ → ℤ → Result B
  release_ports b s e =
      if ltb_ℤ s (pos 0) || ltb_ℤ e (pos 0)
      then err (failed (codes "invalid start/end port"))
      else elim (bm.release_range b s e) [
        | none ↦ err (failed (codes "cannot release ports"))
        | some b' ↦ ok b'
      ]

  with_ports : B → Process → Result (ℤ × ℤ × B) → B × Process × Option Error
  with_ports b p (err e) = (b, record p { port_start = pos 0; port_end = pos 0 }, some e)
  with_ports b p (ok (s, e, b')) =
      let (args, error) = append_port_args s e 0 p.port_args p.args in
      (b', record p { port_start = s; port_end = e; args = args }, error)

  pub allocate_process_ports : B → Process → B × Process × Option Error
  unfolding with_ports allocate_ports
  allocate_process_ports b p =
      if ltb_ℤ p.port_count (pos (length p.port_args))
      then (b, p, some (failed (codes "too many port args")))
      else with_ports b p (allocate_ports b p.port_count)

  -- An error is only logged.
  pub released : B → Result B → B
  released b (err e) = b
  released b (ok b') = b'

  pub release_process_ports : ℕ → Manager B → Manager B
  unfolding released release_ports
  release_process_ports r m =
      let p = m.heap r in
      record m {
        available_ports =
            released m.available_ports (release_ports m.available_ports p.port_start p.port_end);
      }

  -- The locked section behind both kinds of allocation: `r` gets its ports, and `registered` says
  -- what then becomes of the table.
  pub take_ports : ℕ → Manager B → Manager B × Option Error
  take_ports r m =
      let (b, p, error) = allocate_process_ports m.available_ports (m.heap r) in
      (record m { available_ports = b; heap = update m.heap r p }, error)

  register_taken : ℕ → Manager B × Option Error → Manager B × Option Error
  register_taken r (m, some e) = (m, some e)
  register_taken r (m, none) = (record m { processes = insert (m.heap r).name r m.processes }, none)

  pub register_process : ℕ → Manager B → Manager B × Option Error
  unfolding register_taken take_ports
  register_process r m = elim (lookup (m.heap r).name m.processes) [
    | some old ↦ (m, some (status already_exists))
    | none ↦ register_taken r (take_ports r m)
  ]

  replace_taken : ℕ → ℕ → Manager B × Option Error → Manager B × Result ℕ
  replace_taken r old (m, some e) = (m, err e)
  replace_taken r old (m, none) = (record m { replacing = r ∷ m.replacing }, ok old)

  -- The process to replace, once the new one has its ports.
  pub init_process_replace : ℕ → Manager B → Manager B × Result ℕ
  unfolding replace_taken take_ports
  init_process_replace r m = elim (lookup (m.heap r).name m.processes) [
    | none ↦ (m, err (status not_found))
    | some old ↦ replace_taken r old (take_ports r m)
  ]

  -- A replacement is given up: its ports go back.
  pub drop_replacement : ℕ → Manager B → Manager B
  unfolding release_process_ports
  drop_replacement r m = release_process_ports r (record m { replacing = remove r m.replacing })

  -- Is `r` still the process that the table has under its name? The table may hold another one
  -- since a replacement.
  pub is_current : ℕ → Manager B → Bool
  is_current r m = elim (lookup (m.heap r).name m.processes) [
    | none ↦ false
    | some i ↦ text_eq (m.heap i).uuid (m.heap r).uuid
  ]

  -- The inner locked section of `unregisterProcess`.
  pub unregister_locked : ℕ → Manager B → Manager B
  unfolding is_current release_process_ports
  unregister_locked r m =
      if is_current r m
      then release_process_ports r (record m { processes = delete (m.heap r).name m.processes })
      else m

  pub install : ℕ → Manager B → Manager B
  install r m = record m {
    processes = insert (m.heap r).name r m.processes;
    replacing = remove r m.replacing;
  }

  -- The locked section that ends `ProcessReplace`: `false` if another process took the name.
  pub commit_replace : ℕ → ℕ → Manager B → Manager B × Bool
  unfolding install release_process_ports
  commit_replace r old m = elim (lookup (m.heap r).name m.processes) [
    | none ↦ (install r m, true)
    | some i ↦
        if text_eq (m.heap i).uuid (m.heap old).uuid
        then (install r (release_process_ports old m), true)
        else (m, false)
  ]
