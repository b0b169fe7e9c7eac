-- ===== src/Manager/Local.antt =====
-- Changes of processes that touch neither the table nor the ports.
use longhorn_instance_manage.Base.{
  ℕ, Text, ◌≡◌, refl, Bool, Option, none, some, List, arith, inl, inr, ◌∙◌, Bool-cases, ◌||◌,
}
use longhorn_instance_manage.Bitmap.{PortBitmap}
use longhorn_instance_manage.Process.{
  Process, start, stop_plan, stop_mark, stop_not_running, close_logger, run_begin, run_exit,
  health_result,
}
use longhorn_instance_manage.Manager.{Manager, Signal, Goroutine, update}
use longhorn_instance_manage.Manager.Handlers.{
  modify, start_process, start_result, stop_with_signal,
}
use longhorn_instance_manage.Manager.Invariant.{Inv, Agrees, Agrees-Inv}

-- The function changes neither the name, nor the UUID, nor the ports of a process.
pub record Keeps (p p' : Process) : Type 0 where
  pub same_start : p'.port_start ≡ p.port_start
  pub same_end : p'.port_end ≡ p.port_end
  pub same_name : p'.name ≡ p.name
  pub same_uuid : p'.uuid ≡ p.uuid

pub start-Keeps : (e : Option Text) (p : Process) → Keeps p (start e p).0
unfolding start
start-Keeps none p = ground arith
start-Keeps (some e) p = ground arith

pub run_begin-Keeps : (p : Process) → Keeps p (run_begin p)
unfolding run_begin
run_begin-Keeps p = ground arith

pub run_exit-Keeps : (e : Option Text) (p : Process) → Keeps p (run_exit e p)
unfolding run_exit
run_exit-Keeps none p = ground arith
run_exit-Keeps (some e) p = ground arith

pub stop_mark-Keeps : (now : ℕ) (p : Process) → Keeps p (stop_mark now p)
unfolding stop_mark
stop_mark-Keeps now p = ground arith

pub stop_not_running-Keeps : (p : Process) → Keeps p (stop_not_running p)
unfolding stop_not_running
stop_not_running-Keeps p = ground arith

pub close_logger-Keeps : (p : Process) → Keeps p (close_logger p)
unfolding close_logger
close_logger-Keeps p = ground arith

pub health_result-Keeps : (b : Bool) (p : Process) → Keeps p (health_result b p).0
unfolding health_result
health_result-Keeps b p = ground arith

module _ {B : Type 0} (bm : PortBitmap B) where
  -- What is left alone: the table, the bitmap, the running replacements, the ports of each object.
  pub data Local (m : Manager B) : Manager B → Type 0 where
    local :
        (h : ℕ → Process) (u : List ℕ) (g : List Goroutine) (s : List (ℕ × Signal))
        → Agrees bm m.heap h m.next
        → Local m (record m { heap = h; updates = u; goroutines = g; signals = s })

  pub Agrees-refl : (h : ℕ → Process) (n : ℕ) → Agrees bm h h n
  Agrees-refl h n = record {
    start = λ i _. refl;
    end = λ i _. refl;
    name = λ i _. refl;
    uuid = λ i _. refl;
  }

  pub Agrees-trans :
      (h h' h'' : ℕ → Process) (n : ℕ) → Agrees bm h h' n → Agrees bm h' h'' n → Agrees bm h h'' n
  Agrees-trans h h' h'' n a b = record {
    start = λ i lt. b.start i lt ∙ a.start i lt;
    end = λ i lt. b.end i lt ∙ a.end i lt;
    name = λ i lt. b.name i lt ∙ a.name i lt;
    uuid = λ i lt. b.uuid i lt ∙ a.uuid i lt;
  }

  pub Keeps-Agrees :
      (h : ℕ → Process) (r n : ℕ) (p : Process) → Keeps (h r) p → Agrees bm h (update h r p) n
  Keeps-Agrees h r n p k = record {
    start = λ i _. ground arith;
    end = λ i _. ground arith;
    name = λ i _. ground arith;
    uuid = λ i _. ground arith;
  }

  pub Local-refl : (m : Manager B) → Local m m
  Local-refl m = local m.heap m.updates m.goroutines m.signals (Agrees-refl m.heap m.next)

  pub Local-trans : (m m' : Manager B) {n : Manager B} → Local m m' → Local m' n → Local m n
  Local-trans m m' (local h u g s a) (local h' u' g' s' a') =
      local h' u' g' s' (Agrees-trans m.heap h h' m.next a a')

  pub Local-Inv : (m : Manager B) {m' : Manager B} → Local m m' → Inv bm m → Inv bm m'
  Local-Inv m (local h u g s a) v =
      let w = Agrees-Inv bm m h a v in
      record {
        range = w.range;
        conserved = w.conserved;
        ranges = w.ranges;
        table = w.table;
        list = w.list;
        keys = w.keys;
        names = w.names;
        uuids = w.uuids;
      }

  pub Local-next : (m : Manager B) {m' : Manager B} → Local m m' → m'.next ≡ m.next
  Local-next m (local h u g s a) = refl

  pub Local-replacing : (m : Manager B) {m' : Manager B} → Local m m' → m'.replacing ≡ m.replacing
  Local-replacing m (local h u g s a) = refl

  -- Sending, spawning and signalling.
  pub log_lem :
      (m : Manager B) (u : List ℕ) (g : List Goroutine) (s : List (ℕ × Signal))
      → Local m (record m { updates = u; goroutines = g; signals = s })
  log_lem m u g s = local m.heap u g s (Agrees-refl m.heap m.next)

  pub modify-Local :
      (r : ℕ) (f : Process → Process) (m : Manager B)
      → Keeps (m.heap r) (f (m.heap r))
      → Local m (modify r f m)
  modify-Local r f m k =
      local _ m.updates m.goroutines m.signals (Keeps-Agrees m.heap r m.next (f (m.heap r)) k)

  pub stop_with_signal-Local :
      (s : Signal) (now r : ℕ) (m : Manager B) → Local m (stop_with_signal s now r m)
  unfolding stop_with_signal
  stop_with_signal-Local s now r m =
      let plan = stop_plan (m.heap r) now in
      let a = Keeps-Agrees m.heap r m.next (stop_mark now (m.heap r)) (stop_mark-Keeps now _) in
      elim (Bool-cases (plan.need_stop || plan.need_timeout_kill)) [
        | inl h ↦ rw h (local _ _ _ m.signals a)
        | inr h ↦ rw h (local _ m.updates m.goroutines m.signals a)
      ]

  start_result-Local :
      (r : ℕ) (m : Manager B) (res : Process × Option Text)
      → Keeps (m.heap r) res.0
      → Local m (start_result r res m).0
  unfolding start_result
  start_result-Local r m (p, some e) k =
      local _ m.updates m.goroutines m.signals (Keeps-Agrees m.heap r m.next p k)
  start_result-Local r m (p, none) k =
      local _ m.updates _ m.signals (Keeps-Agrees m.heap r m.next p k)

  pub start_process-Local :
      (e : Option Text) (r : ℕ) (m : Manager B) → Local m (start_process e r m).0
  unfolding start_process
  start_process-Local e r m = start_result-Local r m (start e (m.heap r)) (start-Keeps e (m.heap r))
