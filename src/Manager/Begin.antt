-- ===== src/Manager/Begin.antt =====
-- `registerProcess` and `initProcessReplace` keep the invariant.
use longhorn_instance_manage.Base.{
  ℕ, pos, ◌≡◌, refl, sym, true, Option, none, some, List, ◌∷◌, arith, inl, inr, ◌∙◌, ap, subst,
  lookup, insert, Option-cases, Error,
}
use longhorn_instance_manage.Bitmap.{PortBitmap}
use longhorn_instance_manage.Process.{Process}
use longhorn_instance_manage.Manager.{
  Manager, update, remove, contains, install, register_taken, register_process, replace_taken,
  init_process_replace, allocate_process_ports,
}
use longhorn_instance_manage.Manager.Allocation.{
  Outcome, refused, denied, without, granted, allocate_process_ports-Outcome,
}
use longhorn_instance_manage.Manager.Invariant.{Inv, Agrees, Agrees-Inv, update_self}
use longhorn_instance_manage.Manager.Grant.{
  Fits, IsNewest, holding, holding-Inv, NoPorts-Fits, granted-Fits,
}
use longhorn_instance_manage.Manager.Sections.{install_new-Inv}

module _ {B : Type 0} (bm : PortBitmap B) where
  -- The manager after `allocateProcessPorts` of the object at `r`.
  abbrev taken : ℕ → Manager B → B × Process × Option Error → Manager B
  taken r m o = record m { available_ports = o.0; heap = update m.heap r o.1 }

  -- An object that gets no ports stays as it was, as far as the invariant goes.
  unchanged_ports :
      (h : ℕ → Process) (r n : ℕ) (p : Process)
      → p.port_start ≡ (h r).port_start
      → p.port_end ≡ (h r).port_end
      → p.name ≡ (h r).name
      → p.uuid ≡ (h r).uuid
      → Agrees bm h (update h r p) n
  unchanged_ports h r n p s e name u = record {
    start = λ i _. ground arith;
    end = λ i _. ground arith;
    name = λ i _. ground arith;
    uuid = λ i _. ground arith;
  }

  taken_error-Inv :
      (r : ℕ) (m : Manager B) (x : Error) (o : B × Process × Option Error)
      → Inv bm m
      → IsNewest bm r m
      → Outcome bm m.available_ports (m.heap r) o
      → o.2 ≡ some x
      → Inv bm (taken r m o)
  taken_error-Inv r m x o v new (refused y) e =
      Agrees-Inv bm m _ (unchanged_ports m.heap r m.next (m.heap r) refl refl refl refl) v
  taken_error-Inv r m x o v new (denied y) e =
      Agrees-Inv bm m _
        (unchanged_ports m.heap r m.next
          (record (m.heap r) { port_start = pos 0; port_end = pos 0 }) (sym new.none_yet.0)
          (sym new.none_yet.1) refl refl)
        v
  taken_error-Inv r m x o v new (without z none_asked) e = cc
  taken_error-Inv r m x o v new (granted s e' b' h) e = cc

  Outcome-Fits :
      (r : ℕ) (m : Manager B) (o : B × Process × Option Error)
      → Inv bm m
      → Outcome bm m.available_ports (m.heap r) o
      → o.2 ≡ none
      → Fits bm m.available_ports (m.heap r) o.0 o.1
  Outcome-Fits r m o v (refused y) e = cc
  Outcome-Fits r m o v (denied y) e = cc
  Outcome-Fits r m o v (without z none_asked) e =
      NoPorts-Fits bm m.available_ports (m.heap r)
        (record (m.heap r) { port_start = pos 0; port_end = pos 0 }) v.range (refl, refl) refl refl
  Outcome-Fits r m o v (granted s e' b' h) e =
      granted-Fits bm m.available_ports (m.heap r) s e' b' _ h

  remove_head : (r : ℕ) (rs : List ℕ) → remove r (r ∷ rs) ≡ rs
  remove_head r rs = ground arith

  registered-Inv :
      (r : ℕ) (m : Manager B) (o : B × Process × Option Error)
      → Inv bm m
      → IsNewest bm r m
      → Outcome bm m.available_ports (m.heap r) o
      → lookup (m.heap r).name m.processes ≡ none
      → (e : Option Error) → o.2 ≡ e
      → Inv bm (register_taken bm r (taken r m o, e)).0
  unfolding register_taken install
  registered-Inv r m o v new out missing (some x) e = taken_error-Inv r m x o v new out e
  registered-Inv r m o v new out missing none e =
      let fits = Outcome-Fits r m o v out e in
      let held = holding-Inv bm m r o.0 o.1 new fits v in
      let name : (update m.heap r o.1 r).name ≡ (m.heap r).name =
        ap (λ (p : Process). p.name) (update_self bm m.heap r o.1) ∙ fits.same_name in
      let there : contains r (r ∷ m.replacing) ≡ true = ground arith in
      let done = install_new-Inv bm r (holding bm r o.0 o.1 m) held there (rw name missing) in
      subst
        (λ rs. Inv bm (record (taken r m o) {
          processes = insert (update m.heap r o.1 r).name r m.processes;
          replacing = rs;
        }))
        (remove_head r m.replacing) done

  replacing-Inv :
      (r old : ℕ) (m : Manager B) (o : B × Process × Option Error)
      → Inv bm m
      → IsNewest bm r m
      → Outcome bm m.available_ports (m.heap r) o
      → (e : Option Error) → o.2 ≡ e
      → Inv bm (replace_taken bm r old (taken r m o, e)).0
  unfolding replace_taken
  replacing-Inv r old m o v new out (some x) e = taken_error-Inv r m x o v new out e
  replacing-Inv r old m o v new out none e =
      holding-Inv bm m r o.0 o.1 new (Outcome-Fits r m o v out e) v

  pub Outcome-of :
      (r : ℕ) (m : Manager B)
      → Inv bm m
      → Outcome bm m.available_ports
          (m.heap r)
          (allocate_process_ports bm m.available_ports (m.heap r))
  Outcome-of r m v = allocate_process_ports-Outcome bm m.available_ports (m.heap r) v.range

  -- A new process that is registered, or refused.
  pub register_process-Inv :
      (r : ℕ) (m : Manager B) → Inv bm m → IsNewest bm r m → Inv bm (register_process bm r m).0
  unfolding register_process
  register_process-Inv r m v new = elim (Option-cases (lookup (m.heap r).name m.processes)) [
    | inl missing ↦
        rw (missing, register_process)
          (registered-Inv r m (allocate_process_ports bm m.available_ports (m.heap r)) v new
            (Outcome-of r m v) missing _ refl)
    | inr (i, e) ↦ rw (e, register_process) v
  ]

  -- A replacement that gets its ports, or is refused.
  pub init_process_replace-Inv :
      (r : ℕ) (m : Manager B) → Inv bm m → IsNewest bm r m → Inv bm (init_process_replace bm r m).0
  unfolding init_process_replace
  init_process_replace-Inv r m v new = elim (Option-cases (lookup (m.heap r).name m.processes)) [
    | inl missing ↦ rw (missing, init_process_replace) v
    | inr (i, e) ↦
        rw (e, init_process_replace)
          (replacing-Inv r i m (allocate_process_ports bm m.available_ports (m.heap r)) v new
            (Outcome-of r m v) _ refl)
  ]
