-- ===== src/Manager/Swap.antt =====
-- `ProcessReplace` keeps the invariant.
use longhorn_instance_manage.Base.{
  ℕ, Text, ◌≡◌, refl, Bool, true, false, not, Option, none, some, arith, ◌∙◌, sym, subst, inl, inr,
  Bool-cases, Option-cases, ◌||◌, Error, Result, ok, err, status, not_found, text_eq, is_empty,
  lookup, codes, ap,
}
use longhorn_instance_manage.Bitmap.{PortBitmap}
use longhorn_instance_manage.Process.{close_logger}
use longhorn_instance_manage.Process.Response.{ProcessSpec}
use longhorn_instance_manage.Manager.{
  Manager, sighup, sigint, contains, init_process_replace, replace_taken, take_ports,
  commit_replace, drop_replacement,
}
use longhorn_instance_manage.Manager.Handlers.{Env, new_process, add_object, modify, start_process}
use longhorn_instance_manage.Manager.Replace.{
  cleanup_replacement, replace_committed, replace_waited, replace_started, replace_initialized,
  process_replace,
}
use longhorn_instance_manage.Manager.Invariant.{Inv, IsFresh}
use longhorn_instance_manage.Manager.Begin.{init_process_replace-Inv}
use longhorn_instance_manage.Manager.Sections.{drop_replacement-Inv, commit_replace-Inv}
use longhorn_instance_manage.Manager.Holders.{lookup-TableBelow}
use longhorn_instance_manage.Manager.Local.{
  Local-Inv, log_lem, modify-Local, close_logger-Keeps, stop_with_signal-Local, start_process-Local,
}
use longhorn_instance_manage.Manager.Rely.{
  Rely, Held, Held-Local, Held-others, wait_replacement-Held,
}
use longhorn_instance_manage.Manager.Calls.{added-Inv, added-IsNewest}

module _ {B : Type 0} (bm : PortBitmap B) (env : Env B) where
  -- `cleanupReplacementProcess`.
  pub cleanup_replacement-Inv :
      (r old : ℕ) (m : Manager B) → Held bm r old m → Inv bm (cleanup_replacement bm env r m)
  unfolding cleanup_replacement
  cleanup_replacement-Inv r old m held =
      let held' = Held-Local bm r old m (stop_with_signal-Local bm sigint (env.now 0) r m) held in
      drop_replacement-Inv bm r _ held'.inv held'.own

  -- A refused replacement leaves the manager as it was.
  pub commit_replace-false :
      (r old : ℕ) (m : Manager B)
      → (commit_replace bm r old m).1 ≡ false
      → (commit_replace bm r old m).0 ≡ m
  unfolding commit_replace
  commit_replace-false r old m h = ground arith

  module _ (r old : ℕ) (rely : Rely bm env.others r) where
    -- The last section, and what follows it: the replacement is either in the table or given up.
    committed-Inv :
        (res : Manager B × Bool)
        → Inv bm res.0
        → (res.1 ≡ false → Held bm r old res.0)
        → Inv bm (replace_committed bm env r res).0
    unfolding replace_committed
    committed-Inv (m, false) v held = cleanup_replacement-Inv r old m (held refl)
    committed-Inv (m, true) v held =
        rely.keeps 3 _ (Local-Inv bm m (log_lem bm m _ m.goroutines m.signals) v)

    replace_committed-Inv :
        (m : Manager B)
        → Held bm r old m
        → Inv bm (replace_committed bm env r (commit_replace bm r old m)).0
    replace_committed-Inv m held =
        committed-Inv (commit_replace bm r old m)
          (commit_replace-Inv bm r old m held.inv held.own held.exists)
          (λ h. subst (Held bm r old) (sym (commit_replace-false r old m h)) held)

    replace_waited-Inv :
        (res : Manager B × Bool) → Held bm r old res.0 → Inv bm (replace_waited bm env r old res).0
    unfolding replace_waited
    replace_waited-Inv (m, false) held = cleanup_replacement-Inv r old m held
    replace_waited-Inv (m, true) held = replace_committed-Inv _ (
        Held-others bm env.others r old 2 _ rely
          (Held-Local bm r old m (stop_with_signal-Local bm sighup (env.now 1) old m) held))

    replace_started-Inv :
        (res : Manager B × Option Text)
        → Held bm r old res.0
        → Inv bm (replace_started bm env r old res).0
    unfolding replace_started
    replace_started-Inv (m, some e) held = cleanup_replacement-Inv r old m held
    replace_started-Inv (m, none) held = replace_waited-Inv _ (
        wait_replacement-Held bm env.others 30 r old _ rely
          (Held-others bm env.others r old 1 m rely held))

    same_binary-Inv :
        (m : Manager B) → Held bm r old m → Inv bm (drop_replacement bm r (modify r close_logger m))
    same_binary-Inv m held =
        let held' =
          Held-Local bm r old m (modify-Local bm r close_logger m (close_logger-Keeps _)) held in
        drop_replacement-Inv bm r _ held'.inv held'.own

    pub replace_initialized-Inv :
        (m : Manager B) → Held bm r old m → Inv bm (replace_initialized bm env r (m, ok old)).0
    unfolding replace_initialized
    replace_initialized-Inv m held =
        let now = env.others 0 m in
        let held' = Held-others bm env.others r old 0 m rely held in
        elim (Bool-cases (text_eq (now.heap old).binary (now.heap r).binary)) [
          | inl h ↦ rw h (same_binary-Inv now held')
          | inr h ↦ rw h (
              replace_started-Inv (start_process env.command_error r now)
                (Held-Local bm r old now (start_process-Local bm env.command_error r now) held'))
        ]

  replace_taken_ok :
      (r i old : ℕ) (res : Manager B × Option Error)
      → (replace_taken bm r i res).1 ≡ ok old
      → (i ≡ old)
        × (contains r (replace_taken bm r i res).0.replacing ≡ true)
        × ((replace_taken bm r i res).0.next ≡ res.0.next)
  unfolding replace_taken
  replace_taken_ok r i old (m, some e) h = cc
  replace_taken_ok r i old (m, none) h = (cc, ground arith, refl)

  pub init_missing :
      (r : ℕ) (m : Manager B)
      → lookup (m.heap r).name m.processes ≡ none
      → init_process_replace bm r m ≡ (m, err (status not_found))
  unfolding init_process_replace
  init_missing r m e = rw (e, init_process_replace)

  init_found :
      (r i : ℕ) (m : Manager B)
      → lookup (m.heap r).name m.processes ≡ some i
      → init_process_replace bm r m ≡ replace_taken bm r i (take_ports bm r m)
  unfolding init_process_replace
  init_found r i m e = rw (e, init_process_replace)

  take_ports_next : (r : ℕ) (m : Manager B) → (take_ports bm r m).0.next ≡ m.next
  unfolding take_ports
  take_ports_next r m = refl

  -- What `initProcessReplace` returns exists, and the new object is the call's own.
  init_process_replace-Held :
      (r old : ℕ) (m : Manager B)
      → Inv bm m
      → Inv bm (init_process_replace bm r m).0
      → (init_process_replace bm r m).1 ≡ ok old
      → Held bm r old (init_process_replace bm r m).0
  init_process_replace-Held r old m v v' h =
      elim (Option-cases (lookup (m.heap r).name m.processes)) [
        | inl missing ↦ cc (ap (λ (x : Manager B × Result ℕ). x.1) (init_missing r m missing))
        | inr (i, e) ↦
            let found = init_found r i m e in
            let (same, own, next) =
              replace_taken_ok r i old (take_ports bm r m)
                (sym (ap (λ (x : Manager B × Result ℕ). x.1) found) ∙ h) in
            let kept = ap (λ (x : Manager B × Result ℕ). x.0.next) found in
            record {
              inv = v';
              own = ap (λ (x : Manager B × Result ℕ). contains r x.0.replacing) found ∙ own;
              exists = omega (
                arith,
                same,
                next,
                kept,
                take_ports_next r m,
                lookup-TableBelow m.next (m.heap r).name m.processes i v.table e,
              );
            }
      ]

  replaced-Inv :
      (r : ℕ) (res : Manager B × Result ℕ)
      → Rely bm env.others r
      → Inv bm res.0
      → ((old : ℕ) → res.1 ≡ ok old → Held bm r old res.0)
      → Inv bm (replace_initialized bm env r res).0
  unfolding replace_initialized
  replaced-Inv r (m, err e) rely v held =
      Local-Inv bm m (modify-Local bm r close_logger m (close_logger-Keeps _)) v
  replaced-Inv r (m, ok old) rely v held = replace_initialized-Inv r old rely m (held old refl)

  -- From a well-formed manager, `ProcessReplace` leaves a well-formed one on every branch, if its
  -- UUID is fresh and the goroutines that run while it waits keep managers well formed, remove no
  -- object and leave its own replacement alone.
  pub process_replace-Inv :
      (spec : ProcessSpec) (terminate : Text) (m : Manager B)
      → Inv bm m
      → IsFresh bm m env.uuid
      → Rely bm env.others m.next
      → Inv bm (process_replace bm env spec terminate m).0
  unfolding process_replace
  process_replace-Inv spec terminate m v fresh rely =
      elim (Bool-cases (is_empty spec.name || is_empty spec.binary)) [
        | inl h ↦ rw h v
        | inr h ↦ elim (Bool-cases (not (text_eq terminate (codes "SIGHUP")))) [
          | inl t ↦ rw (h, t) v
          | inr t ↦ elim (Option-cases env.logger_error) [
            | inr (e, l) ↦ rw (h, t, l) v
            | inl l ↦
                let added = add_object (new_process spec env.uuid) m in
                let v' = added-Inv bm env spec m v fresh in
                let begun =
                  init_process_replace-Inv bm m.next added v' (added-IsNewest bm env spec m v) in
                rw (h, t, l)
                  (replaced-Inv m.next (init_process_replace bm m.next added) rely begun
                    (λ old. init_process_replace-Held m.next old added v' begun))
          ]
        ]
      ]
