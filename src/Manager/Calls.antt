-- ===== src/Manager/Calls.antt =====
-- Every handler and goroutine keeps the invariant, whatever the other goroutines do meanwhile.
use longhorn_instance_manage.Base.{
  ℕ, Bool, pos, ◌≡◌, refl, arith, if◌then◌else◌, inl, inr, Bool-cases,
}
use longhorn_instance_manage.Bitmap.{PortBitmap}
use longhorn_instance_manage.Process.{
  Process, StopPlan, StopStart, stop_start, not_running, signal_and_wait, kill, is_stopped,
  close_logger, stop_not_running, wait_count,
}
use longhorn_instance_manage.Process.Response.{ProcessSpec}
use longhorn_instance_manage.Manager.{Manager, Signal, sigkill}
use longhorn_instance_manage.Manager.Handlers.{
  Env, add_object, new_process, modify, send, signal, wait_stopped, stop_goroutine,
  unregister_goroutine,
}
use longhorn_instance_manage.Manager.Invariant.{Inv, IsFresh, add_object-Inv}
use longhorn_instance_manage.Manager.Grant.{IsNewest}
use longhorn_instance_manage.Manager.Sections.{unregister_locked-Inv}
use longhorn_instance_manage.Manager.Local.{
  Local-Inv, log_lem, modify-Local, close_logger-Keeps, stop_not_running-Keeps,
}
use longhorn_instance_manage.Manager.Rely.{
  Rely, Known, Known-Local, Known-others, wait_stopped-Known,
}

module _ {B : Type 0} (bm : PortBitmap B) (env : Env B) where
  pub close-Known : (r i : ℕ) (m : Manager B) → Known bm r m → Known bm r (modify i close_logger m)
  close-Known r i m = Known-Local bm r m (modify-Local bm i close_logger m (close_logger-Keeps _))

  pub send-Known : (r i : ℕ) (m : Manager B) → Known bm r m → Known bm r (send i m)
  send-Known r i m = Known-Local bm r m (log_lem bm m _ m.goroutines m.signals)

  signal-Known : (r i : ℕ) (s : Signal) (m : Manager B) → Known bm r m → Known bm r (signal i s m)
  signal-Known r i s m = Known-Local bm r m (log_lem bm m m.updates m.goroutines _)

  kill_Known :
      (r : ℕ) (m : Manager B)
      → Known bm r m
      → Known bm r (if is_stopped (m.heap r) then m else signal r sigkill m)
  kill_Known r m known = elim (Bool-cases (is_stopped (m.heap r))) [
    | inl h ↦ rw h known
    | inr h ↦ rw h (signal-Known r r sigkill m known)
  ]

  -- The goroutine of `StopWithSignal`.
  pub stop_goroutine-Known :
      (r : ℕ) (s : Signal) (plan : StopPlan) (has_cmd : Bool) (m : Manager B)
      → Rely bm env.others r
      → Known bm r m
      → Known bm r (stop_goroutine env r s plan has_cmd m)
  unfolding stop_goroutine
  stop_goroutine-Known r s plan has_cmd m rely known =
      by_start (stop_start plan has_cmd (m.heap r)) refl
    where
      by_start :
          (c : StopStart)
          → stop_start plan has_cmd (m.heap r) ≡ c
          → Known bm r (stop_goroutine env r s plan has_cmd m)
      by_start not_running e =
          rw (e, stop_goroutine)
            (close-Known r r _ (
              Known-Local bm r m (modify-Local bm r stop_not_running m (stop_not_running-Keeps _))
                known))
      by_start signal_and_wait e =
          rw (e, stop_goroutine)
            (close-Known r r _ (
              kill_Known r _ (
                wait_stopped-Known bm env.others wait_count r _ rely (signal-Known r r s m known))))
      by_start kill e =
          rw (e, stop_goroutine) (close-Known r r _ (signal-Known r r sigkill m known))

  -- The goroutine of `unregisterProcess`.
  pub unregister_goroutine-Inv :
      (r : ℕ) (m : Manager B)
      → Rely bm env.others r
      → Known bm r m
      → Inv bm (unregister_goroutine bm env r m)
  unfolding unregister_goroutine
  unregister_goroutine-Inv r m rely known =
      let waited = wait_stopped env.others wait_count r m in
      let known' = wait_stopped-Known bm env.others wait_count r m rely known in
      elim (Bool-cases (is_stopped (waited.heap r))) [
        | inl h ↦
            let before = Known-others bm env.others r 0 waited rely known' in
            let after = unregister_locked-Inv bm r (env.others 0 waited) before.inv before.exists in
            rw h (Local-Inv bm _ (log_lem bm _ _ _ _) after)
        | inr h ↦ rw h known'.inv
      ]

  -- A new object is the newest.
  added-IsNewest_heap :
      (m : Manager B) (p : Process)
      → Inv bm m
      → p.port_start ≡ pos 0
      → p.port_end ≡ pos 0
      → IsNewest bm m.next (add_object p m)
  added-IsNewest_heap m p v s e = record {
    below = omega arith;
    table = v.table;
    list = v.list;
    none_yet = (ground arith, ground arith);
  }

  pub added-Inv :
      (spec : ProcessSpec) (m : Manager B)
      → Inv bm m
      → IsFresh bm m env.uuid
      → Inv bm (add_object (new_process spec env.uuid) m)
  unfolding new_process
  added-Inv spec m v fresh = add_object-Inv bm m _ fresh (refl, refl) v

  pub added-IsNewest :
      (spec : ProcessSpec) (m : Manager B)
      → Inv bm m
      → IsNewest bm m.next (add_object (new_process spec env.uuid) m)
  unfolding new_process
  added-IsNewest spec m v = added-IsNewest_heap m _ v refl refl
