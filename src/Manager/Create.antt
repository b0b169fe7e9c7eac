-- ===== src/Manager/Create.antt =====
-- `ProcessCreate` and `ProcessDelete` keep the invariant.
use longhorn_instance_manage.Base.{
  ℕ, Text, ◌≡◌, refl, not, Option, none, some, arith, inl, inr, Bool-cases, Option-cases, ◌&&◌,
  ◌||◌, Error, text_eq, is_empty, lookup,
}
use longhorn_instance_manage.Bitmap.{PortBitmap}
use longhorn_instance_manage.Process.Response.{ProcessSpec}
use longhorn_instance_manage.Manager.{
  Manager, sigint, register_process, register_taken, take_ports, is_current,
}
use longhorn_instance_manage.Manager.Handlers.{
  Env, new_process, add_object, send, start_process, unregister_process, create_started,
  create_registered, process_create, process_delete,
}
use longhorn_instance_manage.Manager.Invariant.{Inv, IsFresh}
use longhorn_instance_manage.Manager.Begin.{register_process-Inv}
use longhorn_instance_manage.Manager.Holders.{lookup-TableBelow}
use longhorn_instance_manage.Manager.Local.{
  Local-Inv, log_lem, stop_with_signal-Local, start_process-Local,
}
use longhorn_instance_manage.Manager.Rely.{Rely, Known, Known-Local, Known-others}
use longhorn_instance_manage.Manager.Calls.{close-Known, send-Known, added-Inv, added-IsNewest}

module _ {B : Type 0} (bm : PortBitmap B) where
  register_taken_next :
      (r : ℕ) (res : Manager B × Option Error) → (register_taken bm r res).0.next ≡ res.0.next
  unfolding register_taken
  register_taken_next r (m, some e) = refl
  register_taken_next r (m, none) = refl

  pub register_process_next : (r : ℕ) (m : Manager B) → (register_process bm r m).0.next ≡ m.next
  unfolding register_process
  register_process_next r m = elim (Option-cases (lookup (m.heap r).name m.processes)) [
    | inl h ↦ rw (h, register_process) (register_taken_next r (take_ports bm r m))
    | inr (i, h) ↦ rw (h, register_process)
  ]

  module _ (env : Env B) where
    create_started-Known :
        (r : ℕ) (res : Manager B × Option Text)
        → Known bm r res.0
        → Known bm r (create_started bm r res)
    unfolding create_started
    create_started-Known r (m, some e) known = send-Known bm env r r m known
    create_started-Known r (m, none) known = known

    create_registered-Known :
        (r : ℕ) (res : Manager B × Option Error)
        → Rely bm env.others r
        → Known bm r res.0
        → Known bm r (create_registered bm env r res).0
    unfolding create_registered
    create_registered-Known r (m, some e) rely known = close-Known bm env r r m known
    create_registered-Known r (m, none) rely known =
        let sent = env.others 0 (send r m) in
        Known-others bm env.others r 1 _ rely (
          create_started-Known r (start_process env.command_error r sent) (
            Known-Local bm r sent (start_process-Local bm env.command_error r sent)
              (Known-others bm env.others r 0 _ rely (send-Known bm env r r m known))))

    -- From a well-formed manager, `ProcessCreate` leaves a well-formed one on every branch, if its
    -- UUID is fresh and the goroutines that run while it waits keep managers well formed, remove no
    -- object and leave its own replacement alone.
    pub process_create-Inv :
        (spec : ProcessSpec) (m : Manager B)
        → Inv bm m
        → IsFresh bm m env.uuid
        → Rely bm env.others m.next
        → Inv bm (process_create bm env spec m).0
    unfolding process_create
    process_create-Inv spec m v fresh rely =
        elim (Bool-cases (is_empty spec.name || is_empty spec.binary)) [
          | inl h ↦ rw h v
          | inr h ↦ elim (Option-cases env.logger_error) [
            | inr (e, l) ↦ rw (h, l) v
            | inl l ↦
                let added = add_object (new_process spec env.uuid) m in
                let known : Known bm m.next (register_process bm m.next added).0 = record {
                  inv =
                      register_process-Inv bm m.next added (added-Inv bm env spec m v fresh)
                        (added-IsNewest bm env spec m v);
                  exists = omega (arith, register_process_next m.next added);
                } in
                rw (h, l) (create_registered-Known m.next _ rely known).inv
          ]
        ]

    unregister_process-Inv : (r : ℕ) (m : Manager B) → Inv bm m → Inv bm (unregister_process bm r m)
    unfolding unregister_process
    unregister_process-Inv r m v = elim (Bool-cases (is_current bm r m)) [
      | inl h ↦ rw h (Local-Inv bm m (log_lem bm m m.updates _ m.signals) v)
      | inr h ↦ rw h v
    ]

    -- From a well-formed manager, `ProcessDelete` leaves a well-formed one on every branch, if the
    -- goroutines that run while it waits keep managers well formed, remove no object and leave its
    -- own replacement alone.
    pub process_delete-Inv :
        (name uuid : Text) (m : Manager B)
        → Inv bm m
        → ((r : ℕ) → lookup name m.processes ≡ some r → Rely bm env.others r)
        → Inv bm (process_delete bm env name uuid m).0
    unfolding process_delete
    process_delete-Inv name uuid m v rely = elim (Option-cases (lookup name m.processes)) [
      | inl h ↦ rw (h, process_delete) v
      | inr (r, h) ↦
          let known : Known bm r m = record {
            inv = v;
            exists = lookup-TableBelow m.next name m.processes r v.table h;
          } in
          elim (Bool-cases (not (is_empty uuid) && not (text_eq (m.heap r).uuid uuid))) [
            | inl other ↦ rw (h, other, process_delete) v
            | inr same ↦
                rw (h, same, process_delete)
                  (unregister_process-Inv r _
                    (Known-others bm env.others r 0 _ (rely r h) (
                      Known-Local bm r m (stop_with_signal-Local bm sigint (env.now 0) r m)
                        known)).inv)
          ]
    ]
