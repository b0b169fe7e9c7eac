-- ===== src/Manager/Rely.antt =====
-- What a call may rely on while it waits, and what it knows before and after each section.
use longhorn_instance_manage.Base.{
  ℕ, zero, suc, ◌+◌, ◌≤◌, ◌<◌, ◌≡◌, true, arith, ◌∙◌, ap, inl, inr, Bool-cases, Option-cases,
}
use longhorn_instance_manage.Bitmap.{PortBitmap}
use longhorn_instance_manage.Process.{is_stopped}
use longhorn_instance_manage.Manager.{Manager, contains}
use longhorn_instance_manage.Manager.Handlers.{wait_stopped}
use longhorn_instance_manage.Manager.Replace.{wait_replacement, poll}
use longhorn_instance_manage.Manager.Invariant.{Inv}
use longhorn_instance_manage.Manager.Local.{Local, Local-Inv, Local-next, Local-replacing}

module _ {B : Type 0} (bm : PortBitmap B) where
  -- The other goroutines keep the invariant, remove no object, and leave the replacement `r`, if it
  -- is the call's own, to the call.
  pub record Rely (others : ℕ → Manager B → Manager B) (r : ℕ) : Type 0 where
    pub keeps : (k : ℕ) (m : Manager B) → Inv bm m → Inv bm (others k m)
    pub grows : (k : ℕ) (m : Manager B) → m.next ≤ (others k m).next
    pub holds :
        (k : ℕ) (m : Manager B)
        → contains r m.replacing ≡ true
        → contains r (others k m).replacing ≡ true

  -- The object exists.
  pub record Known (r : ℕ) (m : Manager B) : Type 0 where
    pub inv : Inv bm m
    pub exists : r < m.next

  -- The call's own replacement holds its ports, and the process to replace exists.
  pub record Held (r old : ℕ) (m : Manager B) : Type 0 where
    pub inv : Inv bm m
    pub own : contains r m.replacing ≡ true
    pub exists : old < m.next

  pub Known-Local :
      (r : ℕ) (m : Manager B) {m' : Manager B} → Local bm m m' → Known r m → Known r m'
  Known-Local r m l k = record {
    inv = Local-Inv bm m l k.inv;
    exists = omega (arith, Local-next bm m l, k.exists);
  }

  pub Held-Local :
      (r old : ℕ) (m : Manager B) {m' : Manager B} → Local bm m m' → Held r old m → Held r old m'
  Held-Local r old m l k = record {
    inv = Local-Inv bm m l k.inv;
    own = ap (contains r) (Local-replacing bm m l) ∙ k.own;
    exists = omega (arith, Local-next bm m l, k.exists);
  }

  module _ (others : ℕ → Manager B → Manager B) where
    pub Known-others : (r k : ℕ) (m : Manager B) → Rely others r → Known r m → Known r (others k m)
    Known-others r k m rely known = record {
      inv = rely.keeps k m known.inv;
      exists = omega (arith, rely.grows k m, known.exists);
    }

    pub Held-others :
        (r old k : ℕ) (m : Manager B) → Rely others r → Held r old m → Held r old (others k m)
    Held-others r old k m rely held = record {
      inv = rely.keeps k m held.inv;
      own = rely.holds k m held.own;
      exists = omega (arith, rely.grows k m, held.exists);
    }

    -- Waiting is what the others do.
    pub wait_stopped-Known :
        (n r : ℕ) (m : Manager B) → Rely others r → Known r m → Known r (wait_stopped others n r m)
    unfolding wait_stopped
    wait_stopped-Known zero r m rely known = known
    wait_stopped-Known (suc n) r m rely known = elim (Bool-cases (is_stopped (m.heap r))) [
      | inl h ↦ rw h known
      | inr h ↦
          rw h
            (wait_stopped-Known n r (others (n + 8) m) rely (Known-others r (n + 8) m rely known))
    ]

    pub wait_replacement-Held :
        (n r old : ℕ) (m : Manager B)
        → Rely others r
        → Held r old m
        → Held r old (wait_replacement others n r m).0
    unfolding wait_replacement
    wait_replacement-Held zero r old m rely held = held
    wait_replacement-Held (suc n) r old m rely held = elim (Option-cases (poll (m.heap r).state)) [
      | inl h ↦
          rw (h, wait_replacement)
            (wait_replacement-Held n r old (others (n + 8) m) rely
              (Held-others r old (n + 8) m rely held))
      | inr (up, h) ↦ rw (h, wait_replacement) held
    ]
