-- ===== src/Manager/Conditions.antt =====
-- `checkMountPointStatusForEngine` of pkg/process/process_manager.go: a running engine whose volume is
-- mounted gets the condition `FilesystemReadOnly`, and is announced.
use longhorn_instance_manage.Base.{
  ℕ, Text, Bool, true, false, ◌&&◌, Option, none, some, List, [], ◌∷◌, ◌++◌, Dict, insert, codes,
  ◌≡◌, refl, arith, if◌then◌else◌, Option-cases, inl, inr, Bool-cases, ◌==◌, ap, sym, ◌∙◌,
}
use longhorn_instance_manage.Bitmap.{PortBitmap}
use longhorn_instance_manage.Names.{process_name_to_volume_name}
use longhorn_instance_manage.Process.{Process, State, running}
use longhorn_instance_manage.Manager.{Manager, update}
use longhorn_instance_manage.Manager.Invariant.{Agrees}
use longhorn_instance_manage.Manager.Local.{
  Keeps, Local, local, Local-refl, Agrees-refl, Agrees-trans, Keeps-Agrees,
}

abbrev is_running_state : State → Bool
is_running_state running = true
is_running_state _ = false

unfoldable pub set_read_only : Bool → Process → Process
set_read_only read_only p = record p {
  conditions = insert (codes "FilesystemReadOnly") read_only p.conditions;
}

-- `is_engine` is `IsEngineProcess` of go-common-libs. `mounts` is what the mount table says of a
-- volume: whether its mount point is read-only, if it has one.
module _ (is_engine : Text → Bool) (mounts : Text → Option Bool) where
  -- What to set; `none` for the panic of `ProcessNameToVolumeName`.
  unfoldable pub condition_of : Process → Option (Option Bool)
  condition_of p =
      if is_engine p.name && is_running_state p.state
      then elim (process_name_to_volume_name p.name) [
        | none ↦ none
        | some volume ↦ some (mounts volume)
      ]
      else some none

  abbrev announced : ℕ → Option ((ℕ → Process) × List ℕ) → Option ((ℕ → Process) × List ℕ)
  announced r none = none
  announced r (some (h, rs)) = some (h, r ∷ rs)

  -- `getProcessesToUpdateConditions`: the loop over the table.
  unfoldable pub processes_to_update : Dict ℕ → (ℕ → Process) → Option ((ℕ → Process) × List ℕ)
  unfolding condition_of set_read_only
  processes_to_update [] h = some (h, [])
  processes_to_update ((k, r) ∷ rest) h =
      let later = processes_to_update rest in
      elim (condition_of (h r)) [
        | none ↦ none
        | some none ↦ later h
        | some (some read_only) ↦ announced r (later (update h r (set_read_only read_only (h r))))
      ]

  -- A process is announced for each change; after a panic, the manager is as it was.
  unfoldable pub updated : {B : Type 0} → Manager B → Option ((ℕ → Process) × List ℕ) → Manager B
  updated m none = m
  updated m (some (h, rs)) = record m { heap = h; updates = m.updates ++ rs }

  unfoldable pub check_mount_points : {B : Type 0} → Manager B → Manager B
  unfolding processes_to_update updated
  check_mount_points m = updated m (processes_to_update m.processes m.heap)

  set_read_only-Keeps : (b : Bool) (p : Process) → Keeps p (set_read_only b p)
  unfolding set_read_only
  set_read_only-Keeps b p = ground arith

  module _ {B : Type 0} (bm : PortBitmap B) (n : ℕ) where
    abbrev AgreesOf : (ℕ → Process) → Option ((ℕ → Process) × List ℕ) → Type 0
    AgreesOf h none = Unit
    AgreesOf h (some (h', rs)) = Agrees bm h h' n

    announced-AgreesOf :
        (r : ℕ) (h : ℕ → Process) (o : Option ((ℕ → Process) × List ℕ))
        → AgreesOf h o
        → AgreesOf h (announced r o)
    announced-AgreesOf r h none a = tt
    announced-AgreesOf r h (some (h', rs)) a = a

    AgreesOf-trans :
        (h h' : ℕ → Process) (o : Option ((ℕ → Process) × List ℕ))
        → Agrees bm h h' n
        → AgreesOf h' o
        → AgreesOf h o
    AgreesOf-trans h h' none a b = tt
    AgreesOf-trans h h' (some (h'', rs)) a b = Agrees-trans bm h h' h'' n a b

    processes_to_update-AgreesOf :
        (m : Dict ℕ) (h : ℕ → Process) → AgreesOf h (processes_to_update m h)
    unfolding processes_to_update
    processes_to_update-AgreesOf [] h = Agrees-refl bm h n
    processes_to_update-AgreesOf ((k, r) ∷ rest) h = elim (Option-cases (condition_of (h r))) [
      | inl e ↦ rw (e, processes_to_update) tt
      | inr (none, e) ↦ rw (e, processes_to_update) (processes_to_update-AgreesOf rest h)
      | inr (some b, e) ↦
          let h' = update h r (set_read_only b (h r)) in
          rw (e, processes_to_update)
            (announced-AgreesOf r h _ (
              AgreesOf-trans h h' _ (Keeps-Agrees bm h r n _ (set_read_only-Keeps b (h r)))
                (processes_to_update-AgreesOf rest h')))
    ]

  abbrev SameAt : ℕ → (ℕ → Process) → Option ((ℕ → Process) × List ℕ) → Type 0
  SameAt r h none = Unit
  SameAt r h (some (h', rs)) = h' r ≡ h r

  announced-SameAt :
      (r i : ℕ) (h h' : ℕ → Process) (o : Option ((ℕ → Process) × List ℕ))
      → h' r ≡ h r
      → SameAt r h' o
      → SameAt r h (announced i o)
  announced-SameAt r i h h' none e a = tt
  announced-SameAt r i h h' (some (h'', rs)) e a = a ∙ e

  other_process :
      (r i : ℕ) (h : ℕ → Process) (b : Bool)
      → condition_of (h r) ≡ some none
      → condition_of (h i) ≡ some (some b)
      → (p : Process) → update h i p r ≡ h r
  other_process r i h b c e p = elim (Bool-cases (r == i)) [
    | inr other ↦ rw other
    | inl same ↦
        let equal : r ≡ i = ground arith in
        let clash : some none ≡ some (some b) =
          sym c ∙ ap (λ (j : ℕ). condition_of (h j)) equal ∙ e in
        absurd (differ clash)
  ]
    where
      differ : {x : Bool} → (some none ≡ some (some x)) → ⊥
      differ h = cc

  processes_to_update-SameAt :
      (r : ℕ) (m : Dict ℕ) (h : ℕ → Process)
      → condition_of (h r) ≡ some none
      → SameAt r h (processes_to_update m h)
  unfolding processes_to_update
  processes_to_update-SameAt r [] h c = refl
  processes_to_update-SameAt r ((k, i) ∷ rest) h c = elim (Option-cases (condition_of (h i))) [
    | inl e ↦ rw (e, processes_to_update) tt
    | inr (none, e) ↦ rw (e, processes_to_update) (processes_to_update-SameAt r rest h c)
    | inr (some b, e) ↦
        let h' = update h i (set_read_only b (h i)) in
        let same : h' r ≡ h r = other_process r i h b c e (set_read_only b (h i)) in
        rw (e, processes_to_update)
          (announced-SameAt r i h h' _ same
            (processes_to_update-SameAt r rest h' (ap (λ (p : Process). condition_of p) same ∙ c)))
  ]

  module _ {B : Type 0} (bm : PortBitmap B) where
    updated-Local :
        (m : Manager B) (o : Option ((ℕ → Process) × List ℕ))
        → AgreesOf bm m.next m.heap o
        → Local bm m (updated m o)
    unfolding updated
    updated-Local m none a = Local-refl bm m
    updated-Local m (some (h, rs)) a = local h _ m.goroutines m.signals a

    pub check_mount_points-Local : (m : Manager B) → Local bm m (check_mount_points m)
    unfolding check_mount_points
    check_mount_points-Local m =
        updated-Local m (processes_to_update m.processes m.heap)
          (processes_to_update-AgreesOf bm m.next m.processes m.heap)

    updated-same :
        (r : ℕ) (m : Manager B) (o : Option ((ℕ → Process) × List ℕ))
        → SameAt r m.heap o
        → (updated m o).heap r ≡ m.heap r
    unfolding updated
    updated-same r m none a = refl
    updated-same r m (some (h, rs)) a = a

    -- A process that is not an engine, or is not running, or whose volume has no mount point, is not
    -- changed by `checkMountPointStatusForEngine`.
    pub check_mount_points-same :
        (r : ℕ) (m : Manager B)
        → condition_of (m.heap r) ≡ some none
        → (check_mount_points m).heap r ≡ m.heap r
    unfolding check_mount_points
    check_mount_points-same r m c =
        updated-same r m (processes_to_update m.processes m.heap)
          (processes_to_update-SameAt r m.processes m.heap c)
