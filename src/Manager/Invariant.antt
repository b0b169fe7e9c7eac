-- ===== src/Manager/Invariant.antt =====
-- The invariant of the process manager: the port table, the table of processes and the objects agree.
use longhorn_instance_manage.Base.{
  ℕ, ℤ, ◌+◌, ◌<◌, Text, ◌≡◌, sym, true, some, arith, in_range, ◌==◌, lookup, UniqueKeys, inl, inr,
  ◌∙◌, ap, suc, Bool-cases,
}
use longhorn_instance_manage.Bitmap.{PortBitmap}
use longhorn_instance_manage.Process.{Process}
use longhorn_instance_manage.Manager.{Manager, update}
use longhorn_instance_manage.Manager.Handlers.{add_object}
use longhorn_instance_manage.Manager.Allocation.{IsPortRange}
use longhorn_instance_manage.Manager.Release.{HasRange, NoPorts}
use longhorn_instance_manage.Manager.Holders.{
  count_if, weight, held_in_table, held_in_list, TableBelow, ListBelow, TableBelow-mono,
  ListBelow-mono, held_in_table_same, held_in_list_same, lookup-TableBelow,
}

module _ {B : Type 0} (bm : PortBitmap B) where
  abbrev pub InBitmap : B → ℤ → Type 0
  InBitmap b q = in_range (bm.base b) (bm.limit b) q ≡ true

  -- How many processes, or the bitmap, have the port.
  abbrev pub owners : Manager B → ℤ → ℕ
  owners m q =
      held_in_table m.heap q m.processes
      + held_in_list m.heap q m.replacing
      + count_if (bm.is_free m.available_ports q)

  pub record Inv (m : Manager B) : Type 0 where
    pub range : IsPortRange bm m.available_ports
    -- Each port of the range is free or held by one process, and never both or neither.
    pub conserved : (q : ℤ) → InBitmap m.available_ports q → owners m q ≡ 1
    pub ranges : (r : ℕ) → r < m.next → HasRange bm m.available_ports (m.heap r)
    pub table : TableBelow m.next m.processes
    pub list : ListBelow m.next m.replacing
    pub keys : UniqueKeys m.processes
    pub names : (k : Text) (r : ℕ) → lookup k m.processes ≡ some r → (m.heap r).name ≡ k
    pub uuids : (i j : ℕ) → i < m.next → j < m.next → (m.heap i).uuid ≡ (m.heap j).uuid → i ≡ j

  abbrev pub IsFresh : Manager B → Text → Type 0
  IsFresh m u = (i : ℕ) → i < m.next → (m.heap i).uuid ≡ u → ⊥

  -- A bitmap over the same range.
  pub record SameRange (b b' : B) : Type 0 where
    pub same_base : bm.base b' ≡ bm.base b
    pub same_limit : bm.limit b' ≡ bm.limit b

  pub IsPortRange-same : (b b' : B) → SameRange b b' → IsPortRange bm b → IsPortRange bm b'
  IsPortRange-same b b' r v = record {
    positive = rw r.same_base v.positive;
    fits = rw r.same_limit v.fits;
  }

  pub InBitmap-same : (b b' : B) (q : ℤ) → SameRange b b' → InBitmap b' q → InBitmap b q
  InBitmap-same b b' q r h = rw (← r.same_base, ← r.same_limit) h

  pub HasRange-moved :
      (b b' : B) (p : Process) → SameRange b b' → HasRange bm b p → HasRange bm b' p
  HasRange-moved b b' p r h = rw (r.same_base, r.same_limit) h

  pub update_name :
      (h : ℕ → Process) (r : ℕ) (p : Process) (i : ℕ)
      → p.name ≡ (h r).name
      → (update h r p i).name ≡ (h i).name
  update_name h r p i e = ground arith

  pub update_uuid :
      (h : ℕ → Process) (r : ℕ) (p : Process) (i : ℕ)
      → p.uuid ≡ (h r).uuid
      → (update h r p i).uuid ≡ (h i).uuid
  update_uuid h r p i e = ground arith

  -- What holds of an object's replacement, and of the others, holds of all.
  pub update_all {ℓ} :
      (h : ℕ → Process) (r : ℕ) (p : Process) (i : ℕ)
      → (P : Process → Type ℓ) → P p
      → P (h i)
      → P (update h r p i)
  update_all h r p i P new old = elim (Bool-cases (i == r)) [ inl e ↦ rw e new | inr e ↦ rw e old ]

  -- What an operation on the object at `r` alone leaves as it was.
  pub record Agrees (h h' : ℕ → Process) (n : ℕ) : Type 0 where
    pub start : (i : ℕ) → i < n → (h' i).port_start ≡ (h i).port_start
    pub end : (i : ℕ) → i < n → (h' i).port_end ≡ (h i).port_end
    pub name : (i : ℕ) → i < n → (h' i).name ≡ (h i).name
    pub uuid : (i : ℕ) → i < n → (h' i).uuid ≡ (h i).uuid

  pub weight_same :
      (h h' : ℕ → Process) (n : ℕ)
      → Agrees h h' n
      → (q : ℤ) (i : ℕ) → i < n
      → weight h' q i ≡ weight h q i
  unfolding weight
  weight_same h h' n a q i lt = rw (a.start i lt, a.end i lt)

  pub HasRange-same :
      (b : B) (p p' : Process)
      → p'.port_start ≡ p.port_start
      → p'.port_end ≡ p.port_end
      → HasRange bm b p
      → HasRange bm b p'
  HasRange-same b p p' s e h = rw (s, e) h

  owners_same :
      (m : Manager B) (h : ℕ → Process) (n : ℕ)
      → Agrees m.heap h n
      → TableBelow n m.processes
      → ListBelow n m.replacing
      → (q : ℤ) → owners (record m { heap = h }) q ≡ owners m q
  owners_same m h n a t l q =
      let same = weight_same m.heap h n a q in
      omega (
        arith,
        held_in_table_same m.heap h q n same m.processes t,
        held_in_list_same m.heap h q n same m.replacing l,
      )

  -- The objects change in nothing that the invariant reads.
  pub Agrees-Inv :
      (m : Manager B) (h : ℕ → Process)
      → Agrees m.heap h m.next
      → Inv m
      → Inv (record m { heap = h })
  Agrees-Inv m h a v = record {
    range = v.range;
    conserved = λ q inside. owners_same m h m.next a v.table v.list q ∙ v.conserved q inside;
    ranges = λ r lt.
        HasRange-same m.available_ports (m.heap r) (h r) (a.start r lt) (a.end r lt)
          (v.ranges r lt);
    table = v.table;
    list = v.list;
    keys = v.keys;
    names = λ k r e. a.name r (lookup-TableBelow m.next k m.processes r v.table e) ∙ v.names k r e;
    uuids = λ i j li lj e. v.uuids i j li lj (sym (a.uuid i li) ∙ e ∙ a.uuid j lj);
  }

  update_other : (h : ℕ → Process) (r : ℕ) (p : Process) (i : ℕ) → i < r → update h r p i ≡ h i
  update_other h r p i lt = ground arith

  pub update_self : (h : ℕ → Process) (r : ℕ) (p : Process) → update h r p r ≡ p
  update_self h r p = ground arith

  pub Agrees-update_above : (h : ℕ → Process) (r : ℕ) (p : Process) → Agrees h (update h r p) r
  Agrees-update_above h r p = record {
    start = λ i lt. ground arith;
    end = λ i lt. ground arith;
    name = λ i lt. ground arith;
    uuid = λ i lt. ground arith;
  }

  with_new {ℓ} :
      (m : Manager B) (p : Process) (r : ℕ)
      → r < suc m.next
      → (P : Process → Type ℓ) → P p
      → (r < m.next → P (m.heap r))
      → P (update m.heap m.next p r)
  with_new m p r lt P new old = elim (Bool-cases (r == m.next)) [
    | inl e ↦ rw e new
    | inr e ↦ rw e (old (ground arith))
  ]

  new_uuids :
      (m : Manager B) (p : Process)
      → IsFresh m p.uuid
      → ((i j : ℕ) → i < m.next → j < m.next → (m.heap i).uuid ≡ (m.heap j).uuid → i ≡ j)
      → (i j : ℕ) → i < suc m.next
      → j < suc m.next
      → (update m.heap m.next p i).uuid ≡ (update m.heap m.next p j).uuid
      → i ≡ j
  new_uuids m p fresh old i j li lj e = ground (arith, old i j, fresh i, fresh j)

  -- A new object with a fresh UUID and no ports.
  pub add_object-Inv :
      (m : Manager B) (p : Process) → IsFresh m p.uuid → NoPorts p → Inv m → Inv (add_object p m)
  add_object-Inv m p fresh none_yet v = record {
    range = v.range;
    conserved = λ q inside.
        owners_same m (update m.heap m.next p) m.next (Agrees-update_above m.heap m.next p) v.table
          v.list q
        ∙ v.conserved q inside;
    ranges = λ r lt.
        with_new m p r lt (λ p'. HasRange bm m.available_ports p') (inl none_yet)
          (λ below. v.ranges r below);
    table = TableBelow-mono m.next (suc m.next) m.processes (omega arith) v.table;
    list = ListBelow-mono m.next (suc m.next) m.replacing (omega arith) v.list;
    keys = v.keys;
    names = λ k r e.
        let below = lookup-TableBelow m.next k m.processes r v.table e in
        ap (λ p'. p'.name) (update_other m.heap m.next p r below) ∙ v.names k r e;
    uuids = new_uuids m p fresh v.uuids;
  }
