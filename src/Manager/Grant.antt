-- ===== src/Manager/Grant.antt =====
-- `allocateProcessPorts` on a new object keeps the invariant, the object being counted as one that
-- holds its ports.
use longhorn_instance_manage.Base.{
  ℕ, ℤ, ◌+◌, ◌<◌, Text, ◌≡◌, refl, sym, some, List, ◌∷◌, arith, in_range, inl, inr, ◌∙◌, ap,
  parts_lem,
}
use longhorn_instance_manage.Bitmap.{PortBitmap}
use longhorn_instance_manage.Process.{Process}
use longhorn_instance_manage.Manager.{Manager, update}
use longhorn_instance_manage.Manager.Allocation.{IsPortRange}
use longhorn_instance_manage.Manager.Release.{HasRange, NoPorts}
use longhorn_instance_manage.Manager.Holders.{
  count_if, weight, held_in_list, TableBelow, ListBelow, held_in_table_same, held_in_list_same,
}
use longhorn_instance_manage.Manager.Invariant.{
  Inv, InBitmap, owners, weight_same, SameRange, IsPortRange-same, InBitmap-same, HasRange-moved,
  update_name, update_uuid, update_all, Agrees-update_above, update_self,
}

module _ {B : Type 0} (bm : PortBitmap B) where
  -- What an object that was given a range, or none, must satisfy.
  pub record Fits (b : B) (p : Process) (b' : B) (p' : Process) : Type 0 where
    pub same_range : SameRange bm b b'
    pub same_name : p'.name ≡ p.name
    pub same_uuid : p'.uuid ≡ p.uuid
    pub has_range : HasRange bm b' p'
    pub balance :
        (q : ℤ)
        → InBitmap bm b q
        → count_if (in_range p'.port_start p'.port_end q) + count_if (bm.is_free b' q)
          ≡ count_if (bm.is_free b q)

  -- The object at `r` is newer than everything in the table and the list.
  pub record IsNewest (r : ℕ) (m : Manager B) : Type 0 where
    pub below : r < m.next
    pub table : TableBelow r m.processes
    pub list : ListBelow r m.replacing
    pub none_yet : NoPorts (m.heap r)

  -- The object holds what it was given.
  abbrev pub holding : ℕ → B → Process → Manager B → Manager B
  holding r b p m = record m {
    available_ports = b;
    heap = update m.heap r p;
    replacing = r ∷ m.replacing;
  }

  owners-holding :
      (m : Manager B) (r : ℕ) (b : B) (p : Process)
      → IsNewest r m
      → Fits m.available_ports (m.heap r) b p
      → (q : ℤ) → InBitmap bm m.available_ports q
      → owners bm (holding r b p m) q ≡ owners bm m q
  unfolding held_in_list weight
  owners-holding m r b p new fits q inside =
      let same =
        weight_same bm m.heap (update m.heap r p) r (Agrees-update_above bm m.heap r p) q in
      let self : weight (update m.heap r p) q r ≡ count_if (in_range p.port_start p.port_end q) =
        ap (λ (p' : Process). count_if (in_range p'.port_start p'.port_end q))
          (update_self bm m.heap r p) in
      omega (
        arith,
        self,
        held_in_table_same m.heap (update m.heap r p) q r same m.processes new.table,
        held_in_list_same m.heap (update m.heap r p) q r same m.replacing new.list,
        fits.balance q inside,
      )

  pub holding-Inv :
      (m : Manager B) (r : ℕ) (b : B) (p : Process)
      → IsNewest r m
      → Fits m.available_ports (m.heap r) b p
      → Inv bm m
      → Inv bm (holding r b p m)
  unfolding ListBelow
  holding-Inv m r b p new fits v = record {
    range = IsPortRange-same bm m.available_ports b fits.same_range v.range;
    conserved = λ q inside.
        let before = InBitmap-same bm m.available_ports b q fits.same_range inside in
        owners-holding m r b p new fits q before ∙ v.conserved q before;
    ranges = λ i lt.
        update_all bm m.heap r p i (HasRange bm b) fits.has_range
          (HasRange-moved bm m.available_ports b (m.heap i) fits.same_range (v.ranges i lt));
    table = v.table;
    list = (new.below, v.list);
    keys = v.keys;
    names = λ k i e. update_name bm m.heap r p i fits.same_name ∙ v.names k i e;
    uuids = λ i j li lj e. v.uuids i j li lj (
        sym (update_uuid bm m.heap r p i fits.same_uuid)
        ∙ e
        ∙ update_uuid bm m.heap r p j fits.same_uuid);
  }

  weightless :
      (b : B) (p : Process) (q : ℤ)
      → NoPorts p
      → IsPortRange bm b
      → InBitmap bm b q
      → count_if (in_range p.port_start p.port_end q) ≡ 0
  weightless b p q (s, e) v inside =
      rw (s, e) (ground (arith, v.positive, parts_lem q, parts_lem (bm.base b)))

  pub same_bitmap : (b : B) → SameRange bm b b
  same_bitmap b = record { same_base = refl; same_limit = refl }

  pub NoPorts-Fits :
      (b : B) (p p' : Process)
      → IsPortRange bm b
      → NoPorts p'
      → p'.name ≡ p.name
      → p'.uuid ≡ p.uuid
      → Fits b p b p'
  NoPorts-Fits b p p' v free n u = record {
    same_range = same_bitmap b;
    same_name = n;
    same_uuid = u;
    has_range = inl free;
    balance = λ q inside. omega (arith, weightless b p' q free v inside);
  }

  pub granted-Fits :
      (b : B) (p : Process) (s e : ℤ) (b' : B) (args : List Text)
      → bm.allocate_range b p.port_count ≡ some (s, e, b')
      → Fits b p b' (record p { port_start = s; port_end = e; args = args })
  granted-Fits b p s e b' args h =
      let n = p.port_count in
      let moved : SameRange bm b b' = record {
        same_base = bm.allocate_base b n s e b' h;
        same_limit = bm.allocate_limit b n s e b' h;
      } in
      record {
        same_range = moved;
        same_name = refl;
        same_uuid = refl;
        has_range =
            HasRange-moved bm b b' (record p { port_start = s; port_end = e; args = args }) moved
              (inr (
                bm.allocate_low b n s e b' h,
                bm.allocate_ordered b n s e b' h,
                bm.allocate_high b n s e b' h,
              ));
        balance = λ q _.
            ground (arith, bm.allocate_takes b n s e b' q h, bm.allocate_was_free b n s e b' q h);
      }
