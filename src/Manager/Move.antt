-- ===== src/Manager/Move.antt =====
-- The three ways in which a process enters or leaves the table keep the invariant, when the bitmap
-- changes by the ports of the process that leaves.
use longhorn_instance_manage.Base.{
  ℕ, ℤ, ◌+◌, ◌<◌, Text, ◌≡◌, sym, true, Option, some, arith, inl, inr, ◌∙◌, lookup, insert, delete,
  insert-UniqueKeys, delete-UniqueKeys, lookup-insert, lookup-delete_ne, lookup-delete_self,
  text_eq, text_eq_iff, Bool-cases,
}
use longhorn_instance_manage.Bitmap.{PortBitmap}
use longhorn_instance_manage.Manager.{Manager, remove, contains}
use longhorn_instance_manage.Manager.Release.{HasRange}
use longhorn_instance_manage.Manager.Holders.{
  count_if, weight_of, held-insert, held-delete, held-remove, insert-TableBelow, delete-TableBelow,
  remove-ListBelow, contains-ListBelow,
}
use longhorn_instance_manage.Manager.Invariant.{
  Inv, InBitmap, SameRange, IsPortRange-same, InBitmap-same, HasRange-moved,
}

module _ {B : Type 0} (bm : PortBitmap B) (m : Manager B) (v : Inv bm m) (b : B)
    (moved : SameRange bm m.available_ports b) where
  -- The bitmap `b` has gained what the optional process held.
  abbrev pub Gains : Option ℕ → Type 0
  Gains o =
      (q : ℤ)
      → InBitmap bm m.available_ports q
      → weight_of m.heap q o + count_if (bm.is_free m.available_ports q) ≡ count_if (bm.is_free b q)

  inside_before : (q : ℤ) → InBitmap bm b q → InBitmap bm m.available_ports q
  inside_before q h = InBitmap-same bm m.available_ports b q moved h

  ranges_after : (r : ℕ) → r < m.next → HasRange bm b (m.heap r)
  ranges_after r lt = HasRange-moved bm m.available_ports b (m.heap r) moved (v.ranges r lt)

  abbrev pub installed : ℕ → Manager B
  installed r = record m {
    available_ports = b;
    processes = insert (m.heap r).name r m.processes;
    replacing = remove r m.replacing;
  }

  installed_names :
      (r : ℕ) (k : Text) (i : ℕ)
      → lookup k (insert (m.heap r).name r m.processes) ≡ some i
      → (m.heap i).name ≡ k
  installed_names r k i e = ground (
    arith,
    lookup-insert (m.heap r).name k r m.processes,
    text_eq_iff (m.heap r).name k,
    v.names k i,
  )

  -- A replacement takes its place in the table, and what stood there gives its ports up.
  pub installed-Inv :
      (r : ℕ)
      → contains r m.replacing ≡ true
      → Gains (lookup (m.heap r).name m.processes)
      → Inv bm (installed r)
  installed-Inv r c gains =
      let below = contains-ListBelow m.next r m.replacing v.list c in
      record {
        range = IsPortRange-same bm m.available_ports b moved v.range;
        conserved = λ q h. omega (
          arith,
          gains q (inside_before q h),
          v.conserved q (inside_before q h),
          held-insert m.heap q (m.heap r).name r m.processes,
          held-remove m.heap q r m.replacing c,
        );
        ranges = ranges_after;
        table = insert-TableBelow m.next (m.heap r).name r m.processes below v.table;
        list = remove-ListBelow m.next r m.replacing v.list;
        keys = insert-UniqueKeys (m.heap r).name r m.processes v.keys;
        names = installed_names r;
        uuids = v.uuids;
      }

  abbrev pub dropped : ℕ → Manager B
  dropped r = record m { available_ports = b; replacing = remove r m.replacing }

  -- A replacement is given up, and gives its ports up.
  pub dropped-Inv : (r : ℕ) → contains r m.replacing ≡ true → Gains (some r) → Inv bm (dropped r)
  unfolding weight_of
  dropped-Inv r c gains = record {
    range = IsPortRange-same bm m.available_ports b moved v.range;
    conserved = λ q h. omega (
      arith,
      gains q (inside_before q h),
      v.conserved q (inside_before q h),
      held-remove m.heap q r m.replacing c,
    );
    ranges = ranges_after;
    table = v.table;
    list = remove-ListBelow m.next r m.replacing v.list;
    keys = v.keys;
    names = v.names;
    uuids = v.uuids;
  }

  abbrev pub deleted : Text → Manager B
  deleted k = record m { available_ports = b; processes = delete k m.processes }

  deleted_names :
      (k k' : Text) (i : ℕ) → lookup k' (delete k m.processes) ≡ some i → (m.heap i).name ≡ k'
  deleted_names k k' i e = elim (Bool-cases (text_eq k k')) [
    | inl same ↦
        let missing = lookup-delete_self k m.processes v.keys in
        ground (arith, missing, (text_eq_iff k k').0 same)
    | inr other ↦ v.names k' i (sym (lookup-delete_ne k k' m.processes other) ∙ e)
  ]

  -- A name leaves the table, and its process gives its ports up.
  pub deleted-Inv : (k : Text) → Gains (lookup k m.processes) → Inv bm (deleted k)
  deleted-Inv k gains = record {
    range = IsPortRange-same bm m.available_ports b moved v.range;
    conserved = λ q h. omega (
      arith,
      gains q (inside_before q h),
      v.conserved q (inside_before q h),
      held-delete m.heap q k m.processes,
    );
    ranges = ranges_after;
    table = delete-TableBelow m.next k m.processes v.table;
    list = v.list;
    keys = delete-UniqueKeys k m.processes v.keys;
    names = deleted_names k;
    uuids = v.uuids;
  }
