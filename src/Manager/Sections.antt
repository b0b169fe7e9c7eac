-- ===== src/Manager/Sections.antt =====
-- Every locked section of the manager keeps the invariant.
use longhorn_instance_manage.Base.{
  ℕ, ℤ, ◌+◌, ◌≤◌, ◌<◌, Text, ◌≡◌, sym, true, none, some, arith, inl, inr, ◌∙◌, ap, subst, parts_lem,
  lookup, text_eq, text_eq_iff, Option-cases, Bool-cases,
}
use longhorn_instance_manage.Bitmap.{PortBitmap}
use longhorn_instance_manage.Manager.{
  Manager, contains, released, release_ports, release_process_ports, drop_replacement, is_current,
  unregister_locked, install, commit_replace,
}
use longhorn_instance_manage.Manager.Release.{Released, release-Released}
use longhorn_instance_manage.Manager.Holders.{
  count_if, weight, weight_of, held-delete, held-remove, contains-ListBelow, lookup-TableBelow,
}
use longhorn_instance_manage.Manager.Invariant.{Inv, InBitmap, SameRange}
use longhorn_instance_manage.Manager.Grant.{same_bitmap}
use longhorn_instance_manage.Manager.Move.{Gains, installed-Inv, dropped-Inv, deleted-Inv}

module _ {B : Type 0} (bm : PortBitmap B) where
  -- The bitmap after `releaseProcessPorts` of the process at `r`.
  abbrev pub after_release : ℕ → Manager B → B
  after_release r m =
      released bm m.available_ports
        (release_ports bm m.available_ports (m.heap r).port_start (m.heap r).port_end)

  pub release_lem :
      (r : ℕ) (m : Manager B)
      → Inv bm m
      → r < m.next
      → Released bm m.available_ports (m.heap r) (after_release r m)
  release_lem r m v lt = release-Released bm m.available_ports (m.heap r) v.range (v.ranges r lt)

  release_moved :
      (r : ℕ) (m : Manager B)
      → Inv bm m
      → r < m.next
      → SameRange bm m.available_ports (after_release r m)
  release_moved r m v lt =
      let rel = release_lem r m v lt in
      record { same_base = rel.same_base; same_limit = rel.same_limit }

  -- A process that is counted among the owners gives its ports to the bitmap.
  release-Gains :
      (r : ℕ) (m : Manager B) (v : Inv bm m) (lt : r < m.next)
      → ((q : ℤ)
          → InBitmap bm m.available_ports q
          → weight m.heap q r + count_if (bm.is_free m.available_ports q) ≤ 1)
      → Gains bm m v (after_release r m) (release_moved r m v lt) (some r)
  unfolding weight_of weight
  release-Gains r m v lt counted q inside =
      let rel = release_lem r m v lt in
      ground (
        arith,
        counted q inside,
        rel.frees q,
        v.range.positive,
        parts_lem q,
        parts_lem (bm.base m.available_ports),
      )

  counted_in_table :
      (k : Text) (r : ℕ) (m : Manager B)
      → Inv bm m
      → lookup k m.processes ≡ some r
      → (q : ℤ) → InBitmap bm m.available_ports q
      → weight m.heap q r + count_if (bm.is_free m.available_ports q) ≤ 1
  unfolding weight_of
  counted_in_table k r m v e q inside =
      let gone = held-delete m.heap q k m.processes in
      let gone' = rw e at gone in omega (arith, v.conserved q inside, gone')

  counted_in_list :
      (r : ℕ) (m : Manager B)
      → Inv bm m
      → contains r m.replacing ≡ true
      → (q : ℤ) → InBitmap bm m.available_ports q
      → weight m.heap q r + count_if (bm.is_free m.available_ports q) ≤ 1
  counted_in_list r m v c q inside =
      omega (arith, v.conserved q inside, held-remove m.heap q r m.replacing c)

  -- Giving a replacement up.
  pub drop_replacement-Inv :
      (r : ℕ) (m : Manager B)
      → Inv bm m
      → contains r m.replacing ≡ true
      → Inv bm (drop_replacement bm r m)
  unfolding drop_replacement
  drop_replacement-Inv r m v c =
      let lt = contains-ListBelow m.next r m.replacing v.list c in
      dropped-Inv bm m v (after_release r m) (release_moved r m v lt) r c
        (release-Gains r m v lt (counted_in_list r m v c))

  -- A process of the same UUID is the process itself.
  same_object :
      (m : Manager B) (k : Text) (i r : ℕ)
      → Inv bm m
      → r < m.next
      → lookup k m.processes ≡ some i
      → text_eq (m.heap i).uuid (m.heap r).uuid ≡ true
      → i ≡ r
  same_object m k i r v lt e h =
      v.uuids i r (lookup-TableBelow m.next k m.processes i v.table e) lt ((text_eq_iff _ _).0 h)

  is_current-lookup :
      (r : ℕ) (m : Manager B)
      → Inv bm m
      → r < m.next
      → is_current bm r m ≡ true
      → lookup (m.heap r).name m.processes ≡ some r
  unfolding is_current
  is_current-lookup r m v lt h = elim (Option-cases (lookup (m.heap r).name m.processes)) [
    | inl missing ↦ ground arith
    | inr (i, e) ↦ ground (arith, same_object m (m.heap r).name i r v lt e)
  ]

  -- The inner section of `unregisterProcess`.
  pub unregister_locked-Inv :
      (r : ℕ) (m : Manager B) → Inv bm m → r < m.next → Inv bm (unregister_locked bm r m)
  unfolding unregister_locked
  unregister_locked-Inv r m v lt = elim (Bool-cases (is_current bm r m)) [
    | inl h ↦
        let e = is_current-lookup r m v lt h in
        rw h (
          deleted-Inv bm m v (after_release r m) (release_moved r m v lt) (m.heap r).name (
            subst (Gains bm m v (after_release r m) (release_moved r m v lt)) (sym e)
              (release-Gains r m v lt (counted_in_table (m.heap r).name r m v e))))
    | inr h ↦ rw h v
  ]

  nothing_gained :
      (m : Manager B) (v : Inv bm m) → Gains bm m v m.available_ports (same_bitmap bm _) none
  unfolding weight_of
  nothing_gained m v q inside = omega arith

  -- A name that nothing holds.
  pub install_new-Inv :
      (r : ℕ) (m : Manager B)
      → Inv bm m
      → contains r m.replacing ≡ true
      → lookup (m.heap r).name m.processes ≡ none
      → Inv bm (install bm r m)
  unfolding install
  install_new-Inv r m v c e =
      installed-Inv bm m v m.available_ports (same_bitmap bm _) r c
        (subst (Gains bm m v m.available_ports (same_bitmap bm _)) (sym e) (nothing_gained m v))

  -- A name whose process is the one to replace.
  install_over-Inv :
      (r old : ℕ) (m : Manager B)
      → Inv bm m
      → contains r m.replacing ≡ true
      → old < m.next
      → lookup (m.heap r).name m.processes ≡ some old
      → Inv bm (install bm r (release_process_ports bm old m))
  unfolding install release_process_ports
  install_over-Inv r old m v c lt e =
      installed-Inv bm m v (after_release old m) (release_moved old m v lt) r c (
        subst (Gains bm m v (after_release old m) (release_moved old m v lt)) (sym e)
          (release-Gains old m v lt (counted_in_table (m.heap r).name old m v e)))

  -- The section that ends `ProcessReplace` keeps a manager well formed on each of its branches, if
  -- the new process holds ports as a replacement and the process to replace exists.
  pub commit_replace-Inv :
      (r old : ℕ) (m : Manager B)
      → Inv bm m
      → contains r m.replacing ≡ true
      → old < m.next
      → Inv bm (commit_replace bm r old m).0
  unfolding commit_replace
  commit_replace-Inv r old m v c lt = elim (Option-cases (lookup (m.heap r).name m.processes)) [
    | inl e ↦ rw (e, commit_replace) (install_new-Inv r m v c e)
    | inr (i, e) ↦ elim (Bool-cases (text_eq (m.heap i).uuid (m.heap old).uuid)) [
      | inl same ↦
          let i_old = same_object m (m.heap r).name i old v lt e same in
          rw (e, same, commit_replace) (install_over-Inv r old m v c lt (e ∙ ap some i_old))
      | inr other ↦ rw (e, other, commit_replace) v
    ]
  ]
