-- ===== src/Manager/Safety.antt =====
-- What the invariant says of ports, and the invariant of a new manager.
use longhorn_instance_manage.Base.{
  ℕ, ℤ, pos, ◌+◌, ◌<◌, ◌≤◌, ◌≤ℤ◌, Text, ◌≡◌, ◌≢◌, ap, subst, >>=-eq-ok, external, codes, true,
  false, Option, none, some, List, [], ◌∷◌, arith, Error, ok, lookup, UniqueKeys, IsInt32, inl, inr,
  in_range, parts_lem, text_eq_iff, Bool-cases,
}
use longhorn_instance_manage.Bitmap.{PortBitmap}
use longhorn_instance_manage.PortRange.{parse_port_range, or_fail}
use longhorn_instance_manage.PortRange.Laws.{parse_port_range-IsInt32}
use longhorn_instance_manage.Process.{Process}
use longhorn_instance_manage.Manager.{Manager}
use longhorn_instance_manage.Manager.Handlers.{Env}
use longhorn_instance_manage.Manager.Invariant.{Inv, InBitmap}
use longhorn_instance_manage.Manager.Holders.{
  TableBelow, ListBelow, held_in_table, held_in_list, weight, count_if, lookup-TableBelow,
}
use longhorn_instance_manage.Manager.Run.{empty_manager, new_manager, run, Action, AllPermitted}
use longhorn_instance_manage.Manager.History.{run-Inv}

-- The process at `r` was given the port `q`.
abbrev pub HasPort : (ℕ → Process) → ℕ → ℤ → Type 0
HasPort h r q = in_range (h r).port_start (h r).port_end q ≡ true

module _ (h : ℕ → Process) (q : ℤ) where
  one_weight :
      (k : Text) (r : ℕ) (m : List (Text × ℕ))
      → lookup k m ≡ some r
      → weight h q r ≤ held_in_table h q m
  unfolding lookup held_in_table
  one_weight k r [] e = cc
  one_weight k r ((j, i) ∷ m) e = ground (arith, one_weight k r m)

  two_weights :
      (k k' : Text) (r r' : ℕ) (m : List (Text × ℕ))
      → k ≢ k'
      → lookup k m ≡ some r
      → lookup k' m ≡ some r'
      → weight h q r + weight h q r' ≤ held_in_table h q m
  unfolding lookup held_in_table
  two_weights k k' r r' [] ne e e' = cc
  two_weights k k' r r' ((j, i) ∷ m) ne e e' = ground (
    arith,
    text_eq_iff j k,
    text_eq_iff j k',
    one_weight k r m,
    one_weight k' r' m,
    two_weights k k' r r' m ne,
  )

  -- A port that the table holds has a process there.
  holder :
      (m : List (Text × ℕ))
      → UniqueKeys m
      → 0 < held_in_table h q m
      → (k : Text) × (r : ℕ) × (lookup k m ≡ some r) × HasPort h r q
  unfolding held_in_table UniqueKeys lookup weight
  holder [] u lt = absurd (omega arith)
  holder ((k, r) ∷ m) u lt = elim (Bool-cases (in_range (h r).port_start (h r).port_end q)) [
    | inl has ↦ (k, r, ground (arith, text_eq_iff k k), has)
    | inr not_has ↦
        let (k', r', e, has) = holder m u.1 (ground arith) in
        (k', r', ground (arith, text_eq_iff k k'), has)
  ]

ok_injective : {A : Type 0} {a b : A} → ok a ≡ ok b → a ≡ b
ok_injective e = cc

made_some : {A : Type 0} (o : Option A) (e : Error) (a : A) → or_fail o e ≡ ok a → o ≡ some a
made_some none e a h = cc
made_some (some b) e a h = cc

module _ {B : Type 0} (bm : PortBitmap B) where
  -- A port that a process has lies in the range of the bitmap.
  HasPort-InBitmap :
      (m : Manager B) (r : ℕ) (q : ℤ)
      → Inv bm m
      → r < m.next
      → pos 1 ≤ℤ q
      → HasPort m.heap r q
      → InBitmap bm m.available_ports q
  HasPort-InBitmap m r q v lt positive has = ground (arith, v.ranges r lt, parts_lem q)

  -- Two processes of the table never share a port.
  pub no_conflict :
      (m : Manager B) (k k' : Text) (r r' : ℕ) (q : ℤ)
      → Inv bm m
      → k ≢ k'
      → lookup k m.processes ≡ some r
      → lookup k' m.processes ≡ some r'
      → pos 1 ≤ℤ q
      → HasPort m.heap r q
      → ¬ HasPort m.heap r' q
  unfolding weight
  no_conflict m k k' r r' q v ne e e' positive has has' =
      let lt = lookup-TableBelow m.next k m.processes r v.table e in
      omega (
        arith,
        v.conserved q (HasPort-InBitmap m r q v lt positive has),
        two_weights m.heap q k k' r r' m.processes ne e e',
        ap count_if has,
        ap count_if has',
      )

  -- A port of the range that is not free belongs to a process of the table, when no replacement is
  -- being started.
  pub no_leak :
      (m : Manager B) (q : ℤ)
      → Inv bm m
      → m.replacing ≡ []
      → InBitmap bm m.available_ports q
      → bm.is_free m.available_ports q ≡ false
      → (k : Text) × (r : ℕ) × (lookup k m.processes ≡ some r) × HasPort m.heap r q
  unfolding held_in_list
  no_leak m q v idle inside taken =
      holder m.heap q m.processes v.keys
        (omega (arith, v.conserved q inside, ap count_if taken, ap (held_in_list m.heap q) idle))

  empty_manager-Inv :
      (s e : ℤ) (b : B)
      → bm.new_bitmap s e ≡ some b
      → pos 1 ≤ℤ s
      → IsInt32 e
      → Inv bm (empty_manager s e b)
  unfolding empty_manager held_in_table held_in_list TableBelow ListBelow UniqueKeys lookup
  empty_manager-Inv s e b h positive fits = record {
    range = record {
      positive = rw (bm.new_base s e b h) positive;
      fits = rw (bm.new_limit s e b h) fits;
    };
    conserved = λ q inside.
        ground (arith, bm.new_free s e b q h, bm.new_base s e b h, bm.new_limit s e b h, inside);
    ranges = λ r lt. absurd (omega arith);
    table = tt;
    list = tt;
    keys = tt;
    names = λ k r e'. cc;
    uuids = λ i j li lj e'. absurd (omega arith);
  }

  -- A manager that `NewManager` makes over a range whose first port is positive is well formed.
  pub new_manager-Inv :
      (range : Text) (m : Manager B)
      → new_manager bm range ≡ ok m
      → pos 1 ≤ℤ m.port_range_min
      → Inv bm m
  unfolding new_manager empty_manager
  new_manager-Inv range m h =
      let (ends, parsed, rest) = >>=-eq-ok (parse_port_range range) _ h in
      let (bitmap, made, done) =
        >>=-eq-ok (or_fail (bm.new_bitmap ends.0 ends.1) (external (codes "NewBitmap"))) _ rest in
      let fits = (parse_port_range-IsInt32 range ends.0 ends.1 parsed).1 in
      subst (λ (m' : Manager B). pos 1 ≤ℤ m'.port_range_min → Inv bm m') (ok_injective done)
        (λ positive.
          empty_manager-Inv ends.0 ends.1 bitmap
            (made_some _ (external (codes "NewBitmap")) bitmap made) positive fits)

  -- Along every history of a manager over a range of positive ports, in which each call gets a
  -- fresh UUID, each goroutine acts on a process that exists, and the goroutines that run while a
  -- call waits keep managers well formed, remove no object and leave the call's own replacement
  -- alone, two processes of the table with different names never share a port.
  pub run_no_conflict :
      (range : Text) (m : Manager B) (acts : List (Env B × Action)) (k k' : Text) (r r' : ℕ) (q : ℤ)
      → new_manager bm range ≡ ok m
      → pos 1 ≤ℤ m.port_range_min
      → AllPermitted bm acts m
      → k ≢ k'
      → lookup k (run bm acts m).processes ≡ some r
      → lookup k' (run bm acts m).processes ≡ some r'
      → pos 1 ≤ℤ q
      → HasPort (run bm acts m).heap r q
      → ¬ HasPort (run bm acts m).heap r' q
  run_no_conflict range m acts k k' r r' q made positive permitted =
      no_conflict (run bm acts m) k k' r r' q
        (run-Inv bm acts m permitted (new_manager-Inv range m made positive))

  -- Along every history of a manager over a range of positive ports, in which each call gets a
  -- fresh UUID, each goroutine acts on a process that exists, and the goroutines that run while a
  -- call waits keep managers well formed, remove no object and leave the call's own replacement
  -- alone, whenever no replacement is being started, a port of the range that is not free belongs
  -- to a process of the table.
  pub run_no_leak :
      (range : Text) (m : Manager B) (acts : List (Env B × Action)) (q : ℤ)
      → new_manager bm range ≡ ok m
      → pos 1 ≤ℤ m.port_range_min
      → AllPermitted bm acts m
      → (run bm acts m).replacing ≡ []
      → InBitmap bm (run bm acts m).available_ports q
      → bm.is_free (run bm acts m).available_ports q ≡ false
      → (k : Text) × (r : ℕ) × (lookup k (run bm acts m).processes ≡ some r)
        × HasPort (run bm acts m).heap r q
  run_no_leak range m acts q made positive permitted =
      no_leak (run bm acts m) q
        (run-Inv bm acts m permitted (new_manager-Inv range m made positive))
