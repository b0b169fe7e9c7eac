-- ===== src/Manager/Holders.antt =====
-- Who holds a port: the processes of the table and the replacements that are being started.
use longhorn_instance_manage.Base.{
  ℕ, ℤ, ◌+◌, ◌<◌, Text, ◌≡◌, refl, Bool, true, false, Option, none, some, List, [], ◌∷◌, arith,
  in_range, Dict, lookup, insert, delete,
}
use longhorn_instance_manage.Process.{Process}
use longhorn_instance_manage.Manager.{remove, contains}

abbrev pub count_if : Bool → ℕ
count_if true = 1
count_if false = 0

-- 1 if the process at `r` was given the port `q`.
unfoldable pub weight : (ℕ → Process) → ℤ → ℕ → ℕ
weight h q r = count_if (in_range (h r).port_start (h r).port_end q)

unfoldable pub weight_of : (ℕ → Process) → ℤ → Option ℕ → ℕ
weight_of h q none = 0
weight_of h q (some r) = weight h q r

unfoldable pub held_in_table : (ℕ → Process) → ℤ → Dict ℕ → ℕ
held_in_table h q [] = 0
held_in_table h q ((k, r) ∷ m) = weight h q r + held_in_table h q m

unfoldable pub held_in_list : (ℕ → Process) → ℤ → List ℕ → ℕ
held_in_list h q [] = 0
held_in_list h q (r ∷ rs) = weight h q r + held_in_list h q rs

module _ (h : ℕ → Process) (q : ℤ) where
  pub held-insert :
      (k : Text) (r : ℕ) (m : Dict ℕ)
      → held_in_table h q (insert k r m) + weight_of h q (lookup k m)
        ≡ held_in_table h q m + weight h q r
  unfolding held_in_table weight_of insert lookup
  held-insert k r [] = omega arith
  held-insert k r ((j, i) ∷ m) = ground (arith, held-insert k r m)

  pub held-delete :
      (k : Text) (m : Dict ℕ)
      → held_in_table h q (delete k m) + weight_of h q (lookup k m) ≡ held_in_table h q m
  unfolding held_in_table weight_of delete lookup
  held-delete k [] = omega arith
  held-delete k ((j, i) ∷ m) = ground (arith, held-delete k m)

  pub held-remove :
      (r : ℕ) (rs : List ℕ)
      → contains r rs ≡ true
      → held_in_list h q (remove r rs) + weight h q r ≡ held_in_list h q rs
  unfolding held_in_list
  held-remove r [] c = cc
  held-remove r (i ∷ is) c = ground (arith, held-remove r is)

-- Everything in the table, or in the list, stands below `n` in the heap.
unfoldable pub TableBelow : ℕ → Dict ℕ → Type 0
TableBelow n [] = Unit
TableBelow n ((k, r) ∷ m) = (r < n) × TableBelow n m

unfoldable pub ListBelow : ℕ → List ℕ → Type 0
ListBelow n [] = Unit
ListBelow n (r ∷ rs) = (r < n) × ListBelow n rs

module _ (n : ℕ) where
  pub lookup-TableBelow :
      (k : Text) (m : Dict ℕ) (r : ℕ) → TableBelow n m → lookup k m ≡ some r → r < n
  unfolding TableBelow lookup
  lookup-TableBelow k [] r b e = cc
  lookup-TableBelow k ((j, i) ∷ m) r b e = ground (arith, lookup-TableBelow k m r b.1)

  pub insert-TableBelow :
      (k : Text) (r : ℕ) (m : Dict ℕ) → r < n → TableBelow n m → TableBelow n (insert k r m)
  unfolding TableBelow insert
  insert-TableBelow k r [] lt b = (lt, tt)
  insert-TableBelow k r ((j, i) ∷ m) lt b = ground (arith, insert-TableBelow k r m lt b.1)

  pub delete-TableBelow : (k : Text) (m : Dict ℕ) → TableBelow n m → TableBelow n (delete k m)
  unfolding TableBelow delete
  delete-TableBelow k [] b = tt
  delete-TableBelow k ((j, i) ∷ m) b = ground (arith, delete-TableBelow k m b.1)

  pub contains-ListBelow : (r : ℕ) (rs : List ℕ) → ListBelow n rs → contains r rs ≡ true → r < n
  unfolding ListBelow
  contains-ListBelow r [] b c = cc
  contains-ListBelow r (i ∷ is) b c = ground (arith, contains-ListBelow r is b.1)

  pub remove-ListBelow : (r : ℕ) (rs : List ℕ) → ListBelow n rs → ListBelow n (remove r rs)
  unfolding ListBelow
  remove-ListBelow r [] b = tt
  remove-ListBelow r (i ∷ is) b = ground (arith, remove-ListBelow r is b.1)

pub TableBelow-mono : (n k : ℕ) (m : Dict ℕ) → n < k → TableBelow n m → TableBelow k m
unfolding TableBelow
TableBelow-mono n k [] lt b = tt
TableBelow-mono n k ((j, i) ∷ m) lt b = (omega arith, TableBelow-mono n k m lt b.1)

pub ListBelow-mono : (n k : ℕ) (rs : List ℕ) → n < k → ListBelow n rs → ListBelow k rs
unfolding ListBelow
ListBelow-mono n k [] lt b = tt
ListBelow-mono n k (i ∷ is) lt b = (omega arith, ListBelow-mono n k is lt b.1)

-- Two heaps with the same ports below `n`.
module _ (h h' : ℕ → Process) (q : ℤ) (n : ℕ)
    (same : (i : ℕ) → i < n → weight h' q i ≡ weight h q i) where
  pub held_in_table_same :
      (m : Dict ℕ) → TableBelow n m → held_in_table h' q m ≡ held_in_table h q m
  unfolding held_in_table TableBelow
  held_in_table_same [] b = refl
  held_in_table_same ((k, r) ∷ m) b = omega (arith, same r b.0, held_in_table_same m b.1)

  pub held_in_list_same :
      (rs : List ℕ) → ListBelow n rs → held_in_list h' q rs ≡ held_in_list h q rs
  unfolding held_in_list ListBelow
  held_in_list_same [] b = refl
  held_in_list_same (r ∷ rs) b = omega (arith, same r b.0, held_in_list_same rs b.1)
