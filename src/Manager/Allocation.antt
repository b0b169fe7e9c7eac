-- ===== src/Manager/Allocation.antt =====
-- What `allocateProcessPorts` can return, the range of the bitmap being a range of positive ports.
use longhorn_instance_manage.Base.{
  ℕ, ℤ, pos, suc, ◌+◌, ◌≤◌, ◌+ℤ◌, ◌≤ℤ◌, Text, ◌≡◌, refl, sym, ap, ◌∙◌, false, Option, none, some,
  List, [], ◌∷◌, ◌++◌, arith, Error, failed, length, codes, ltb_ℤ, eq_ℤ, int32, IsInt32,
  int32_of_IsInt32, int_laws, parts_lem, +ℤ_parts, Result, ok, err, inl, inr, Bool-cases,
  Option-cases,
}
use mathlib.Core.List.{append-nil, append_assoc}
use longhorn_instance_manage.Bitmap.{PortBitmap}
use longhorn_instance_manage.Process.{Process}
use longhorn_instance_manage.Strings.{split, itoa}
use longhorn_instance_manage.Manager.{
  append_port_args, allocate_ports, with_ports, allocate_process_ports,
}

-- The ports `start` to `end` have room for the arguments from the `i`-th on.
abbrev HasRoom : ℤ → ℤ → ℕ → List Text → Type 0
HasRoom start end i rest = start +ℤ pos (i + length rest) ≤ℤ end +ℤ pos 1

fits_lem :
    (start end : ℤ) (i : ℕ)
    → pos 0 ≤ℤ start
    → IsInt32 end
    → start +ℤ pos (suc i) ≤ℤ end +ℤ pos 1
    → ltb_ℤ end (int32 (start +ℤ int32 (pos i))) ≡ false
fits_lem start end i low fit room =
    rw
      (
        int32_of_IsInt32 (pos i) (omega int_laws, omega int_laws),
        int32_of_IsInt32 (start +ℤ pos i) (
          omega (int_laws, parts_lem (start +ℤ pos i)),
          omega (int_laws, parts_lem (start +ℤ pos i)),
        ),
      )
      (ground (arith, +ℤ_parts start (pos i), +ℤ_parts start (pos (suc i)), +ℤ_parts end (pos 1)))

-- The arguments that the port arguments from the `i`-th on become: each with its port behind it,
-- split at commas.
unfoldable pub expected_args : ℤ → ℕ → List Text → List Text
expected_args start i [] = []
expected_args start i (arg ∷ rest) =
    split b',' (arg ++ itoa (start +ℤ pos i)) ++ expected_args start (suc i) rest

-- From a port that is not negative to a 32-bit last port, if there is a port for each port
-- argument, the loop over the port arguments refuses none of them: it appends each one with its
-- port, split at the commas.
pub append_port_args_lem :
    (start end : ℤ) (i : ℕ) (rest args : List Text)
    → pos 0 ≤ℤ start
    → IsInt32 end
    → HasRoom start end i rest
    → append_port_args start end i rest args ≡ (args ++ expected_args start i rest, none)
unfolding append_port_args expected_args
append_port_args_lem start end i [] args low fit room =
    ap (λ (out : List Text). (out, none)) (sym (append-nil args))
append_port_args_lem start end i (arg ∷ rest) args low fit room =
    let here = split b',' (arg ++ itoa (start +ℤ pos i)) in
    rw (fits_lem start end i low fit (omega int_laws)) (
      append_port_args_lem start end (suc i) rest (args ++ here) low fit (omega int_laws)
      ∙ ap (λ (out : List Text). (out, none)) (append_assoc args here _))

module _ {B : Type 0} (bm : PortBitmap B) where
  -- The three results: an error that changes nothing in the bitmap, no ports for a count of 0, and
  -- a range of the bitmap.
  pub data Outcome (b : B) (p : Process) : B × Process × Option Error → Type 0 where
    refused : (x : Error) → Outcome b p (b, p, some x)
    denied :
        (x : Error) → Outcome b p (b, record p { port_start = pos 0; port_end = pos 0 }, some x)
    without :
        p.port_count ≡ pos 0
        → p.port_args ≡ []
        → Outcome b p (b, record p { port_start = pos 0; port_end = pos 0 }, none)
    granted :
        (s e : ℤ) (b' : B)
        → bm.allocate_range b p.port_count ≡ some (s, e, b')
        → Outcome b p (
          b',
          record p { port_start = s; port_end = e; args = p.args ++ expected_args s 0 p.port_args },
          none,
        )

  no_port_args :
      (s e : ℤ) (rest args : List Text)
      → length rest ≤ 0
      → append_port_args s e 0 rest args ≡ (args, none)
  unfolding append_port_args
  no_port_args s e [] args h = refl
  no_port_args s e (arg ∷ rest) args h = absurd (omega arith)

  nil_of_length : (ws : List Text) → length ws ≤ 0 → ws ≡ []
  nil_of_length [] h = refl
  nil_of_length (w ∷ ws) h = absurd (omega arith)

  denied_of :
      (b : B) (p : Process) (r : Result (ℤ × ℤ × B)) (x : Error)
      → r ≡ err x
      → Outcome b p (with_ports bm b p r)
  unfolding with_ports
  denied_of b p r x h = rw (h, with_ports) (denied x)

  without_of :
      (b : B) (p : Process)
      → p.port_count ≡ pos 0
      → length p.port_args ≤ 0
      → Outcome b p (with_ports bm b p (ok (pos 0, pos 0, b)))
  unfolding with_ports
  without_of b p z h =
      rw (no_port_args (pos 0) (pos 0) p.port_args p.args h)
        (without z (nil_of_length p.port_args h))

  granted_of :
      (b : B) (p : Process) (s e : ℤ) (b' : B)
      → bm.allocate_range b p.port_count ≡ some (s, e, b')
      → append_port_args s e 0 p.port_args p.args ≡ (p.args ++ expected_args s 0 p.port_args, none)
      → Outcome b p (with_ports bm b p (ok (s, e, b')))
  unfolding with_ports
  granted_of b p s e b' h fits = rw fits (granted s e b' h)

  -- The range of the bitmap is one of positive ports.
  pub record IsPortRange (b : B) : Type 0 where
    pub positive : pos 1 ≤ℤ bm.base b
    pub fits : IsInt32 (bm.limit b)

  room_of :
      (b : B) (n s e : ℤ) (b' : B) (k : ℕ)
      → bm.allocate_range b n ≡ some (s, e, b')
      → pos k ≤ℤ n
      → s +ℤ pos (0 + k) ≤ℤ e +ℤ pos 1
  room_of b n s e b' k h le = rw (bm.allocate_size b n s e b' h) (omega int_laws)

  low_of :
      (b : B) (n s e : ℤ) (b' : B)
      → IsPortRange b
      → bm.allocate_range b n ≡ some (s, e, b')
      → pos 0 ≤ℤ s
  low_of b n s e b' v h = omega (arith, v.positive, bm.allocate_low b n s e b' h)

  high_of :
      (b : B) (n s e : ℤ) (b' : B)
      → IsPortRange b
      → bm.allocate_range b n ≡ some (s, e, b')
      → IsInt32 e
  high_of b n s e b' v h =
      let high = bm.allocate_high b n s e b' h in
      let low = bm.allocate_low b n s e b' h in
      let ordered = bm.allocate_ordered b n s e b' h in
      (
        omega (arith, parts_lem e, parts_lem (bm.limit b)),
        omega (arith, parts_lem e, parts_lem (bm.base b), parts_lem s),
      )

  with_ports-Outcome :
      (b : B) (p : Process)
      → IsPortRange b
      → pos (length p.port_args) ≤ℤ p.port_count
      → Outcome b p (with_ports bm b p (allocate_ports bm b p.port_count))
  with_ports-Outcome b p v le = elim (Bool-cases (ltb_ℤ p.port_count (pos 0))) [
    | inl neg ↦
        denied_of b p _ (failed (codes "invalid port count")) (unfold allocate_ports in rw neg)
    | inr nonneg ↦ elim (Bool-cases (eq_ℤ p.port_count (pos 0))) [
      | inl z ↦
          let r : allocate_ports bm b p.port_count ≡ ok (pos 0, pos 0, b) =
            unfold allocate_ports in rw (nonneg, z) in
          rw r (without_of b p (ground arith) (ground arith))
      | inr nz ↦ elim (Option-cases (bm.allocate_range b p.port_count)) [
        | inl full ↦
            denied_of b p _ (failed (codes "failed to allocate ports"))
              (unfold allocate_ports in rw (nonneg, nz, full))
        | inr ((s, e, b'), h) ↦
            let r : allocate_ports bm b p.port_count ≡ ok (s, e, b') =
              unfold allocate_ports in rw (nonneg, nz, h) in
            rw r (
              granted_of b p s e b' h (
                append_port_args_lem s e 0 p.port_args p.args (low_of b p.port_count s e b' v h)
                  (high_of b p.port_count s e b' v h)
                  (room_of b p.port_count s e b' (length p.port_args) h le)))
      ]
    ]
  ]

  -- Over a bitmap of positive 32-bit ports, `allocateProcessPorts` either returns an error and
  -- leaves the bitmap as it was; or gives no ports to a process that asks for 0 and has no port
  -- arguments; or gives the range that the bitmap allocates, with every port argument behind the
  -- arguments.
  pub allocate_process_ports-Outcome :
      (b : B) (p : Process) → IsPortRange b → Outcome b p (allocate_process_ports bm b p)
  unfolding allocate_process_ports
  allocate_process_ports-Outcome b p v =
      elim (Bool-cases (ltb_ℤ p.port_count (pos (length p.port_args)))) [
        | inl few ↦ rw few (refused _)
        | inr enough ↦ rw enough (with_ports-Outcome b p v (ground arith))
      ]
