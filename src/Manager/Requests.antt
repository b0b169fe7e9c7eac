-- ===== src/Manager/Requests.antt =====
-- What each request answers, and what it changes.
use mathlib.Core.List.{append-nil}
use longhorn_instance_manage.Base.{
  ℕ, ℤ, pos, ◌<◌, ◌≤ℤ◌, ◌+ℤ◌, ◌-ℤ◌, Text, ◌≡◌, ◌≢◌, refl, true, false, Option, none, some, ◌++◌,
  arith, in_range, ◌⊎◌, inl, inr, ◌∙◌, ap, lookup, ◌||◌, delete, lookup-insert, lookup-delete_self,
  Option-cases, Error, status, already_exists, err, text_eq_iff, text_eq_refl, parts_lem,
}
use longhorn_instance_manage.Bitmap.{PortBitmap}
use longhorn_instance_manage.Process.{Process}
use longhorn_instance_manage.Manager.{
  Manager, contains, update, register_taken, register_process, allocate_process_ports, is_current,
  unregister_locked, release_process_ports, commit_replace, sigint, drop_replacement,
}
use longhorn_instance_manage.Manager.Allocation.{
  Outcome, refused, denied, without, granted, expected_args,
}
use longhorn_instance_manage.Manager.Invariant.{Inv, update_self}
use longhorn_instance_manage.Manager.Begin.{Outcome-of}
use longhorn_instance_manage.Manager.Handlers.{Env}
use longhorn_instance_manage.Manager.Replace.{replace_committed, cleanup_replacement}
use longhorn_instance_manage.Manager.Sections.{release_lem}
use longhorn_instance_manage.Manager.Holders.{contains-ListBelow}
use longhorn_instance_manage.Manager.Local.{Local, local, Local-Inv, stop_with_signal-Local}

module _ {B : Type 0} (bm : PortBitmap B) where
  -- The process `p'` is `p` with the ports and arguments that it asked for.
  pub record Served (b : B) (p : Process) (b' : B) (p' : Process) : Type 0 where
    pub size :
        ((p.port_count ≡ pos 0) × (p'.port_start ≡ pos 0) × (p'.port_end ≡ pos 0))
        ⊎ (p'.port_end ≡ p'.port_start +ℤ p.port_count -ℤ pos 1)
    pub args : p'.args ≡ p.args ++ expected_args p'.port_start 0 p.port_args
    pub taken :
        (q : ℤ)
        → pos 1 ≤ℤ q
        → in_range p'.port_start p'.port_end q ≡ true
        → (bm.is_free b q ≡ true) × (bm.is_free b' q ≡ false)

  Outcome-Served :
      (b : B) (p : Process) (o : B × Process × Option Error)
      → Outcome bm b p o
      → o.2 ≡ none
      → Served b p o.0 o.1
  unfolding expected_args
  Outcome-Served b p o (refused x) e = cc
  Outcome-Served b p o (denied x) e = cc
  Outcome-Served b p o (without z no_args) e = record {
    size = inl (z, refl, refl);
    args = rw (no_args, append-nil);
    taken = λ q positive inside. ground (arith, parts_lem q);
  }
  Outcome-Served b p o (granted s e' b' h) e = record {
    size = inr (bm.allocate_size b p.port_count s e' b' h);
    args = refl;
    taken = λ q positive inside. ground (
      arith,
      bm.allocate_was_free b p.port_count s e' b' q h,
      bm.allocate_takes b p.port_count s e' b' q h,
    );
  }

  Outcome-unchanged :
      (b : B) (p : Process) (o : B × Process × Option Error) (x : Error)
      → Outcome bm b p o
      → o.2 ≡ some x
      → o.0 ≡ b
  Outcome-unchanged b p o x (refused y) e = refl
  Outcome-unchanged b p o x (denied y) e = refl
  Outcome-unchanged b p o x (without z no_args) e = cc
  Outcome-unchanged b p o x (granted s e' b' h) e = cc

  -- What `registerProcess` may return: a conflict that changes nothing, a failure that changes
  -- neither the table nor the bitmap, or a process that stands in the table with its ports.
  pub record Registered (r : ℕ) (m m' : Manager B) : Type 0 where
    pub was_free : lookup (m.heap r).name m.processes ≡ none
    pub found : lookup (m.heap r).name m'.processes ≡ some r
    pub others : (k : Text) → k ≢ (m.heap r).name → lookup k m'.processes ≡ lookup k m.processes
    pub served : Served m.available_ports (m.heap r) m'.available_ports (m'.heap r)

  abbrev pub Answers : ℕ → Manager B → Manager B × Option Error → Type 0
  Answers r m (m', some x) = (m'.processes ≡ m.processes) × (m'.available_ports ≡ m.available_ports)
  Answers r m (m', none) = Registered r m m'

  registered-Answers :
      (r : ℕ) (m : Manager B) (o : B × Process × Option Error)
      → Outcome bm m.available_ports (m.heap r) o
      → (o.1).name ≡ (m.heap r).name
      → lookup (m.heap r).name m.processes ≡ none
      → (e : Option Error) → o.2 ≡ e
      → Answers r m
          (register_taken bm r (record m { available_ports = o.0; heap = update m.heap r o.1 }, e))
  unfolding register_taken
  registered-Answers r m o out name free (some x) e =
      (refl, Outcome-unchanged m.available_ports (m.heap r) o x out e)
  registered-Answers r m o out name free none e =
      let self : (update m.heap r o.1 r).name ≡ (m.heap r).name =
        ap (λ (p : Process). p.name) (update_self bm m.heap r o.1) ∙ name in
      record {
        was_free = free;
        found = rw self (
            ground (
              arith,
              lookup-insert (m.heap r).name (m.heap r).name r m.processes,
              text_eq_refl (m.heap r).name,
            ));
        others = λ k ne. rw self (
            ground (
              arith,
              ne,
              lookup-insert (m.heap r).name k r m.processes,
              text_eq_iff (m.heap r).name k,
            ));
        served =
            rw (update_self bm m.heap r o.1) (Outcome-Served m.available_ports (m.heap r) o out e);
      }

  Outcome-name :
      (b : B) (p : Process) (o : B × Process × Option Error)
      → Outcome bm b p o
      → (o.1).name ≡ p.name
  Outcome-name b p o (refused x) = refl
  Outcome-name b p o (denied x) = refl
  Outcome-name b p o (without z no_args) = refl
  Outcome-name b p o (granted s e' b' h) = refl

  -- In a well-formed manager, `registerProcess` either returns an error and leaves the table and the
  -- bitmap as they were; or it returns none, and then the name was free and now stands for the process,
  -- no other name has changed, and the process has as many ports as it asked for, all of them free
  -- before and taken now, with its port arguments behind its arguments.
  pub register_process-Answers :
      (r : ℕ) (m : Manager B) → Inv bm m → Answers r m (register_process bm r m)
  unfolding register_process
  register_process-Answers r m v = elim (Option-cases (lookup (m.heap r).name m.processes)) [
    | inr (i, e) ↦ rw (e, register_process) (refl, refl)
    | inl e ↦
        let o = allocate_process_ports bm m.available_ports (m.heap r) in
        let out = Outcome-of bm r m v in
        rw (e, register_process)
          (registered-Answers r m o out (Outcome-name m.available_ports (m.heap r) o out) e o.2
            refl)
  ]

  gone_lem :
      (r : ℕ) (m : Manager B)
      → is_current bm r m ≡ true
      → unregister_locked bm r m
        ≡ release_process_ports bm r (record m { processes = delete (m.heap r).name m.processes })
  unfolding unregister_locked
  gone_lem r m h = rw h

  -- The bitmap has gained the ports of the process, and lost none.
  abbrev pub Freed : ℕ → Manager B → Manager B → Type 0
  Freed r m m' =
      (q : ℤ)
      → pos 1 ≤ℤ q
      → bm.is_free m'.available_ports q
        ≡ (bm.is_free m.available_ports q || in_range (m.heap r).port_start (m.heap r).port_end q)

  -- In a well-formed manager whose table has the process under its name, the inner section of
  -- `unregisterProcess` takes the name out of the table, and frees the ports of the process and no
  -- others.
  pub unregister_locked_current :
      (r : ℕ) (m : Manager B)
      → Inv bm m
      → r < m.next
      → lookup (m.heap r).name m.processes ≡ some r
      → (lookup (m.heap r).name (unregister_locked bm r m).processes ≡ none)
        × Freed r m (unregister_locked bm r m)
  unfolding is_current release_process_ports
  unregister_locked_current r m v lt e =
      rw (gone_lem r m (ground (arith, text_eq_refl (m.heap r).uuid)))
        (lookup-delete_self (m.heap r).name m.processes v.keys, (release_lem bm r m v lt).frees)

  dropped_lem :
      (r : ℕ) (m : Manager B) {m' : Manager B}
      → Local bm m m'
      → Inv bm m
      → r < m.next
      → ((drop_replacement bm r m').processes ≡ m.processes) × Freed r m (drop_replacement bm r m')
  unfolding drop_replacement release_process_ports
  dropped_lem r m (local h u g s a) v lt =
      let m' = record m { heap = h; updates = u; goroutines = g; signals = s } in
      let rel = release_lem bm r m' (Local-Inv bm m (local h u g s a) v) lt in
      (refl, λ q positive. ground (arith, rel.frees q positive, a.start r lt, a.end r lt))

  refused_lem :
      (r old i : ℕ) (m : Manager B)
      → lookup (m.heap r).name m.processes ≡ some i
      → (m.heap i).uuid ≢ (m.heap old).uuid
      → commit_replace bm r old m ≡ (m, false)
  unfolding commit_replace
  refused_lem r old i m e ne = ground (arith, ne, text_eq_iff (m.heap i).uuid (m.heap old).uuid)

  -- In a well-formed manager in which a call of `ProcessReplace` holds ports for its new process `r`,
  -- if the table has a process of another UUID than the one to replace, then the call ends with
  -- `AlreadyExists`, leaves the table as it was, and frees the new process's ports and no others.
  pub late_replacement :
      (env : Env B) (r old i : ℕ) (m : Manager B)
      → Inv bm m
      → contains r m.replacing ≡ true
      → lookup (m.heap r).name m.processes ≡ some i
      → (m.heap i).uuid ≢ (m.heap old).uuid
      → let (m', answer) = replace_committed bm env r (commit_replace bm r old m) in
        (answer ≡ err (status already_exists)) × (m'.processes ≡ m.processes) × Freed r m m'
  unfolding replace_committed cleanup_replacement
  late_replacement env r old i m v c e ne =
      let dropped =
        dropped_lem r m (stop_with_signal-Local bm sigint (env.now 0) r m) v
          (contains-ListBelow m.next r m.replacing v.list c) in
      rw (refused_lem r old i m e ne) (refl, dropped.0, dropped.1)
