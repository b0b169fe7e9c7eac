-- ===== src/Manager/Release.antt =====
-- What `releaseProcessPorts` does with the ports of a process.
use longhorn_instance_manage.Base.{
  ℤ, pos, ◌≤ℤ◌, ◌≡◌, refl, sym, subst, false, arith, ltb_ℤ, in_range, ◌⊎◌, inl, inr, ◌||◌,
  parts_lem,
}
use longhorn_instance_manage.Bitmap.{PortBitmap}
use longhorn_instance_manage.Process.{Process}
use longhorn_instance_manage.Manager.{released, release_ports}
use longhorn_instance_manage.Manager.Allocation.{IsPortRange}

-- The ports of a process that was given none.
abbrev pub NoPorts : Process → Type 0
NoPorts p = (p.port_start ≡ pos 0) × (p.port_end ≡ pos 0)

module _ {B : Type 0} (bm : PortBitmap B) where
  -- No ports, or a range inside the bitmap's.
  abbrev pub HasRange : B → Process → Type 0
  HasRange b p =
      NoPorts p
      ⊎ ((bm.base b ≤ℤ p.port_start) × (p.port_start ≤ℤ p.port_end) × (p.port_end ≤ℤ bm.limit b))

  -- The bitmap `b'` is `b` with the ports of the process free.
  pub record Released (b : B) (p : Process) (b' : B) : Type 0 where
    pub same_base : bm.base b' ≡ bm.base b
    pub same_limit : bm.limit b' ≡ bm.limit b
    pub frees :
        (q : ℤ)
        → pos 1 ≤ℤ q
        → bm.is_free b' q ≡ (bm.is_free b q || in_range p.port_start p.port_end q)

  NoPorts-Released : (b : B) (p : Process) → NoPorts p → Released b p b
  NoPorts-Released b p (s, e) = record {
    same_base = refl;
    same_limit = refl;
    frees = λ q h. rw (s, e) (ground arith);
  }

  released_zero :
      (b : B) (s e : ℤ) → s ≡ pos 0 → e ≡ pos 0 → released bm b (release_ports bm b s e) ≡ b
  unfolding released release_ports
  released_zero b s e hs he = rw (hs, he, bm.release_none b)

  pub release-Released :
      (b : B) (p : Process)
      → IsPortRange bm b
      → HasRange b p
      → Released b p (released bm b (release_ports bm b p.port_start p.port_end))
  unfolding released release_ports
  release-Released b p v (inl (s, e)) =
      subst (Released b p) (sym (released_zero b p.port_start p.port_end s e))
        (NoPorts-Released b p (s, e))
  release-Released b p v (inr (low, ordered, high)) =
      let (b', h) = bm.release_inside b p.port_start p.port_end low ordered high in
      let positive : pos 1 ≤ℤ p.port_start = omega (arith, v.positive, parts_lem (bm.base b)) in
      let s : ltb_ℤ p.port_start (pos 0) ≡ false = ground arith in
      let e : ltb_ℤ p.port_end (pos 0) ≡ false = ground arith in
      rw (s, e, h)
        (record {
          same_base = bm.release_base b p.port_start p.port_end b' h;
          same_limit = bm.release_limit b p.port_start p.port_end b' h;
          frees = λ q _. bm.release_frees b p.port_start p.port_end b' q h positive;
        })
