-- ===== src/Bitmap/FirstFit.antt =====
-- A bitmap that meets the laws of `PortBitmap`: a set of ports, searched from the bottom.
use longhorn_instance_manage.Base.{
  ℕ, ℤ, pos, zero, suc, ◌≡◌, refl, ap, ◌⊎◌, ◌≤ℤ◌, ◌+ℤ◌, ◌-ℤ◌, Bool, true, not, ◌&&◌, ◌||◌, Option,
  none, some, arith, in_range, leb_ℤ, if◌then◌else◌, int_laws, Bool-cases, inl, inr, eq_ℤ,
  eq_of_parts, subst, negsuc, pos_part, +ℤ_parts, -ℤ_parts,
}
use longhorn_instance_manage.Bitmap.{PortBitmap}

pub record Ports : Type 0 where
  pub base : ℤ
  pub limit : ℤ
  pub free : ℤ → Bool

-- Are the `n` ports from `s` on free?
unfoldable pub all_free : (ℤ → Bool) → ℤ → ℕ → Bool
all_free free s zero = true
all_free free s (suc n) = free (s +ℤ pos n) && all_free free s n

unfoldable pub take : ℤ → ℤ → Ports → Ports
take s e p = record p { free = λ q. p.free q && not (in_range s e q) }

-- `none` for a count that is not positive.
count_of : ℤ → Option ℕ
count_of (pos (suc n)) = some (suc n)
count_of _ = none

-- The first fit at `s` or above, in `rounds` rounds.
fit : ℕ → ℤ → ℕ → Ports → Option (ℤ × ℤ × Ports)
fit zero s n p = none
fit (suc rounds) s n p =
    let next = fit rounds (s +ℤ pos 1) n p in
    let e = s +ℤ pos n -ℤ pos 1 in
    if leb_ℤ e p.limit && all_free p.free s n then some (s, e, take s e p) else next

-- What a search that succeeds has found.
record Found (p : Ports) (s : ℤ) (n : ℕ) (s' e : ℤ) (p' : Ports) : Type 0 where
  pub size : e ≡ s' +ℤ pos n -ℤ pos 1
  above : s ≤ℤ s'
  fits : e ≤ℤ p.limit
  free : all_free p.free s' n ≡ true
  pub taken : p' ≡ take s' e p

abbrev FoundOf : Ports → ℤ → ℕ → Option (ℤ × ℤ × Ports) → Type 0
FoundOf p s n none = Unit
FoundOf p s n (some (s', e, p')) = Found p s n s' e p'

lower :
    (p : Ports) (s : ℤ) (n : ℕ) (o : Option (ℤ × ℤ × Ports))
    → FoundOf p (s +ℤ pos 1) n o
    → FoundOf p s n o
lower p s n none f = tt
lower p s n (some (s', e, p')) f = record {
  size = f.size;
  above = omega (int_laws, f.above);
  fits = f.fits;
  free = f.free;
  taken = f.taken;
}

fit-Found : (rounds : ℕ) (s : ℤ) (n : ℕ) (p : Ports) → FoundOf p s n (fit rounds s n p)
unfolding fit
fit-Found zero s n p = tt
fit-Found (suc rounds) s n p =
    elim (Bool-cases (leb_ℤ (s +ℤ pos n -ℤ pos 1) p.limit && all_free p.free s n)) [
      | inl here ↦ rw here (record {
        size = refl;
        above = omega arith;
        fits = ground arith;
        free = ground arith;
        taken = refl;
      })
      | inr next ↦ rw next (lower p s n _ (fit-Found rounds (s +ℤ pos 1) n p))
    ]

all_free_at :
    (f : ℤ → Bool) (s q : ℤ) (n : ℕ)
    → all_free f s n ≡ true
    → in_range s (s +ℤ pos n -ℤ pos 1) q ≡ true
    → f q ≡ true
unfolding all_free
all_free_at f s q zero h inside = ground (arith, +ℤ_parts s (pos 0), -ℤ_parts (s +ℤ pos 0) (pos 1))
all_free_at f s q (suc n) h inside = elim (Bool-cases (eq_ℤ q (s +ℤ pos n))) [
  | inl last ↦ let e = eq_of_parts q (s +ℤ pos n) (ground arith) in rw e (ground arith)
  | inr before ↦ all_free_at f s q n (ground arith) (
      ground (
        arith,
        +ℤ_parts s (pos n),
        +ℤ_parts s (pos (suc n)),
        -ℤ_parts (s +ℤ pos n) (pos 1),
        -ℤ_parts (s +ℤ pos (suc n)) (pos 1),
      ))
]

allocate_from : Ports → Option ℕ → Option (ℤ × ℤ × Ports)
unfolding fit take all_free
allocate_from p none = none
allocate_from p (some n) = fit (suc (pos_part (p.limit -ℤ p.base))) p.base n p

unfoldable pub allocate : Ports → ℤ → Option (ℤ × ℤ × Ports)
unfolding allocate_from count_of
allocate p n = allocate_from p (count_of n)

unfoldable pub release : Ports → ℤ → ℤ → Option Ports
release p s e =
    if eq_ℤ s (pos 0) && eq_ℤ e (pos 0)
    then some p
    else if leb_ℤ p.base s && (leb_ℤ s e && leb_ℤ e p.limit)
    then some (record p { free = λ q. p.free q || in_range s e q })
    else none

unfoldable pub create : ℤ → ℤ → Option Ports
create s e = if leb_ℤ s e then some (record { base = s; limit = e; free = in_range s e }) else none

-- What an allocation that succeeds returns.
pub record Allocated (p : Ports) (n s e : ℤ) (p' : Ports) : Type 0 where
  pub size : e ≡ s +ℤ n -ℤ pos 1
  pub positive : pos 1 ≤ℤ n
  pub low : p.base ≤ℤ s
  pub high : e ≤ℤ p.limit
  pub was_free : (q : ℤ) → in_range s e q ≡ true → p.free q ≡ true
  pub taken : p' ≡ take s e p

Allocated-of :
    (p : Ports) (n s e : ℤ) (k : ℕ) (p' : Ports)
    → n ≡ pos (suc k)
    → FoundOf p p.base (suc k) (some (s, e, p'))
    → Allocated p n s e p'
Allocated-of p n s e k p' h f = record {
  size = rw h f.size;
  positive = rw h (omega arith);
  low = f.above;
  high = f.fits;
  was_free = λ q inside. all_free_at p.free s q (suc k) f.free (rw f.size at inside);
  taken = f.taken;
}

pub allocate-Allocated :
    (p : Ports) (n s e : ℤ) (p' : Ports) → allocate p n ≡ some (s, e, p') → Allocated p n s e p'
unfolding allocate
allocate-Allocated p (pos zero) s e p' h = cc
allocate-Allocated p (negsuc n) s e p' h = cc
allocate-Allocated p (pos (suc k)) s e p' h = Allocated-of p (pos (suc k)) s e k p' refl (
    subst (FoundOf p p.base (suc k)) h
      (fit-Found (suc (pos_part (p.limit -ℤ p.base))) p.base (suc k) p))

pub created :
    (s e : ℤ) (b : Ports)
    → create s e ≡ some b
    → b ≡ record { base = s; limit = e; free = in_range s e }
unfolding create
created s e b h = ground arith

pub release_ok :
    (p : Ports) (s e : ℤ)
    → p.base ≤ℤ s
    → s ≤ℤ e
    → e ≤ℤ p.limit
    → (p' : Ports) × (release p s e ≡ some p')
unfolding release
release_ok p s e low ordered high = elim (Bool-cases (eq_ℤ s (pos 0) && eq_ℤ e (pos 0))) [
  | inl z ↦ (p, rw z)
  | inr nz ↦ (record p { free = λ q. p.free q || in_range s e q }, rw nz (ground arith))
]

release_lem :
    (p : Ports) (s e : ℤ) (p' : Ports)
    → release p s e ≡ some p'
    → (p' ≡ p) × (s ≡ pos 0) ⊎ (p' ≡ record p { free = λ q. p.free q || in_range s e q })
unfolding release
release_lem p s e p' h = elim (Bool-cases (eq_ℤ s (pos 0) && eq_ℤ e (pos 0))) [
  | inl z ↦ inl (ground arith, eq_of_parts s (pos 0) (ground arith))
  | inr nz ↦ inr (ground arith)
]

pub release_base : (p : Ports) (s e : ℤ) (p' : Ports) → release p s e ≡ some p' → p'.base ≡ p.base
release_base p s e p' h = elim (release_lem p s e p' h) [
  | inl (same, z) ↦ ap (λ (x : Ports). x.base) same
  | inr changed ↦ ap (λ (x : Ports). x.base) changed
]

pub release_limit :
    (p : Ports) (s e : ℤ) (p' : Ports) → release p s e ≡ some p' → p'.limit ≡ p.limit
release_limit p s e p' h = elim (release_lem p s e p' h) [
  | inl (same, z) ↦ ap (λ (x : Ports). x.limit) same
  | inr changed ↦ ap (λ (x : Ports). x.limit) changed
]

pub release_frees :
    (p : Ports) (s e : ℤ) (p' : Ports) (q : ℤ)
    → release p s e ≡ some p'
    → pos 1 ≤ℤ s
    → p'.free q ≡ (p.free q || in_range s e q)
release_frees p s e p' q h positive = elim (release_lem p s e p' h) [
  | inl (same, z) ↦ absurd (ground (arith, z))
  | inr changed ↦ ap (λ (x : Ports). x.free q) changed
]

pub release_none_lem : (b : Ports) → release b (pos 0) (pos 0) ≡ some b
unfolding release
release_none_lem b = refl

pub ordered : (b : Ports) (n s e : ℤ) (b' : Ports) → Allocated b n s e b' → s ≤ℤ e
ordered b n s e b' a = rw a.size (omega (int_laws, a.positive))

unfoldable pub first_fit : PortBitmap Ports
unfolding create allocate release
first_fit = record {
  base = λ p. p.base;
  limit = λ p. p.limit;
  is_free = λ p. p.free;
  new_bitmap = create;
  allocate_range = allocate;
  release_range = release;
  new_base = λ s e b h. ap (λ (x : Ports). x.base) (created s e b h);
  new_limit = λ s e b h. ap (λ (x : Ports). x.limit) (created s e b h);
  new_free = λ s e b q h. ap (λ (x : Ports). x.free q) (created s e b h);
  allocate_base =
      λ b n s e b' h. ap (λ (x : Ports). x.base) (allocate-Allocated b n s e b' h).taken;
  allocate_limit =
      λ b n s e b' h. ap (λ (x : Ports). x.limit) (allocate-Allocated b n s e b' h).taken;
  allocate_size = λ b n s e b' h. (allocate-Allocated b n s e b' h).size;
  allocate_low = λ b n s e b' h. (allocate-Allocated b n s e b' h).low;
  allocate_ordered = λ b n s e b' h. ordered b n s e b' (allocate-Allocated b n s e b' h);
  allocate_high = λ b n s e b' h. (allocate-Allocated b n s e b' h).high;
  allocate_was_free = λ b n s e b' q h. (allocate-Allocated b n s e b' h).was_free q;
  allocate_takes =
      λ b n s e b' q h. ap (λ (x : Ports). x.free q) (allocate-Allocated b n s e b' h).taken;
  release_none = release_none_lem;
  release_inside = release_ok;
  release_base = release_base;
  release_limit = release_limit;
  release_frees = release_frees;
}
