-- ===== src/Bitmap.antt =====
-- The port bitmap (vendor/github.com/longhorn/go-common-libs/bitmap), which the process manager
-- only calls: an interface, with what the manager relies on as its laws.
pub mod FirstFit
use longhorn_instance_manage.Base.{
  ℤ, pos, ◌≡◌, ◌≤ℤ◌, ◌-ℤ◌, ◌+ℤ◌, Bool, true, not, ◌&&◌, ◌||◌, Option, none, some, in_range,
}

pub record PortBitmap (B : Type 0) : Type 0 where
  -- the range given to `NewBitmap`, and whether a port is free
  pub base : B → ℤ
  pub limit : B → ℤ
  pub is_free : B → ℤ → Bool
  -- `NewBitmap`, `AllocateRange` and `ReleaseRange`; `none` is an error
  pub new_bitmap : ℤ → ℤ → Option B
  pub allocate_range : B → ℤ → Option (ℤ × ℤ × B)
  pub release_range : B → ℤ → ℤ → Option B
  -- a new bitmap has every port of its range free
  pub new_base : (s e : ℤ) (b : B) → new_bitmap s e ≡ some b → base b ≡ s
  pub new_limit : (s e : ℤ) (b : B) → new_bitmap s e ≡ some b → limit b ≡ e
  pub new_free : (s e : ℤ) (b : B) (q : ℤ) → new_bitmap s e ≡ some b → is_free b q ≡ in_range s e q
  -- an allocation returns `count` consecutive ports of the range that were free, and takes them
  pub allocate_base :
      (b : B) (n s e : ℤ) (b' : B) → allocate_range b n ≡ some (s, e, b') → base b' ≡ base b
  pub allocate_limit :
      (b : B) (n s e : ℤ) (b' : B) → allocate_range b n ≡ some (s, e, b') → limit b' ≡ limit b
  pub allocate_size :
      (b : B) (n s e : ℤ) (b' : B) → allocate_range b n ≡ some (s, e, b') → e ≡ s +ℤ n -ℤ pos 1
  pub allocate_low :
      (b : B) (n s e : ℤ) (b' : B) → allocate_range b n ≡ some (s, e, b') → base b ≤ℤ s
  pub allocate_ordered :
      (b : B) (n s e : ℤ) (b' : B) → allocate_range b n ≡ some (s, e, b') → s ≤ℤ e
  pub allocate_high :
      (b : B) (n s e : ℤ) (b' : B) → allocate_range b n ≡ some (s, e, b') → e ≤ℤ limit b
  pub allocate_was_free :
      (b : B) (n s e : ℤ) (b' : B) (q : ℤ)
      → allocate_range b n ≡ some (s, e, b')
      → in_range s e q ≡ true
      → is_free b q ≡ true
  pub allocate_takes :
      (b : B) (n s e : ℤ) (b' : B) (q : ℤ)
      → allocate_range b n ≡ some (s, e, b')
      → is_free b' q ≡ (is_free b q && not (in_range s e q))
  -- a release of a range inside the bitmap's frees it; the range 0-0 means "no ports"
  pub release_none : (b : B) → release_range b (pos 0) (pos 0) ≡ some b
  pub release_inside :
      (b : B) (s e : ℤ)
      → base b ≤ℤ s
      → s ≤ℤ e
      → e ≤ℤ limit b
      → (b' : B) × (release_range b s e ≡ some b')
  pub release_base : (b : B) (s e : ℤ) (b' : B) → release_range b s e ≡ some b' → base b' ≡ base b
  pub release_limit :
      (b : B) (s e : ℤ) (b' : B) → release_range b s e ≡ some b' → limit b' ≡ limit b
  pub release_frees :
      (b : B) (s e : ℤ) (b' : B) (q : ℤ)
      → release_range b s e ≡ some b'
      → pos 1 ≤ℤ s
      → is_free b' q ≡ (is_free b q || in_range s e q)
