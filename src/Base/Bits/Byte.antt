-- ===== src/Base/Bits/Byte.antt =====
-- Facts about single bytes, checked for every value.
use Prim.Native.Nat.{ℕ, zero, suc, ◌-◌, ◌/◌, ◌%◌, ◌^◌, ◌<◌, bit_and, bit_or}
use mathlib.Core.Path.{◌≡◌, refl}
use mathlib.Core.Bool.{Bool, true, false, ◌&&◌, ◌||◌, not}
use native.Mathlib.Omega.{arith}
use ext2fs.Base.Tests.{◌==◌, ltb, ltb→lt, ==_iff}

-- Whether `p` holds at every number below `bound`.
unfoldable pub everywhere : ℕ → (ℕ → Bool) → Bool
everywhere zero p = true
everywhere (suc bound) p = let below = everywhere bound p in below && p bound

pub everywhere_at :
    (bound : ℕ) (p : ℕ → Bool) (place : ℕ)
    → everywhere bound p ≡ true
    → place < bound
    → p place ≡ true
unfolding everywhere
everywhere_at (suc bound) p place all inside = ground (arith, everywhere_at bound p place)
everywhere_at zero p place all inside = absurd (omega (arith, inside))

abbrev pub IsByte : ℕ → Type 0
IsByte b = b < 256

-- Bit `k` of the number `b`.
abbrev pub bit_of : ℕ → ℕ → Bool
bit_of b k = b / 2 ^ k % 2 == 1

-- Equality of Booleans.
abbrev same : Bool → Bool → Bool
same true b = b
same false b = not b

same-eq : (a b : Bool) → same a b ≡ true → a ≡ b
same-eq true b h = ground arith
same-eq false b h = ground arith

or_table :
    everywhere 256 (λ b. everywhere 8 (λ k.
      ltb (bit_or b (2 ^ k)) 256
      && everywhere 8 (λ j. same (bit_of (bit_or b (2 ^ k)) j) ((j == k) || bit_of b j))))
    ≡ true
unfolding everywhere
or_table = refl

and_table :
    everywhere 256 (λ b. everywhere 8 (λ k.
      ltb (bit_and b (255 - 2 ^ k)) 256
      && everywhere 8
          (λ j. same (bit_of (bit_and b (255 - 2 ^ k)) j) (not (j == k) && bit_of b j))))
    ≡ true
unfolding everywhere
and_table = refl

and_true : (a b : Bool) → (a && b) ≡ true → (a ≡ true) × (b ≡ true)
and_true a b h = ground arith

module _ (b k : ℕ) (hb : b < 256) (hk : k < 8) where
  pub bit_or-IsByte : bit_or b (2 ^ k) < 256
  bit_or-IsByte =
      ltb→lt _ _ (and_true _ _ (everywhere_at 8 _ k (everywhere_at 256 _ b or_table hb) hk)).0

  pub bit_of-bit_or : (j : ℕ) → j < 8 → bit_of (bit_or b (2 ^ k)) j ≡ ((j == k) || bit_of b j)
  bit_of-bit_or j hj = same-eq _ _ (
      everywhere_at 8 _ j
        (and_true _ _ (everywhere_at 8 _ k (everywhere_at 256 _ b or_table hb) hk)).1 hj)

  pub bit_and-IsByte : bit_and b (255 - 2 ^ k) < 256
  bit_and-IsByte =
      ltb→lt _ _ (and_true _ _ (everywhere_at 8 _ k (everywhere_at 256 _ b and_table hb) hk)).0

  pub bit_of-bit_and :
      (j : ℕ) → j < 8 → bit_of (bit_and b (255 - 2 ^ k)) j ≡ (not (j == k) && bit_of b j)
  bit_of-bit_and j hj = same-eq _ _ (
      everywhere_at 8 _ j
        (and_true _ _ (everywhere_at 8 _ k (everywhere_at 256 _ b and_table hb) hk)).1 hj)

undo_table :
    everywhere 256
      (λ b. everywhere 8 (λ k. bit_of b k || (bit_and (bit_or b (2 ^ k)) (255 - 2 ^ k) == b)))
    ≡ true
unfolding everywhere
undo_table = refl

-- Clearing a bit that was clear before it was set restores the byte.
pub bit_and-bit_or :
    (b k : ℕ) → b < 256 → k < 8 → bit_of b k ≡ false → bit_and (bit_or b (2 ^ k)) (255 - 2 ^ k) ≡ b
bit_and-bit_or b k hb hk c =
    let row = everywhere_at 8 _ k (everywhere_at 256 _ b undo_table hb) hk in
    (==_iff _ b).0 (or_right _ _ c row)
  where
    or_right : (x y : Bool) → x ≡ false → (x || y) ≡ true → y ≡ true
    or_right x y e h = ground arith
