-- ===== src/Base/Bits/Map.antt =====
-- A bitmap is an array of bytes.
use Prim.Native.Nat.{ℕ, zero, suc, ◌+◌, ◌-◌, ◌*◌, ◌/◌, ◌%◌, ◌^◌, ◌≤◌, ◌<◌, bit_and, bit_or}
use mathlib.Core.Path.{◌≡◌, refl, ◌∙◌}
use mathlib.Core.Logic.{◌≢◌, inl, inr}
use mathlib.Core.Bool.{Bool, true, false, not, ◌&&◌, ◌||◌}
use mathlib.Core.List.{List}
use native.Mathlib.Omega.{arith}
use ext2fs.Base.Tests.{◌==◌, if◌then◌else◌, Bool-cases, eq-cases}
use ext2fs.Base.Lists.{
  length, get_or, set, All, length-set, get_or-set_self, get_or-set_ne, set-set_get, All-get_or,
  All-set,
}
use ext2fs.Base.Bits.Byte.{
  bit_of, IsByte, bit_or-IsByte, bit_of-bit_or, bit_and-IsByte, bit_of-bit_and, bit_and-bit_or,
}

unfoldable pub isset : List ℕ → ℕ → Bool
isset map i = bit_of (get_or map (i / 8) 0) (i % 8)

unfoldable pub isclr : List ℕ → ℕ → Bool
unfolding isset
isclr map i = not (isset map i)

unfoldable pub setbit : List ℕ → ℕ → List ℕ
setbit map i = set map (i / 8) (bit_or (get_or map (i / 8) 0) (2 ^ (i % 8)))

unfoldable pub clrbit : List ℕ → ℕ → List ℕ
clrbit map i = set map (i / 8) (bit_and (get_or map (i / 8) 0) (255 - 2 ^ (i % 8)))

-- The number of clear bits among the first `n`.
unfoldable pub count_clear : List ℕ → ℕ → ℕ
unfolding isset
count_clear map zero = 0
count_clear map (suc n) = count_clear map n + (if isset map n then 0 else 1)

abbrev pub IsMap : List ℕ → Type 0
IsMap map = All IsByte map

byte_at : (map : List ℕ) (i : ℕ) → IsMap map → get_or map i 0 < 256
byte_at map i w = All-get_or IsByte map i 0 w (omega arith)

pub length-setbit : (map : List ℕ) (i : ℕ) → length (setbit map i) ≡ length map
unfolding setbit
length-setbit map i = length-set map (i / 8) _

pub length-clrbit : (map : List ℕ) (i : ℕ) → length (clrbit map i) ≡ length map
unfolding clrbit
length-clrbit map i = length-set map (i / 8) _

module _ (map : List ℕ) (i : ℕ) (w : IsMap map) where
  pub setbit-IsMap : IsMap (setbit map i)
  unfolding setbit
  setbit-IsMap =
      All-set IsByte map (i / 8) _ w
        (bit_or-IsByte (get_or map (i / 8) 0) (i % 8) (byte_at map (i / 8) w) (omega arith))

  pub clrbit-IsMap : IsMap (clrbit map i)
  unfolding clrbit
  clrbit-IsMap =
      All-set IsByte map (i / 8) _ w
        (bit_and-IsByte (get_or map (i / 8) 0) (i % 8) (byte_at map (i / 8) w) (omega arith))

-- Clearing a bit that was clear before it was set restores the map.
pub clrbit-setbit :
    (map : List ℕ) (i : ℕ)
    → IsMap map
    → i < 8 * length map
    → isset map i ≡ false
    → clrbit (setbit map i) i ≡ map
unfolding isset setbit clrbit
clrbit-setbit map i w h c =
    rw (get_or-set_self map (i / 8) (bit_or (get_or map (i / 8) 0) (2 ^ (i % 8))) 0 (omega arith)) (
      rw (bit_and-bit_or (get_or map (i / 8) 0) (i % 8) (byte_at map (i / 8) w) (omega arith) c)
        (set-set_get map (i / 8) _ 0))

mod_eq_iff : (i j : ℕ) → i / 8 ≡ j / 8 → (j % 8 == i % 8) ≡ (j == i)
mod_eq_iff i j e = ground arith

ne_of_div : (i j : ℕ) → i / 8 ≢ j / 8 → (j == i) ≡ false
ne_of_div i j ne = ground arith

module _ (map : List ℕ) (i j : ℕ) (w : IsMap map) (bound : i < 8 * length map) where
  pub isset-setbit : isset (setbit map i) j ≡ ((j == i) || isset map j)
  unfolding isset setbit
  isset-setbit = elim (eq-cases (i / 8) (j / 8)) [
    | inl e ↦
        rw (← e, get_or-set_self map (i / 8) _ 0 (omega arith))
          (bit_of-bit_or (get_or map (i / 8) 0) (i % 8) (byte_at map (i / 8) w) (omega arith)
              (j % 8) (omega arith)
            ∙ rw (mod_eq_iff i j e) refl)
    | inr ne ↦ rw (get_or-set_ne map (i / 8) (j / 8) _ 0 ne, ne_of_div i j ne)
  ]

  pub isset-clrbit : isset (clrbit map i) j ≡ (not (j == i) && isset map j)
  unfolding isset clrbit
  isset-clrbit = elim (eq-cases (i / 8) (j / 8)) [
    | inl e ↦
        rw (← e, get_or-set_self map (i / 8) _ 0 (omega arith))
          (bit_of-bit_and (get_or map (i / 8) 0) (i % 8) (byte_at map (i / 8) w) (omega arith)
              (j % 8) (omega arith)
            ∙ rw (mod_eq_iff i j e) refl)
    | inr ne ↦ rw (get_or-set_ne map (i / 8) (j / 8) _ 0 ne, ne_of_div i j ne)
  ]

pub count_clear-le : (map : List ℕ) (n : ℕ) → count_clear map n ≤ n
unfolding count_clear
count_clear-le map zero = omega arith
count_clear-le map (suc n) = ground (arith, count_clear-le map n)

-- Bits from `n` on do not matter to the count.
pub count_clear-ext :
    (a b : List ℕ) (n : ℕ)
    → ((j : ℕ) → j < n → isset a j ≡ isset b j)
    → count_clear a n ≡ count_clear b n
unfolding count_clear
count_clear-ext a b zero h = refl
count_clear-ext a b (suc n) h =
    rw (count_clear-ext a b n (λ j l. h j (omega arith)), h n (omega arith)) refl

module _ (map : List ℕ) (i : ℕ) (w : IsMap map) (bound : i < 8 * length map) where
  -- Setting a clear bit takes one from the count.
  pub count_clear-setbit :
      (n : ℕ) → i < n → isset map i ≡ false → count_clear (setbit map i) n + 1 ≡ count_clear map n
  unfolding count_clear
  count_clear-setbit zero l c = absurd (omega arith)
  count_clear-setbit (suc n) l c = elim (eq-cases i n) [
    | inl e ↦ ground (
      arith,
      isset-setbit map i n w bound,
      count_clear-ext (setbit map i) map n (λ j lj. ground (arith, isset-setbit map i j w bound)),
    )
    | inr ne ↦ ground (arith, isset-setbit map i n w bound, count_clear-setbit n (omega arith) c)
  ]

  -- Clearing a set bit adds one to the count.
  pub count_clear-clrbit :
      (n : ℕ) → i < n → isset map i ≡ true → count_clear (clrbit map i) n ≡ count_clear map n + 1
  unfolding count_clear
  count_clear-clrbit zero l c = absurd (omega arith)
  count_clear-clrbit (suc n) l c = elim (eq-cases i n) [
    | inl e ↦ ground (
      arith,
      isset-clrbit map i n w bound,
      count_clear-ext (clrbit map i) map n (λ j lj. ground (arith, isset-clrbit map i j w bound)),
    )
    | inr ne ↦ ground (arith, isset-clrbit map i n w bound, count_clear-clrbit n (omega arith) c)
  ]

-- A positive count has a clear bit.
pub count_clear-pos :
    (map : List ℕ) (n : ℕ) → 0 < count_clear map n → (i : ℕ) × (i < n) × (isset map i ≡ false)
unfolding count_clear
count_clear-pos map zero h = absurd (omega arith)
count_clear-pos map (suc n) h = elim (Bool-cases (isset map n)) [
  | inl s ↦ let (i, l, c) = count_clear-pos map n (ground arith) in (i, omega arith, c)
  | inr c ↦ (n, omega arith, c)
]

-- With no clear bit below `n` the count is zero.
pub count_clear-none :
    (map : List ℕ) (n : ℕ) → ((i : ℕ) → i < n → isset map i ≡ true) → count_clear map n ≡ 0
unfolding count_clear
count_clear-none map zero h = refl
count_clear-none map (suc n) h =
    rw (count_clear-none map n (λ i l. h i (omega arith)), h n (omega arith)) refl
