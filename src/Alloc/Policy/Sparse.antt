-- ===== src/Alloc/Policy/Sparse.antt =====
-- The groups that have a copy of the superblock, by `cg_has_sb` of kext/ext2_alloc.c.
use ext2fs.Base.{
  ℕ, zero, suc, ◌+◌, ◌*◌, ◌%◌, ◌^◌, ◌≤◌, ◌<◌, ◌≡◌, ◌⊎◌, ◌↔◌, refl, sym, ◌∙◌, inl, inr, Bool, true,
  false, ◌||◌, ◌==◌, arith, Bool-cases, eq-cases, lt-cases,
}
use native.Mathlib.Nat.{pow-le-pow_left, pow-le-pow_right}
use ext2fs.Alloc.Policy.{int_le, powers, cg_has_sb}

abbrev IsPower : ℕ → ℕ → Type 0
IsPower j i = (i ≡ 3 ^ j) ⊎ ((i ≡ 5 ^ j) ⊎ (i ≡ 7 ^ j))

-- Group 0, and those whose number is a power of 3, 5 or 7.
unfoldable pub IsSparse : ℕ → Type 0
IsSparse i = (i ≡ 0) ⊎ ((j : ℕ) × IsPower j i)

less : (e : ℕ) → e < 3 ^ e
less zero = omega arith
less (suc e) = omega (arith, less e)

ordered : (e : ℕ) → (3 ^ e ≤ 5 ^ e) × (5 ^ e ≤ 7 ^ e)
ordered e = (pow-le-pow_left (omega arith) e, pow-le-pow_left (omega arith) e)

small : (e : ℕ) → e ≤ 11 → 7 ^ e < 2 ^ 31
small e h = omega (arith, pow-le-pow_right {n = 7} (omega arith) {i = e} {j = 11} h)

from : (e j i : ℕ) → e ≤ j → IsPower j i → 3 ^ e ≤ i
from e j i h (inl p) = omega (arith, p, pow-le-pow_right {n = 3} (omega arith) {i = e} {j = j} h)
from e j i h (inr (inl p)) =
    omega (arith, p, ordered j, pow-le-pow_right {n = 3} (omega arith) {i = e} {j = j} h)
from e j i h (inr (inr p)) =
    omega (arith, p, ordered j, pow-le-pow_right {n = 3} (omega arith) {i = e} {j = j} h)

low : (e i : ℕ) → i < 177147 → 3 ^ e ≤ i → e < 11
low e i h p = elim (lt-cases e 11) [
  | inl l ↦ l
  | inr l ↦ absurd (omega (arith, h, p, pow-le-pow_right {n = 3} (omega arith) {i = 11} {j = e} l))
]

is_hit : ℕ → ℕ → Bool
is_hit e i = (i == 3 ^ e) || (i == 5 ^ e) || (i == 7 ^ e)

hit_iff : (e i : ℕ) → (is_hit e i ≡ true) ↔ IsPower e i
unfolding is_hit
hit_iff e i = ground arith

reached : (e i : ℕ) → 3 ^ e ≤ i → (int_le (3 ^ e) i || int_le (5 ^ e) i || int_le (7 ^ e) i) ≡ true
reached e i l = ground (arith, l)

passed :
    (e i : ℕ)
    → i < 3 ^ e
    → e ≤ 11
    → (int_le (3 ^ e) i || int_le (5 ^ e) i || int_le (7 ^ e) i) ≡ false
passed e i l top = ground (arith, l, ordered e, small e top)

-- The next powers do not wrap.
next3 : (e : ℕ) → e < 11 → 3 ^ e * 3 % 2 ^ 32 ≡ 3 ^ suc e
next3 e h = omega (arith, ordered (suc e), small (suc e) h)

next5 : (e : ℕ) → e < 11 → 5 ^ e * 5 % 2 ^ 32 ≡ 5 ^ suc e
next5 e h = omega (arith, ordered (suc e), small (suc e) h)

next7 : (e : ℕ) → e < 11 → 7 ^ e * 7 % 2 ^ 32 ≡ 7 ^ suc e
next7 e h = omega (arith, small (suc e) h)

powers_lem :
    (k i e : ℕ)
    → i < 177147
    → i < e + k
    → e ≤ 11
    → (powers k i (3 ^ e) (5 ^ e) (7 ^ e) ≡ true) ↔ ((j : ℕ) × (e ≤ j) × IsPower j i)
unfolding powers is_hit
powers_lem zero i e h fuel top = (
  (λ p. absurd (grind (arith, p))),
  λ (j, l, p). absurd (omega (arith, fuel, less e, from e j i l p)),
)
powers_lem (suc k) i e h fuel top = elim (lt-cases i (3 ^ e)) [
  | inl l ↦
      rw (passed e i l top)
        ((λ p. absurd (grind (arith, p))), λ (j, m, p). absurd (omega (arith, l, from e j i m p)))
  | inr l ↦ rw (reached e i l) (elim (Bool-cases (is_hit e i)) [
    | inl t ↦ rw t ((λ p. (e, omega arith, (hit_iff e i).0 t)), λ x. refl)
    | inr f ↦
        let below = low e i h l in
        let (to, back) = powers_lem k i (suc e) h (omega (arith, fuel)) below in
        rw (f, next3 e below, next5 e below, next7 e below)
          (
            (λ p. let (j, m, q) = to p in (j, omega (arith, m), q)),
            λ (j, m, q). elim (eq-cases j e) [
              | inl s ↦
                  let t : is_hit e i ≡ true = (hit_iff e i).1 (rw s at q) in
                  let p : false ≡ true = sym f ∙ t in absurd (grind (arith, p))
              | inr ne ↦ back (j, omega (arith, m, ne), q)
            ],
          )
  ])
]

pub cg_has_sb-IsSparse : (i : ℕ) → i < 177147 → (cg_has_sb i ≡ true) ↔ IsSparse i
unfolding cg_has_sb IsSparse
cg_has_sb-IsSparse i h = elim (lt-cases i 2) [
  | inl l ↦
      let t : ((i == 0) || (i == 1)) ≡ true = ground (arith, l) in
      rw t (
        (λ x. elim (eq-cases i 0) [ inl z ↦ inl z | inr ne ↦ inr (0, inl (omega (arith, l, ne))) ]),
        λ x. refl,
      )
  | inr l ↦
      let f : ((i == 0) || (i == 1)) ≡ false = ground (arith, l) in
      let (to, back) = powers_lem (i + 1) i 1 h (omega arith) (omega arith) in
      rw f (
        (λ p. let (j, m, q) = to p in inr (j, q)),
        λ s. elim s [
          | inl z ↦ absurd (omega (arith, z, l))
          | inr (zero, q) ↦ absurd (ground (arith, q, l))
          | inr (suc j, q) ↦ back (suc j, omega arith, q)
        ],
      )
]
