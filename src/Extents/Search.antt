-- ===== src/Extents/Search.antt =====
-- The binary searches of kext/ext2_extents.c against the order of the entries.
use ext2fs.Base.{
  ℕ, zero, suc, ◌+◌, ◌-◌, ◌/◌, ◌≡◌, ◌<◌, ◌≤◌, refl, ap, ◌∙◌, false, some, ltb, ◌==◌, arith,
  Bool-cases, inl, inr, lt-cases, eq-cases,
}
use ext2fs.Extents.{Table, at, eh_ecount, bisect, binsearch, binsearch_index}

-- The entries from slot 1 to slot `n` stand in the order of their first block.
abbrev pub IsSorted : Table → ℕ → Type 0
IsSorted t n = (p q : ℕ) → 1 ≤ p → p ≤ q → q ≤ n → (at t p).w0 ≤ (at t q).w0

-- Slot `p` is the last of the `n` entries that begins at `lbn` or before; 0 when there is none.
abbrev pub IsLast : Table → ℕ → ℕ → ℕ → Type 0
IsLast t lbn n p =
    (p ≤ n)
    × ((q : ℕ) → 1 ≤ q → q ≤ p → (at t q).w0 ≤ lbn)
    × ((q : ℕ) → p < q → q ≤ n → lbn < (at t q).w0)

module _ (t : Table) (lbn n : ℕ) (sorted : IsSorted t n) where
  half-lt : (l hi : ℕ) → l < hi → (l ≤ l + (hi - 1 - l) / 2) × (l + (hi - 1 - l) / 2 < hi)
  half-lt l hi h = (omega arith, omega arith)

  bisect_lem :
      (k l hi : ℕ)
      → hi - l < k
      → 1 ≤ l
      → l ≤ hi
      → hi ≤ suc n
      → ((q : ℕ) → 1 ≤ q → q < l → (at t q).w0 ≤ lbn)
      → ((q : ℕ) → hi ≤ q → q ≤ n → lbn < (at t q).w0)
      → (p : ℕ) × (bisect t lbn k l hi ≡ some p) × IsLast t lbn n p
  unfolding bisect
  bisect_lem zero l hi fuel one le top below above = absurd (omega arith)
  bisect_lem (suc k) l hi fuel one le top below above = elim (Bool-cases (ltb l hi)) [
    | inl t1 ↦
        let lt : l < hi = ground arith in
        let (m1, m2) = half-lt l hi lt in
        elim (Bool-cases (ltb lbn (at t (l + (hi - 1 - l) / 2)).w0)) [
          | inl t2 ↦
              let here : lbn < (at t (l + (hi - 1 - l) / 2)).w0 = ground arith in
              rw (t1, t2)
                (bisect_lem k l (l + (hi - 1 - l) / 2) (omega arith) one m1 (omega arith) below
                  (λ q a b. omega (arith, here, sorted (l + (hi - 1 - l) / 2) q (omega arith) a b)))
          | inr f2 ↦
              let here : (at t (l + (hi - 1 - l) / 2)).w0 ≤ lbn = ground arith in
              rw (t1, f2)
                (bisect_lem k (l + (hi - 1 - l) / 2 + 1) hi (omega arith) (omega arith)
                  (omega arith) top
                  (λ q a b.
                    omega
                      (arith, here, sorted q (l + (hi - 1 - l) / 2) a (omega arith) (omega arith)))
                  above)
        ]
    | inr f1 ↦
        let ge : hi ≡ l = ground arith in
        rw f1 (
          l - 1,
          refl,
          (omega arith, (λ q a b. below q a (omega arith)), λ q a b. above q (omega arith) b),
        )
  ]

  IsLast-eq : (p q : ℕ) → 1 ≤ q → IsLast t lbn n p → IsLast t lbn n q → p ≡ q
  IsLast-eq p q one (le, here, after) (le', here', after') = elim (lt-cases p q) [
    | inl lt ↦ absurd (omega (arith, after q lt le', here' q one (omega arith)))
    | inr ge ↦ elim (eq-cases p q) [
      | inl e ↦ e
      | inr ne ↦
          absurd (omega (arith, after' p (omega arith) le, here p (omega arith) (omega arith)))
    ]
  ]

-- On a table whose entries stand in the order of their first block and where entry q is the last
-- to begin at the block or before, `ext4_ext_binsearch` and `ext4_ext_binsearch_index` both end,
-- at q.
pub binsearch_lem :
    (t : Table) (lbn q : ℕ)
    → IsSorted t (eh_ecount (at t 0))
    → 1 ≤ q
    → IsLast t lbn (eh_ecount (at t 0)) q
    → (binsearch t lbn ≡ some (some q)) × (binsearch_index t lbn ≡ some q)
unfolding binsearch binsearch_index
binsearch_lem t lbn q sorted one last =
    let n : ℕ = eh_ecount (at t 0) in
    let some_entry : (n == 0) ≡ false = ground (arith, last.0) in
    let (p, e, l) =
      bisect_lem t lbn n sorted (n + 1) 1 (n + 1) (omega arith) (omega arith) (omega arith)
        (omega arith) (λ q' a b. absurd (omega arith)) (λ q' a b. absurd (omega arith)) in
    let same : p ≡ q = IsLast-eq t lbn n sorted p q one l last in
    let found_q : bisect t lbn (n + 1) 1 (n + 1) ≡ some q = e ∙ ap some same in
    (rw (some_entry, found_q) refl, found_q)
