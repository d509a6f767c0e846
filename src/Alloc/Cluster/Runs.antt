-- ===== src/Alloc/Cluster/Runs.antt =====
-- The runs of clear bits of a bitmap, each weighed by its length, and what one bit changes of them.
use ext2fs.Base.{
  ℕ, zero, suc, ◌+◌, ◌≤◌, ◌<◌, ◌≡◌, ◌≢◌, ◌⊎◌, refl, ◌∙◌, ap, inl, inr, Bool, true, false, arith,
  if◌then◌else◌, min, Bool-cases, eq-cases, lt-cases,
}
use native.Mathlib.Nat.{min-eq_left, min-eq_right}

module _ (used : ℕ → Bool) where
  -- The clear bits just below `i`.
  unfoldable pub before : ℕ → ℕ
  before zero = 0
  before (suc i) = if used i then 0 else before i + 1

  -- The clear bits from `i` on, at most `n`.
  unfoldable pub after : ℕ → ℕ → ℕ
  after zero i = 0
  after (suc n) i = if used i then 0 else suc (after n (i + 1))

  -- The weights of the runs that end below bit `n` at a bit in use, and those of all runs of `n` bits.
  unfoldable pub closed : (ℕ → ℕ) → ℕ → ℕ
  unfolding before
  closed weight zero = 0
  closed weight (suc i) = closed weight i + (if used i then weight (before i) else 0)

  abbrev pub total : (ℕ → ℕ) → ℕ → ℕ
  total weight n = closed weight n + weight (before n)

  pub before-le : (i : ℕ) → before i ≤ i
  unfolding before
  before-le zero = omega arith
  before-le (suc i) = ground (arith, before-le i)

  pub after-le : (n i : ℕ) → after n i ≤ n
  unfolding after
  after-le zero i = omega arith
  after-le (suc n) i = ground (arith, after-le n (i + 1))

  pub after-clear : (n i j : ℕ) → i ≤ j → j < i + after n i → used j ≡ false
  unfolding after
  after-clear zero i j lo hi = absurd (omega (arith, lo, hi))
  after-clear (suc n) i j lo hi = elim (Bool-cases (used i)) [
    | inl u ↦ absurd (omega (arith, lo, rw u at hi))
    | inr f ↦ elim (eq-cases i j) [
      | inl e ↦ rw (← e) f
      | inr ne ↦ after-clear n (i + 1) j (omega (arith, lo, ne)) (omega (arith, rw f at hi))
    ]
  ]

  -- The run ends at its bound or at a bit in use.
  pub after-ends : (n i : ℕ) → (after n i ≡ n) ⊎ (used (i + after n i) ≡ true)
  unfolding after
  after-ends zero i = inl refl
  after-ends (suc n) i = elim (Bool-cases (used i)) [
    | inl u ↦ inr (rw u (ap used (omega arith) ∙ u))
    | inr f ↦ elim (after-ends n (i + 1)) [
      | inl e ↦ inl (rw f (omega (arith, e)))
      | inr e ↦ inr (rw f (ap used (omega arith) ∙ e))
    ]
  ]

  after-cap : (n m i : ℕ) → m ≤ n → after m i ≡ min (after n i) m
  unfolding after
  after-cap n zero i h = omega arith
  after-cap zero (suc m) i h = absurd (omega (arith, h))
  after-cap (suc n) (suc m) i h = elim (Bool-cases (used i)) [
    | inl u ↦ rw u (omega arith)
    | inr f ↦ rw f (omega (arith, after-cap n m (i + 1) (omega (arith, h))))
  ]

  -- A bound on the search is a bound on the length.
  pub after-min : (n m i : ℕ) → after (min m n) i ≡ min (after n i) m
  after-min n m i = elim (lt-cases m n) [
    | inl l ↦
        rw (min-eq_left {n = m} {m = n} (omega (arith, l))) (after-cap n m i (omega (arith, l)))
    | inr l ↦ rw (min-eq_right {n = n} {m = m} l) (omega (arith, l, after-le n i))
  ]

pub after-ext :
    (u u' : ℕ → Bool) (n i : ℕ) → ((j : ℕ) → i ≤ j → u' j ≡ u j) → after u' n i ≡ after u n i
unfolding after
after-ext u u' zero i h = refl
after-ext u u' (suc n) i h =
    rw (h i (omega arith), after-ext u u' n (i + 1) (λ j l. h j (omega (arith, l)))) refl

-- `u` and `u'` differ at `b` alone, which is in use in `u` and clear in `u'`.
module _ (u u' : ℕ → Bool) (b : ℕ) (same : (j : ℕ) → j ≢ b → u' j ≡ u j) (taken : u b ≡ true)
    (freed : u' b ≡ false) (weight : ℕ → ℕ) where
  pub below :
      (i : ℕ) → i ≤ b → (before u' i ≡ before u i) × (closed u' weight i ≡ closed u weight i)
  unfolding before closed
  below zero h = (refl, refl)
  below (suc i) h =
      let (x, y) = below i (omega (arith, h)) in
      let e = same i (λ q. absurd (omega (arith, q, h))) in (rw (e, x) refl, rw (e, x, y) refl)

  -- As long as the bits above `b` are clear.
  beside :
      (j : ℕ)
      → b < j
      → ((i : ℕ) → b < i → i < j → u i ≡ false)
      → (closed u weight j ≡ closed u weight b + weight (before u b))
        × (before u j + b + 1 ≡ j)
        × (closed u' weight j ≡ closed u weight b)
        × (before u' j + b ≡ before u b + j)
  unfolding before closed
  beside zero h clear = absurd (omega (arith, h))
  beside (suc j) h clear = elim (eq-cases j b) [
    | inl e ↦
        let (x, y) = below b (omega arith) in
        rw (e, taken, freed) (refl, omega arith, omega (arith, y), omega (arith, x))
    | inr ne ↦
        let (p, q, r, s) =
          beside j (omega (arith, h, ne)) (λ i l k. clear i l (omega (arith, k))) in
        let f = clear j (omega (arith, h, ne)) (omega arith) in
        let f' = same j ne ∙ f in
        rw (f, f') (omega (arith, p), omega (arith, q), omega (arith, r), omega (arith, s))
  ]

  module _ (m : ℕ) (over : b < m) (clear : (i : ℕ) → b < i → i < m → u i ≡ false) where
    -- The length of the run between `b` and `m`, and that of the one with `b`.
    abbrev joined : ℕ
    joined = before u b + before u m + 1

    at_end :
        closed u weight m + weight (before u m) + weight joined
        ≡ closed u' weight m + weight (before u' m) + weight (before u b) + weight (before u m)
    at_end =
        let (p, q, r, s) = beside m over clear in
        let e : before u' m ≡ joined = omega (arith, q, s) in rw e (omega (arith, p, r))

    -- Behind the bit in use that ends the run nothing differs.
    beyond :
        (j : ℕ)
        → u m ≡ true
        → m < j
        → (closed u weight j + weight joined
            ≡ closed u' weight j + weight (before u b) + weight (before u m))
          × (before u' j ≡ before u j)
    unfolding before closed
    beyond zero stop h = absurd (omega (arith, h))
    beyond (suc j) stop h = elim (eq-cases j m) [
      | inl e ↦
          let stop' = same m (λ q. absurd (omega (arith, q, over))) ∙ stop in
          rw (e, stop, stop') (omega (arith, at_end), refl)
      | inr ne ↦
          let (x, y) = beyond j stop (omega (arith, h, ne)) in
          let f = same j (λ q. absurd (omega (arith, q, over, h))) in
          rw (f, y) (ground (arith, x), refl)
    ]

    -- To free the bit `b` joins the runs at its sides.
    pub total_change :
        (n : ℕ)
        → (m ≡ n) ⊎ ((m < n) × (u m ≡ true))
        → total u weight n + weight joined
          ≡ total u' weight n + weight (before u b) + weight (before u m)
    total_change n (inl e) = rw (← e) (omega (arith, at_end))
    total_change n (inr (l, stop)) = let (x, y) = beyond n stop l in rw y (omega (arith, x))

    pub length_beside : before u m + b + 1 ≡ m
    length_beside = (beside m over clear).1
