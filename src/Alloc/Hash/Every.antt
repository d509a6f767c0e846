-- ===== src/Alloc/Hash/Every.antt =====
-- `ext2_hashalloc` tries every group before it gives up, and only groups there are.
use ext2fs.Base.{
  ℕ, zero, suc, ◌+◌, ◌-◌, ◌*◌, ◌%◌, ◌≤◌, ◌<◌, ◌≡◌, ◌≢◌, ◌⊎◌, refl, ap, subst, inl, inr, true, false,
  arith, ltb, leb, ◌==◌, if◌then◌else◌, Bool-cases, eq-cases, lt-cases,
}
use native.Mathlib.Nat.{mod-eq_of_lt, mod-eq-sub-mod}
use ext2fs.Alloc.State.{Fs, Run, done, panic, lock_error, Cmd, and_then, pure, ◌>>=◌}
use ext2fs.Alloc.Hash.{or_else, hop, rehash, brute, rest_of, hashalloc}

-- A place on the ring of groups that is less than twice round it.
around : (n a b : ℕ) → a < n → b < n → (a + b) % n ≡ (if ltb (a + b) n then a + b else a + b - n)
around n a b p q = elim (lt-cases (a + b) n) [
  | inl l ↦ ground (arith, mod-eq_of_lt l)
  | inr ge ↦ ground (
    arith,
    mod-eq-sub-mod {n = a + b} {m = n} ge,
    mod-eq_of_lt {n = a + b - n} {m = n} (omega arith),
  )
]

next_group :
    (n start j cg : ℕ)
    → start < n
    → j < n
    → cg ≡ (start + j) % n
    → (if cg + 1 == n then 0 else cg + 1) ≡ (start + (j + 1)) % n
next_group n start j cg l lj at = elim (eq-cases (j + 1) n) [
  | inl e ↦ ground (arith, around n start j l lj, wrap)
  | inr ne ↦ ground (arith, around n start j l lj, around n start (j + 1) l (omega arith))
]
  where
    wrap : (start + n) % n ≡ start
    wrap = omega (
      arith,
      mod-eq-sub-mod {n = start + n} {m = n} (omega arith),
      mod-eq_of_lt {n = start + n - n} {m = n} (omega arith),
    )

-- The number of steps round the ring from `cg` to `a`.
abbrev turn : ℕ → ℕ → ℕ → ℕ
turn n cg a = if leb cg a then a - cg else a + n - cg

turn_lem : (n cg a : ℕ) → cg < n → a < n → (cg + turn n cg a) % n ≡ a
turn_lem n cg a c la = ground (arith, around n cg (turn n cg a) c (ground arith))

-- `Ready` holds where an allocator may be called, `Spent cg` where group `cg` has failed, and
-- `Got r` where `r` has been allocated. `Good` holds of the preferences that an allocator can take, and
-- of 0.
module _ (gcount : ℕ) (Good : ℕ → Type 0) (zero_good : Good 0) (Ready : Fs → Type 0)
    (Spent : ℕ → Fs → Type 0) (Got : ℕ → Fs → Type 0) where
  -- How a call ends that began in a state of `Ready`: with 0 where `Failed` holds, or with a result.
  abbrev pub Ends : (Fs → Type 0) → Run ℕ → Type 0
  Ends Failed (done r fs) = ((r ≡ 0) × Ready fs × Failed fs) ⊎ ((r ≢ 0) × Got r fs)
  Ends Failed panic = ⊥
  Ends Failed lock_error = ⊥

  -- What was spent stays spent.
  abbrev pub Keeps : Fs → Fs → Type 0
  Keeps fs fs' = (a : ℕ) → Spent a fs → Spent a fs'

  -- The contract of an allocator: on a group that there is, it gives a block, or it fails and the
  -- group is spent.
  abbrev pub IsAllocator : (ℕ → ℕ → Cmd ℕ) → Type 0
  IsAllocator alloc =
      (cg pref : ℕ) (fs : Fs)
      → cg < gcount
      → Good pref
      → Ready fs
      → Ends (λ fs'. Spent cg fs' × Keeps fs fs') (alloc cg pref fs)

  -- A call that is followed by another where it fails.
  then_lem :
      (P Q : Fs → Type 0) (r : Run ℕ) (k : Cmd ℕ)
      → Ends P r
      → ((fs : Fs) → Ready fs → P fs → Ends Q (k fs))
      → Ends Q (and_then r (or_else k))
  then_lem P Q (done r fs) k (inl (z, ready, p)) next = rw (z, or_else, Ends) (next fs ready p)
  then_lem P Q (done r fs) k (inr (nz, got)) next =
      let f : (r == 0) ≡ false = ground arith in rw (f, or_else) (inr (nz, got))
  then_lem P Q panic k h next = h
  then_lem P Q lock_error k h next = h

  pub weaken : {P Q : Fs → Type 0} (r : Run ℕ) → Ends P r → ((fs : Fs) → P fs → Q fs) → Ends Q r
  weaken (done r fs) (inl (z, ready, p)) f = inl (z, ready, f fs p)
  weaken (done r fs) (inr h) f = inr h
  weaken panic h f = h
  weaken lock_error h f = h

  module _ (alloc : ℕ → ℕ → Cmd ℕ) (sound : IsAllocator alloc) where
    -- The groups from place `j` on, counted round from `start`.
    abbrev FromOn : ℕ → ℕ → Fs → Type 0
    FromOn start j fs = (k : ℕ) → j ≤ k → k < gcount → Spent ((start + k) % gcount) fs

    -- The brute force search goes through `n` groups in turn, from `(start + j) % gcount`.
    brute_lem :
        (n j start cg : ℕ) (fs : Fs)
        → j + n ≡ gcount
        → start < gcount
        → cg ≡ (start + j) % gcount
        → Ready fs
        → Ends (λ fs'. FromOn start j fs' × Keeps fs fs') (brute gcount alloc n cg fs)
    unfolding brute
    brute_lem zero j start cg fs e l at ready =
        inl (refl, ready, ((λ k a b. absurd (omega arith)), λ a h. h))
    brute_lem (suc n) j start cg fs e l at ready =
        then_lem _ (λ fs'. FromOn start j fs' × Keeps fs fs') (alloc cg 0 fs) _
          (sound cg 0 fs (omega arith) zero_good ready)
          λ fs₁ ready₁ spent.
            weaken (brute gcount alloc n (if cg + 1 == gcount then 0 else cg + 1) fs₁)
              (brute_lem n (j + 1) start (if cg + 1 == gcount then 0 else cg + 1) fs₁ (omega arith)
                l (next_group gcount start j cg l (omega arith) at) ready₁)
              (λ fs₂ h. (
                (λ k jk kg. elim (eq-cases k j) [
                  | inl same ↦ rw same (subst (λ a. Spent a fs₂) at (h.1 cg spent.0))
                  | inr ne ↦ h.0 k (omega arith) kg
                ]),
                λ a p. h.1 a (spent.1 a p),
              ))

    -- The rehash only hops to groups that there are, and the first hop is to the next group.
    rehash_lem :
        (f i cg : ℕ) (fs : Fs)
        → cg < gcount
        → Ready fs
        → Ends
            (λ fs'. (0 < f → i < gcount → Spent (hop gcount alloc cg i) fs') × Keeps fs fs')
            (rehash gcount alloc f i cg fs)
    unfolding rehash
    rehash_lem zero i cg fs c ready = inl (refl, ready, ((λ p. absurd (omega arith)), λ a h. h))
    rehash_lem (suc f) i cg fs c ready = elim (Bool-cases (ltb i gcount)) [
      | inr stop ↦ rw (stop, rehash) (inl (refl, ready, ((λ p l. absurd (ground arith)), λ a h. h)))
      | inl go ↦
          rw (go, rehash)
            (then_lem _
              (λ fs'. (0 < suc f → i < gcount → Spent (hop gcount alloc cg i) fs') × Keeps fs fs')
              (alloc (hop gcount alloc cg i) 0 fs) _
              (sound (hop gcount alloc cg i) 0 fs (ground arith) zero_good ready)
              λ fs₁ ready₁ spent.
                weaken (rehash gcount alloc f (i * 2) (hop gcount alloc cg i) fs₁)
                  (rehash_lem f (i * 2) (hop gcount alloc cg i) fs₁ (ground arith) ready₁)
                  (λ fs₂ h. ((λ p l. h.1 _ spent.0), λ a p. h.1 a (spent.1 a p))))
    ]

    -- The last search, which has no round where there are fewer than three groups.
    last_lem :
        (cg : ℕ) (fs : Fs)
        → cg < gcount
        → Ready fs
        → Ends
            (λ fs'. FromOn cg 2 fs' × Keeps fs fs')
            (brute gcount alloc (gcount - 2) ((cg + 2) % gcount) fs)
    unfolding brute
    last_lem cg fs c ready = elim (lt-cases gcount 2) [
      | inl few ↦
          let z : gcount - 2 ≡ 0 = omega arith in
          rw z (inl (refl, ready, ((λ k a b. absurd (omega arith)), λ a h. h)))
      | inr more ↦ brute_lem (gcount - 2) 2 cg ((cg + 2) % gcount) fs (omega arith) c refl ready
    ]

    -- The three searches leave no group out.
    covered :
        (cg : ℕ) (fs : Fs)
        → cg < gcount
        → Spent cg fs
        → (0 < gcount → 1 < gcount → Spent (hop gcount alloc cg 1) fs)
        → FromOn cg 2 fs
        → (a : ℕ) → a < gcount
        → Spent a fs
    covered cg fs c first second third a la = elim (eq-cases a cg) [
      | inl e ↦ rw e first
      | inr ne ↦ elim (eq-cases (hop gcount alloc cg 1) a) [
        | inl e ↦ subst (λ b. Spent b fs) e (second (omega arith) (omega arith))
        | inr ne' ↦
            subst (λ b. Spent b fs) (turn_lem gcount cg a c la)
              (third (turn gcount cg a) (ground arith) (ground arith))
      ]
    ]

    -- `ext2_hashalloc`, begun on a group that there is, with an allocator that on every group
    -- either gives a result or fails, marks the group as spent and keeps the others spent: it
    -- calls the allocator on no group that there is not, and ends with a result of the allocator,
    -- or with 0 when every group of the volume is spent.
    pub hashalloc-Ends :
        (cg pref : ℕ) (fs : Fs)
        → cg < gcount
        → Good pref
        → Ready fs
        → Ends (λ fs'. (a : ℕ) → a < gcount → Spent a fs') (hashalloc gcount alloc cg pref fs)
    unfolding hashalloc rest_of
    hashalloc-Ends cg pref fs c good ready =
        then_lem _ (λ fs'. (a : ℕ) → a < gcount → Spent a fs') (alloc cg pref fs) _
          (sound cg pref fs c good ready)
          λ fs₁ ready₁ first.
            then_lem _ (λ fs'. (a : ℕ) → a < gcount → Spent a fs')
              (rehash gcount alloc gcount 1 cg fs₁) _ (rehash_lem gcount 1 cg fs₁ c ready₁)
              λ fs₂ ready₂ second.
                weaken (brute gcount alloc (gcount - 2) ((cg + 2) % gcount) fs₂)
                  (last_lem cg fs₂ c ready₂)
                  (λ fs₃ third.
                    covered cg fs₃ c (third.1 cg (second.1 cg first.0))
                      (λ p q. third.1 _ (second.0 p q)) third.0)

-- The rehash of `ext2_hashalloc` from a step `i` above 0 on needs no more rounds than `gcount -
-- i`: one more round changes nothing.
pub rehash_fuel :
    (gcount : ℕ) (alloc : ℕ → ℕ → Cmd ℕ) (f i cg : ℕ)
    → 0 < i
    → gcount ≤ i + f
    → rehash gcount alloc (suc f) i cg ≡ rehash gcount alloc f i cg
unfolding rehash
rehash_fuel gcount alloc zero i cg p h =
    let stop : ltb i gcount ≡ false = ground arith in rw (stop, rehash) refl
rehash_fuel gcount alloc (suc f) i cg p h =
    ap
      (λ rest. elim (ltb i gcount) [
        | false ↦ pure 0
        | true ↦ alloc (hop gcount alloc cg i) 0 >>= or_else rest
      ])
      (rehash_fuel gcount alloc f (i * 2) (hop gcount alloc cg i) (omega arith) (omega arith))
