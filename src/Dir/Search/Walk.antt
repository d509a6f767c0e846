-- ===== src/Dir/Search/Walk.antt =====
-- What the search loop of `ext2_lookup_ino` passes, block by block, in a sound directory.
use ext2fs.Base.{
  ℕ, zero, suc, ◌+◌, ◌-◌, ◌*◌, ◌≤◌, ◌<◌, ◌≡◌, ◌≢◌, ◌⊎◌, inl, inr, refl, sym, subst, ◌∙◌, true,
  false, some, List, [], ◌∷◌, ◌++◌, Bool-cases, eq-cases, lt-cases, ltb, ◌==◌, if◌then◌else◌, All,
  arith,
}
use mathlib.Core.Option.{some-injective}
use ext2fs.Dir.{Entry, Blocks}
use ext2fs.Dir.Chain.{span, Holds, Holds-pos}
use ext2fs.Dir.Search.{
  Slot, Scan, hit, through, Sought, see, reset, mangled, matches, scan_block, scan_blocks, search,
}

-- `prevoff`, `enduseful` and the slot behind entries that are passed, the first of them at `off` in the
-- block that begins at `base`.
abbrev pub prev_after : ℕ → ℕ → ℕ → List Entry → ℕ
prev_after base off prev [] = prev
prev_after base off prev (e ∷ es) = prev_after base (off + e.reclen) (base + off) es

abbrev pub useful_after : ℕ → ℕ → ℕ → List Entry → ℕ
useful_after base off useful [] = useful
useful_after base off useful (e ∷ es) =
    useful_after base (off + e.reclen) (if e.ino == 0 then useful else base + off + e.reclen) es

abbrev pub see_all : ℕ → ℕ → ℕ → List Entry → Slot → Slot
see_all needed base off [] s = s
see_all needed base off (e ∷ es) s =
    see_all needed base (off + e.reclen) es (see needed e (base + off) s)

module _ (q : Sought) where
  -- Entries from offset `off` of a block on, each with room for its name and none of them bad.
  abbrev pub Good : ℕ → List Entry → Type 0
  Good off [] = Unit
  Good off (e ∷ es) = Holds e × (mangled q e off ≡ false) × Good (off + e.reclen) es

  abbrev pub Misses : Entry → Type 0
  Misses e = matches q e ≡ false

  -- The blocks before `n` can be read, and each is a chain of good entries that ends with the block.
  abbrev pub Sound : Blocks → ℕ → Type 0
  Sound read n =
      (i : ℕ)
      → i < n
      → (chain : List Entry) × (read i ≡ some chain) × (span chain ≡ q.bsize) × Good 0 chain

  -- An entry with the name behind `pre`, and the search's answer to it.
  abbrev pub Stops : ℕ → ℕ → ℕ → List Entry → Scan → Type 0
  Stops base off prev es out =
      (pre : List Entry) × (e : Entry) × (post : List Entry) × (es ≡ pre ++ (e ∷ post))
      × All Misses pre
      × (matches q e ≡ true)
      × (out ≡ hit e (base + (off + span pre)) (prev_after base off prev pre))

  pub scan_block-Stops :
      (base : ℕ) (es : List Entry) (off prev useful : ℕ) (s : Slot)
      → off + span es ≡ q.bsize
      → Good off es
      → (All Misses es
          × (scan_block q base es off prev useful s
              ≡ through
                  (prev_after base off prev es)
                  (useful_after base off useful es)
                  (see_all q.needed base off es s)))
        ⊎ Stops base off prev es (scan_block q base es off prev useful s)
  unfolding scan_block
  scan_block-Stops base [] off prev useful s len good =
      let at_end : (off == q.bsize) ≡ true = ground arith in inl (tt, rw at_end refl)
  scan_block-Stops base (e ∷ es) off prev useful s len (holds, clean, good) =
      let pos = Holds-pos e holds in
      let a : (off == q.bsize) ≡ false = ground arith in
      let b : ltb q.bsize off ≡ false = ground arith in
      elim (Bool-cases (matches q e)) [
        | inl m ↦ inr (
          [],
          e,
          es,
          refl,
          tt,
          m,
          let z : off + 0 ≡ off = omega arith in rw (a, b, clean, m, z) refl,
        )
        | inr m ↦
            elim (scan_block-Stops base es (off + e.reclen) (base + off)
              (if e.ino == 0 then useful else base + off + e.reclen) (see q.needed e (base + off) s)
              (omega arith) good) [
                | inl (misses, t) ↦ inl ((m, misses), rw (a, b, clean, m) t)
                | inr (pre, e', post, split, misses, m', t) ↦ inr (
                  e ∷ pre,
                  e',
                  post,
                  rw split refl,
                  (m, misses),
                  m',
                  let z : off + (e.reclen + span pre) ≡ off + e.reclen + span pre = omega arith in
                      rw (a, b, clean, m, z) t,
                )
              ]
      ]

  -- A search that stops does so in one of the blocks from `b` up to `end`.
  abbrev pub StopsIn : Blocks → ℕ → ℕ → Scan → Type 0
  StopsIn read b end out =
      (i : ℕ) × (b ≤ i)
      × (i < end)
      × (chain : List Entry) × (read i ≡ some chain)
      × (prev : ℕ) × Stops (i * q.bsize) 0 prev chain out

  abbrev pub Missing : Blocks → ℕ → ℕ → Type 0
  Missing read b end =
      (i : ℕ) → b ≤ i → i < end → (chain : List Entry) → read i ≡ some chain → All Misses chain

  scan_blocks-through :
      (read : Blocks) (k b prev useful : ℕ) (s : Slot) (chain : List Entry) (p u : ℕ) (s' : Slot)
      → read b ≡ some chain
      → scan_block q (b * q.bsize) chain 0 prev useful (reset s) ≡ through p u s'
      → scan_blocks q read (suc k) b prev useful s ≡ scan_blocks q read k (suc b) p u s'
  unfolding scan_blocks
  scan_blocks-through read k b prev useful s chain p u s' r t =
      let next : b + 1 ≡ suc b = omega arith in rw (r, t, next, scan_blocks) refl

  scan_blocks-hit :
      (read : Blocks) (k b prev useful : ℕ) (s : Slot) (chain : List Entry) (e : Entry) (off p : ℕ)
      → read b ≡ some chain
      → scan_block q (b * q.bsize) chain 0 prev useful (reset s) ≡ hit e off p
      → scan_blocks q read (suc k) b prev useful s ≡ hit e off p
  unfolding scan_blocks
  scan_blocks-hit read k b prev useful s chain e off p r t = rw (r, t, scan_blocks) refl

  -- `P b` is what holds of `enduseful` and the slot when the search comes to block `b`.
  module _ (read : Blocks) (n : ℕ) (sound : Sound read n) (P : ℕ → ℕ → Slot → Type 0)
      (step : (i : ℕ)
        → i < n
        → (chain : List Entry) → read i ≡ some chain
        → span chain ≡ q.bsize
        → Good 0 chain
        → (useful : ℕ) (s : Slot) → P i useful s
        → P
            (suc i)
            (useful_after (i * q.bsize) 0 useful chain)
            (see_all q.needed (i * q.bsize) 0 chain (reset s))) where
    abbrev Passes : ℕ → ℕ → Scan → Type 0
    Passes b end out =
        (prev : ℕ) × (useful : ℕ) × (s : Slot) × (out ≡ through prev useful s)
        × P end useful s
        × Missing read b end

    abbrev Ends : ℕ → ℕ → Scan → Type 0
    Ends b end out = Passes b end out ⊎ StopsIn read b end out

    later-Ends :
        (b end : ℕ) (out : Scan) (chain : List Entry)
        → read b ≡ some chain
        → All Misses chain
        → Ends (suc b) end out
        → Ends b end out
    later-Ends b end out chain r misses (inl (prev, useful, s, t, p, m)) = inl (
      prev,
      useful,
      s,
      t,
      p,
      λ i lo hi chain' e. elim (eq-cases i b) [
        | inl same ↦
            let there : read b ≡ some chain' = rw same at e in
            subst (All Misses) (some-injective _ _ (sym r ∙ there)) misses
        | inr differs ↦ m i (omega arith) hi chain' e
      ],
    )
    later-Ends b end out chain r misses (inr (i, lo, hi, c, r', prev, stops)) =
        inr (i, omega arith, hi, c, r', prev, stops)

    pub scan_blocks-Ends :
        (k b end prev useful : ℕ) (s : Slot)
        → end ≡ b + k
        → end ≤ n
        → P b useful s
        → Ends b end (scan_blocks q read k b prev useful s)
    unfolding scan_blocks
    scan_blocks-Ends zero b end prev useful s len le p =
        let here : end ≡ b = omega arith in
        inl (prev, useful, s, refl, rw here p, λ i lo hi chain e. absurd (omega arith))
    scan_blocks-Ends (suc k) b end prev useful s len le p =
        let (chain, r, size, good) = sound b (omega arith) in
        let ends : 0 + span chain ≡ q.bsize = rw size (omega arith) in
        elim (scan_block-Stops (b * q.bsize) chain 0 prev useful (reset s) ends good) [
          | inl (misses, t) ↦
              let p' = step b (omega arith) chain r size good useful s p in
              subst (Ends b end) (sym (scan_blocks-through read k b prev useful s chain _ _ _ r t))
                (later-Ends b end _ chain r misses
                  (scan_blocks-Ends k (suc b) end _ _ _ (omega arith) le p'))
          | inr (pre, e, post, split, misses, m, t) ↦ inr (
            b,
            omega arith,
            omega arith,
            chain,
            r,
            prev,
            (
              pre,
              e,
              post,
              split,
              misses,
              m,
              scan_blocks-hit read k b prev useful s chain _ _ _ r t,
            ),
          )
        ]

    search-through :
        (start : ℕ) (s : Slot) (p u : ℕ) (s' : Slot)
        → (start == 0) ≡ false
        → scan_blocks q read (n - start) start (start * q.bsize) 0 s ≡ through p u s'
        → search q read n start s ≡ scan_blocks q read start 0 p u s'
    unfolding search
    search-through start s p u s' nz t = rw (t, nz, search) refl

    search-first :
        (start : ℕ) (s : Slot) (p u : ℕ) (s' : Slot)
        → (start == 0) ≡ true
        → scan_blocks q read (n - start) start (start * q.bsize) 0 s ≡ through p u s'
        → search q read n start s ≡ through p u s'
    unfolding search
    search-first start s p u s' z t = rw (t, z, search) refl

    search-hit :
        (start : ℕ) (s : Slot) (e : Entry) (off p : ℕ)
        → scan_blocks q read (n - start) start (start * q.bsize) 0 s ≡ hit e off p
        → search q read n start s ≡ hit e off p
    unfolding search
    search-hit start s e off p t = rw (t, search) refl

    -- The search goes on at the first block where it has begun behind it.
    pub search-Ends :
        (start : ℕ) (s : Slot)
        → start ≤ n
        → P start 0 s
        → ((useful : ℕ) (s' : Slot) → start ≢ 0 → P n useful s' → P 0 useful s')
        → ((prev : ℕ) × (useful : ℕ) × (s' : Slot) × (search q read n start s
              ≡ through prev useful s')
            × P (if start == 0 then n else start) useful s'
            × Missing read 0 n)
          ⊎ StopsIn read 0 n (search q read n start s)
    search-Ends start s le p wrap =
        elim (scan_blocks-Ends (n - start) start n (start * q.bsize) 0 s (omega arith) (omega arith)
          p) [
            | inl (prev, useful, s', t, p', missing) ↦ elim (Bool-cases (start == 0)) [
              | inl z ↦ inl (
                prev,
                useful,
                s',
                search-first start s prev useful s' z t,
                rw z p',
                λ i lo hi. missing i (ground arith) hi,
              )
              | inr nz ↦
                  let again = wrap useful s' (ground arith) p' in
                  rw (search-through start s prev useful s' nz t, nz)
                    (elim (scan_blocks-Ends start 0 start prev useful s' (omega arith) le again) [
                      | inl (prev', useful', s2, t', p2, missing') ↦ inl (
                        prev',
                        useful',
                        s2,
                        t',
                        p2,
                        λ i lo hi. elim (lt-cases i start) [
                          | inl below ↦ missing' i lo below
                          | inr above ↦ missing i above hi
                        ],
                      )
                      | inr (i, lo, hi, c, r, prev', stops) ↦
                          inr (i, lo, omega arith, c, r, prev', stops)
                    ])
            ]
            | inr (i, lo, hi, c, r, prev, (pre, e, post, split, misses, m, t)) ↦ inr (
              i,
              omega arith,
              hi,
              c,
              r,
              prev,
              (pre, e, post, split, misses, m, search-hit start s e _ _ t),
            )
          ]
