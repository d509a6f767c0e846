-- ===== src/Dir/Lookup/Walk.antt =====
-- How `ext2_lookup_ino` ends in a sound directory.
use ext2fs.Base.{
  ℕ, suc, ◌+◌, ◌*◌, ◌/◌, ◌≤◌, ◌<◌, ◌≡◌, ◌≢◌, ◌⊎◌, inl, inr, refl, sym, subst, ◌∙◌, true, false,
  some, List, [], ◌∷◌, ◌++◌, Bool-cases, ltb, leb, ◌==◌, if◌then◌else◌, All, arith,
}
use mathlib.Core.Option.{some-injective}
use ext2fs.Dir.{Entry, Dirnode, Blocks, needs}
use ext2fs.Dir.Chain.{span, Holds}
use ext2fs.Dir.Offsets.{place-inner, block-le-roundup, block-pos}
use ext2fs.Dir.Search.{Slot, hit, through, reset, matches, search}
use ext2fs.Dir.Search.Walk.{
  useful_after, prev_after, see_all, Good, Sound, Misses, Missing, search-Ends,
}
use ext2fs.Dir.Lookup.{
  Wanted, Volume, block_count, sought, slot_start, start_block, notfound, found_end, found_sized,
  lookup_ino,
}

pub Good-Holds : (q : _) (off : ℕ) (es : List Entry) → Good q off es → All Holds es
Good-Holds q off [] good = tt
Good-Holds q off (e ∷ es) (holds, clean, good) = (holds, Good-Holds q (off + e.reclen) es good)

-- An entry lies within its chain.
pub entry-inside :
    (pre : List Entry) (e : Entry) (post : List Entry)
    → All Holds (pre ++ (e ∷ post))
    → span pre + needs e ≤ span (pre ++ (e ∷ post))
entry-inside [] e post holds = let h = holds.0 in omega arith
entry-inside (x ∷ xs) e post holds = let h = entry-inside xs e post holds.1 in omega arith

module _ (v : Volume) (w : Wanted) (dp : Dirnode) (blocks : Blocks) where
  -- Every block of the directory can be read and is a chain of good entries.
  abbrev pub SoundDir : Type 0
  SoundDir = (0 < v.bsize) × Sound (sought v w) blocks (block_count v dp)

  abbrev pub Absent : Type 0
  Absent = Missing (sought v w) blocks 0 (block_count v dp)

  -- An entry with the name in block `i` behind `pre`, the first of its block.
  abbrev pub At : ℕ → List Entry → Entry → List Entry → Type 0
  At i pre e post =
      (i < block_count v dp)
      × (blocks i ≡ some (pre ++ (e ∷ post)))
      × All (Misses (sought v w)) pre
      × (matches (sought v w) e ≡ true)

  pub start_block-le : 0 < v.bsize → start_block v w dp ≤ block_count v dp
  start_block-le pos =
      let h : ltb dp.size dp.diroff ≡ false → dp.diroff / v.bsize ≤ block_count v dp =
        λ f. block-le-roundup v.bsize pos dp.diroff dp.size (ground arith) in
      ground arith

  start_block-size : (start_block v w dp == 0) ≡ false → 0 < v.bsize → v.bsize ≤ dp.size
  start_block-size nz pos =
      let h : (dp.diroff / v.bsize == 0) ≡ false → v.bsize ≤ dp.diroff =
        block-pos v.bsize pos dp.diroff in
      ground arith

  -- The test of `i_size` does not strike where entries lie within their blocks.
  found_sized-found_end :
      (e : Entry) (i r prev : ℕ)
      → 0 < v.bsize
      → r < v.bsize
      → r + needs e ≤ v.bsize
      → found_sized v w e (i * v.bsize + r) prev dp ≡ found_end v w e (i * v.bsize + r) prev dp
  unfolding found_sized
  found_sized-found_end e i r prev pos lt inside = elim (Bool-cases (start_block v w dp == 0)) [
    | inl z ↦ rw z refl
    | inr nz ↦
        let le = start_block-size nz pos in
        let m = place-inner v.bsize pos i r lt in
        let big : leb (r + needs e) dp.size ≡ true = ground arith in rw (nz, m, big) (ground arith)
  ]

  pub chain-Sound :
      SoundDir
      → (i : ℕ) → i < block_count v dp
      → (chain : List Entry) → blocks i ≡ some chain
      → (span chain ≡ v.bsize) × All Holds chain
  chain-Sound (pos, sound) i lt chain r =
      let (chain', r', size, good) = sound i lt in
      let same : chain' ≡ chain = some-injective _ _ (sym r' ∙ r) in
      subst (λ c. (span c ≡ v.bsize) × All Holds c) same
        (size, Good-Holds (sought v w) 0 chain' good)

  -- `P b` is what holds of `enduseful` and the slot when the search comes to block `b`.
  module _ (sound : SoundDir) (P : ℕ → ℕ → Slot → Type 0)
      (start : P (start_block v w dp) 0 (slot_start v w))
      (wrap : (useful : ℕ) (s : Slot)
        → start_block v w dp ≢ 0
        → P (block_count v dp) useful s
        → P 0 useful s)
      (step : (i : ℕ)
        → i < block_count v dp
        → (chain : List Entry) → blocks i ≡ some chain
        → span chain ≡ v.bsize
        → Good (sought v w) 0 chain
        → (useful : ℕ) (s : Slot) → P i useful s
        → P
            (suc i)
            (useful_after (i * v.bsize) 0 useful chain)
            (see_all (sought v w).needed (i * v.bsize) 0 chain (reset s))) where
    abbrev pub Fails : Type 0
    Fails =
        (useful : ℕ) × (s : Slot) × (lookup_ino v w dp blocks ≡ notfound v w useful s dp)
        × P (if start_block v w dp == 0 then block_count v dp else start_block v w dp) useful s
        × Absent

    abbrev pub Finds : Type 0
    Finds =
        (i : ℕ) × (pre : List Entry) × (e : Entry) × (post : List Entry) × (prev : ℕ) × At i pre e
          post
        × (lookup_ino v w dp blocks
            ≡ found_end v w e (i * v.bsize + span pre) (prev_after (i * v.bsize) 0 prev pre) dp)

    lookup_ino-through :
        (prev useful : ℕ) (s : Slot)
        → search (sought v w) blocks (block_count v dp) (start_block v w dp) (slot_start v w)
          ≡ through prev useful s
        → lookup_ino v w dp blocks ≡ notfound v w useful s dp
    unfolding lookup_ino
    lookup_ino-through prev useful s t = rw (t, lookup_ino) refl

    lookup_ino-hit :
        (e : Entry) (off prev : ℕ)
        → search (sought v w) blocks (block_count v dp) (start_block v w dp) (slot_start v w)
          ≡ hit e off prev
        → lookup_ino v w dp blocks ≡ found_sized v w e off prev dp
    unfolding lookup_ino
    lookup_ino-hit e off prev t = rw (t, lookup_ino) refl

    pub lookup_ino-Ends : Fails ⊎ Finds
    lookup_ino-Ends =
        elim (search-Ends (sought v w) blocks (block_count v dp) sound.1 P step (start_block v w dp)
          (slot_start v w) (start_block-le sound.0) start wrap) [
            | inl (prev, useful, s, t, p, missing) ↦
                inl (useful, s, lookup_ino-through prev useful s t, p, missing)
            | inr (i, lo, hi, chain, r, prev, (pre, e, post, split, misses, m, t)) ↦
                let here : blocks i ≡ some (pre ++ (e ∷ post)) = rw split at r in
                let (size, holds) = chain-Sound sound i hi _ here in
                let fits : span pre + needs e ≤ v.bsize =
                  let h = entry-inside pre e post holds in omega arith in
                let z : 0 + span pre ≡ span pre = omega arith in
                inr (
                  i,
                  pre,
                  e,
                  post,
                  prev,
                  (hi, here, misses, m),
                  lookup_ino-hit e _ _ (rw z at t)
                      ∙ found_sized-found_end e i (span pre) _ sound.0 (omega arith) fits,
                )
          ]
