-- ===== src/Dir/Lookup/Names.antt =====
-- The names of a directory and the answers of `ext2_lookup_ino`.
use ext2fs.Base.{
  ℕ, zero, suc, ◌+◌, ◌*◌, ◌≤◌, ◌<◌, ◌≡◌, ◌⊎◌, inl, inr, refl, sym, true, false, List, [], ◌∷◌, ◌++◌,
  Bool-cases, ◌==◌, if◌then◌else◌, All, arith,
}
use mathlib.Core.Bool.{true≢false}
use ext2fs.Dir.{Entry, Dirnode, Blocks, enoent, needs, same_name}
use ext2fs.Dir.Chain.{span, live, Holds, Holds-pos, All-append}
use ext2fs.Dir.Content.{content, held, Formed, Formed-chain, Item, replaced-Exchanged}
use ext2fs.Dir.Search.{matches}
use ext2fs.Dir.Search.Walk.{Good, Sound, Misses, Missing}
use ext2fs.Dir.Lookup.{Wanted, Volume, block_count, refused, found_ino, sought, lookup_ino}
use ext2fs.Dir.Lookup.Walk.{At, entry-inside}

-- An item of a directory has another name.
abbrev pub Unlike : List ℕ → Item → Type 0
Unlike name (ino, ftype, name') = same_name name' name ≡ false

-- The directory holds an item `x` with the name.
abbrev pub Names : List ℕ → Item → List Item → Type 0
Names name x all =
    (same_name x.2 name ≡ true)
    × (before : List Item) × (after : List Item) × (all ≡ before ++ (x ∷ after))

module _ (v : Volume) (w : Wanted) where
  clean-Good :
      v.dirchk ≡ false → (off : ℕ) (es : List Entry) → All Holds es → Good (sought v w) off es
  clean-Good d off [] holds = tt
  clean-Good d off (e ∷ es) holds =
      let pos = Holds-pos e holds.0 in
      let z : (e.reclen == 0) ≡ false = ground arith in
      (holds.0, rw (z, d) refl, clean-Good d (off + e.reclen) es holds.1)

  -- Without `dirchk`, room for the names is all that the search asks of a directory.
  pub Formed-Sound :
      v.dirchk ≡ false
      → (blocks : Blocks) (n : ℕ) → Formed v.bsize blocks n
      → Sound (sought v w) blocks n
  Formed-Sound d blocks n formed i lt =
      let (chain, r, size, holds) = formed i lt in (chain, r, size, clean-Good d 0 chain holds)

  live-Unlike : (es : List Entry) → All (Misses (sought v w)) es → All (Unlike w.name) (live es)
  live-Unlike [] misses = tt
  live-Unlike (e ∷ es) misses = elim (Bool-cases (e.ino == 0)) [
    | inl f ↦ rw f (live-Unlike es misses.1)
    | inr u ↦
        let m : same_name e.name w.name ≡ false = rw u at misses.0 in
        rw u (m, live-Unlike es misses.1)
  ]

  pub content-Unlike :
      (blocks : Blocks) (n : ℕ)
      → Formed v.bsize blocks n
      → Missing (sought v w) blocks 0 n
      → All (Unlike w.name) (content blocks n)
  content-Unlike blocks zero formed missing = tt
  content-Unlike blocks (suc n) formed missing =
      let (chain, r, size, holds) = formed n (omega arith) in
      All-append (Unlike w.name) (content blocks n) (held (blocks n))
        (content-Unlike blocks n (λ i lt. formed i (omega arith))
          (λ i lo hi. missing i lo (omega arith)))
        (rw r (live-Unlike chain (missing n (omega arith) (omega arith) chain r)))

  pub matches-used :
      (e : Entry)
      → matches (sought v w) e ≡ true
      → ((e.ino == 0) ≡ false) × (same_name e.name w.name ≡ true)
  matches-used e m = elim (Bool-cases (e.ino == 0)) [
    | inl f ↦ let m' : false ≡ true = rw f at m in absurd (true≢false (sym m'))
    | inr u ↦ (u, rw u at m)
  ]

  module _ (dp : Dirnode) (blocks : Blocks) where
    pub At-Names :
        (i : ℕ) (pre : List Entry) (e : Entry) (post : List Entry)
        → At v w dp blocks i pre e post
        → Names w.name (e.ino, e.ftype, e.name) (content blocks (block_count v dp))
    At-Names i pre e post (lt, r, misses, m) =
        let (u, same) = matches-used e m in
        let x : Item = (e.ino, e.ftype, e.name) in
        let (before, after, a, b) =
          replaced-Exchanged v.bsize _ i pre (e ∷ []) post (e ∷ []) blocks lt r x x [] []
            (rw u refl) (rw u refl) in
        (same, before, after, a)

    -- An entry with the name lies within its block.
    pub At-inside :
        (i : ℕ) (pre : List Entry) (e : Entry) (post : List Entry)
        → Formed v.bsize blocks (block_count v dp)
        → At v w dp blocks i pre e post
        → span pre + needs e ≤ v.bsize
    At-inside i pre e post formed (lt, r, misses, m) =
        let (size, holds) = Formed-chain v.bsize _ i (pre ++ (e ∷ post)) blocks formed lt r in
        let h = entry-inside pre e post holds in omega arith

    -- A lookup refuses a name that no item has, and otherwise gives the inode of an item with the name
    -- and remembers its block.
    abbrev pub Answers : Type 0
    Answers =
        (All (Unlike w.name) (content blocks (block_count v dp))
          × (lookup_ino v w dp blocks ≡ refused enoent dp))
        ⊎ ((x : Item) × (i : ℕ) × Names w.name x (content blocks (block_count v dp))
            × (i < block_count v dp)
            × (lookup_ino v w dp blocks
                ≡ found_ino x.0 (if w.islastcn then record dp { diroff = i * v.bsize } else dp)))
