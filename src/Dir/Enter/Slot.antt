-- ===== src/Dir/Enter/Slot.antt =====
-- `ext2_direnter` in a directory: in room that a lookup has found, and in a new block.
use ext2fs.Base.{
  ℕ, suc, ◌+◌, ◌*◌, ◌/◌, ◌%◌, ◌^◌, ◌≤◌, ◌<◌, ◌≡◌, ◌≢◌, refl, sym, ap, ◌∙◌, true, false, none, some,
  List, [], ◌∷◌, ◌++◌, ltb, ◌==◌, if◌then◌else◌, length, All, arith,
}
use mathlib.Core.List.{append-nil}
use native.Mathlib.Nat.{mul-le-mul_right}
use ext2fs.Dir.{Entry, Dirnode, Blocks, put_block, returned, dir_rec_len, needs, roundup, type_for}
use ext2fs.Dir.Chain.{span, room, live, Holds, span-append, Holds-pos, All-left, All-right}
use ext2fs.Dir.Offsets.{place-block, place-inner, roundup-next}
use ext2fs.Dir.Content.{
  content, Formed, Inserted, Formed-chain, replaced, replaced-Inserted, replaced-Formed,
  content-fresh, Formed-fresh,
}
use ext2fs.Dir.Enter.{entered, Calls, newdir, enter_done, enter_slot, enter_block, direnter}
use ext2fs.Dir.Enter.Compact.{enter_block-Adds}

-- A region with entries has a size.
pub span-pos : (region : List Entry) → All Holds region → region ≢ [] → 8 ≤ span region
span-pos [] h full = absurd (full refl)
span-pos (e ∷ es) h full = let p = Holds-pos e h.0 in omega arith

module _ (bsize n : ℕ) (calls : Calls) (ino mode : ℕ) (name : List ℕ) (dp : Dirnode)
    (blocks : Blocks) where
  -- What a directory with the new entry contains.
  abbrev pub item : ℕ × ℕ × List ℕ
  item = (ino, type_for calls.ftype_feature mode, name)

  direnter-enter_slot :
      (dp.count == 0) ≡ false
      → direnter bsize calls ino mode name dp blocks
        ≡ enter_slot bsize calls (newdir bsize calls ino mode name) dp blocks
  unfolding direnter
  direnter-enter_slot nz = rw nz refl

  enter_slot-entered :
      (new : Entry) (i r : ℕ) (chain es : List Entry)
      → dp.offset / bsize ≡ i
      → dp.offset % bsize ≡ r
      → ltb dp.size (dp.offset + dp.count) ≡ false
      → blocks i ≡ some chain
      → enter_block new dp.count r chain ≡ entered es
      → enter_slot bsize calls new dp blocks
        ≡ enter_done bsize calls
            (record dp { changed = true; updated = true })
            (put_block i es blocks)
  unfolding enter_slot
  enter_slot-entered new i r chain es d m size b t = rw (d, b, m, t, size, enter_slot) (rw d refl)

  -- The place that a lookup leaves, as entries of a block.
  abbrev pub Room : Type 0
  Room =
      (i : ℕ) × (pre : List Entry) × (region : List Entry) × (post : List Entry) × (i < n)
      × (blocks i ≡ some (pre ++ (region ++ post)))
      × (region ≢ [])
      × (dp.offset ≡ i * bsize + span pre)
      × (dp.count ≡ span region)
      × (dir_rec_len (length name) ≤ room region)

  abbrev pub Enters : Type 0
  Enters =
      (blocks' : Blocks) × (direnter bsize calls ino mode name dp blocks
        ≡ enter_done bsize calls (record dp { changed = true; updated = true }) blocks')
      × Inserted item (content blocks n) (content blocks' n)
      × Formed bsize blocks' n

  module _ (small : bsize < 2 ^ 16) (used : (ino == 0) ≡ false)
      (formed : Formed bsize blocks n) where
    pub direnter-Room : dp.size ≡ n * bsize → Room → Enters
    direnter-Room whole (i, pre, region, post, lt, b, full, o, c, fits) =
        let new = newdir bsize calls ino mode name in
        let (total, holds) = Formed-chain bsize n i _ blocks formed lt b in
        let room-holds = All-left Holds region post (All-right Holds pre (region ++ post) holds) in
        let p1 = span-append pre (region ++ post) in
        let p2 = span-append region post in
        let pos = span-pos region room-holds full in
        let lt' : span pre < bsize = omega arith in
        let (es, t, l, s, hs) =
          enter_block-Adds new used pre region post holds full (omega arith) fits in
        let in_size : ltb dp.size (dp.offset + dp.count) ≡ false =
          let h : (i + 1) * bsize ≤ n * bsize = mul-le-mul_right bsize (omega arith) in
          ground arith in
        let d : dp.offset / bsize ≡ i = rw o (place-block bsize (omega arith) i (span pre) lt') in
        let m : dp.offset % bsize ≡ span pre =
          rw o (place-inner bsize (omega arith) i (span pre) lt') in
        (
          replaced bsize n i pre region post es blocks lt b,
          direnter-enter_slot (ground arith)
              ∙ enter_slot-entered new i (span pre) _ (pre ++ (es ++ post)) d m in_size b
                  (ap (λ k. enter_block new k (span pre) (pre ++ (region ++ post))) c ∙ t),
          replaced-Inserted bsize n i pre region post es blocks lt b item (live region) []
              (sym (append-nil _)) l,
          replaced-Formed bsize n i pre region post es blocks lt b formed s hs,
        )

    -- A new block at the end.
    abbrev pub Extends : Type 0
    Extends =
        (blocks' : Blocks) × (dp' : Dirnode) × (direnter bsize calls ino mode name dp blocks
          ≡ returned none dp' blocks')
        × (dp'.size ≡ (n + 1) * bsize)
        × (content blocks' (suc n) ≡ content blocks n ++ (item ∷ []))
        × Formed bsize blocks' (suc n)

    pub direnter-Extends :
        0 < bsize
        → dp.size ≡ n * bsize
        → dp.offset ≡ n * bsize
        → dp.count ≡ 0
        → bsize ≤ calls.f_bsize
        → calls.append ≡ none
        → dir_rec_len (length name) ≤ bsize
        → Extends
    unfolding direnter
    direnter-Extends pos whole o c frag ok fits =
        let new = newdir bsize calls ino mode name in
        let z : (dp.count == 0) ≡ true = ground arith in
        let m : dp.offset % bsize ≡ 0 =
          let h = place-inner bsize pos n 0 pos in
          let e : dp.offset ≡ n * bsize + 0 = omega arith in rw e h in
        let d : dp.offset / bsize ≡ n =
          let h = place-block bsize pos n 0 pos in
          let e : dp.offset ≡ n * bsize + 0 = omega arith in rw e h in
        let f : ltb calls.f_bsize bsize ≡ false = ground arith in
        let w : bsize % 2 ^ 16 ≡ bsize = omega arith in
        let grown : (if ltb dp.size (dp.offset + needs new) then dp.offset + needs new else dp.size)
            ≡ n * bsize + needs new =
          ground arith in
        let next : roundup (n * bsize + needs new) bsize ≡ (n + 1) * bsize =
          roundup-next bsize pos n (needs new) (omega arith) fits in
        let last = record new { reclen = bsize } ∷ [] in
        (
          put_block n last blocks,
          record dp { size = (n + 1) * bsize; changed = true },
          rw (z, m, f, ok, d, w) (rw (grown, next) refl),
          refl,
          content-fresh n last blocks ∙ rw used refl,
          Formed-fresh bsize n last blocks formed (omega arith) (fits, tt),
        )
