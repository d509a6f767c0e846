-- ===== src/Dir/Remove/Deleted.antt =====
-- `ext2_dirremove` and `ext2_dirrewrite` behind the lookup that finds the entry.
use ext2fs.Base.{
  ℕ, ◌+◌, ◌-◌, ◌*◌, ◌/◌, ◌%◌, ◌^◌, ◌<◌, ◌≡◌, ◌⊎◌, inl, inr, refl, sym, ◌∙◌, Bool, true, false,
  Option, some, List, [], ◌∷◌, ◌++◌, ◌==◌, All, arith,
}
use mathlib.Core.List.{append-nil}
use ext2fs.Dir.{Entry, Errno, Dirnode, Blocks, put_block, Outcome, returned, type_for}
use ext2fs.Dir.Chain.{
  span, live, Holds, at_offset, at_offset-span, Holds-pos, span-append, live-append, All-left,
  All-right,
}
use ext2fs.Dir.Offsets.{place-block, place-inner}
use ext2fs.Dir.Content.{
  content, Formed, Formed-chain, Item, Inserted, Exchanged, replaced, replaced-Formed,
  replaced-Removed, replaced-Exchanged,
}
use ext2fs.Dir.Remove.{blank, absorb, redirect, edit, dirremove, dirrewrite}

-- A chain is empty or has a last entry.
pub last-cases :
    (es : List Entry) → (es ≡ []) ⊎ ((init : List Entry) × (l : Entry) × (es ≡ init ++ (l ∷ [])))
last-cases [] = inl refl
last-cases (x ∷ xs) = elim (last-cases xs) [
  | inl e ↦ inr ([], x, rw e refl)
  | inr (init, l, e) ↦ inr (x ∷ init, l, rw e refl)
]

module _ (bsize n : ℕ) (write : Option Errno) (dp : Dirnode) (blocks : Blocks) where
  -- The directory's inode after a change.
  abbrev pub marked : Dirnode
  marked = record dp { changed = true; updated = true }

  edit-at_offset :
      (f : List Entry → Option (List Entry)) (o i : ℕ) (chain es : List Entry) (r : ℕ)
      → o / bsize ≡ i
      → o % bsize ≡ r
      → blocks i ≡ some chain
      → at_offset f r chain ≡ some es
      → edit bsize write f o dp blocks ≡ returned write marked (put_block i es blocks)
  unfolding edit
  edit-at_offset f o i chain es r d m b t = rw (d, b, m, t, edit) (rw d refl)

  pub edit-span :
      (f : List Entry → Option (List Entry)) (i : ℕ) (pre rest es : List Entry) (o : ℕ)
      → 0 < bsize
      → o ≡ i * bsize + span pre
      → span pre < bsize
      → blocks i ≡ some (pre ++ rest)
      → All Holds pre
      → f rest ≡ some es
      → edit bsize write f o dp blocks ≡ returned write marked (put_block i (pre ++ es) blocks)
  edit-span f i pre rest es o pos at lt b holds t =
      edit-at_offset f o i (pre ++ rest) (pre ++ es) (span pre)
        (rw at (place-block bsize pos i (span pre) lt))
        (rw at (place-inner bsize pos i (span pre) lt)) b (at_offset-span f pre rest es holds t)

  dirremove-first :
      dp.count ≡ 0 → dirremove bsize write dp blocks ≡ edit bsize write blank dp.offset dp blocks
  unfolding dirremove
  dirremove-first c = rw c refl

  dirremove-later :
      (dp.count == 0) ≡ false
      → dirremove bsize write dp blocks ≡ edit bsize write absorb (dp.offset - dp.count) dp blocks
  unfolding dirremove
  dirremove-later c = rw c refl

  -- The directory without the item, each block filled as before.
  abbrev pub Removes : Item → Outcome → Type 0
  Removes x out =
      (blocks' : Blocks) × (out ≡ returned write marked blocks')
      × Inserted x (content blocks' n) (content blocks n)
      × Formed bsize blocks' n

  module _ (pos : 0 < bsize) (small : bsize < 2 ^ 16) (formed : Formed bsize blocks n) (i : ℕ)
      (lt : i < n) (e : Entry) (post : List Entry) (used : (e.ino == 0) ≡ false) where
    pub dirremove-blank :
        blocks i ≡ some (e ∷ post)
        → dp.offset ≡ i * bsize
        → dp.count ≡ 0
        → Removes (e.ino, e.ftype, e.name) (dirremove bsize write dp blocks)
    dirremove-blank b o c =
        let new = record e { ino = 0 } ∷ [] in
        let (size, holds) = Formed-chain bsize n i (e ∷ post) blocks formed lt b in
        (
          replaced bsize n i [] (e ∷ []) post new blocks lt b,
          dirremove-first c
              ∙ edit-span blank i [] (e ∷ post) (new ++ post) dp.offset pos (omega arith) pos b tt
                  refl,
          replaced-Removed bsize n i [] (e ∷ []) post new blocks lt b (e.ino, e.ftype, e.name) [] []
              (rw used refl) refl,
          replaced-Formed bsize n i [] (e ∷ []) post new blocks lt b formed refl (holds.0, tt),
        )

    pub dirremove-absorb :
        (pre : List Entry) (l : Entry)
        → blocks i ≡ some (pre ++ (l ∷ e ∷ post))
        → dp.offset ≡ i * bsize + span (pre ++ (l ∷ []))
        → dp.count ≡ l.reclen
        → Removes (e.ino, e.ftype, e.name) (dirremove bsize write dp blocks)
    dirremove-absorb pre l b o c =
        let x : Item = (e.ino, e.ftype, e.name) in
        let old = l ∷ e ∷ [] in
        let new = record l { reclen = l.reclen + e.reclen } ∷ [] in
        let (size, holds) = Formed-chain bsize n i (pre ++ (l ∷ e ∷ post)) blocks formed lt b in
        let hs = All-right Holds pre (l ∷ e ∷ post) holds in
        let hl = Holds-pos l hs.0 in
        let a1 = span-append pre (l ∷ e ∷ post) in
        let a2 = span-append pre (l ∷ []) in
        let wide : (l.reclen + e.reclen) % 2 ^ 16 ≡ l.reclen + e.reclen = omega arith in
        let own : live old ≡ live (l ∷ []) ++ (x ∷ []) =
          live-append (l ∷ []) (e ∷ []) ∙ rw used refl in
        (
          replaced bsize n i pre old post new blocks lt b,
          dirremove-later (ground arith)
              ∙ edit-span absorb i pre (l ∷ e ∷ post) (new ++ post) (dp.offset - dp.count) pos
                  (omega arith) (omega arith) b (All-left Holds pre (l ∷ e ∷ post) holds)
                  (rw wide refl),
          replaced-Removed bsize n i pre old post new blocks lt b x (live (l ∷ [])) [] own
              (sym (append-nil (live (l ∷ [])))),
          replaced-Formed bsize n i pre old post new blocks lt b formed (omega arith)
              (let h0 = hs.0 in (omega arith, tt)),
        )

    pub dirrewrite-Exchanged :
        (feature : Bool) (ino mode : ℕ) (pre : List Entry)
        → blocks i ≡ some (pre ++ (e ∷ post))
        → dp.offset ≡ i * bsize + span pre
        → (ino == 0) ≡ false
        → (blocks' : Blocks) × (dirrewrite bsize write feature ino mode dp blocks
            ≡ returned write marked blocks')
          × Exchanged
              (e.ino, e.ftype, e.name)
              (ino, type_for feature mode, e.name)
              (content blocks n)
              (content blocks' n)
          × Formed bsize blocks' n
    unfolding dirrewrite
    dirrewrite-Exchanged feature ino mode pre b o nz =
        let new = record e { ino = ino; ftype = type_for feature mode } ∷ [] in
        let (size, holds) = Formed-chain bsize n i (pre ++ (e ∷ post)) blocks formed lt b in
        let he = All-right Holds pre (e ∷ post) holds in
        let pe = Holds-pos e he.0 in
        let a1 = span-append pre (e ∷ post) in
        (
          replaced bsize n i pre (e ∷ []) post new blocks lt b,
          edit-span (redirect ino (type_for feature mode)) i pre (e ∷ post) (new ++ post) dp.offset
              pos o (omega arith) b (All-left Holds pre (e ∷ post) holds) refl,
          replaced-Exchanged bsize n i pre (e ∷ []) post new blocks lt b _ _ [] [] (rw used refl)
              (rw nz refl),
          replaced-Formed bsize n i pre (e ∷ []) post new blocks lt b formed refl (he.0, tt),
        )
