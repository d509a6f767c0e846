-- ===== src/Dir/Changes.antt =====
-- The operations of kext/ext2_lookup.c behind the lookup that prepares them, on what a directory holds.
use ext2fs.Base.{
  ℕ, ◌+◌, ◌*◌, ◌^◌, ◌<◌, ◌≡◌, ◌⊎◌, inl, inr, refl, ◌∙◌, Bool, true, false, Option, List, ◌==◌,
  if◌then◌else◌, All,
}
use ext2fs.Dir.{Entry, Errno, Dirnode, Blocks, returned, eisdir, ejustreturn, type_for}
use ext2fs.Dir.Chain.{span}
use ext2fs.Dir.Content.{content, Formed, Item, Exchanged}
use ext2fs.Dir.Search.{Slot}
use ext2fs.Dir.Lookup.{
  Wanted, Volume, block_count, op_rename, refused, found_ino, notfound, found_end, lookup_ino,
  leave_place,
}
use ext2fs.Dir.Lookup.Walk.{lookup_ino-Ends}
use ext2fs.Dir.Lookup.Names.{Unlike, Names, Formed-Sound, content-Unlike, At-Names, matches-used}
use ext2fs.Dir.Remove.{dirremove, dirrewrite}
use ext2fs.Dir.Remove.Deleted.{Removes, dirrewrite-Exchanged}

module _ (v : Volume) (w : Wanted) (dp : Dirnode) (blocks : Blocks) (pos : 0 < v.bsize)
    (small : v.bsize < 2 ^ 16) (quick : v.dirchk ≡ false)
    (formed : Formed v.bsize blocks (block_count v dp)) (last : w.islastcn ≡ true) where
  abbrev pub Deletes : Option Errno → Type 0
  Deletes write =
      (x : Item) × (dp' : Dirnode) × Names w.name x (content blocks (block_count v dp))
      × (lookup_ino v w dp blocks ≡ found_ino x.0 dp')
      × Removes v.bsize (block_count v dp) write dp' blocks x (dirremove v.bsize write dp' blocks)

  found_end-rename :
      (e : Entry) (off prev : ℕ)
      → w.nameiop ≡ op_rename
      → found_end v w e off prev dp ≡ (
          if dp.number == e.ino
          then refused eisdir (record dp { offset = off })
          else found_ino e.ino (record dp { offset = off }))
  unfolding found_end
  found_end-rename e off prev op = rw (last, op) refl

  notfound-rename :
      (useful : ℕ) (s : Slot)
      → w.nameiop ≡ op_rename
      → (dp.nlink == 0) ≡ false
      → notfound v w useful s dp ≡ refused ejustreturn (leave_place v w useful s dp)
  unfolding notfound
  notfound-rename useful s op linked = rw (op, last, linked) refl

  abbrev pub Rewrites : Option Errno → Bool → ℕ → ℕ → Type 0
  Rewrites write feature ino mode =
      (x : Item) × (dp' : Dirnode) × (blocks' : Blocks) × Names w.name x
        (content blocks (block_count v dp))
      × (lookup_ino v w dp blocks
          ≡ (if dp.number == x.0 then refused eisdir dp' else found_ino x.0 dp'))
      × (dirrewrite v.bsize write feature ino mode dp' blocks
          ≡ returned write (record dp' { changed = true; updated = true }) blocks')
      × Exchanged x (ino, type_for feature mode, x.2) (content blocks (block_count v dp))
          (content blocks' (block_count v dp))
      × Formed v.bsize blocks' (block_count v dp)

  -- In a directory of blocks of fewer than 2^16 bytes, each of which can be read and is filled by
  -- a chain of entries with room for their names, and with dirchk off, that still has a link, a
  -- lookup for RENAME of the last name of a path, where the new inode is not 0: no item has the
  -- name and it is EJUSTRETURN, or there is an item with the name. Then the lookup gives its
  -- inode, or EISDIR if that is the directory itself, and `ext2_dirrewrite` at the place that it
  -- leaves exchanges the inode and type of that item, and nothing else of what the directory
  -- holds.
  pub lookup_ino-dirrewrite :
      (write : Option Errno) (feature : Bool) (ino mode : ℕ)
      → w.nameiop ≡ op_rename
      → (dp.nlink == 0) ≡ false
      → (ino == 0) ≡ false
      → (All (Unlike w.name) (content blocks (block_count v dp))
          × (dp' : Dirnode) × (lookup_ino v w dp blocks ≡ refused ejustreturn dp'))
        ⊎ Rewrites write feature ino mode
  lookup_ino-dirrewrite write feature ino mode op linked nz =
      elim (lookup_ino-Ends v w dp blocks (pos, Formed-Sound v w quick blocks _ formed)
        (λ b u s. Unit) tt (λ u s ne p. tt) (λ i lt chain r size good u s p. tt)) [
          | inl (useful, s, t, p, absent) ↦ inl (
            content-Unlike v w blocks _ formed absent,
            leave_place v w useful s dp,
            t ∙ notfound-rename useful s op linked,
          )
          | inr (i, pre, e, post, prev, at, t) ↦
              let dp' = record dp { offset = i * v.bsize + span pre } in
              let (blocks', d, x, f) =
                dirrewrite-Exchanged v.bsize _ write dp' blocks pos small formed i at.0 e post
                  (matches-used v w e at.3).0 feature ino mode pre at.1 refl nz in
              inr (
                (e.ino, e.ftype, e.name),
                dp',
                blocks',
                At-Names v w dp blocks i pre e post at,
                t ∙ found_end-rename e _ _ op,
                d,
                x,
                f,
              )
        ]
