-- ===== src/Fsck/Agrees.antt =====
-- What `pass5` leaves is what the allocator of the kernel relies on.
use ext2fs.Base.{ℕ, ◌<◌, ◌≡◌, sym, ◌∙◌, some, arith}
use ext2fs.Geometry.{Geometry, fsbtodb}
use ext2fs.Alloc.State.{Fs}
use ext2fs.Alloc.Node.Consistent.{IsNodes}
use ext2fs.Alloc.Block.Consistent.{IsConsistent}
use ext2fs.Fsck.{device, Image, Found, pass5}
use ext2fs.Fsck.Tallies.{count_clear-Marks, block_used, inode_used}
use ext2fs.Fsck.Finished.{Finished, pass5-Finished}
use ext2fs.Fsck.Groups.{sums-small}
use ext2fs.Fsck.Rebuilt.{Ready, Rebuilt, b_at, i_at}

-- The state of the kernel on the volume `w`.
abbrev pub state_on : Fs → Image → Fs
state_on fs w = record fs { gd = w.gd; disk = w.disk; fbcount = w.fbcount; ficount = w.ficount }

module _ (g : Geometry) (f : Found) (v : Image) (r : Ready g f v) where
  Finished-IsConsistent : (w : Image) → Finished g f v r w → IsConsistent g w.gd w.disk w.fbcount
  unfolding device
  Finished-IsConsistent w d =
      let at : (a : ℕ) → a < g.gcount → fsbtodb g (w.gd a).b_bitmap ≡ b_at g f v a =
        λ a l. rw (d.b_bitmap a) (omega (arith, r.b_device a l)) in
      let (few, few') = sums-small g f v r w g.gcount (omega arith) d.rebuilt in
      record {
        groups = λ a l.
            let x = d.rebuilt a l in
            let place = at a l in
            record {
              bytes = rw place x.blocks.bytes;
              room = rw (place, x.blocks.room, r.sound.same_group_size) r.block_map;
              count =
                  rw (place, r.sound.same_group_size)
                    (x.nbfree
                      ∙ sym (
                          count_clear-Marks (block_used g f a) (w.disk (b_at g f v a)) g.bpg
                            (λ j k. x.blocks.bits j ∙ ground (arith, k))));
            };
        total = d.fbcount;
        small = omega (arith, d.fbcount, few);
        apart = λ a b k l ne. rw (at a k, at b l) (r.blocks_apart a b k l ne);
      }

  Finished-IsNodes : (fs : Fs) (w : Image) → Finished g f v r w → IsNodes g (state_on fs w)
  unfolding device
  Finished-IsNodes fs w d =
      let at : (a : ℕ) → a < g.gcount → fsbtodb g (w.gd a).i_bitmap ≡ i_at g f v a =
        λ a l. rw (d.i_bitmap a) (omega (arith, r.i_device a l)) in
      let (few, few') = sums-small g f v r w g.gcount (omega arith) d.rebuilt in
      record {
        groups = λ a l.
            let x = d.rebuilt a l in
            let place = at a l in
            record {
              bytes = rw place x.bytes;
              room = rw (place, x.room) r.inode_map;
              count = rw place (
                  x.nifree
                  ∙ sym (
                      count_clear-Marks (inode_used g f a) (w.disk (i_at g f v a)) g.ipg x.inodes));
            };
        total = d.ficount;
        small = omega (arith, d.ficount, few');
        apart = λ a b k l ne. rw (at a k, at b l) (r.inodes_apart a b k l ne);
      }

  -- If the sizes are sound, a bitmap fits in a block, every block number and every bitmap's device
  -- block is below 2^31, every inode of the groups is among the `e2fs_icount` of a known state, no
  -- two bitmaps share a block and every question is answered with yes, then `pass5` ends with a
  -- volume, whatever its counters and bitmaps were: the bitmap of every group marks the blocks and
  -- the inodes that the passes before found in use, and the descriptors and the superblock agree
  -- with the bitmaps as `ext2_alloc` and `ext2_nodealloccg` need.
  pub pass5-IsConsistent :
      (fs : Fs)
      → (w : Image) × (pass5 g f v ≡ some w)
        × IsConsistent g w.gd w.disk w.fbcount
        × IsNodes g (state_on fs w)
        × ((a : ℕ) → a < g.gcount → Rebuilt g f v a w)
  pass5-IsConsistent fs =
      let (w, e, finished) = pass5-Finished g f v r in
      (w, e, Finished-IsConsistent w finished, Finished-IsNodes fs w finished, finished.rebuilt)
