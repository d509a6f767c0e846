-- ===== src/Fsck/Again.antt =====
-- A second run of `pass5`.
use ext2fs.Base.{
  ℕ, zero, suc, ◌+◌, ◌-◌, ◌/◌, ◌%◌, ◌^◌, ◌<◌, ◌≤◌, ◌≡◌, refl, sym, ◌∙◌, ap, false, not, ◌||◌, some,
  List, [], ◌∷◌, ◌==◌, arith,
}
use ext2fs.Geometry.{Geometry}
use ext2fs.Alloc.Block.Consistent.{free_of}
use ext2fs.Fsck.{
  device, Image, Sums, Found, block_bits, pad, differ, miscounted, settle, groups, put_totals,
  pass5,
}
use ext2fs.Alloc.Node.Consistent.{inodes_of}
use ext2fs.Fsck.Finished.{Finished, pass5-Finished}
use ext2fs.Fsck.Groups.{sums-small}
use ext2fs.Fsck.Rebuilt.{Ready}

differ_self : (xs : List ℕ) → differ xs xs ≡ false
unfolding differ
differ_self [] = refl
differ_self (x ∷ xs) = ground (arith, differ_self xs)

module _ (g : Geometry) (f : Found) (v : Image) (r : Ready g f v) (w : Image)
    (d : Finished g f v r w) where
  -- No question on a group is put.
  settle_again :
      (c : ℕ) (h : c < g.gcount)
      → (settle g f c (block_bits g f c g.bpg) (d.exact c h).counted w).0 ≡ w
  unfolding settle
  settle_again c h =
      let x = d.exact c h in
      let b = block_bits g f c g.bpg in
      let counts : miscounted g f (w.gd c) b.nfree x.counted.nfree x.counted.ndirs ≡ false =
        ground (arith, x.nbfree, x.nifree, x.ndirs) in
      let blocks : differ (w.disk (device g (w.gd c).b_bitmap)) b.map ≡ false =
        rw (d.b_bitmap c, x.blocks) (differ_self b.map) in
      let imap = pad g f x.counted.map (g.bsize - g.ipg / 8) in
      let inodes : differ (w.disk (device g (w.gd c).i_bitmap)) imap ≡ false =
        rw (d.i_bitmap c, x.inodes) (differ_self imap) in
      rw (counts, blocks, inodes) refl

  groups_again :
      (n : ℕ)
      → n ≤ g.gcount
      → (s : Sums) × (groups g f n w ≡ some s)
        × (s.volume ≡ w)
        × (s.nbfree ≡ free_of w.gd n)
        × (s.nifree ≡ inodes_of w.gd n)
  unfolding groups
  groups_again zero h = (_, refl, refl, refl, refl)
  groups_again (suc c) h =
      let (s, e, same, nbfree, nifree) = groups_again c (omega arith) in
      let x = d.exact c h in
      let b = block_bits g f c g.bpg in
      let settled = settle g f c b x.counted s.volume in
      let (few, few') = sums-small g f v r w (suc c) h (λ a l. d.rebuilt a (omega (arith, l, h))) in
      let sums : Sums = record {
        volume = settled.0;
        idesc = settled.1;
        nbfree = (s.nbfree + b.nfree) % 2 ^ 32;
        nifree = (s.nifree + x.counted.nfree) % 2 ^ 32;
        ndir = (s.ndir + x.counted.ndirs) % 2 ^ 32;
      } in
      (
        sums,
        rw (e, x.ends) refl,
        ap (λ u. (settle g f c b x.counted u).0) same ∙ settle_again c h,
        omega (arith, nbfree, x.nbfree, few),
        omega (arith, nifree, x.nifree, few'),
      )

  put_totals_again :
      (s : Sums) → s.volume ≡ w → s.nbfree ≡ w.fbcount → s.nifree ≡ w.ficount → put_totals g f s ≡ w
  unfolding put_totals
  put_totals_again s same nbfree nifree =
      let right : (not (s.volume.fbcount == s.nbfree) || not (s.volume.ficount == s.nifree))
          ≡ false =
        rw (same, nbfree, nifree) (ground arith) in
      rw right same

  again : pass5 g f w ≡ some w
  unfolding pass5
  again =
      let (s, e, same, nbfree, nifree) = groups_again g.gcount (omega arith) in
      rw (pass5, e, put_totals_again s same (nbfree ∙ sym d.fbcount) (nifree ∙ sym d.ficount)) refl

module _ (g : Geometry) (f : Found) (v : Image) (r : Ready g f v) where
  -- Where `pass5` begins on sound sizes, a bitmap that fits in a block, block numbers and device
  -- blocks of the bitmaps below 2^31, all inodes of the groups among the `e2fs_icount` of a known
  -- state, and bitmaps in blocks of their own, and is answered with yes, a second run on the
  -- volume that it leaves changes nothing, not even the mark that the superblock is dirty.
  pub pass5-pass5 : (w : Image) × (pass5 g f v ≡ some w) × (pass5 g f w ≡ some w)
  pass5-pass5 = let (w, e, d) = pass5-Finished g f v r in (w, e, again g f v r w d)
