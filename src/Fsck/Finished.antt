-- ===== src/Fsck/Finished.antt =====
-- How the volume stands that `pass5` leaves.
use ext2fs.Base.{ℕ, ◌<◌, ◌≡◌, inl, inr, refl, not, ◌||◌, some, ◌==◌, arith, Bool-cases}
use ext2fs.Geometry.{Geometry}
use ext2fs.Alloc.Block.Consistent.{free_of}
use ext2fs.Fsck.{superblock, Image, Sums, Found, put_totals, pass5}
use ext2fs.Fsck.Settled.{ask_lem}
use ext2fs.Alloc.Node.Consistent.{inodes_of}
use ext2fs.Fsck.Groups.{groups-Done}
use ext2fs.Fsck.Rebuilt.{Ready, Rebuilt, Exact, Done}

module _ (g : Geometry) (f : Found) (v : Image) (r : Ready g f v) where
  -- The volume that `pass5` leaves.
  pub record Finished (w : Image) : Type 0 where
    pub b_bitmap : (a : ℕ) → (w.gd a).b_bitmap ≡ (v.gd a).b_bitmap
    pub i_bitmap : (a : ℕ) → (w.gd a).i_bitmap ≡ (v.gd a).i_bitmap
    pub rebuilt : (a : ℕ) → a < g.gcount → Rebuilt g f v a w
    pub exact : (a : ℕ) → a < g.gcount → Exact g f v a w
    pub fbcount : w.fbcount ≡ free_of w.gd g.gcount
    pub ficount : w.ficount ≡ inodes_of w.gd g.gcount

  pub put_totals-Finished : (s : Sums) → Done g f v g.gcount s → Finished (put_totals g f s)
  unfolding put_totals
  put_totals-Finished s d =
      let u = not (s.volume.fbcount == s.nbfree) || not (s.volume.ficount == s.nifree) in
      let (asked, still) = ask_lem g f r.yes_to u s.idesc superblock d.idesc in
      elim (Bool-cases u) [
        | inl off ↦
            rw (asked, off)
              (record {
                b_bitmap = d.b_bitmap;
                i_bitmap = d.i_bitmap;
                rebuilt = λ a l.
                    let x = d.rebuilt a l in
                    record {
                      nbfree = x.nbfree;
                      nifree = x.nifree;
                      blocks = x.blocks;
                      bytes = x.bytes;
                      room = x.room;
                      inodes = x.inodes;
                    };
                exact = λ a l.
                    let x = d.exact a l in
                    record {
                      counted = x.counted;
                      ends = x.ends;
                      nbfree = x.nbfree;
                      nifree = x.nifree;
                      ndirs = x.ndirs;
                      blocks = x.blocks;
                      inodes = x.inodes;
                    };
                fbcount = d.nbfree;
                ficount = d.nifree;
              })
        | inr right ↦
            rw (asked, right)
              (record {
                b_bitmap = d.b_bitmap;
                i_bitmap = d.i_bitmap;
                rebuilt = d.rebuilt;
                exact = d.exact;
                fbcount = ground (arith, right, d.nbfree);
                ficount = ground (arith, right, d.nifree);
              })
      ]

  pub pass5-Finished : (w : Image) × (pass5 g f v ≡ some w) × Finished w
  unfolding pass5
  pass5-Finished =
      let (s, e, d) = groups-Done g f v r g.gcount (omega arith) in
      (put_totals g f s, rw (pass5, e) refl, put_totals-Finished s d)
