-- ===== src/Mount/Sound.antt =====
-- The mount gives the allocators the geometry that they rely on, where the superblock has what
-- the mount does not test.
use ext2fs.Base.{ℕ, suc, ◌+◌, ◌-◌, ◌*◌, ◌%◌, ◌^◌, ◌≤◌, ◌<◌, ◌≡◌, Bool, some, arith}
use ext2fs.Geometry.{IsSound}
use ext2fs.Mount.{Superblock, Mounted, Kernel, fine, mountfs, group_count, geometry_of}
use ext2fs.Mount.Accepted.{mountfs-steps, compute_sb_data-steps, check_sb_compat-sizes}
use ext2fs.Mount.Sized.{InRange, inhabited_lem, covered_lem}

-- What the mount does not test: a group has as many fragments as blocks, its bitmaps end with a
-- byte, it has an inode, its counts fit 16 bits, and the inodes can be numbered.
pub record IsRegular (es : Superblock) : Type 0 where
  pub same_group_size : es.fpg ≡ es.bpg
  pub whole_bytes : es.bpg % 8 ≡ 0
  pub bpg_small : es.bpg < 2 ^ 16
  pub ipg_bytes : es.ipg % 8 ≡ 0
  pub ipg_pos : 0 < es.ipg
  pub ipg_small : es.ipg < 2 ^ 16
  pub inodes_fit : group_count es * es.ipg < 2 ^ 32

module _ (es : Superblock) (range : InRange es) (regular : IsRegular es)
    (some_bpg : 0 < es.bpg) where
  groups_pos : 0 < group_count es
  groups_pos = omega (arith, covered_lem es range some_bpg es.first_dblock (omega arith) range.0)

  last_group : (n : ℕ) → group_count es ≡ suc n → group_count es * es.bpg + es.first_dblock ≤ 2 ^ 32
  last_group n e =
      let below = inhabited_lem es range some_bpg n (omega (arith, e)) in
      rw e (omega (arith, below, range.1))

  blocks_fit_lem : group_count es * es.bpg + es.first_dblock ≤ 2 ^ 32
  blocks_fit_lem = last_group (group_count es - 1) (omega (arith, groups_pos))

-- A superblock that `ext2_mountfs` accepts, with a block behind `first_dblock` and sums within 32
-- bits, and which has what the mount does not test (as many fragments as blocks in a group, fewer
-- than 2^16 of them and of inodes, bitmaps of whole bytes, an inode in a group, and inode numbers
-- below 2^32): the geometry of the mount is sound, as the allocators ask.
pub mountfs-IsSound :
    (k : Kernel) (ronly : Bool) (es : Superblock) (m : Mounted)
    → k.superblock ≡ some es
    → InRange es
    → IsRegular es
    → mountfs k ronly ≡ fine m
    → IsSound (geometry_of m)
mountfs-IsSound k ronly es m found range regular success =
    let (sound, _, _, _, (s, computed, e)) = mountfs-steps k ronly es m found success in
    let (_, some_bpg, _) = check_sb_compat-sizes es ronly sound in
    let (isize, gdsize, gd, _, _, _, _, e') = compute_sb_data-steps k.bread es s computed in
    rw (e, e')
      (record {
        same_group_size = regular.same_group_size;
        whole_bytes = rw regular.same_group_size regular.whole_bytes;
        fpg_pos = rw regular.same_group_size some_bpg;
        ipg_bytes = regular.ipg_bytes;
        ipg_pos = regular.ipg_pos;
        gcount_pos = groups_pos es range regular some_bpg;
        fpg_small = rw regular.same_group_size regular.bpg_small;
        ipg_small = regular.ipg_small;
        blocks_fit = rw regular.same_group_size (blocks_fit_lem es range regular some_bpg);
        inodes_fit = regular.inodes_fit;
      })
