-- ===== src/Geometry.antt =====
-- The sizes that the mounted superblock fixes (include/fs/ext2fs/ext2fs.h, struct m_ext2fs and the
-- struct ext2fs it points to), and the address macros of include/fs/ext2fs/fs.h.
pub mod Laws
use ext2fs.Base.{ℕ, ◌+◌, ◌-◌, ◌*◌, ◌/◌, ◌%◌, ◌^◌, ◌≤◌, ◌<◌, ◌≡◌, ◌⊎◌, leb, if◌then◌else◌}
use ext2fs.Base.Int.{ℤ, pos, sub_ℕ}

-- The fields that do not change while the volume is mounted. `ipg` stands for `e2fs_ipg` of both
-- structures, which the mount sets equal.
pub record Geometry : Type 0 where
  pub bcount : ℕ
  pub rbcount : ℕ
  pub first_dblock : ℕ
  pub fpg : ℕ
  pub bpg : ℕ
  pub ipg : ℕ
  pub ipb : ℕ
  pub gcount : ℕ
  pub bsize : ℕ
  pub fsize : ℕ
  pub bshift : ℕ
  pub fsbtodb_shift : ℕ
  pub contigsumsize : ℕ

abbrev pub nbby : ℕ
nbby = 8

-- `howmany` of <sys/param.h>
abbrev pub howmany : ℕ → ℕ → ℕ
howmany x y = (x + (y - 1)) / y

module _ (g : Geometry) where
  -- File system block to device block.
  unfoldable pub fsbtodb : ℕ → ℕ
  fsbtodb b = b * 2 ^ g.fsbtodb_shift

  -- The group of an inode; `ino_t` is unsigned and has 64 bits.
  unfoldable pub ino_to_cg : ℕ → ℕ
  ino_to_cg ino = (ino + 2 ^ 64 - 1) % 2 ^ 64 / g.ipg

  -- The offset of an inode in its block.
  unfoldable pub ino_to_fsbo : ℕ → ℕ
  ino_to_fsbo ino = (ino + 2 ^ 64 - 1) % 2 ^ 64 % g.ipb

  -- The block of an inode, from the first block of its group's table.
  unfoldable pub ino_to_fsba : (ℕ → ℕ) → ℕ → ℕ
  unfolding ino_to_cg
  ino_to_fsba i_tables ino = i_tables (ino_to_cg ino) + (ino + 2 ^ 64 - 1) % 2 ^ 64 % g.ipg / g.ipb

  -- The group of a block and its place there. C divides towards 0: a block that lies less than a
  -- group before `first_dblock` is in group 0 too, at a place below 0.
  unfoldable pub dtog : ℕ → ℕ
  dtog d = (d - g.first_dblock) / g.bpg

  unfoldable pub dtogd : ℕ → ℤ
  dtogd d =
      if leb g.first_dblock d
      then pos ((d - g.first_dblock) % g.bpg)
      else sub_ℕ 0 ((g.first_dblock - d) % g.bpg)

  -- No block before the first one is preferred: `first_dblock` is 0 or 1, or there is no preferred
  -- block.
  abbrev pub Near : ℕ → Type 0
  Near pref = (g.first_dblock ≤ 1) ⊎ (pref ≡ 0)

  -- A file offset and its block. The mask `e2fs_qbmask` is `bsize - 1`, and `bsize` is `2 ^ bshift`.
  unfoldable pub blkoff : ℕ → ℕ
  blkoff loc = loc % 2 ^ g.bshift

  unfoldable pub lblkno : ℕ → ℕ
  lblkno loc = loc / 2 ^ g.bshift

  unfoldable pub lblktosize : ℕ → ℕ
  lblktosize blk = blk * 2 ^ g.bshift

-- What a mounted volume's geometry satisfies.
pub record IsSound (g : Geometry) : Type 0 where
  pub same_group_size : g.fpg ≡ g.bpg
  pub whole_bytes : g.fpg % 8 ≡ 0
  pub fpg_pos : 0 < g.fpg
  pub ipg_bytes : g.ipg % 8 ≡ 0
  pub ipg_pos : 0 < g.ipg
  pub gcount_pos : 0 < g.gcount
  pub fpg_small : g.fpg < 2 ^ 16
  pub ipg_small : g.ipg < 2 ^ 16
  pub blocks_fit : g.gcount * g.fpg + g.first_dblock ≤ 2 ^ 32
  pub inodes_fit : g.gcount * g.ipg < 2 ^ 32
