-- ===== src/Extents/Map.antt =====
-- `ext4_bmapext` of kext/ext2_bmap.c, and the block that a new node of a tree is given by
-- `ext4_ext_new_block` of kext/ext2_extents.c.
use ext2fs.Base.{ℕ, ◌+◌, ◌-◌, ◌*◌, ◌%◌, ◌^◌, Option, none, some, leb, ◌==◌, if◌then◌else◌, ◌||◌}
use ext2fs.Geometry.{Geometry}
use ext2fs.Bmap.Array.{Mapped, error, mapped}
use ext2fs.Extents.{Slot, Table, at, e_blk, e_start_hi, e_start_lo, not_there, found, find_extent}
use ext2fs.Alloc.State.{Cmd, Env, pure, lock, unlock, ◌>>=◌, ◌>>◌}
use ext2fs.Alloc.Request.{Inode, alloc}

abbrev pub eio : ℕ
eio = 5

module _ (g : Geometry) where
  -- The 64 bits of the device block of `lbn` in the extent `ep`.
  unfoldable pub device_block : Slot → ℕ → ℕ
  device_block ep lbn =
      (lbn + (e_start_hi ep * 2 ^ 32 + e_start_lo ep) + 2 ^ 64 - e_blk ep)
      * 2 ^ g.fsbtodb_shift
      % 2 ^ 64

  -- `*bnp` of -1 is `none`, and so is every other negative one, which the callers treat alike.
  unfoldable pub mapped_bits : ℕ → Mapped
  mapped_bits bits =
      if (bits == 0) || leb (2 ^ 63) bits then mapped none 0 else mapped (some bits) 0

  unfoldable pub bmapext : (ℕ → Option Table) → Table → ℕ → Option Mapped
  bmapext read root lbn = elim (find_extent read lbn root) [
    | none ↦ none
    | some not_there ↦ some (error eio)
    | some (found path) ↦ elim (path.ext) [
      | none ↦ some (error eio)
      | some p ↦ some (mapped_bits (device_block (at path.header p) lbn))
    ]
  ]

  -- The call of `ext2_alloc` between EXT2_LOCK and EXT2_UNLOCK, with which `ext4_ext_new_block` begins.
  unfoldable pub new_block : Env → Inode → ℕ → Cmd (ℕ × ℕ × Inode)
  new_block env ip uid = do lock; r ← alloc g env ip 0 0 g.bsize uid; unlock; pure r
