-- ===== src/Extents/Remove.antt =====
-- `ext4_ext_rm_extent` of kext/ext2_extents.c: the blocks it frees and what it leaves of the leaf.
pub mod Shift
use ext2fs.Base.{
  ℕ, zero, suc, ◌+◌, ◌-◌, ◌*◌, ◌/◌, ◌%◌, ◌^◌, Bool, true, false, Option, none, some, min, ltb, leb,
  ◌==◌, if◌then◌else◌, ◌&&◌, ◌||◌, set,
}
use Prim.Native.Nat.{bit_or}
use ext2fs.Geometry.{Geometry, lblkno}
use ext2fs.Alloc.Request.{Inode, in_change_update}
use ext2fs.Extents.{Slot, no_slot, Table, at, eh_ecount, e_blk, e_len, e_start_lo}

-- Writes to `e_len` of an extent and to `eh_ecount` of a header.
abbrev pub with_len : ℕ → Slot → Slot
with_len len s = record s { w1 = s.w1 / 2 ^ 16 * 2 ^ 16 + len % 2 ^ 16 }

abbrev pub with_ecount : ℕ → Slot → Slot
with_ecount n s = record s { w0 = s.w0 % 2 ^ 16 + n % 2 ^ 16 * 2 ^ 16 }

-- What a removal does: `ext2_blkfree` is called for `free_len` blocks from `free_start` on, in turn, and
-- the inode and the table change.
pub record Removed : Type 0 where
  pub free_start : ℕ
  pub free_len : ℕ
  pub inode : Inode
  pub table : Table

-- `for (i = 0; i < n; i++) ex[i] = ex[i + 1];` with `ex` at slot `p`, of which `k` rounds are left.
unfoldable pub shift : ℕ → ℕ → Table → Table
shift zero p t = t
shift (suc k) p t = shift k (p + 1) (set t p (at t (p + 1)))

-- The extent at slot `p` is taken out of the table.
unfoldable pub take_out : ℕ → Table → Table
unfolding shift
take_out p t =
    let n : ℕ = eh_ecount (at t 0) in
    let shorter : Table = set (shift (n - p) p t) n no_slot in
    set shorter 0 (with_ecount (eh_ecount (at shorter 0) + 2 ^ 16 - 1) (at shorter 0))

module _ (g : Geometry) where
  -- The part of the extent from byte `lbn` on: its first block and its length, of 32 bits.
  unfoldable pub part_of : Slot → ℕ → ℕ → ℕ × ℕ
  part_of ex lbn len =
      let behind : ℕ = (lblkno g lbn + 2 ^ 32 - e_blk ex) % 2 ^ 32 in
      let start : ℕ = (e_start_lo ex + behind) % 2 ^ 32 in
      if ltb (e_blk ex * g.bsize) lbn
      then (
        start,
        min len ((e_len ex + 2 ^ 32 - (start + 2 ^ 32 - e_start_lo ex) % 2 ^ 32) % 2 ^ 32),
      )
      else (e_start_lo ex, min len (e_len ex))

  -- What is left of the table, when the blocks of `part` are gone.
  unfoldable pub left_of : Table → ℕ → ℕ × ℕ → Table
  unfolding take_out
  left_of t p (start, count) =
      let ex : Slot = at t p in
      if (start == e_start_lo ex) && (count == e_len ex)
      then take_out p t
      else if start == e_start_lo ex
      then set t p (
          with_len (e_len ex + 2 ^ 16 - count % 2 ^ 16)
            (record ex { w0 = (ex.w0 + count) % 2 ^ 32; w2 = (ex.w2 + count) % 2 ^ 32 }))
      else if (start + count) % 2 ^ 32 == (e_start_lo ex + e_len ex) % 2 ^ 32
      then set t p (with_len (e_len ex + 2 ^ 16 - count % 2 ^ 16) ex)
      else set t p (with_len (start + 2 ^ 32 - e_start_lo ex) ex)

  -- The inode has `count` blocks less, counted in sectors.
  unfoldable pub discharge : Inode → ℕ → Inode
  discharge ip count = record ip {
    blocks = (ip.blocks + 2 ^ 64 - g.bsize / 512 * count % 2 ^ 32) % 2 ^ 64;
    flag = bit_or ip.flag in_change_update;
  }

  -- `none` is EIO: no extent, or the path ends above the leaves.
  unfoldable pub rm_extent : Inode → Table → Option ℕ → ℕ → ℕ → ℕ → Option Removed
  unfolding part_of left_of discharge
  rm_extent ip t none depth lbn len = none
  rm_extent ip t (some p) depth lbn len =
      if ltb 0 depth
      then none
      else some (record {
        free_start = (part_of (at t p) lbn len).0;
        free_len = (part_of (at t p) lbn len).1;
        inode = discharge ip (part_of (at t p) lbn len).1;
        table = left_of t p (part_of (at t p) lbn len);
      })
