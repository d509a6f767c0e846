-- ===== src/Mount/Written.antt =====
-- What an unmount writes back: `ext2_sbupdate` and `ext2_cgupdate` of kext/ext2_vfsops.c and the part of
-- `ext2_unmount` that calls them.
pub mod Again
use Prim.Native.Nat.{bit_or}
use ext2fs.Base.{
  ℕ, zero, suc, ◌+◌, ◌*◌, ◌^◌, ◌≤◌, ◌<◌, ◌≡◌, ◌≢◌, refl, ◌∙◌, ap, sym, Bool, true, false, not, ◌&&◌,
  Option, none, some, List, [], ◌∷◌, ◌++◌, ◌==◌, if◌then◌else◌, length, take, drop, arith, eq-cases,
  lt-cases, Bool-cases, ==_iff, inl, inr,
}
use ext2fs.Mount.{
  Superblock, Mounted, Outcome, fine, Errno, eio, failed, block_size, logic_sb_block, table_block,
  read_table,
}

-- What the device holds: the superblock, and the bytes of the blocks of descriptors.
pub record Disk : Type 0 where
  pub sb : Superblock
  pub block : ℕ → List ℕ

-- Of a device block: whether `buf_getblk` gives a buffer for it, and whether a write of it succeeds.
pub record Device : Type 0 where
  pub buffer : ℕ → Bool
  pub lands : ℕ → Bool

abbrev pub sblock : ℕ
sblock = 2

module _ (dev : Device) (wait : Bool) where
  -- `buf_bwrite`, whose error is returned, or `buf_bawrite`.
  abbrev pub bwrite : ℕ → Option Errno
  bwrite a = if wait && not (dev.lands a) then some failed else none

  unfoldable pub sbupdate : Superblock → Disk → Option Errno × Disk
  sbupdate es d =
      if not (dev.buffer sblock)
      then (some eio, d)
      else (bwrite sblock, if dev.lands sblock then record d { sb = es } else d)

  module _ (m : Mounted) where
    abbrev pub gd_address : ℕ → ℕ
    gd_address i = (m.es.first_dblock + 1 + i) * 2 ^ m.sizes.fsbtodb_shift

    abbrev pub gd_block : ℕ → List ℕ
    gd_block i = take m.sizes.bsize (drop (i * m.sizes.bsize) m.sizes.gd)

    abbrev pub put_gd : ℕ → Disk → Disk
    put_gd i d =
        if dev.lands (gd_address i)
        then record d { block = λ a. if a == gd_address i then gd_block i else d.block a }
        else d

    -- The loop over `n` blocks from the `i`-th on, with `error` of the last write. The first
    -- component is true where it breaks off for want of a buffer.
    unfoldable pub save_table : ℕ → ℕ → Option Errno → Disk → Bool × Option Errno × Disk
    save_table zero i e d = (false, e, d)
    save_table (suc n) i e d =
        let rest = save_table n (i + 1) (bwrite (gd_address i)) (put_gd i d) in
        if not (dev.buffer (gd_address i)) then (true, e, d) else rest

    -- The error of the superblock comes before that of the last write.
    unfoldable pub cg_rest : Option Errno × Disk → Option Errno × Disk
    unfolding save_table
    cg_rest (first, d) =
        let (broke, e, d') = save_table m.sizes.gdbcount 0 none d in
        (if broke then some eio else elim first [ some why ↦ some why | none ↦ e ], d')

    unfoldable pub cgupdate : Disk → Option Errno × Disk
    unfolding sbupdate cg_rest
    cgupdate d = cg_rest (sbupdate m.es d)

module _ (dev : Device) where
  -- The superblock with E2FS_ISCLEAN again.
  abbrev pub marked_clean : Mounted → Superblock
  marked_clean m = if m.wasvalid then record m.es { state = bit_or m.es.state 0x1 } else m.es

  -- The clean mark is written only where `ext2_cgupdate` gave no error.
  unfoldable pub mark_clean : Mounted → Option Errno × Disk → Disk
  unfolding sbupdate
  mark_clean m (some why, d) = d
  mark_clean m (none, d) = (sbupdate dev true (marked_clean m) d).1

  unfoldable pub write_back : Mounted → Disk → Disk
  unfolding mark_clean cgupdate
  write_back m d = if m.ronly then d else mark_clean m (cgupdate dev true m d)

  -- `flushed` is the result of `ext2_flushfiles`.
  unfoldable pub unmount : Option Errno → Mounted → Disk → Option Errno × Disk
  unfolding write_back
  unmount flushed m d = elim flushed [ some why ↦ (some why, d) | none ↦ (none, write_back m d) ]
