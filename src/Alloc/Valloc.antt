-- ===== src/Alloc/Valloc.antt =====
-- `ext2_valloc` of kext/ext2_alloc.c: a new inode for a file or a directory.
pub mod Served
use ext2fs.Base.{
  ℕ, ◌+◌, ◌-◌, ◌*◌, ◌/◌, ◌%◌, ◌^◌, Bool, false, Option, none, some, ltb, ◌==◌, if◌then◌else◌, ◌||◌,
  replicate,
}
use ext2fs.Geometry.{Geometry, ino_to_cg}
use ext2fs.Alloc.State.{Fs, update, Cmd, pure, get, modify, ◌>>=◌, ◌>>◌, lock, unlock, Env}
use ext2fs.Alloc.Hash.{hashalloc}
use ext2fs.Alloc.Node.{nodealloccg, vfree}
use ext2fs.Alloc.Policy.{dirpref}
use ext2fs.Alloc.Request.{Inode, enospc}
use ext2fs.Bmap.{ndaddr, niaddr}
use ext2fs.InodeConv.{Incore}

-- The count of directories in a row goes up for a directory and down for a file.
unfoldable pub contig_step : ℕ → Bool → Fs → Fs
contig_step cg dir fs =
    let n : ℕ = fs.contigdirs cg in
    let n' : ℕ = if dir then (if ltb n 255 then n + 1 else n) else (if ltb 0 n then n - 1 else n) in
    record fs { contigdirs = update fs.contigdirs cg n' }

-- The next generation; `r` is the random number.
unfoldable pub next_gen : ℕ → ℕ → ℕ
next_gen gen r = if (gen == 0) || ((gen + 1) % 2 ^ 32 == 0) then r / 2 + 1 else (gen + 1) % 2 ^ 32

-- The in-core inode that `ext2_vget_typed` gave, cleared; the time is `sec` and `nsec`.
unfoldable pub cleared : Incore → ℕ → ℕ → ℕ → Incore
unfolding next_gen
cleared ip r sec nsec = record ip {
  i_size = 0;
  i_blocks = 0;
  i_mode = 0;
  append_flag = false;
  immutable_flag = false;
  nodump_flag = false;
  i_db = replicate ndaddr 0;
  i_ib = replicate niaddr 0;
  i_gen = next_gen ip.i_gen r;
  i_birthtime = sec % 2 ^ 32;
  i_birthnsec = nsec % 2 ^ 32;
}

-- The label `noinodes`.
unfoldable pub no_inodes : Cmd (ℕ × Option (ℕ × Incore))
no_inodes = unlock >> pure (enospc, none)

-- `vget` is `ext2_vget_typed`: its error, and the in-core inode. `root` is whether the parent is the
-- root directory, `ronly` is `e2fs_ronly`, and `r` and `r'` are the random numbers. The result is the error, and the new inode.
module _ (g : Geometry) (ronly : Bool) (env : Env) (vget : ℕ → Cmd (ℕ × Incore)) where
  unfoldable pub valloc_done : Bool → ℕ → ℕ → ℕ → ℕ → Cmd (ℕ × Option (ℕ × Incore))
  unfolding no_inodes cleared
  valloc_done dir r' sec nsec ino =
      if ino == 0
      then no_inodes
      else vget ino >>= λ got.
          if got.0 == 0
          then pure (0, some (ino, cleared got.1 r' sec nsec))
          else (vfree g env ronly ino dir >> pure (got.0, none))

  unfoldable pub valloc : Inode → Bool → Bool → ℕ → ℕ → ℕ → ℕ → Cmd (ℕ × Option (ℕ × Incore))
  unfolding valloc_done contig_step
  valloc pip dir root r r' sec nsec = do
    lock
    fs ← get
    if fs.ficount == 0
        then no_inodes
        else (let cg : ℕ = if dir then dirpref g fs pip root r else ino_to_cg g pip.number in
            modify (contig_step cg dir)
            >> hashalloc g.gcount (nodealloccg g env dir) cg ((cg * g.ipg + 1) % 2 ^ 32)
            >>= valloc_done dir r' sec nsec)
