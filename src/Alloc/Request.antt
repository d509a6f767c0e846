-- ===== src/Alloc/Request.antt =====
-- `ext2_alloc` and `ext2_blkpref` of kext/ext2_alloc.c: a request for a block of a file.
pub mod Full
pub mod Served
pub mod Summed
use Prim.Native.Nat.{bit_or}
use ext2fs.Base.{
  ℕ, zero, suc, ◌+◌, ◌-◌, ◌*◌, ◌/◌, ◌%◌, ◌^◌, ◌≡◌, Bool, true, false, Option, none, some, List, [],
  ◌∷◌, not, ◌&&◌, ltb, leb, ◌==◌, if◌then◌else◌, get_or,
}
use ext2fs.Geometry.{Geometry, dtog, ino_to_cg}
use ext2fs.Alloc.State.{Fs, Run, done, Cmd, pure, get, ◌>>=◌, ◌>>◌, unlock, Env}
use ext2fs.Alloc.Block.{alloccg}
use ext2fs.Alloc.Hash.{hashalloc}

-- The fields of struct inode that the allocator reads and writes.
pub record Inode : Type 0 where
  pub number : ℕ
  pub block_group : ℕ
  pub next_alloc_block : ℕ
  pub next_alloc_goal : ℕ
  pub blocks : ℕ
  pub flag : ℕ

abbrev pub enospc : ℕ
enospc = 28

-- IN_CHANGE | IN_UPDATE
abbrev pub in_change_update : ℕ
in_change_update = 6

-- The nearest block before place `indx` of a table that is there, or 0.
unfoldable pub previous_block : List ℕ → ℕ → ℕ
previous_block bap zero = 0
previous_block bap (suc i) =
    let before = previous_block bap i in if get_or bap i 0 == 0 then before else get_or bap i 0

module _ (g : Geometry) where
  -- `bap` is the table of pointers in which the new one will stand, or NULL.
  unfoldable pub blkpref : Inode → ℕ → ℕ → Option (List ℕ) → ℕ → ℕ
  unfolding previous_block
  blkpref ip lbn indx bap blocknr =
      let near : ℕ = elim bap [ none ↦ 0 | some table ↦ previous_block table indx ] in
      if (ip.next_alloc_block == lbn) && not (ip.next_alloc_goal == 0)
      then ip.next_alloc_goal
      else if not (near == 0)
      then near
      else if not (blocknr == 0)
      then blocknr
      else (ip.block_group * g.bpg) % 2 ^ 32 + g.first_dblock

  -- What the file remembers of a block that it was given.
  unfoldable pub charge : Inode → ℕ → ℕ → Inode
  charge ip lbn bno = record ip {
    next_alloc_block = lbn % 2 ^ 32;
    next_alloc_goal = bno;
    blocks = (ip.blocks + g.bsize / 512) % 2 ^ 64;
    flag = bit_or ip.flag in_change_update;
  }

  -- The label `nospace`: the error, no block, the inode as it was.
  unfoldable pub nospace : Inode → Cmd (ℕ × ℕ × Inode)
  nospace ip = unlock >> pure (enospc, 0, ip)

  -- `int32_t bno` takes the low 32 bits of the result, and is positive below `2 ^ 31`.
  unfoldable pub alloc_done : Inode → ℕ → ℕ → Cmd (ℕ × ℕ × Inode)
  unfolding charge nospace
  alloc_done ip lbn r =
      if ltb 0 (r % 2 ^ 32) && ltb (r % 2 ^ 32) (2 ^ 31)
      then pure (0, r % 2 ^ 32, charge ip lbn (r % 2 ^ 32))
      else nospace ip

  -- The first group to try and the block that is wanted, 0 for none.
  unfoldable pub start_group : Inode → ℕ → ℕ × ℕ
  start_group ip bpref =
      let pref = if leb g.bcount bpref then 0 else bpref in
      (if pref == 0 then ino_to_cg g ip.number else dtog g pref, pref)

  -- The result is the error, `*bnp` and the inode. `uid` is the caller's.
  unfoldable pub alloc : Env → Inode → ℕ → ℕ → ℕ → ℕ → Cmd (ℕ × ℕ × Inode)
  unfolding alloc_done nospace start_group
  alloc env ip lbn bpref size uid = do
    fs ← get
    if (size == g.bsize) && (fs.fbcount == 0)
        then nospace ip
        else if not (uid == 0) && ltb fs.fbcount g.rbcount
        then nospace ip
        else hashalloc g.gcount (alloccg g env) (start_group ip bpref).0 (start_group ip bpref).1
          >>= alloc_done ip lbn
