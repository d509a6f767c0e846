-- ===== src/Alloc/Block.antt =====
-- `ext2_alloccg` and `ext2_blkfree` of kext/ext2_alloc.c.
pub mod Consistent
pub mod Outcome
pub mod Free
pub mod Summed
use ext2fs.Base.{
  ℕ, ◌+◌, ◌-◌, ◌*◌, ◌%◌, ◌^◌, Bool, true, false, Option, none, some, List, ltb, leb, ◌==◌,
  if◌then◌else◌,
}
use ext2fs.Base.Int.{ℤ, pos, negsuc}
use ext2fs.Base.Bits.{setbit, clrbit, isclr}
use ext2fs.Geometry.{Geometry, fsbtodb, dtog, dtogd}
use ext2fs.Alloc.State.{
  Group, Fs, update, dec16, dec32, inc16, inc32, Run, panic, Cmd, pure, get, modify, ◌>>=◌, ◌>>◌,
  lock, unlock, Env, bread, bdwrite,
}
use ext2fs.Alloc.Scan.{find_block}
use ext2fs.Alloc.Cluster.{clusteracct}

module _ (g : Geometry) where
  -- The call of `ext2_clusteracct` for group `cg`.
  abbrev pub cluster_step : List ℕ → ℕ → ℕ → ℤ → Fs → Fs
  cluster_step map cg bno cnt fs =
      let (c, m) = clusteracct g map bno cnt (fs.clustersum cg) (fs.maxcluster cg) in
      record fs { clustersum = update fs.clustersum cg c; maxcluster = update fs.maxcluster cg m }

  -- The changes that `ext2_alloccg` makes under the lock, and those of `ext2_blkfree`.
  unfoldable pub take_step : List ℕ → ℕ → ℕ → Fs → Fs
  take_step map cg bno fs = record (cluster_step map cg bno (negsuc 0) fs) {
    fbcount = dec32 fs.fbcount;
    gd = update fs.gd cg (record (fs.gd cg) { nbfree = dec16 (fs.gd cg).nbfree });
    fmod = true;
  }

  unfoldable pub give_step : List ℕ → ℕ → ℕ → Fs → Fs
  give_step map cg bno fs = record (cluster_step map cg bno (pos 1) fs) {
    fbcount = inc32 fs.fbcount;
    gd = update fs.gd cg (record (fs.gd cg) { nbfree = inc16 (fs.gd cg).nbfree });
    fmod = true;
  }

  -- `cg * fpg + first_dblock + bno`: the first two terms are of 32 bits.
  unfoldable pub block_of : ℕ → ℕ → ℕ
  block_of cg bno = (cg * g.fpg + g.first_dblock) % 2 ^ 32 + bno

  -- From the label `gotit` on; no block is the panic of `ext2_mapsearch`, or
  -- an access outside the map, which ends the run in the same way here.
  unfoldable pub alloc_found : ℕ → ℕ → List ℕ → Option ℕ → Cmd ℕ
  unfolding take_step block_of
  alloc_found cg blk map none = λ fs. panic
  alloc_found cg blk map (some bno) = do
    lock
    modify (take_step (setbit map bno) cg bno)
    unlock
    bdwrite blk (setbit map bno)
    pure (block_of cg bno)

  -- After the read. Another thread may have taken the last block while this one waited.
  unfoldable pub alloc_read : ℕ → ℕ → ℕ → Option (List ℕ) → Cmd ℕ
  unfolding alloc_found
  alloc_read cg bpref blk none = do lock; pure 0
  alloc_read cg bpref blk (some map) = do
    fs ← get
    if (fs.gd cg).nbfree == 0
        then (do lock; pure 0)
        else alloc_found cg blk map (find_block g map cg bpref)

  module _ (env : Env) where
    unfoldable pub alloccg : ℕ → ℕ → Cmd ℕ
    unfolding alloc_read
    alloccg cg bpref = do
      fs ← get
      if (fs.gd cg).nbfree == 0 then pure 0 else do
        unlock
        map ← bread env (fsbtodb g (fs.gd cg).b_bitmap)
        alloc_read cg bpref (fsbtodb g (fs.gd cg).b_bitmap) map

    -- `(u_int)bno >= bcount` compares the low 32 bits of the block number.
    -- A place before the map ends the run like a panic.
    unfoldable pub free_read : ℕ → ℕ → ℕ → Option (List ℕ) → Cmd (Unit {0})
    unfolding give_step
    free_read cg bno blk none = pure tt
    free_read cg bno blk (some map) = elim (dtogd g bno) [
      | negsuc d ↦ λ fs. panic
      | pos bit ↦ if isclr map bit then (λ fs. panic) else do
        lock
        modify (give_step (clrbit map bit) cg bit)
        unlock
        bdwrite blk (clrbit map bit)
    ]

    unfoldable pub blkfree : ℕ → Cmd (Unit {0})
    unfolding free_read
    blkfree bno = do
      fs ← get
      if leb g.bcount (bno % 2 ^ 32) then pure tt else do
        map ← bread env (fsbtodb g (fs.gd (dtog g bno)).b_bitmap)
        free_read (dtog g bno) bno (fsbtodb g (fs.gd (dtog g bno)).b_bitmap) map
