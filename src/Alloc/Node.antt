-- ===== src/Alloc/Node.antt =====
-- `ext2_nodealloccg` and `ext2_vfree` of kext/ext2_alloc.c.
pub mod Consistent
pub mod Free
pub mod Outcome
use ext2fs.Base.{
  ℕ, ◌+◌, ◌-◌, ◌*◌, ◌%◌, ◌^◌, Bool, true, false, Option, none, some, List, not, ◌&&◌, ltb, ◌==◌,
  if◌then◌else◌,
}
use ext2fs.Base.Bits.{setbit, clrbit, isclr}
use ext2fs.Geometry.{Geometry, fsbtodb, ino_to_cg}
use ext2fs.Alloc.State.{
  Group, Fs, update, dec16, dec32, inc16, inc32, Run, panic, Cmd, pure, get, modify, ◌>>=◌, ◌>>◌,
  lock, unlock, Env, bread, bdwrite,
}
use ext2fs.Alloc.Scan.{find_node}

-- The changes to group `cg` and to the totals when an inode is taken, a directory's if `dir`.
unfoldable pub take_node : ℕ → Bool → Fs → Fs
take_node cg dir fs = record fs {
  ficount = dec32 fs.ficount;
  total_dir = if dir then inc32 fs.total_dir else fs.total_dir;
  gd = update fs.gd cg (record (fs.gd cg) {
    nifree = dec16 (fs.gd cg).nifree;
    ndirs = if dir then inc16 (fs.gd cg).ndirs else (fs.gd cg).ndirs;
  });
  fmod = true;
}

-- And when it is given back.
unfoldable pub give_node : ℕ → Bool → Fs → Fs
give_node cg dir fs = record fs {
  ficount = inc32 fs.ficount;
  total_dir = if dir then dec32 fs.total_dir else fs.total_dir;
  gd = update fs.gd cg (record (fs.gd cg) {
    nifree = inc16 (fs.gd cg).nifree;
    ndirs = if dir then dec16 (fs.gd cg).ndirs else (fs.gd cg).ndirs;
  });
  fmod = true;
}

module _ (g : Geometry) where
  -- `cg * ipg + ipref + 1`: the product is of 32 bits.
  unfoldable pub node_of : ℕ → ℕ → ℕ
  node_of cg i = cg * g.ipg % 2 ^ 32 + i + 1

  unfoldable pub node_found : ℕ → Bool → ℕ → List ℕ → Option ℕ → Cmd ℕ
  unfolding take_node node_of
  node_found cg dir blk map none = λ fs. panic
  node_found cg dir blk map (some i) = do
    lock
    modify (take_node cg dir)
    unlock
    bdwrite blk (setbit map i)
    pure (node_of cg i)

  unfoldable pub node_read : ℕ → ℕ → Bool → ℕ → Option (List ℕ) → Cmd ℕ
  unfolding node_found
  node_read cg ipref dir blk none = do lock; pure 0
  node_read cg ipref dir blk (some map) = do
    fs ← get
    if (fs.gd cg).nifree == 0
        then (do lock; pure 0)
        else node_found cg dir blk map (find_node g.ipg map ipref)

  module _ (env : Env) where
    -- `ipref` is an inode number or 0; `dir` says whether the mode is a directory's.
    unfoldable pub nodealloccg : Bool → ℕ → ℕ → Cmd ℕ
    unfolding node_read
    nodealloccg dir cg ipref = do
      fs ← get
      if (fs.gd cg).nifree == 0 then pure 0 else do
        unlock
        map ← bread env (fsbtodb g (fs.gd cg).i_bitmap)
        node_read cg (ipref - 1) dir (fsbtodb g (fs.gd cg).i_bitmap) map

    unfoldable pub vfree_read : Bool → ℕ → ℕ → Bool → ℕ → Option (List ℕ) → Cmd ℕ
    unfolding give_node
    vfree_read ronly cg i dir blk none = pure 0
    vfree_read ronly cg i dir blk (some map) =
        if isclr map i && not ronly
        then (λ fs. panic)
        else do lock; modify (give_node cg dir); unlock; bdwrite blk (clrbit map i); pure 0

    -- `(u_int)ino > ipg * gcount` is the panic "range".
    unfoldable pub vfree : Bool → ℕ → Bool → Cmd ℕ
    unfolding vfree_read
    vfree ronly ino dir = do
      fs ← get
      if ltb (g.ipg * g.gcount % 2 ^ 32) (ino % 2 ^ 32) then (λ fs. panic) else do
        map ← bread env (fsbtodb g (fs.gd (ino_to_cg g ino)).i_bitmap)
        vfree_read ronly (ino_to_cg g ino) ((ino + 2 ^ 64 - 1) % 2 ^ 64 % g.ipg) dir
            (fsbtodb g (fs.gd (ino_to_cg g ino)).i_bitmap) map
