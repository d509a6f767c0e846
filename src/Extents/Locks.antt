-- ===== src/Extents/Locks.antt =====
-- The mutex around the call of `ext2_alloc` in `ext4_ext_new_block` of kext/ext2_extents.c.
use ext2fs.Base.{ℕ, ◌+◌, ◌*◌, ◌^◌, ◌≤◌, ◌<◌, ◌≡◌, inr, refl, true, false}
use ext2fs.Geometry.{Geometry, IsSound, ino_to_cg}
use ext2fs.Alloc.State.{Fs, Run, done, panic, lock_error, and_then, pure, lock, unlock, ◌>>◌, Env}
use ext2fs.Alloc.Block.Consistent.{IsValid}
use ext2fs.Alloc.Block.Outcome.{IsFair}
use ext2fs.Alloc.Request.{Inode, alloc}
use ext2fs.Alloc.Request.Served.{BootInUse, IsReady, Served, alloc-Served}
use ext2fs.Extents.Map.{new_block}

module _ (g : Geometry) (s : IsSound g) (env : Env) (fair : IsFair g env)
    (boot : (fs : Fs) → BootInUse g fs → BootInUse g (env.others fs)) where
  Served-unlock :
      (start : Fs) (ip : Inode) (lbn : ℕ) (r : Run (ℕ × ℕ × Inode))
      → Served g s env fair boot start ip lbn r
      → and_then r (λ x. unlock >> pure x) ≡ lock_error
  unfolding unlock
  Served-unlock start ip lbn (done (e, b, ip') fs) (free, _, _) = rw free refl
  Served-unlock start ip lbn panic h = absurd h
  Served-unlock start ip lbn lock_error h = absurd h

  -- The call of `ext2_alloc` in `ext4_ext_new_block`, on a consistent volume with the mutex free,
  -- block numbers below 2^31, an inode of one of its groups and other threads that keep it
  -- consistent: the mutex is released twice, whether there is a block or not.
  pub new_block_lem :
      (g.gcount * g.fpg + g.first_dblock ≤ 2 ^ 31)
      → (ip : Inode) → ino_to_cg g ip.number < g.gcount
      → g.bcount ≤ g.gcount * g.fpg + g.first_dblock
      → (uid : ℕ) (fs : Fs) → IsValid g fs
      → fs.locked ≡ false
      → BootInUse g fs
      → new_block g env ip uid fs ≡ lock_error
  unfolding new_block lock
  new_block_lem low ip home blocks uid fs v free b =
      let ready : IsReady g (record fs { locked = true }) = record {
        valid = v;
        held = refl;
        boot = b;
      } in
      rw free (
        Served-unlock (record fs { locked = true }) ip 0
          (alloc g env ip 0 0 g.bsize uid (record fs { locked = true }))
          (alloc-Served g s env fair boot low ip home blocks 0 0 g.bsize uid
            (record fs { locked = true }) (inr refl) ready))
