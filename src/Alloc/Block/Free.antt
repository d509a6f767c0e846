-- ===== src/Alloc/Block/Free.antt =====
-- What `ext2_blkfree` does, and that it undoes `ext2_alloccg`.
use ext2fs.Base.{
  ℕ, ◌+◌, ◌*◌, ◌%◌, ◌^◌, ◌<◌, ◌≡◌, refl, ◌∙◌, ap, sym, true, false, some, arith, leb, length,
}
use ext2fs.Base.Bits.{
  isset, isclr, setbit, clrbit, clrbit-setbit, isset-setbit, count_clear-le, count_clear-clrbit,
}
use ext2fs.Base.Int.{pos}
use ext2fs.Geometry.{Geometry, IsSound, fsbtodb, dtog, dtogd}
use ext2fs.Geometry.Laws.{dtog_of}
use ext2fs.Alloc.State.{Fs, update, done, panic, lock, unlock, Env, bread, bdwrite}
use ext2fs.Alloc.Block.{give_step, block_of, free_read, blkfree}
use ext2fs.Alloc.Block.Consistent.{b_addr, IsGroup, IsValid, give-IsConsistent}
use ext2fs.Alloc.Block.Outcome.{IsFair, map_of, Took}

module _ (g : Geometry) where
  -- Block `bno` of group `cg`, in use in `fs`, is free in `fs'`, and nothing else of the bitmap changed.
  pub record Gave (fs fs' : Fs) (cg bno : ℕ) : Type 0 where
    pub was_used : isset (map_of g fs cg) bno ≡ true
    pub map : map_of g fs' cg ≡ clrbit (map_of g fs cg) bno
    pub group : (fs'.gd cg).nbfree ≡ (fs.gd cg).nbfree + 1
    pub total : fs'.fbcount ≡ fs.fbcount + 1

-- No 32-bit sum of a block's number wraps.
pub block_of-eq :
    (g : Geometry) (s : IsSound g) (cg bno : ℕ)
    → cg < g.gcount
    → bno < g.fpg
    → block_of g cg bno ≡ cg * g.fpg + g.first_dblock + bno
unfolding block_of
block_of-eq g s cg bno c b = grind (arith, s.blocks_fit)

module _ (g : Geometry) (s : IsSound g) (env : Env) (fair : IsFair g env) (fs : Fs)
    (v : IsValid g fs) (cg bno : ℕ) (c : cg < g.gcount) (b : bno < g.fpg)
    (small : g.bcount < 2 ^ 32) (exists : block_of g cg bno < g.bcount) where
  -- The state when the buffer of the bitmap has been read.
  abbrev pub waited : Fs
  waited = env.others fs

  pub place : (dtog g (block_of g cg bno) ≡ cg) × (dtogd g (block_of g cg bno) ≡ pos bno)
  place = rw (block_of-eq g s cg bno c b) (dtog_of g s cg bno b)

  in_range : leb g.bcount (block_of g cg bno % 2 ^ 32) ≡ false
  in_range = ground arith

  addr : b_addr g fs.gd cg ≡ b_addr g waited.gd cg
  addr = ap (fsbtodb g) (sym (fair.layout fs cg))

  pub reached :
      env.read_fails (b_addr g waited.gd cg) ≡ false
      → blkfree g env (block_of g cg bno) fs
        ≡ free_read g env cg
            (block_of g cg bno)
            (b_addr g waited.gd cg)
            (some (map_of g waited cg))
            waited
  unfolding blkfree bread
  reached ok = rw (in_range, place.0, addr, ok)

  -- `ext2_blkfree` of a block of the volume that is free already after the wait for its bitmap,
  -- with a read that succeeds, is a panic.
  pub blkfree_panic :
      env.read_fails (b_addr g waited.gd cg) ≡ false
      → isset (map_of g waited cg) bno ≡ false
      → blkfree g env (block_of g cg bno) fs ≡ panic
  unfolding free_read isclr
  blkfree_panic ok free = reached ok ∙ rw (place.1, free, free_read) refl

  -- `ext2_blkfree` of a block of the volume that is in use after the wait for its bitmap, with a
  -- read that succeeds and a free count that has room: the call ends with the mutex free on a
  -- consistent volume, its bit cleared and both free counts one more than after the wait.
  pub blkfree-Gave :
      env.read_fails (b_addr g waited.gd cg) ≡ false
      → isset (map_of g waited cg) bno ≡ true
      → waited.fbcount + 1 < 2 ^ 32
      → (fs' : Fs) × (blkfree g env (block_of g cg bno) fs ≡ done tt fs')
        × IsValid g fs'
        × (fs'.locked ≡ false)
        × Gave g waited fs' cg bno
  unfolding free_read isclr lock unlock bdwrite give_step
  blkfree-Gave ok used room = (
    record (give_step g (clrbit (map_of g waited cg) bno) cg bno waited) {
      locked = false;
      disk = update waited.disk (b_addr g waited.gd cg) (clrbit (map_of g waited cg) bno);
    },
    reached ok ∙ rw (place.1, used, free_read, fair.unlocks fs) refl,
    give-IsConsistent g s vw cg c bno b used room,
    refl,
    record {
      was_used = used;
      map = ground arith;
      group = ground (
        arith,
        gr.count,
        count_clear-clrbit (map_of g waited cg) bno gr.bytes (omega (arith, gr.room)) g.fpg b used,
        count_clear-le (clrbit (map_of g waited cg) bno) g.fpg,
        s.fpg_small,
      );
      total = omega arith;
    },
  )
    where
      vw : IsValid g waited
      vw = fair.keeps fs v

      gr : IsGroup g waited.gd waited.disk cg
      gr = vw.groups cg c

module _ (g : Geometry) (fs fs' w fs'' : Fs) (cg bno : ℕ) where
  undo :
      Took g fs fs' cg bno
      → Gave g w fs'' cg bno
      → w ≡ fs'
      → clrbit (setbit (map_of g fs cg) bno) bno ≡ map_of g fs cg
      → (map_of g fs'' cg ≡ map_of g fs cg)
        × ((fs''.gd cg).nbfree ≡ (fs.gd cg).nbfree)
        × (fs''.fbcount ≡ fs.fbcount)
  undo took gave e back = (
    gave.map ∙ ap (λ x. clrbit (map_of g x cg) bno) e ∙ ap (λ m. clrbit m bno) took.map ∙ back,
    gave.group ∙ ap (λ x. (x.gd cg).nbfree + 1) e ∙ took.group,
    gave.total ∙ ap (λ x. x.fbcount + 1) e ∙ took.total,
  )

-- A block that is taken and then freed, with no other thread between, leaves the bitmap, the
-- group's count and the superblock's count as they were.
module _ (g : Geometry) (s : IsSound g) (env : Env) (fair : IsFair g env) (fs fs' : Fs)
    (v : IsValid g fs) (v' : IsValid g fs') (cg bno : ℕ) (c : cg < g.gcount)
    (small : g.bcount < 2 ^ 32) (exists : block_of g cg bno < g.bcount) where
  -- A block that was taken on a consistent volume of fewer than 2^32 blocks and is then freed by
  -- `ext2_blkfree`, with no other thread between and a read that succeeds: the call ends, on a
  -- consistent volume, with the group's bitmap, its free count and the superblock's free count as
  -- they were before the block was taken.
  pub blkfree-alloccg :
      Took g fs fs' cg bno
      → env.others fs' ≡ fs'
      → env.read_fails (b_addr g fs'.gd cg) ≡ false
      → (fs'' : Fs) × (blkfree g env (block_of g cg bno) fs' ≡ done tt fs'')
        × IsValid g fs''
        × (map_of g fs'' cg ≡ map_of g fs cg)
        × ((fs''.gd cg).nbfree ≡ (fs.gd cg).nbfree)
        × (fs''.fbcount ≡ fs.fbcount)
  blkfree-alloccg took quiet ok =
      let w = waited g s env fair fs' v' cg bno c took.place small exists in
      let bound : bno < 8 * length (map_of g fs cg) =
        omega (arith, took.place, (v.groups cg c).room) in
      let used : isset (map_of g w cg) bno ≡ true =
        rw (quiet, took.map)
          (isset-setbit (map_of g fs cg) bno bno (v.groups cg c).bytes bound ∙ ground arith) in
      let (fs'', e, valid, free, gave) =
        blkfree-Gave g s env fair fs' v' cg bno c took.place small exists (rw quiet ok) used
          (rw quiet (omega (arith, took.total, v.small))) in
      let (map, group, total) =
        undo g fs fs' w fs'' cg bno took gave quiet
          (clrbit-setbit (map_of g fs cg) bno (v.groups cg c).bytes bound took.was_free) in
      (fs'', e, valid, map, group, total)
