-- ===== src/Alloc/Block/Outcome.antt =====
-- What `ext2_alloccg` and `ext2_blkfree` do to the bitmap, the counters and the lock.
use ext2fs.Base.{
  ℕ, ◌+◌, ◌^◌, ◌≤◌, ◌<◌, ◌≡◌, ◌⊎◌, refl, ap, inl, inr, Bool, true, false, none, some, List, arith,
  ◌==◌, ==_iff, if◌then◌else◌, Bool-cases, Option-cases,
}
use ext2fs.Base.Bits.{isset, setbit, count_clear-setbit, count_clear-le}
use ext2fs.Geometry.{Geometry, IsSound, Near, fsbtodb}
use ext2fs.Alloc.State.{Fs, Run, done, panic, lock_error, lock, unlock, Env, bread, bdwrite}
use ext2fs.Alloc.Scan.{find_block}
use ext2fs.Alloc.Scan.Found.{IsFree, find_block-IsFree, find_block-ne-none}
use ext2fs.Alloc.Block.{block_of, alloc_found, alloc_read, alloccg}
use ext2fs.Alloc.Block.Consistent.{b_addr, IsValid, nbfree-le, take-IsConsistent}

-- What other threads keep while this one waits: the place of the bitmaps, the lock free, and the
-- agreement of bitmaps and counters.
pub record IsFair (g : Geometry) (env : Env) : Type 0 where
  pub layout : (fs : Fs) (cg : ℕ) → ((env.others fs).gd cg).b_bitmap ≡ (fs.gd cg).b_bitmap
  pub unlocks : (fs : Fs) → (env.others fs).locked ≡ false
  pub keeps : (fs : Fs) → IsValid g fs → IsValid g (env.others fs)

module _ (g : Geometry) where
  abbrev pub map_of : Fs → ℕ → List ℕ
  map_of fs cg = fs.disk (b_addr g fs.gd cg)

  -- Block `bno` of group `cg`, free in `fs`, is taken in `fs'`, and nothing else of the bitmap changed.
  pub record Took (fs fs' : Fs) (cg bno : ℕ) : Type 0 where
    pub place : bno < g.fpg
    pub was_free : isset (map_of fs cg) bno ≡ false
    pub map : map_of fs' cg ≡ setbit (map_of fs cg) bno
    pub group : (fs'.gd cg).nbfree + 1 ≡ (fs.gd cg).nbfree
    pub total : fs'.fbcount + 1 ≡ fs.fbcount

  -- How a call of an allocator for group `cg` ends that read its bitmap, or not if `fails`, in `fs`:
  -- with 0, the lock taken and nothing else changed, because the read failed or the group is full,
  -- or with a block of the group, the lock released.
  abbrev pub Outcome : Bool → Fs → ℕ → Run ℕ → Type 0
  Outcome fails fs cg (done r fs') =
      IsValid g fs'
      × (((r ≡ 0)
            × (fs' ≡ record fs { locked = true })
            × ((fails ≡ true) ⊎ ((fs.gd cg).nbfree ≡ 0)))
          ⊎ ((bno : ℕ) × (r ≡ block_of g cg bno) × (fs'.locked ≡ false) × Took fs fs' cg bno))
  Outcome fails fs cg panic = ⊥
  Outcome fails fs cg lock_error = ⊥

  module _ (s : IsSound g) (cg : ℕ) (c : cg < g.gcount) where
    -- The counters do not wrap.
    counters :
        (fs : Fs) (bno : ℕ)
        → IsValid g fs
        → IsFree g.fpg (map_of fs cg) bno
        → (0 < (fs.gd cg).nbfree) × ((fs.gd cg).nbfree < 2 ^ 16) × ((fs.gd cg).nbfree ≤ fs.fbcount)
    counters fs bno v f =
        let gr = v.groups cg c in
        let one =
          count_clear-setbit (map_of fs cg) bno gr.bytes (omega (arith, f.0, gr.room)) g.fpg f.0
            f.1 in
        omega (
          arith,
          gr.count,
          one,
          count_clear-le (map_of fs cg) g.fpg,
          s.fpg_small,
          v.total,
          nbfree-le fs.gd cg g.gcount c,
        )

    found_Outcome :
        (fs : Fs) (bno : ℕ)
        → IsValid g fs
        → fs.locked ≡ false
        → IsFree g.fpg (map_of fs cg) bno
        → Outcome false fs cg (alloc_found g cg (b_addr g fs.gd cg) (map_of fs cg) (some bno) fs)
    unfolding alloc_found lock unlock bdwrite
    found_Outcome fs bno v l f = rw l (
      take-IsConsistent g s v cg c bno f.0 f.1,
      inr (
        bno,
        refl,
        refl,
        record {
          place = f.0;
          was_free = f.1;
          map = ground arith;
          group = ground (arith, counters fs bno v f);
          total = omega (arith, counters fs bno v f, v.small);
        },
      ),
    )

    read_Outcome :
        (fs : Fs) (bpref : ℕ) (fails : Bool)
        → Near g bpref
        → IsValid g fs
        → fs.locked ≡ false
        → Outcome fails fs cg (
            alloc_read g cg bpref
              (b_addr g fs.gd cg)
              (if fails then none else some (map_of fs cg))
              fs)
    unfolding alloc_read lock
    read_Outcome fs bpref true near v l = rw l (v, inl (refl, refl, inl refl))
    read_Outcome fs bpref false near v l = elim (Bool-cases ((fs.gd cg).nbfree == 0)) [
      | inl z ↦ rw (z, l) (v, inl (refl, refl, inr ((==_iff _ _).0 z)))
      | inr nz ↦ rw nz (elim (Option-cases (find_block g (map_of fs cg) cg bpref)) [
        | inl none_left ↦ absurd (
            find_block-ne-none g s (map_of fs cg) (v.groups cg c).bytes cg bpref near
              (ground (arith, (v.groups cg c).count)) none_left)
        | inr (bno, found) ↦ rw found (
            found_Outcome fs bno v l
              (find_block-IsFree g s (map_of fs cg) (v.groups cg c).bytes cg bpref bno near found))
      ])
    ]

    module _ (env : Env) (fair : IsFair g env) (fs : Fs) (v : IsValid g fs)
        (held : fs.locked ≡ true) where
      -- The state when the buffer of the bitmap has been read.
      abbrev pub after_read : Fs
      after_read = env.others (record fs { locked = false })

      -- `ext2_alloccg` for a group that there is, with no preferred block before the first one,
      -- entered with the mutex held on a consistent volume, where other threads release the mutex
      -- and keep the volume consistent: it gives 0 at once with nothing changed, because the group
      -- has no free block, or, measured from the state after the read of the bitmap, ends on a
      -- consistent volume with 0, the mutex taken and nothing else changed, because the read
      -- failed or the group has no free block any more, or with the number of a block of the group
      -- whose bit was clear and is now set, both free counts one less and the mutex released; it
      -- neither panics nor misuses the mutex.
      pub alloccg-Outcome :
          (bpref : ℕ)
          → Near g bpref
          → ((alloccg g env cg bpref fs ≡ done 0 fs) × ((fs.gd cg).nbfree ≡ 0))
            ⊎ Outcome
                (env.read_fails (b_addr g after_read.gd cg))
                after_read
                cg
                (alloccg g env cg bpref fs)
      unfolding alloccg unlock bread
      alloccg-Outcome bpref near = elim (Bool-cases ((fs.gd cg).nbfree == 0)) [
        | inl z ↦ inl (rw z refl, (==_iff _ _).0 z)
        | inr nz ↦ inr (
            rw (nz, held)
              (rw (← addr) (
                read_Outcome after_read bpref (env.read_fails (b_addr g after_read.gd cg)) near
                  (fair.keeps _ v) (fair.unlocks _))))
      ]
        where
          addr : b_addr g after_read.gd cg ≡ b_addr g fs.gd cg
          addr = ap (fsbtodb g) (fair.layout (record fs { locked = false }) cg)
