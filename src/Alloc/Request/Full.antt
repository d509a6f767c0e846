-- ===== src/Alloc/Request/Full.antt =====
-- `ext2_alloc` finds a block as long as there is one.
use ext2fs.Base.{
  ℕ, zero, suc, ◌+◌, ◌*◌, ◌%◌, ◌^◌, ◌≤◌, ◌<◌, ◌≡◌, ◌≢◌, ◌⊎◌, refl, ◌∙◌, inl, inr, true, false, not,
  ◌&&◌, arith, ltb, ◌==◌, Bool-cases,
}
use ext2fs.Geometry.{Geometry, IsSound, Near, ino_to_cg}
use ext2fs.Alloc.State.{Group, Fs, Run, done, panic, lock_error, and_then, unlock, Env}
use ext2fs.Alloc.Since.{here, waited}
use ext2fs.Alloc.Block.{alloccg}
use ext2fs.Alloc.Block.Consistent.{b_addr, free_of}
use ext2fs.Alloc.Block.Outcome.{IsFair, alloccg-Outcome}
use ext2fs.Alloc.Hash.Every.{Ends, IsAllocator, hashalloc-Ends, weaken}
use ext2fs.Alloc.Request.{Inode, enospc, nospace, alloc_done, start_group, alloc}
use ext2fs.Alloc.Request.Served.{
  BootInUse, IsReady, IsOurs, Reached, start_Near, Outcome-Ends, ours_low, start_lt,
}

-- Every read succeeds, and while a request waits for one, other threads give back no block.
pub record IsSteady (env : Env) : Type 0 where
  pub reads : (blk : ℕ) → env.read_fails blk ≡ false
  pub frees_none : (fs : Fs) (a : ℕ) → ((env.others fs).gd a).nbfree ≤ (fs.gd a).nbfree

free_of_none : (gd : ℕ → Group) (n : ℕ) → ((a : ℕ) → a < n → (gd a).nbfree ≡ 0) → free_of gd n ≡ 0
free_of_none gd zero h = refl
free_of_none gd (suc n) h =
    omega (arith, free_of_none gd n (λ a l. h a (omega (arith, l))), h n (omega arith))

abbrev Spent : ℕ → Fs → Type 0
Spent cg fs = (fs.gd cg).nbfree ≡ 0

module _ (g : Geometry) (s : IsSound g) (env : Env) (fair : IsFair g env)
    (boot : (fs : Fs) → BootInUse g fs → BootInUse g (env.others fs)) (steady : IsSteady env) where
  -- A group in which `ext2_alloccg` fails has no free block, and none that had none has one.
  alloccg-Spends :
      (start : Fs)
      → IsAllocator g.gcount
          (Near g)
          (inr refl)
          (Reached g env start)
          Spent
          (IsOurs g env start)
          (alloccg g env)
  alloccg-Spends start cg pref fs c near (ready, since) =
      let before = env.others (record fs { locked = false }) in
      elim (alloccg-Outcome g s cg c env fair fs ready.valid ready.held pref near) [
        | inl (e, full) ↦ rw e (inl (refl, (ready, since), (full, λ a h. h)))
        | inr o ↦
            weaken g.gcount (Near g) (inr refl) (Reached g env start) Spent (IsOurs g env start)
              (alloccg g env cg pref fs)
              (Outcome-Ends g s env fair boot start Spent _ before cg (alloccg g env cg pref fs) c
                (fair.keeps _ ready.valid) (boot _ ready.boot) (waited since) o)
              (λ fs' h. (
                rw h.0 (elim h.1 [
                  | inl fails ↦ cc (steady.reads (b_addr g before.gd cg), fails)
                  | inr full ↦ full
                ]),
                λ a e.
                    rw h.0 (omega (arith, steady.frees_none (record fs { locked = false }) a, e)),
              ))
      ]

  -- The request gets a block, or every block is taken, or the caller is not the superuser and the
  -- free blocks are fewer than those that are reserved.
  abbrev pub Finds : ℕ → Fs → Run (ℕ × ℕ × Inode) → Type 0
  Finds uid fs (done (error, bno, ip) fs') =
      (error ≡ 0)
      ⊎ ((error ≡ enospc) × ((fs'.fbcount ≡ 0) ⊎ ((uid ≢ 0) × (fs.fbcount < g.rbcount))))
  Finds uid fs panic = ⊥
  Finds uid fs lock_error = ⊥

  nospace-Finds :
      (uid : ℕ) (fs before : Fs) (ip : Inode)
      → fs.locked ≡ true
      → ((fs.fbcount ≡ 0) ⊎ ((uid ≢ 0) × (before.fbcount < g.rbcount)))
      → Finds uid before (nospace g ip fs)
  unfolding nospace unlock
  nospace-Finds uid fs before ip held why = rw held (inr (refl, why))

  module _ (low : g.gcount * g.fpg + g.first_dblock ≤ 2 ^ 31) (ip : Inode)
      (home : ino_to_cg g ip.number < g.gcount)
      (blocks : g.bcount ≤ g.gcount * g.fpg + g.first_dblock) where
    done_Finds :
        (uid lbn : ℕ) (before : Fs) (r : Run ℕ)
        → Ends g.gcount
            (Near g)
            (inr refl)
            (Reached g env before)
            Spent
            (IsOurs g env before)
            (λ fs'. (a : ℕ) → a < g.gcount → Spent a fs')
            r
        → Finds uid before (and_then r (alloc_done g ip lbn))
    unfolding alloc_done
    done_Finds uid lbn before (done r fs) (inl (z, (ready, since), full)) = rw z (
        nospace-Finds uid fs before ip ready.held
          (inl (ready.valid.total ∙ free_of_none fs.gd g.gcount full)))
    done_Finds uid lbn before (done r fs) (inr (nz, ours)) =
        let lo = ours_low g s env fair boot before low r fs ours in
        let e : r % 2 ^ 32 ≡ r = omega arith in
        let t : (ltb 0 r && ltb r (2 ^ 31)) ≡ true = ground arith in rw e (rw t (inl refl))
    done_Finds uid lbn before panic h = h
    done_Finds uid lbn before lock_error h = h

    -- `ext2_alloc`, entered with the mutex held on a consistent volume whose block numbers stay
    -- below 2^31, by an inode of one of its groups, on a volume of no more blocks than its groups
    -- have, with a first data block of 0 or 1 or with no preferred block, where every read
    -- succeeds and other threads release the mutex, keep the volume consistent and free no block
    -- while the request waits: it ends with error 0, or with ENOSPC when no block of the volume is
    -- free, or with ENOSPC because the caller is not the superuser and fewer blocks were free than
    -- are reserved.
    pub alloc-Finds :
        (lbn bpref size uid : ℕ) (fs : Fs)
        → Near g bpref
        → IsReady g fs
        → Finds uid fs (alloc g env ip lbn bpref size uid fs)
    unfolding alloc
    alloc-Finds lbn bpref size uid fs near ready =
        elim (Bool-cases ((size == g.bsize) && (fs.fbcount == 0))) [
          | inl none_left ↦
              rw none_left (nospace-Finds uid fs fs ip ready.held (inl (ground (arith, none_left))))
          | inr some_left ↦
              rw some_left (elim (Bool-cases (not (uid == 0) && ltb fs.fbcount g.rbcount)) [
                | inl reserved ↦ rw reserved (
                    nospace-Finds uid fs fs ip ready.held
                      (inr ((λ z. ground (arith, z, reserved)), ground (arith, reserved))))
                | inr allowed ↦ rw allowed (
                    done_Finds uid lbn fs _ (
                      hashalloc-Ends g.gcount (Near g) (inr refl) (Reached g env fs) Spent
                        (IsOurs g env fs) (alloccg g env) (alloccg-Spends fs)
                        (start_group g ip bpref).0 (start_group g ip bpref).1 fs
                        (start_lt g s env fair boot fs low ip home blocks bpref)
                        (start_Near g ip bpref near) (ready, here)))
              ])
        ]
