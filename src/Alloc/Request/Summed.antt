-- ===== src/Alloc/Request/Summed.antt =====
-- The cluster summaries of a volume, kept by `ext2_alloc`.
use ext2fs.Base.{
  ℕ, ◌+◌, ◌*◌, ◌%◌, ◌^◌, ◌≤◌, ◌<◌, ◌≡◌, refl, inl, inr, true, not, ◌&&◌, arith, ltb, ◌==◌,
  Bool-cases,
}
use ext2fs.Geometry.{Geometry, IsSound, Near, ino_to_cg}
use ext2fs.Alloc.State.{Fs, Run, done, panic, lock_error, and_then, unlock, Env}
use ext2fs.Alloc.Since.{here}
use ext2fs.Alloc.Block.{alloccg}
use ext2fs.Alloc.Block.Consistent.{IsValid}
use ext2fs.Alloc.Block.Outcome.{IsFair}
use ext2fs.Alloc.Block.Summed.{IsSummed, Keeps, alloccg-IsSummed}
use ext2fs.Alloc.Hash.Every.{Ends, IsAllocator, hashalloc-Ends}
use ext2fs.Alloc.Request.{Inode, nospace, alloc_done, start_group, alloc}
use ext2fs.Alloc.Request.Served.{
  BootInUse, IsReady, IsOurs, Reached, start_Near, alloccg-IsAllocator, start_lt, ours_low,
}

module _ (g : Geometry) (s : IsSound g) (env : Env) (fair : IsFair g env)
    (boot : (fs : Fs) → BootInUse g fs → BootInUse g (env.others fs))
    (sums : (fs : Fs) → IsValid g fs → IsSummed g fs → IsSummed g (env.others fs))
    (sized : 0 < g.contigsumsize) where
  abbrev Any : ℕ → Fs → Type 0
  Any cg fs = Unit

  abbrev Ready : Fs → Fs → Type 0
  Ready start fs = Reached g env start fs × IsSummed g fs

  abbrev Got : Fs → ℕ → Fs → Type 0
  Got start r fs = IsOurs g env start r fs × IsSummed g fs

  both :
      (start : Fs) (P : Fs → Type 0) (r : Run ℕ)
      → Ends g.gcount (Near g) (inr refl) (Reached g env start) Any (IsOurs g env start) P r
      → Keeps g r
      → Ends g.gcount (Near g) (inr refl) (Ready start) Any (Got start) P r
  both start P (done r fs) (inl (z, ready, p)) m = inl (z, (ready, m), p)
  both start P (done r fs) (inr (nz, got)) m = inr (nz, (got, m))
  both start P panic h m = h
  both start P lock_error h m = h

  alloccg-keeps :
      (start : Fs)
      → IsAllocator g.gcount (Near g) (inr refl) (Ready start) Any (Got start) (alloccg g env)
  alloccg-keeps start cg pref fs c near ((ready, since), m) =
      both start _ (alloccg g env cg pref fs)
        (alloccg-IsAllocator g s env fair boot start cg pref fs c near (ready, since))
        (alloccg-IsSummed g sized s cg c env fair sums fs ready.valid m ready.held pref near)

  nospace-Keeps :
      (ip : Inode) (fs : Fs) → IsSummed g fs → fs.locked ≡ true → Keeps g (nospace g ip fs)
  unfolding nospace unlock
  nospace-Keeps ip fs m held = rw held (record { started = m.started; counted = m.counted })

  done_Keeps :
      (start : Fs) (ip : Inode) (lbn : ℕ) (r : Run ℕ) (Q : Fs → Type 0)
      → g.gcount * g.fpg + g.first_dblock ≤ 2 ^ 31
      → Ends g.gcount (Near g) (inr refl) (Ready start) Any (Got start) Q r
      → Keeps g (and_then r (alloc_done g ip lbn))
  unfolding alloc_done
  done_Keeps start ip lbn (done r fs) Q low (inl (z, ((ready, since), m), q)) =
      rw z (nospace-Keeps ip fs m ready.held)
  done_Keeps start ip lbn (done r fs) Q low (inr (nz, (ours, m))) =
      let lo = ours_low g s env fair boot start low r fs ours in
      let e : r % 2 ^ 32 ≡ r = omega arith in
      let t : (ltb 0 r && ltb r (2 ^ 31)) ≡ true = ground arith in rw e (rw t m)
  done_Keeps start ip lbn panic Q low h = h
  done_Keeps start ip lbn lock_error Q low h = h

  module _ (low : g.gcount * g.fpg + g.first_dblock ≤ 2 ^ 31) (ip : Inode)
      (home : ino_to_cg g ip.number < g.gcount)
      (blocks : g.bcount ≤ g.gcount * g.fpg + g.first_dblock) where
    -- `ext2_alloc`, entered with the mutex held on a consistent volume whose block numbers stay
    -- below 2^31 and on which every group has a cluster summary that agrees with its bitmap, with
    -- summaries of a length above 0, by an inode of one of its groups, on a volume of no more
    -- blocks than its groups have, with a first data block of 0 or 1 or with no preferred block,
    -- where other threads release the mutex and keep all this: it comes back without a panic and
    -- without a misuse of the mutex, on a volume where every group's summary and longest run still
    -- agree with its bitmap, whether it gives a block or not.
    pub alloc-IsSummed :
        (lbn bpref size uid : ℕ) (fs : Fs)
        → Near g bpref
        → IsReady g fs
        → IsSummed g fs
        → Keeps g (alloc g env ip lbn bpref size uid fs)
    unfolding alloc
    alloc-IsSummed lbn bpref size uid fs near ready m =
        elim (Bool-cases ((size == g.bsize) && (fs.fbcount == 0))) [
          | inl none_left ↦ rw none_left (nospace-Keeps ip fs m ready.held)
          | inr some_left ↦
              rw some_left (elim (Bool-cases (not (uid == 0) && ltb fs.fbcount g.rbcount)) [
                | inl reserved ↦ rw reserved (nospace-Keeps ip fs m ready.held)
                | inr allowed ↦ rw allowed (
                    done_Keeps fs ip lbn _ _ low (
                      hashalloc-Ends g.gcount (Near g) (inr refl) (Ready fs) Any (Got fs)
                        (alloccg g env) (alloccg-keeps fs) (start_group g ip bpref).0
                        (start_group g ip bpref).1 fs
                        (start_lt g s env fair boot fs low ip home blocks bpref)
                        (start_Near g ip bpref near) ((ready, here), m)))
              ])
        ]
