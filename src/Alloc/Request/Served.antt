-- ===== src/Alloc/Request/Served.antt =====
-- `ext2_alloc` on a consistent volume: a block of its own for every success, and the mutex released
-- on return.
use ext2fs.Base.{
  ℕ, ◌+◌, ◌-◌, ◌*◌, ◌%◌, ◌^◌, ◌≤◌, ◌<◌, ◌≡◌, ◌≢◌, ◌⊎◌, refl, sym, ap, subst, ◌∙◌, inl, inr, Bool,
  true, false, not, ◌&&◌, arith, ltb, leb, ◌==◌, Bool-cases,
}
use ext2fs.Base.Bits.{isset, isset-setbit}
use ext2fs.Geometry.{Geometry, IsSound, Near, dtog, ino_to_cg}
use ext2fs.Geometry.Laws.{div_lt, product_pos}
use ext2fs.Alloc.State.{Fs, Run, done, panic, lock_error, and_then, unlock, Env}
use ext2fs.Alloc.Since.{Since, here, waited, failed}
use ext2fs.Alloc.Block.{alloccg}
use ext2fs.Alloc.Block.Consistent.{IsValid}
use ext2fs.Alloc.Block.Outcome.{IsFair, map_of, Took, Outcome, alloccg-Outcome}
use ext2fs.Alloc.Block.Free.{block_of-eq}
use ext2fs.Alloc.Hash.Every.{Ends, IsAllocator, hashalloc-Ends, weaken}
use ext2fs.Alloc.Request.{Inode, enospc, charge, nospace, alloc_done, start_group, alloc}

module _ (g : Geometry) where
  -- No file can be given block 0: the data blocks start above it, or its bit is set.
  abbrev pub BootInUse : Fs → Type 0
  BootInUse fs = (0 < g.first_dblock) ⊎ (isset (map_of g fs 0) 0 ≡ true)

  -- A state in which a block may be asked for: consistent, with the mutex held.
  pub record IsReady (fs : Fs) : Type 0 where
    pub valid : IsValid g fs
    pub held : fs.locked ≡ true
    pub boot : BootInUse fs

  -- `r` is the number of a block of the volume that was free in a state which the run has reached from
  -- `start`, where its bit was set, and the mutex is free.
  pub record IsOurs (env : Env) (start : Fs) (r : ℕ) (fs : Fs) : Type 0 where
    pub valid : IsValid g fs
    pub free : fs.locked ≡ false
    pub cg : ℕ
    pub bno : ℕ
    pub in_volume : cg < g.gcount
    pub in_group : bno < g.fpg
    pub number : r ≡ cg * g.fpg + g.first_dblock + bno
    pub marked : isset (map_of g fs cg) bno ≡ true
    pub before : Fs
    pub since : Since env start before
    pub taken : Took g before fs cg bno

  -- A state of a run that began in `start`, in which a block may be asked for.
  abbrev pub Reached : Env → Fs → Fs → Type 0
  Reached env start fs = IsReady fs × Since env start fs

  pub start_Near : (ip : Inode) (bpref : ℕ) → Near g bpref → Near g (start_group g ip bpref).1
  unfolding start_group
  start_Near ip bpref near = elim (Bool-cases (leb g.bcount bpref)) [
    | inl out ↦ rw out (inr refl)
    | inr within ↦ rw within near
  ]

module _ (g : Geometry) (s : IsSound g) (env : Env) (fair : IsFair g env)
    (boot : (fs : Fs) → BootInUse g fs → BootInUse g (env.others fs)) (start : Fs) where
  abbrev Any : ℕ → Fs → Type 0
  Any cg fs = Unit

  not_boot :
      (before : Fs) (cg bno r : ℕ)
      → IsValid g before
      → BootInUse g before
      → isset (map_of g before cg) bno ≡ false
      → r ≡ cg * g.fpg + g.first_dblock + bno
      → r ≢ 0
  not_boot before cg bno r v (inl p) free e z = absurd (omega arith)
  not_boot before cg bno r v (inr set) free e z =
      let c0 : cg ≡ 0 = grind (arith, s.fpg_pos) in
      let b0 : bno ≡ 0 = omega arith in cc (set, free, c0, b0)

  -- `Spent` is any record of the groups that have failed.
  pub Outcome-Ends :
      (Spent : ℕ → Fs → Type 0) (fails : Bool) (before : Fs) (cg : ℕ) (r : Run ℕ)
      → cg < g.gcount
      → IsValid g before
      → BootInUse g before
      → Since env start before
      → Outcome g fails before cg r
      → Ends g.gcount
          (Near g)
          (inr refl)
          (Reached g env start)
          Spent
          (IsOurs g env start)
          (λ fs'.
            (fs' ≡ record before { locked = true })
            × ((fails ≡ true) ⊎ ((before.gd cg).nbfree ≡ 0)))
          r
  Outcome-Ends Spent fails before cg (done r fs) c v b since (valid, inl (z, e, why)) = inl (
    z,
    (
      record { valid = valid; held = ap (λ x. x.locked) e; boot = subst (BootInUse g) (sym e) b },
      subst (Since env start) (sym e) (failed since),
    ),
    (e, why),
  )
  Outcome-Ends Spent fails before cg (done r fs) c v b since (valid, inr (bno, e, free, took)) =
      let number = e ∙ block_of-eq g s cg bno c took.place in
      inr (
        not_boot before cg bno r v b took.was_free number,
        record {
          valid = valid;
          free = free;
          cg = cg;
          bno = bno;
          in_volume = c;
          in_group = took.place;
          number = number;
          marked = rw took.map (
              isset-setbit (map_of g before cg) bno bno (v.groups cg c).bytes
                (omega (arith, took.place, (v.groups cg c).room))
              ∙ ground arith);
          before = before;
          since = since;
          taken = took;
        },
      )
  Outcome-Ends Spent fails before cg panic c v b since h = h
  Outcome-Ends Spent fails before cg lock_error c v b since h = h

  -- `ext2_alloccg` meets the contract that `ext2_hashalloc` asks of an allocator.
  pub alloccg-IsAllocator :
      IsAllocator g.gcount
        (Near g)
        (inr refl)
        (Reached g env start)
        Any
        (IsOurs g env start)
        (alloccg g env)
  alloccg-IsAllocator cg pref fs c near (ready, since) =
      elim (alloccg-Outcome g s cg c env fair fs ready.valid ready.held pref near) [
        | inl (e, full) ↦ rw e (inl (refl, (ready, since), (tt, λ a u. tt)))
        | inr o ↦
            weaken g.gcount (Near g) (inr refl) (Reached g env start) Any (IsOurs g env start)
              (alloccg g env cg pref fs)
              (Outcome-Ends Any _ (env.others (record fs { locked = false })) cg
                (alloccg g env cg pref fs) c (fair.keeps _ ready.valid) (boot _ ready.boot)
                (waited since) o)
              (λ fs' h. (tt, λ a u. tt))
      ]

  -- How a request ends: the mutex is free and the volume consistent; with no error there is a block
  -- that is the file's, with ENOSPC there is none and the inode is as it was.
  abbrev pub Served : Inode → ℕ → Run (ℕ × ℕ × Inode) → Type 0
  Served ip lbn (done (error, bno, ip') fs) =
      (fs.locked ≡ false)
      × IsValid g fs
      × (((error ≡ 0) × (ip' ≡ charge g ip lbn bno) × IsOurs g env start bno fs)
          ⊎ ((error ≡ enospc) × (bno ≡ 0) × (ip' ≡ ip)))
  Served ip lbn panic = ⊥
  Served ip lbn lock_error = ⊥

  nospace-Served :
      (ip : Inode) (lbn : ℕ) (fs : Fs)
      → IsValid g fs
      → fs.locked ≡ true
      → Served ip lbn (nospace g ip fs)
  unfolding nospace unlock
  nospace-Served ip lbn fs v held = rw held (refl, v, inr (refl, refl, refl))

  module _ (low : g.gcount * g.fpg + g.first_dblock ≤ 2 ^ 31) where
    pub ours_low : (r : ℕ) (fs : Fs) → IsOurs g env start r fs → r < 2 ^ 31
    ours_low r fs o = grind (arith, o.number, o.in_volume, o.in_group, low)

    done_Served :
        (ip : Inode) (lbn : ℕ) (r : Run ℕ) (Q : Fs → Type 0)
        → Ends g.gcount (Near g) (inr refl) (Reached g env start) Any (IsOurs g env start) Q r
        → Served ip lbn (and_then r (alloc_done g ip lbn))
    unfolding alloc_done
    done_Served ip lbn (done r fs) Q (inl (z, (ready, since), q)) =
        rw z (nospace-Served ip lbn fs ready.valid ready.held)
    done_Served ip lbn (done r fs) Q (inr (nz, ours)) =
        let lo = ours_low r fs ours in
        let e : r % 2 ^ 32 ≡ r = omega arith in
        let t : (ltb 0 r && ltb r (2 ^ 31)) ≡ true = ground arith in
        rw e (rw t (ours.free, ours.valid, inl (refl, refl, ours)))
    done_Served ip lbn panic Q h = h
    done_Served ip lbn lock_error Q h = h

    module _ (ip : Inode) (home : ino_to_cg g ip.number < g.gcount)
        (blocks : g.bcount ≤ g.gcount * g.fpg + g.first_dblock) where
      pub start_lt : (bpref : ℕ) → (start_group g ip bpref).0 < g.gcount
      unfolding start_group dtog
      start_lt bpref = elim (Bool-cases (leb g.bcount bpref)) [
        | inl out ↦ rw out home
        | inr within ↦ rw within (elim (Bool-cases (bpref == 0)) [
          | inl z ↦ rw z home
          | inr nz ↦ rw nz (
              rw (← s.same_group_size) (
                div_lt (bpref - g.first_dblock) g.gcount g.fpg
                  (ground (arith, product_pos g.gcount g.fpg s.gcount_pos s.fpg_pos))))
        ])
      ]

module _ (g : Geometry) (s : IsSound g) (env : Env) (fair : IsFair g env)
    (boot : (fs : Fs) → BootInUse g fs → BootInUse g (env.others fs))
    (low : g.gcount * g.fpg + g.first_dblock ≤ 2 ^ 31) (ip : Inode)
    (home : ino_to_cg g ip.number < g.gcount)
    (blocks : g.bcount ≤ g.gcount * g.fpg + g.first_dblock) where
  -- `ext2_alloc`, entered with the mutex held on a consistent volume whose block numbers stay
  -- below 2^31, by an inode of one of its groups, on a volume of no more blocks than its groups
  -- have, with a first data block of 0 or 1 or with no preferred block, where other threads
  -- release the mutex and keep the volume consistent: it never panics, never misuses the mutex,
  -- releases it, leaves the volume consistent, and ends either with error 0, the inode charged for
  -- a block of the volume, and that block's bit set and both free counts one less since a state
  -- with the bit clear that the run has reached from its beginning through its waits for bitmaps,
  -- or with ENOSPC, block 0 and the inode as it was.
  pub alloc-Served :
      (lbn bpref size uid : ℕ) (fs : Fs)
      → Near g bpref
      → IsReady g fs
      → Served g s env fair boot fs ip lbn (alloc g env ip lbn bpref size uid fs)
  unfolding alloc
  alloc-Served lbn bpref size uid fs near ready =
      let refuse = nospace-Served g s env fair boot fs ip lbn fs ready.valid ready.held in
      elim (Bool-cases ((size == g.bsize) && (fs.fbcount == 0))) [
        | inl none_left ↦ rw none_left refuse
        | inr some_left ↦
            rw some_left (elim (Bool-cases (not (uid == 0) && ltb fs.fbcount g.rbcount)) [
              | inl reserved ↦ rw reserved refuse
              | inr allowed ↦ rw allowed (
                  done_Served g s env fair boot fs low ip lbn _ _ (
                    hashalloc-Ends g.gcount (Near g) (inr refl) (Reached g env fs) (λ cg fs'. Unit)
                      (IsOurs g env fs) (alloccg g env) (alloccg-IsAllocator g s env fair boot fs)
                      (start_group g ip bpref).0 (start_group g ip bpref).1 fs
                      (start_lt g s env fair boot fs low ip home blocks bpref)
                      (start_Near g ip bpref near) (ready, here)))
            ])
      ]
