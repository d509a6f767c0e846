-- ===== src/Alloc/Valloc/Served.antt =====
-- `ext2_valloc` on a consistent volume: an inode of its own for every success, and the mutex released.
use ext2fs.Base.{
  ℕ, zero, suc, ◌+◌, ◌*◌, ◌%◌, ◌^◌, ◌≤◌, ◌<◌, ◌≡◌, ◌≢◌, ◌⊎◌, refl, ◌∙◌, ap, subst, sym, inl, inr,
  Bool, true, false, Option, none, some, arith, ◌==◌, ==_iff, if◌then◌else◌, Bool-cases,
}
use ext2fs.Base.Bits.{isset, isset-setbit, isset-clrbit}
use ext2fs.Geometry.{Geometry, IsSound, ino_to_cg}
use ext2fs.Alloc.State.{Group, Fs, Run, done, panic, lock_error, Cmd, and_then, lock, unlock, Env}
use ext2fs.Alloc.Since.{Since, here, waited, failed}
use ext2fs.Alloc.Hash.Every.{Ends, IsAllocator, hashalloc-Ends, weaken}
use ext2fs.Alloc.Node.{node_of, nodealloccg, vfree}
use ext2fs.Alloc.Node.Consistent.{IsNodes, i_addr, i_map, inodes_of}
use ext2fs.Alloc.Node.Outcome.{
  NodeOutcome, TookNode, IsFairNodes, locked-IsNodes, nodealloccg_Outcome,
}
use ext2fs.Alloc.Node.Free.{node_of-eq, vfree-Gave, vfree_unread}
use ext2fs.Alloc.Policy.{dirpref}
use ext2fs.Alloc.Policy.Chosen.{dirpref-lt}
use ext2fs.Alloc.Request.{Inode, enospc}
use ext2fs.Alloc.Valloc.{contig_step, cleared, no_inodes, valloc_done, valloc}
use ext2fs.InodeConv.{Incore}

inodes_of_none :
    (gd : ℕ → Group) (n : ℕ) → ((a : ℕ) → a < n → (gd a).nifree ≡ 0) → inodes_of gd n ≡ 0
inodes_of_none gd zero h = refl
inodes_of_none gd (suc n) h =
    omega (arith, inodes_of_none gd n (λ a l. h a (omega (arith, l))), h n (omega arith))

module _ (g : Geometry) where
  -- Other threads agree with the bitmaps while this one waits, and give back no inode.
  pub record IsKeeping (env : Env) : Type 0 where
    pub fair : IsFairNodes g env
    pub marks :
        (fs : Fs) (cg i : ℕ)
        → isset (i_map g fs cg) i ≡ true
        → isset (i_map g (env.others fs) cg) i ≡ true
    pub frees_none : (fs : Fs) (a : ℕ) → ((env.others fs).gd a).nifree ≤ (fs.gd a).nifree

  -- `ext2_vget_typed` comes back, leaves the mutex and the agreement alone, and gives back no inode.
  pub record IsGetter (vget : ℕ → Cmd (ℕ × Incore)) : Type 0 where
    pub got : ℕ → Fs → ℕ × Incore
    pub later : ℕ → Fs → Fs
    pub runs : (ino : ℕ) (fs : Fs) → vget ino fs ≡ done (got ino fs) (later ino fs)
    pub unlocks : (ino : ℕ) (fs : Fs) → fs.locked ≡ false → (later ino fs).locked ≡ false
    pub keeps : (ino : ℕ) (fs : Fs) → IsNodes g fs → IsNodes g (later ino fs)
    pub marks :
        (ino : ℕ) (fs : Fs) (cg i : ℕ)
        → isset (i_map g fs cg) i ≡ true
        → isset (i_map g (later ino fs) cg) i ≡ true

  abbrev NodeReady : Fs → Type 0
  NodeReady fs = IsNodes g fs × (fs.locked ≡ true)

  -- `r` is the number of an inode of the volume that was free in a state which the run has reached
  -- from `start`, where it was taken, and the mutex is free.
  pub record IsOurNode (env : Env) (start : Fs) (dir : Bool) (r : ℕ) (fs : Fs) : Type 0 where
    pub valid : IsNodes g fs
    pub free : fs.locked ≡ false
    pub cg : ℕ
    pub i : ℕ
    pub in_volume : cg < g.gcount
    pub in_group : i < g.ipg
    pub number : r ≡ node_of g cg i
    pub marked : isset (i_map g fs cg) i ≡ true
    pub before : Fs
    pub since : Since env start before
    pub taken : TookNode g dir before fs cg i

module _ (g : Geometry) (s : IsSound g) (env : Env) (keep : IsKeeping g env) (dir : Bool)
    (start : Fs) where
  -- A state of the run from `start`, in which an inode may be asked for.
  abbrev Reached : Fs → Type 0
  Reached fs = NodeReady g fs × Since env start fs

  abbrev Good : ℕ → Type 0
  Good pref = Unit

  -- Where reads succeed, a group that has failed has no free inode.
  abbrev Spent : ℕ → Fs → Type 0
  Spent cg fs = ((blk : ℕ) → env.read_fails blk ≡ false) → (fs.gd cg).nifree ≡ 0

  took_Ends :
      (before : Fs) (fails : Bool) (cg : ℕ) (r : Run ℕ)
      → cg < g.gcount
      → IsNodes g before
      → Since env start before
      → NodeOutcome g dir fails before cg r
      → Ends g.gcount Good tt Reached Spent
          (IsOurNode g env start dir)
          (λ fs'.
            (fs' ≡ record before { locked = true })
            × ((fails ≡ true) ⊎ ((before.gd cg).nifree ≡ 0)))
          r
  took_Ends before fails cg (done r fs) c v since (valid, inl (z, e, why)) =
      inl (
        z,
        ((valid, ap (λ x. x.locked) e), subst (Since env start) (sym e) (failed since)),
        (e, why),
      )
  took_Ends before fails cg (done r fs) c v since (valid, inr (i, e, free, took)) = inr (
    (λ z. omega (arith, e, z, node_of-eq g s cg i c took.place)),
    record {
      valid = valid;
      free = free;
      cg = cg;
      i = i;
      in_volume = c;
      in_group = took.place;
      number = e;
      marked = rw took.map (
          isset-setbit (i_map g before cg) i i (v.groups cg c).bytes
            (omega (arith, took.place, (v.groups cg c).room))
          ∙ ground arith);
      before = before;
      since = since;
      taken = took;
    },
  )
  took_Ends before fails cg panic c v since h = h
  took_Ends before fails cg lock_error c v since h = h

  nodealloccg-IsAllocator :
      IsAllocator g.gcount Good tt Reached Spent (IsOurNode g env start dir) (nodealloccg g env dir)
  nodealloccg-IsAllocator cg pref fs c good ((v, held), since) =
      let before = env.others (record fs { locked = false }) in
      elim (nodealloccg_Outcome g s env cg pref dir fs c keep.fair v held) [
        | inl (e, full) ↦ rw e (inl (refl, ((v, held), since), ((λ ok. full), λ a h. h)))
        | inr o ↦
            weaken g.gcount Good tt Reached Spent (IsOurNode g env start dir)
              (nodealloccg g env dir cg pref fs)
              (took_Ends before _ cg (nodealloccg g env dir cg pref fs) c
                (keep.fair.keeps _ (locked-IsNodes g fs false v)) (waited since) o)
              (λ fs' h. (
                (λ ok. rw h.0 (elim h.1 [
                  | inl fails ↦ cc (ok (i_addr g before cg), fails)
                  | inr full ↦ full
                ])),
                λ a e ok.
                    rw h.0 (omega (arith, keep.frees_none (record fs { locked = false }) a, e ok)),
              ))
      ]

  module _ (ronly : Bool) (vget : ℕ → Cmd (ℕ × Incore)) (getter : IsGetter g vget) where
    -- `ext2_vfree` of inode `i` of group `cg`, which is taken.
    back :
        (ino cg i : ℕ) (fs : Fs)
        → ino ≡ node_of g cg i
        → cg < g.gcount
        → i < g.ipg
        → IsNodes g fs
        → isset (i_map g fs cg) i ≡ true
        → (fs' : Fs) × (vfree g env ronly ino dir fs ≡ done 0 fs')
          × IsNodes g fs'
          × (fs'.locked ≡ false)
          × (((blk : ℕ) → env.read_fails blk ≡ false) → isset (i_map g fs' cg) i ≡ false)
    back ino cg i fs number in_volume in_group valid marked =
        let w = env.others fs in
        let used = keep.marks fs cg i marked in
        let vw = keep.fair.keeps fs valid in
        rw number (elim (Bool-cases (env.read_fails (i_addr g w cg))) [
          | inl fails ↦ (
            w,
            vfree_unread g s cg i in_volume in_group env keep.fair ronly dir fs valid fails,
            vw,
            keep.fair.unlocks fs,
            λ ok. cc (ok (i_addr g w cg), fails),
          )
          | inr reads ↦
              let (fs', e, valid', free, gave) =
                vfree-Gave g s cg i in_volume in_group env keep.fair ronly dir fs valid used
                  reads in
              let bytes = (vw.groups cg in_volume).bytes in
              let room = (vw.groups cg in_volume).room in
              (
                fs',
                e,
                valid',
                free,
                λ ok. rw gave.map (
                    isset-clrbit (i_map g w cg) i i bytes (omega (arith, in_group, room))
                    ∙ ground arith),
              )
        ])

    -- How the call ends: the mutex is free and the volume consistent; with no error there is a cleared
    -- inode that is the caller's, with ENOSPC there is none, and none is left where reads succeed; with
    -- an error of `ext2_vget_typed` the inode that was taken is free again where reads succeed. `taken`
    -- is the state in which `ext2_hashalloc` left the inode to `ext2_vget_typed`.
    abbrev pub VallocServed : ℕ → ℕ → ℕ → Run (ℕ × Option (ℕ × Incore)) → Type 0
    VallocServed r' sec nsec (done (error, out) fs) =
        IsNodes g fs
        × (fs.locked ≡ false)
        × (((ino : ℕ) × (taken : Fs) × (o : IsOurNode g env start dir ino taken) × (error ≡ 0)
              × (out ≡ some (ino, cleared (getter.got ino taken).1 r' sec nsec))
              × (fs ≡ getter.later ino taken)
              × (isset (i_map g fs o.cg) o.i ≡ true))
            ⊎ ((error ≡ enospc)
                × (out ≡ none)
                × (((blk : ℕ) → env.read_fails blk ≡ false) → fs.ficount ≡ 0))
            ⊎ ((ino : ℕ) × (taken : Fs) × (o : IsOurNode g env start dir ino taken) × (error
                  ≡ (getter.got ino taken).0)
                × (error ≢ 0)
                × (out ≡ none)
                × (vfree g env ronly ino dir (getter.later ino taken) ≡ done 0 fs)
                × (((blk : ℕ) → env.read_fails blk ≡ false) → isset (i_map g fs o.cg) o.i ≡ false)))
    VallocServed r' sec nsec panic = ⊥
    VallocServed r' sec nsec lock_error = ⊥

    no_inodes-Served :
        (r' sec nsec : ℕ) (fs : Fs)
        → NodeReady g fs
        → (((blk : ℕ) → env.read_fails blk ≡ false) → fs.ficount ≡ 0)
        → VallocServed r' sec nsec (no_inodes fs)
    unfolding no_inodes unlock
    no_inodes-Served r' sec nsec fs (v, held) why =
        rw held (locked-IsNodes g fs false v, refl, inr (inl (refl, refl, why)))

    done_Served :
        (r' sec nsec : ℕ) (r : Run ℕ)
        → Ends g.gcount Good tt Reached Spent
            (IsOurNode g env start dir)
            (λ fs'. (a : ℕ) → a < g.gcount → Spent a fs')
            r
        → VallocServed r' sec nsec (and_then r (valloc_done g ronly env vget dir r' sec nsec))
    unfolding valloc_done
    done_Served r' sec nsec (done r fs) (inl (z, (ready, since), full)) = rw z (
        no_inodes-Served r' sec nsec fs ready
          (λ ok. ready.0.total ∙ inodes_of_none fs.gd g.gcount (λ a l. full a l ok)))
    done_Served r' sec nsec (done r fs) (inr (nz, o)) =
        let some_inode : (r == 0) ≡ false = ground (arith, nz) in
        let valid = getter.keeps r fs o.valid in
        let free = getter.unlocks r fs o.free in
        let marked = getter.marks r fs o.cg o.i o.marked in
        rw (some_inode, getter.runs r fs)
          (elim (Bool-cases ((getter.got r fs).0 == 0)) [
            | inl z ↦ rw z (valid, free, inl (r, fs, o, refl, refl, refl, marked))
            | inr failure ↦
                let (fs', e, valid', free', clear) =
                  back r o.cg o.i (getter.later r fs) o.number o.in_volume o.in_group valid
                    marked in
                rw (failure, e)
                  (
                    valid',
                    free',
                    inr (inr (r, fs, o, refl, (λ z. ground (arith, z, failure)), refl, e, clear)),
                  )
          ])
    done_Served r' sec nsec panic h = h
    done_Served r' sec nsec lock_error h = h

    contig-NodeReady : (cg : ℕ) (fs : Fs) → NodeReady g fs → NodeReady g (contig_step cg dir fs)
    unfolding contig_step
    contig-NodeReady cg fs (v, held) = (
      record {
        groups = λ a l.
            let x = v.groups a l in record { bytes = x.bytes; room = x.room; count = x.count };
        total = v.total;
        small = v.small;
        apart = v.apart;
      },
      held,
    )

module _ (g : Geometry) (s : IsSound g) (env : Env) (keep : IsKeeping g env) (dir : Bool)
    (ronly : Bool) (vget : ℕ → Cmd (ℕ × Incore)) (getter : IsGetter g vget) (pip : Inode)
    (home : ino_to_cg g pip.number < g.gcount) where
  -- The group that `ext2_valloc` asks for, and the state in which it calls `ext2_hashalloc`.
  abbrev pub asked : Bool → ℕ → Fs → ℕ
  asked root r fs =
      if dir then dirpref g (record fs { locked = true }) pip root r else ino_to_cg g pip.number

  abbrev pub begun : Bool → ℕ → Fs → Fs
  begun root r fs = contig_step (asked root r fs) dir (record fs { locked = true })

  -- `ext2_valloc`, entered with the mutex free where the inode bitmaps and the counts agree, by a
  -- parent in one of the groups, where other threads keep that agreement, release the mutex and
  -- free no inode, and `ext2_vget_typed` comes back and does likewise: it neither panics nor
  -- misuses the mutex, releases it, keeps the agreement, and ends with error 0 and a cleared inode
  -- of the volume whose bit is set, or with ENOSPC and no inode, and then none is free if every
  -- read succeeds, or with the error of `ext2_vget_typed` and no inode, and then `ext2_vfree` of
  -- the inode was the last step and it is free again if every read succeeds. In the first and the
  -- last case the inode was taken, its bit set and the counts changed, in a state with the bit
  -- clear that the search has reached from its beginning through its waits for bitmaps, and
  -- `ext2_vget_typed` was called behind that.
  pub valloc-Served :
      (root : Bool) (r r' sec nsec : ℕ) (fs : Fs)
      → IsNodes g fs
      → fs.locked ≡ false
      → VallocServed g s env keep dir
          (begun root r fs)
          ronly
          vget
          getter
          r'
          sec
          nsec
          (valloc g ronly env vget pip dir root r r' sec nsec fs)
  unfolding valloc lock
  valloc-Served root r r' sec nsec fs v free =
      let held : Fs = record fs { locked = true } in
      let start = begun root r fs in
      let ready : NodeReady g held = (locked-IsNodes g fs true v, refl) in
      let cg = asked root r fs in
      let inside : cg < g.gcount = ground (arith, dirpref-lt g s held pip home root r, home) in
      rw free (elim (Bool-cases (fs.ficount == 0)) [
        | inl none_left ↦ rw none_left (
            no_inodes-Served g s env keep dir start ronly vget getter r' sec nsec held ready
              (λ ok. (==_iff _ _).0 none_left))
        | inr some_left ↦ rw some_left (
            done_Served g s env keep dir start ronly vget getter r' sec nsec _ (
              hashalloc-Ends g.gcount (λ pref. Unit) tt (Reached g s env keep dir start)
                (Spent g s env keep dir start) (IsOurNode g env start dir) (nodealloccg g env dir)
                (nodealloccg-IsAllocator g s env keep dir start) cg ((cg * g.ipg + 1) % 2 ^ 32)
                start inside tt
                (contig-NodeReady g s env keep dir start ronly vget getter cg held ready, here)))
      ])
