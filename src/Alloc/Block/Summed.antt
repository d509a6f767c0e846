-- ===== src/Alloc/Block/Summed.antt =====
-- The cluster summaries of a volume, kept by `ext2_alloccg` and `ext2_blkfree`.
use ext2fs.Base.{
  ℕ, ◌^◌, ◌<◌, ◌≡◌, ◌≢◌, ap, inl, inr, Bool, true, false, none, some, List, arith, ◌==◌,
  if◌then◌else◌, Bool-cases, eq-cases, Option-cases,
}
use ext2fs.Base.Bits.{isset, isclr}
use ext2fs.Geometry.{Geometry, IsSound, Near, fsbtodb}
use ext2fs.Alloc.State.{
  Fs, Csum, update, dec16, dec32, inc16, inc32, Run, done, panic, lock_error, lock, unlock, Env,
  bread, bdwrite,
}
use ext2fs.Alloc.Scan.{find_block}
use ext2fs.Alloc.Scan.Found.{IsFree, find_block-IsFree, find_block-ne-none}
use ext2fs.Alloc.Block.{
  take_step, give_step, block_of, alloc_found, alloc_read, alloccg, free_read, blkfree,
}
use ext2fs.Alloc.Block.Consistent.{b_addr, IsValid, disk_self, disk-other}
use ext2fs.Alloc.Block.Outcome.{IsFair, map_of}
use ext2fs.Alloc.Block.Free.{waited, reached, place}
use ext2fs.Alloc.Cluster.{clusteracct}
use ext2fs.Alloc.Cluster.Change.{flip, freed_by}
use ext2fs.Alloc.Cluster.Exact.{IsCounted, clusteracct-init, clusteracct-IsCounted}

module _ (g : Geometry) where
  -- Every group has a summary, which counts the runs of free blocks of its bitmap.
  pub record IsSummed (fs : Fs) : Type 0 where
    pub started : (cg : ℕ) → cg < g.gcount → (fs.clustersum cg).init ≡ true
    pub counted :
        (cg : ℕ) → cg < g.gcount → IsCounted g (map_of g fs cg) (fs.clustersum cg, fs.maxcluster cg)

  -- A call ends, and leaves such a volume.
  abbrev pub Keeps {ℓ} : {A : Type ℓ} → Run A → Type 0
  Keeps (done r fs) = IsSummed fs
  Keeps panic = ⊥
  Keeps lock_error = ⊥

  module _ (fs : Fs) (v : IsValid g fs) (s : IsSummed fs) (cg : ℕ) (c : cg < g.gcount) (bno : ℕ)
      (sized : 0 < g.contigsumsize) (lt : bno < g.fpg) where
    abbrev map : List ℕ
    map = map_of g fs cg

    -- The summary and the longest run after the bit of `bno` has changed.
    abbrev after : Csum × ℕ
    after =
        clusteracct g (flip bno map) bno (freed_by bno map) (fs.clustersum cg) (fs.maxcluster cg)

    after-IsCounted : IsCounted g (flip bno map) after
    unfolding IsCounted
    after-IsCounted =
        clusteracct-IsCounted g bno map (fs.clustersum cg) (fs.maxcluster cg) sized lt
          (v.groups cg c).bytes (omega (arith, lt, (v.groups cg c).room)) (s.started cg c)
          (s.counted cg c).0

    -- `fs` with the change of `bno` made in the group, its bitmap and its summary.
    abbrev stepped : ℕ → ℕ → Fs
    stepped n k = record fs {
      locked = false;
      fmod = true;
      fbcount = k;
      gd = update fs.gd cg (record (fs.gd cg) { nbfree = n });
      clustersum = update fs.clustersum cg after.0;
      maxcluster = update fs.maxcluster cg after.1;
      disk = update fs.disk (b_addr g fs.gd cg) (flip bno map);
    }

    stepped-IsSummed : (n k : ℕ) → IsSummed (stepped n k)
    stepped-IsSummed n k = record {
      started = λ a la. elim (eq-cases a cg) [
        | inl e ↦ rw (same a e) (clusteracct-init g _ bno _ (fs.clustersum cg) _ (s.started cg c))
        | inr ne ↦ rw (other a ne) (s.started a la)
      ];
      counted = λ a la. elim (eq-cases a cg) [
        | inl e ↦ rw (disk_self g v cg c (flip bno map) n k a e, same a e) after-IsCounted
        | inr ne ↦ rw (disk-other g v cg c (flip bno map) n k a la ne, other a ne) (s.counted a la)
      ];
    }
      where
        same : (a : ℕ) → a ≡ cg → (a == cg) ≡ true
        same a e = ground arith

        other : (a : ℕ) → a ≢ cg → (a == cg) ≡ false
        other a ne = ground (arith, ne)

  module _ (sized : 0 < g.contigsumsize) (s : IsSound g) (cg : ℕ) (c : cg < g.gcount) where
    found_Keeps :
        (fs : Fs) (bno : ℕ)
        → IsValid g fs
        → IsSummed fs
        → fs.locked ≡ false
        → IsFree g.fpg (map_of g fs cg) bno
        → Keeps (alloc_found g cg (b_addr g fs.gd cg) (map_of g fs cg) (some bno) fs)
    unfolding alloc_found take_step lock unlock bdwrite
    found_Keeps fs bno v m l f = rw l (
        rw f.1 at
          (stepped-IsSummed fs v m cg c bno sized f.0 (dec16 (fs.gd cg).nbfree) (dec32 fs.fbcount)))

    locked_Keeps : (fs : Fs) → IsSummed fs → IsSummed (record fs { locked = true })
    locked_Keeps fs m = record { started = m.started; counted = m.counted }

    read_Keeps :
        (fs : Fs) (bpref : ℕ) (fails : Bool)
        → Near g bpref
        → IsValid g fs
        → IsSummed fs
        → fs.locked ≡ false
        → Keeps (
            alloc_read g cg bpref
              (b_addr g fs.gd cg)
              (if fails then none else some (map_of g fs cg))
              fs)
    unfolding alloc_read lock
    read_Keeps fs bpref true near v m l = rw l (locked_Keeps fs m)
    read_Keeps fs bpref false near v m l = elim (Bool-cases ((fs.gd cg).nbfree == 0)) [
      | inl z ↦ rw (z, l) (locked_Keeps fs m)
      | inr nz ↦ rw nz (elim (Option-cases (find_block g (map_of g fs cg) cg bpref)) [
        | inl none_left ↦ absurd (
            find_block-ne-none g s (map_of g fs cg) (v.groups cg c).bytes cg bpref near
              (ground (arith, (v.groups cg c).count)) none_left)
        | inr (bno, found) ↦ rw found (
            found_Keeps fs bno v m l (
              find_block-IsFree g s (map_of g fs cg) (v.groups cg c).bytes cg bpref bno near found))
      ])
    ]

    module _ (env : Env) (fair : IsFair g env)
        (sums : (fs : Fs) → IsValid g fs → IsSummed fs → IsSummed (env.others fs)) (fs : Fs)
        (v : IsValid g fs) (m : IsSummed fs) where
      pub alloccg-IsSummed :
          fs.locked ≡ true → (bpref : ℕ) → Near g bpref → Keeps (alloccg g env cg bpref fs)
      unfolding alloccg unlock bread
      alloccg-IsSummed held bpref near = elim (Bool-cases ((fs.gd cg).nbfree == 0)) [
        | inl z ↦ rw z m
        | inr nz ↦
            let fs1 = record fs { locked = false } in
            let m1 : IsSummed fs1 = record { started = m.started; counted = m.counted } in
            let w = env.others fs1 in
            let addr : b_addr g w.gd cg ≡ b_addr g fs.gd cg = ap (fsbtodb g) (fair.layout fs1 cg) in
            rw (nz, held)
              (rw (← addr) (
                read_Keeps w bpref (env.read_fails (b_addr g w.gd cg)) near (fair.keeps fs1 v)
                  (sums fs1 v m1) (fair.unlocks fs1)))
      ]

      module _ (bno : ℕ) (b : bno < g.fpg) (small : g.bcount < 2 ^ 32)
          (exists : block_of g cg bno < g.bcount) where
        abbrev read : Fs
        read = waited g s env fair fs v cg bno c b small exists

        -- `ext2_blkfree` of a block of a consistent volume of fewer than 2^32 blocks, with
        -- summaries of a length above 0, on which every group has a cluster summary that agrees
        -- with its bitmap, where other threads keep all this, the read of the bitmap succeeds and
        -- the block is in use after it: the call comes back on a volume where every group's
        -- summary and longest run still agree with its bitmap.
        pub blkfree-IsSummed :
            env.read_fails (b_addr g read.gd cg) ≡ false
            → isset (map_of g read cg) bno ≡ true
            → Keeps (blkfree g env (block_of g cg bno) fs)
        unfolding free_read isclr lock unlock bdwrite give_step
        blkfree-IsSummed ok used =
            let vw = fair.keeps fs v in
            let (to_group, to_bit) = place g s env fair fs v cg bno c b small exists in
            rw
              (
                reached g s env fair fs v cg bno c b small exists ok,
                to_bit,
                used,
                free_read,
                fair.unlocks fs,
              )
              (rw used at (
                stepped-IsSummed read vw (sums fs v m) cg c bno sized b (inc16 (read.gd cg).nbfree)
                  (inc32 read.fbcount)))
