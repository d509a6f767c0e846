-- ===== src/Alloc/Node/Outcome.antt =====
-- What `ext2_nodealloccg` and `ext2_vfree` do to the inode bitmap, the counters and the lock.
use ext2fs.Base.{
  ℕ, ◌+◌, ◌-◌, ◌^◌, ◌≤◌, ◌<◌, ◌≡◌, ◌⊎◌, refl, ◌∙◌, ap, sym, subst, inl, inr, Bool, true, false,
  none, some, arith, ◌==◌, ==_iff, if◌then◌else◌, Bool-cases, Option-cases,
}
use ext2fs.Base.Bits.{
  isset, setbit, count_clear, count_clear-setbit, count_clear-le, setbit-IsMap, length-setbit,
}
use ext2fs.Geometry.{Geometry, IsSound, fsbtodb}
use ext2fs.Alloc.State.{
  Fs, update, inc16, Run, done, panic, lock_error, lock, unlock, Env, bread, bdwrite,
}
use ext2fs.Alloc.Scan.{find_node}
use ext2fs.Alloc.Scan.Found.{IsFree, find_node-IsFree, find_node-ne-none}
use ext2fs.Alloc.Node.{take_node, node_of, node_found, node_read, nodealloccg}
use ext2fs.Alloc.Node.Consistent.{
  HasInodes, IsNodes, Alone, i_addr, i_map, inodes_of-member, alone-IsNodes,
}

module _ (g : Geometry) where
  -- Inode `i` of group `cg`, free in `fs`, is taken in `fs'`.
  pub record TookNode (dir : Bool) (fs fs' : Fs) (cg i : ℕ) : Type 0 where
    pub place : i < g.ipg
    pub was_free : isset (i_map g fs cg) i ≡ false
    pub map : i_map g fs' cg ≡ setbit (i_map g fs cg) i
    pub group : (fs'.gd cg).nifree + 1 ≡ (fs.gd cg).nifree
    pub total : fs'.ficount + 1 ≡ fs.ficount
    pub dirs : (fs'.gd cg).ndirs ≡ (if dir then inc16 (fs.gd cg).ndirs else (fs.gd cg).ndirs)
    pub alone : Alone g cg fs fs'
    pub blocks : fs'.fbcount ≡ fs.fbcount

  -- How the call ends that read the bitmap, or not if `fails`, in `fs`: with 0, the lock taken and
  -- nothing else changed, because the read failed or the group is full, or with an inode of the
  -- group, the lock released.
  abbrev pub NodeOutcome : Bool → Bool → Fs → ℕ → Run ℕ → Type 0
  NodeOutcome dir fails fs cg (done r fs') =
      IsNodes g fs'
      × (((r ≡ 0)
            × (fs' ≡ record fs { locked = true })
            × ((fails ≡ true) ⊎ ((fs.gd cg).nifree ≡ 0)))
          ⊎ ((i : ℕ) × (r ≡ node_of g cg i) × (fs'.locked ≡ false) × TookNode dir fs fs' cg i))
  NodeOutcome dir fails fs cg panic = ⊥
  NodeOutcome dir fails fs cg lock_error = ⊥

  -- The mutex is no part of the agreement.
  pub locked-IsNodes : (fs : Fs) (b : Bool) → IsNodes g fs → IsNodes g (record fs { locked = b })
  locked-IsNodes fs b v = record {
    groups =
        λ a l. let x = v.groups a l in record { bytes = x.bytes; room = x.room; count = x.count };
    total = v.total;
    small = v.small;
    apart = v.apart;
  }

  module _ (s : IsSound g) (dir : Bool) (cg : ℕ) (c : cg < g.gcount) (fs : Fs) (v : IsNodes g fs)
      (l : fs.locked ≡ false) where
    abbrev here : HasInodes g fs cg
    here = v.groups cg c

    module _ (i : ℕ) (f : IsFree g.ipg (i_map g fs cg) i) where
      one_less : count_clear (setbit (i_map g fs cg) i) g.ipg + 1 ≡ (fs.gd cg).nifree
      one_less =
          count_clear-setbit (i_map g fs cg) i here.bytes (omega (arith, f.0, here.room)) g.ipg f.0
            f.1
          ∙ sym here.count

      counters :
          (0 < (fs.gd cg).nifree) × ((fs.gd cg).nifree < 2 ^ 16) × ((fs.gd cg).nifree ≤ fs.ficount)
      counters = omega (
        arith,
        one_less,
        here.count,
        count_clear-le (i_map g fs cg) g.ipg,
        s.ipg_small,
        v.total,
        inodes_of-member fs.gd g.gcount cg c,
      )

      took-IsNodes : (fs' : Fs) → TookNode dir fs fs' cg i → IsNodes g fs'
      took-IsNodes fs' t =
          alone-IsNodes g cg fs fs' c v t.alone
            (record {
              bytes = rw t.map (setbit-IsMap (i_map g fs cg) i here.bytes);
              room = rw t.map (rw length-setbit here.room);
              count = rw t.map (omega (arith, one_less, t.group));
            })
            (omega (arith, t.group, t.total)) (omega (arith, t.total, v.small))

      abbrev final : Fs
      final = record (take_node cg dir fs) {
        locked = false;
        disk = update fs.disk (i_addr g fs cg) (setbit (i_map g fs cg) i);
      }

      ran :
          node_found g cg dir (i_addr g fs cg) (i_map g fs cg) (some i) fs
          ≡ done (node_of g cg i) final
      unfolding node_found lock unlock bdwrite
      ran = simp l

      took : TookNode dir fs final cg i
      unfolding take_node
      took = record {
        place = f.0;
        was_free = f.1;
        map = ground arith;
        group = ground (arith, counters);
        total = omega (arith, counters, v.small);
        dirs = ground arith;
        alone = record {
          others = λ a ne. ground arith;
          place = ground arith;
          disk = λ blk ne. ground arith;
        };
        blocks = refl;
      }

      found_node :
          NodeOutcome dir false fs cg
            (node_found g cg dir (i_addr g fs cg) (i_map g fs cg) (some i) fs)
      found_node =
          subst (NodeOutcome dir false fs cg) (sym ran)
            (took-IsNodes final took, inr (i, refl, refl, took))

    read_node :
        (ipref : ℕ) (fails : Bool)
        → NodeOutcome dir fails fs cg (
            node_read g cg ipref dir
              (i_addr g fs cg)
              (if fails then none else some (i_map g fs cg))
              fs)
    unfolding node_read lock
    read_node ipref true = rw l (locked-IsNodes fs true v, inl (refl, refl, inl refl))
    read_node ipref false = elim (Bool-cases ((fs.gd cg).nifree == 0)) [
      | inl z ↦ rw (z, l) (locked-IsNodes fs true v, inl (refl, refl, inr ((==_iff _ _).0 z)))
      | inr nz ↦ rw nz (elim (Option-cases (find_node g.ipg (i_map g fs cg) ipref)) [
        | inl none_left ↦ absurd (
            find_node-ne-none g.ipg s.ipg_bytes s.ipg_pos (i_map g fs cg) here.bytes ipref
              (ground (arith, here.count)) none_left)
        | inr (i, found) ↦ rw found (
            found_node i (
              find_node-IsFree g.ipg s.ipg_bytes s.ipg_pos (i_map g fs cg) here.bytes ipref i
                found))
      ])
    ]

  -- What other threads keep while this one waits: the place of the inode bitmaps, the lock free, and
  -- the agreement of bitmaps and counters.
  pub record IsFairNodes (env : Env) : Type 0 where
    pub layout : (fs : Fs) (cg : ℕ) → ((env.others fs).gd cg).i_bitmap ≡ (fs.gd cg).i_bitmap
    pub unlocks : (fs : Fs) → (env.others fs).locked ≡ false
    pub keeps : (fs : Fs) → IsNodes g fs → IsNodes g (env.others fs)

  pub nodealloccg_Outcome :
      (s : IsSound g) (env : Env) (cg ipref : ℕ) (dir : Bool) (fs : Fs)
      → cg < g.gcount
      → IsFairNodes env
      → IsNodes g fs
      → fs.locked ≡ true
      → ((nodealloccg g env dir cg ipref fs ≡ done 0 fs) × ((fs.gd cg).nifree ≡ 0))
        ⊎ NodeOutcome dir
            (env.read_fails (i_addr g (env.others (record fs { locked = false })) cg))
            (env.others (record fs { locked = false }))
            cg
            (nodealloccg g env dir cg ipref fs)
  unfolding nodealloccg unlock bread
  nodealloccg_Outcome s env cg ipref dir fs c fair v held =
      let later = env.others (record fs { locked = false }) in
      let addr : i_addr g later cg ≡ i_addr g fs cg =
        ap (fsbtodb g) (fair.layout (record fs { locked = false }) cg) in
      elim (Bool-cases ((fs.gd cg).nifree == 0)) [
        | inl z ↦ inl (rw z refl, (==_iff _ _).0 z)
        | inr nz ↦ inr (
            rw (nz, held)
              (rw (← addr) (
                read_node s dir cg c later (fair.keeps _ (locked-IsNodes fs false v))
                  (fair.unlocks _) (ipref - 1) (env.read_fails (i_addr g later cg)))))
      ]
