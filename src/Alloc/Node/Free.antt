-- ===== src/Alloc/Node/Free.antt =====
-- What `ext2_vfree` does, and that it undoes `ext2_nodealloccg`.
use native.Mathlib.Nat.{mul_comm}
use ext2fs.Base.{
  ℕ, ◌+◌, ◌-◌, ◌*◌, ◌%◌, ◌^◌, ◌≤◌, ◌<◌, ◌≡◌, refl, ◌∙◌, ap, sym, Bool, true, false, some, arith,
  ltb, length, if◌then◌else◌,
}
use ext2fs.Base.Bits.{
  isset, isclr, count_clear, clrbit, clrbit-setbit, clrbit-IsMap, length-clrbit, isset-setbit,
  count_clear-le, count_clear-clrbit,
}
use ext2fs.Geometry.{Geometry, IsSound, fsbtodb, ino_to_cg}
use ext2fs.Geometry.Laws.{div_lem, mod_lem}
use ext2fs.Alloc.State.{Fs, update, dec16, done, lock, unlock, Env, bread, bdwrite}
use ext2fs.Alloc.Node.{give_node, node_of, vfree_read, vfree}
use ext2fs.Alloc.Node.Consistent.{
  HasInodes, IsNodes, Alone, i_addr, i_map, inodes_of-lt, alone-IsNodes,
}
use ext2fs.Alloc.Node.Outcome.{TookNode, IsFairNodes}

module _ (g : Geometry) where
  -- Inode `i` of group `cg`, in use in `fs`, is free in `fs'`.
  pub record GaveNode (dir : Bool) (fs fs' : Fs) (cg i : ℕ) : Type 0 where
    pub was_used : isset (i_map g fs cg) i ≡ true
    pub map : i_map g fs' cg ≡ clrbit (i_map g fs cg) i
    pub group : (fs'.gd cg).nifree ≡ (fs.gd cg).nifree + 1
    pub total : fs'.ficount ≡ fs.ficount + 1
    pub dirs : (fs'.gd cg).ndirs ≡ (if dir then dec16 (fs.gd cg).ndirs else (fs.gd cg).ndirs)
    pub alone : Alone g cg fs fs'

module _ (g : Geometry) (s : IsSound g) (cg i : ℕ) (c : cg < g.gcount) (b : i < g.ipg) where
  -- The end of the group, and no 32-bit sum of an inode's number wraps.
  bounds : (cg * g.ipg + g.ipg ≤ g.gcount * g.ipg) × (g.gcount * g.ipg < 2 ^ 32)
  bounds = grind (arith, s.inodes_fit)

  pub node_of-eq : node_of g cg i ≡ cg * g.ipg + i + 1
  unfolding node_of
  node_of-eq = omega (arith, bounds.0, bounds.1, b)

  less_one : (node_of g cg i + 2 ^ 64 - 1) % 2 ^ 64 ≡ cg * g.ipg + i
  less_one = omega (arith, node_of-eq, bounds.0, bounds.1, b)

  place : (ino_to_cg g (node_of g cg i) ≡ cg) × ((node_of g cg i + 2 ^ 64 - 1) % 2 ^ 64 % g.ipg ≡ i)
  unfolding ino_to_cg
  place = rw less_one (div_lem cg g.ipg i b, mod_lem cg g.ipg i b)

  in_range : ltb (g.ipg * g.gcount % 2 ^ 32) (node_of g cg i % 2 ^ 32) ≡ false
  in_range = ground (arith, node_of-eq, bounds.0, bounds.1, b, mul_comm g.ipg g.gcount)

  module _ (env : Env) (fair : IsFairNodes g env) (ronly dir : Bool) (fs : Fs)
      (v : IsNodes g fs) where
    -- The state when the buffer of the bitmap has been read.
    abbrev pub waited : Fs
    waited = env.others fs

    addr : i_addr g fs cg ≡ i_addr g waited cg
    addr = ap (fsbtodb g) (sym (fair.layout fs cg))

    reached :
        env.read_fails (i_addr g waited cg) ≡ false
        → vfree g env ronly (node_of g cg i) dir fs
          ≡ vfree_read g env ronly cg i dir (i_addr g waited cg) (some (i_map g waited cg)) waited
    unfolding vfree bread
    reached ok = rw (in_range, place.0, place.1, addr, ok)

    -- A bitmap that cannot be read keeps the inode.
    pub vfree_unread :
        env.read_fails (i_addr g waited cg) ≡ true
        → vfree g env ronly (node_of g cg i) dir fs ≡ done 0 waited
    unfolding vfree vfree_read bread
    vfree_unread fails = rw (in_range, place.0, place.1, addr, fails) refl

    module _ (used : isset (i_map g waited cg) i ≡ true) where
      abbrev vw : IsNodes g waited
      vw = fair.keeps fs v

      abbrev here : HasInodes g waited cg
      here = vw.groups cg c

      one_more : count_clear (clrbit (i_map g waited cg) i) g.ipg ≡ (waited.gd cg).nifree + 1
      one_more =
          count_clear-clrbit (i_map g waited cg) i here.bytes (omega (arith, here.room, b)) g.ipg b
            used
          ∙ ap (λ n. n + 1) (sym here.count)

      below : (waited.gd cg).nifree < g.ipg
      below = omega (arith, one_more, count_clear-le (clrbit (i_map g waited cg) i) g.ipg)

      total_room : waited.ficount < g.gcount * g.ipg
      total_room = rw vw.total (
          inodes_of-lt waited.gd g.ipg g.gcount cg
            (λ a l. omega (arith, (vw.groups a l).count, count_clear-le (i_map g waited a) g.ipg)) c
            below)

      abbrev given : Fs
      given = record (give_node cg dir waited) {
        locked = false;
        disk = update waited.disk (i_addr g waited cg) (clrbit (i_map g waited cg) i);
      }

      gave : GaveNode g dir waited given cg i
      unfolding give_node
      gave = record {
        was_used = used;
        map = ground arith;
        group = ground (arith, below, s.ipg_small);
        total = omega (arith, total_room, s.inodes_fit);
        dirs = ground arith;
        alone = record {
          others = λ a ne. ground arith;
          place = ground arith;
          disk = λ blk ne. ground arith;
        };
      }

      gave-IsNodes : (fs' : Fs) → GaveNode g dir waited fs' cg i → IsNodes g fs'
      gave-IsNodes fs' t =
          alone-IsNodes g cg waited fs' c vw t.alone
            (record {
              bytes = rw t.map (clrbit-IsMap (i_map g waited cg) i here.bytes);
              room = rw t.map (rw length-clrbit here.room);
              count = rw t.map (omega (arith, one_more, t.group));
            })
            (omega (arith, t.group, t.total)) (omega (arith, t.total, total_room, s.inodes_fit))

      pub vfree-Gave :
          env.read_fails (i_addr g waited cg) ≡ false
          → (fs' : Fs) × (vfree g env ronly (node_of g cg i) dir fs ≡ done 0 fs')
            × IsNodes g fs'
            × (fs'.locked ≡ false)
            × GaveNode g dir waited fs' cg i
      unfolding vfree_read isclr lock unlock bdwrite give_node
      vfree-Gave ok =
          (given, reached ok ∙ rw (used, fair.unlocks fs) refl, gave-IsNodes given gave, refl, gave)

-- An inode that is taken and then freed, with no other thread between.
module _ (g : Geometry) (s : IsSound g) (env : Env) (fair : IsFairNodes g env) (ronly dir : Bool)
    (fs fs' : Fs) (v : IsNodes g fs) (v' : IsNodes g fs') (cg i : ℕ) (c : cg < g.gcount) where
  -- An inode that was taken where the inode bitmaps and the counts agree and is then freed by
  -- `ext2_vfree`, as a directory or as a file both times, with no other thread between, a read
  -- that succeeds, and a count of directories of 16 bits: the call ends with 0 where they agree
  -- again, and with the group's inode bitmap, its counts of free inodes and of directories and the
  -- superblock's count of free inodes as they were before the inode was taken.
  pub vfree-nodealloccg :
      TookNode g dir fs fs' cg i
      → (fs.gd cg).ndirs < 2 ^ 16
      → env.others fs' ≡ fs'
      → env.read_fails (i_addr g fs' cg) ≡ false
      → (fs'' : Fs) × (vfree g env ronly (node_of g cg i) dir fs' ≡ done 0 fs'')
        × IsNodes g fs''
        × (i_map g fs'' cg ≡ i_map g fs cg)
        × ((fs''.gd cg).nifree ≡ (fs.gd cg).nifree)
        × ((fs''.gd cg).ndirs ≡ (fs.gd cg).ndirs)
        × (fs''.ficount ≡ fs.ficount)
  vfree-nodealloccg took short quiet ok =
      let bound : i < 8 * length (i_map g fs cg) =
        omega (arith, took.place, (v.groups cg c).room) in
      let used : isset (i_map g (env.others fs') cg) i ≡ true =
        rw (quiet, took.map)
          (isset-setbit (i_map g fs cg) i i (v.groups cg c).bytes bound ∙ ground arith) in
      let (fs'', e, valid, free, gave) =
        vfree-Gave g s cg i c took.place env fair ronly dir fs' v' used (rw quiet ok) in
      let back = clrbit-setbit (i_map g fs cg) i (v.groups cg c).bytes bound took.was_free in
      (
        fs'',
        e,
        valid,
        gave.map ∙ ap (λ x. clrbit (i_map g x cg) i) quiet ∙ ap (λ m. clrbit m i) took.map ∙ back,
        gave.group ∙ ap (λ (x : Fs). (x.gd cg).nifree + 1) quiet ∙ took.group,
        gave.dirs ∙ rw quiet (ground (arith, took.dirs, short)),
        gave.total ∙ ap (λ (x : Fs). x.ficount + 1) quiet ∙ took.total,
      )
