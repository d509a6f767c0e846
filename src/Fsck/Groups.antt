-- ===== src/Fsck/Groups.antt =====
-- What the loop of `pass5` over the groups comes to.
use native.Mathlib.Nat.{mul-le-mul_right}
use ext2fs.Base.{
  ℕ, zero, suc, ◌+◌, ◌-◌, ◌/◌, ◌%◌, ◌^◌, ◌≤◌, ◌<◌, ◌≡◌, ◌≢◌, inl, inr, refl, sym, ◌∙◌, subst, some,
  arith, eq-cases,
}
use ext2fs.Geometry.{Geometry}
use ext2fs.Alloc.Block.Consistent.{free_of}
use ext2fs.Fsck.{Image, Sums, Found, Tally, inode_bits, block_bits, pad, settle, groups}
use ext2fs.Fsck.Settled.{Settled, settle-Settled}
use ext2fs.Fsck.Tallies.{clears-le, block_used, inode_used, length-pad, pad-IsMap, isset-pad}
use ext2fs.Alloc.Node.Consistent.{inodes_of, inodes_of-ext, inodes_of-le}
use ext2fs.Fsck.Totals.{free_of-ext, free_of-le}
use ext2fs.Fsck.Rebuilt.{Ready, Rebuilt, Exact, Done, b_at, i_at, Tallied, tally}

module _ (g : Geometry) (f : Found) (v : Image) (r : Ready g f v) where
  -- A group stays as it is when another one is settled.
  others_kept :
      (a c : ℕ) (b i : Tally) (w w' : Image)
      → a < g.gcount
      → c < g.gcount
      → a ≢ c
      → (w.gd c).b_bitmap ≡ (v.gd c).b_bitmap
      → (w.gd c).i_bitmap ≡ (v.gd c).i_bitmap
      → Settled g f r.yes_to c b i w w'
      → (w'.gd a ≡ w.gd a)
        × (w'.disk (b_at g f v a) ≡ w.disk (b_at g f v a))
        × (w'.disk (i_at g f v a) ≡ w.disk (i_at g f v a))
  others_kept a c b i w w' h k ne e e' s = (
    s.others a ne,
    s.disk (b_at g f v a) (rw e (r.blocks_apart a c h k ne)) (rw e' (r.kinds_apart a c h k)),
    s.disk (i_at g f v a) (rw e (λ q. r.kinds_apart c a k h (sym q)))
        (rw e' (r.inodes_apart a c h k ne)),
  )

  kept-Rebuilt :
      (a : ℕ) (w w' : Image)
      → w'.gd a ≡ w.gd a
      → w'.disk (b_at g f v a) ≡ w.disk (b_at g f v a)
      → w'.disk (i_at g f v a) ≡ w.disk (i_at g f v a)
      → Rebuilt g f v a w
      → Rebuilt g f v a w'
  kept-Rebuilt a w w' group blocks inodes d = record {
    nbfree = rw group d.nbfree;
    nifree = rw group d.nifree;
    blocks = rw blocks d.blocks;
    bytes = rw inodes d.bytes;
    room = rw inodes d.room;
    inodes = λ j l. rw inodes (d.inodes j l);
  }

  kept-Exact :
      (a : ℕ) (w w' : Image)
      → w'.gd a ≡ w.gd a
      → w'.disk (b_at g f v a) ≡ w.disk (b_at g f v a)
      → w'.disk (i_at g f v a) ≡ w.disk (i_at g f v a)
      → Exact g f v a w
      → Exact g f v a w'
  kept-Exact a w w' group blocks inodes d = record {
    counted = d.counted;
    ends = d.ends;
    nbfree = rw group d.nbfree;
    nifree = rw group d.nifree;
    ndirs = rw group d.ndirs;
    blocks = blocks ∙ d.blocks;
    inodes = inodes ∙ d.inodes;
  }

  -- The group that is settled.
  self-Rebuilt :
      (c : ℕ) (b i : Tally) (w w' : Image)
      → (w.gd c).b_bitmap ≡ (v.gd c).b_bitmap
      → (w.gd c).i_bitmap ≡ (v.gd c).i_bitmap
      → Tallied g f v r c b i
      → Settled g f r.yes_to c b i w w'
      → Rebuilt g f v c w'
  self-Rebuilt c b i w w' e e' (b_marks, b_count, i_marks, i_count, few) s =
      let turns = g.bsize - g.ipg / 8 in
      let blocks : w'.disk (b_at g f v c) ≡ b.map = rw (← e) s.b_map in
      let inodes : w'.disk (i_at g f v c) ≡ pad g f i.map turns = rw (← e') s.i_map in
      record {
        nbfree = s.nbfree ∙ b_count;
        nifree = s.nifree ∙ i_count;
        blocks = rw blocks b_marks;
        bytes = rw inodes (pad-IsMap g f i.map i_marks.bytes turns);
        room = rw inodes (length-pad g f i.map turns ∙ i_marks.room);
        inodes = λ j l. rw inodes (
            isset-pad g f i.map r.sound.ipg_bytes turns j l ∙ (i_marks.bits j ∙ ground (arith, l)));
      }

  self-Exact :
      (c : ℕ) (i : Tally) (w w' : Image)
      → (w.gd c).b_bitmap ≡ (v.gd c).b_bitmap
      → (w.gd c).i_bitmap ≡ (v.gd c).i_bitmap
      → inode_bits g f c g.ipg ≡ some i
      → Settled g f r.yes_to c (block_bits g f c g.bpg) i w w'
      → Exact g f v c w'
  self-Exact c i w w' e e' ends s = record {
    counted = i;
    ends = ends;
    nbfree = s.nbfree;
    nifree = s.nifree;
    ndirs = s.ndirs;
    blocks = rw (← e) s.b_map;
    inodes = rw (← e') s.i_map;
  }

  -- The sums of the free blocks and inodes do not wrap.
  pub sums-small :
      (w : Image) (n : ℕ)
      → n ≤ g.gcount
      → ((a : ℕ) → a < n → Rebuilt g f v a w)
      → (free_of w.gd n < 2 ^ 32) × (inodes_of w.gd n < 2 ^ 32)
  sums-small w n h d =
      let blocks =
        free_of-le w.gd g.bpg n
          (λ a l. omega (arith, (d a l).nbfree, clears-le (block_used g f a) g.bpg)) in
      let inodes =
        inodes_of-le w.gd g.ipg n
          (λ a l. omega (arith, (d a l).nifree, clears-le (inode_used g f a) g.ipg)) in
      (
        omega (arith, blocks, mul-le-mul_right g.bpg h, r.numbers),
        omega (arith, inodes, mul-le-mul_right g.ipg h, r.sound.inodes_fit),
      )

  -- What the loop carries when it has settled group `c`.
  abbrev carried : ℕ → Tally → Sums → Sums
  carried c i s =
      let b = block_bits g f c g.bpg in
      record {
        volume = (settle g f c b i s.volume).0;
        idesc = (settle g f c b i s.volume).1;
        nbfree = (s.nbfree + b.nfree) % 2 ^ 32;
        nifree = (s.nifree + i.nfree) % 2 ^ 32;
        ndir = (s.ndir + i.ndirs) % 2 ^ 32;
      }

  carried-Done :
      (c : ℕ) (s : Sums) (i : Tally)
      → c < g.gcount
      → Done g f v c s
      → inode_bits g f c g.ipg ≡ some i
      → Tallied g f v r c (block_bits g f c g.bpg) i
      → Done g f v (suc c) (carried c i s)
  carried-Done c s i h d ends t =
      let b = block_bits g f c g.bpg in
      let (_, b_count, _, i_count, few_dirs) = t in
      let same = d.b_bitmap c in
      let same' = d.i_bitmap c in
      let (settled, idesc) =
        settle-Settled g f r.yes_to c b i s.volume
          (omega (
            arith,
            b_count,
            clears-le (block_used g f c) g.bpg,
            r.sound.fpg_small,
            r.sound.same_group_size,
          ))
          (omega (arith, i_count, clears-le (inode_used g f c) g.ipg, r.sound.ipg_small))
          (omega (arith, few_dirs, r.sound.ipg_small)) (rw (same, same') (r.kinds_apart c c h h)) in
      let w' = (settle g f c b i s.volume).0 in
      let kept = λ (a : ℕ) (l : a < suc c) (there : a ≢ c).
        others_kept a c b i s.volume w' (omega (arith, l, h)) h there same same' settled in
      let all : (a : ℕ) → a < suc c → Rebuilt g f v a w' = λ a l. elim (eq-cases a c) [
        | inl here ↦
            subst (λ x. Rebuilt g f v x w') (sym here)
              (self-Rebuilt c b i s.volume w' same same' t settled)
        | inr there ↦
            let (x, y, z) = kept a l there in
            kept-Rebuilt a s.volume w' x y z (d.rebuilt a (omega (arith, l, there)))
      ] in
      let exact : (a : ℕ) → a < suc c → Exact g f v a w' = λ a l. elim (eq-cases a c) [
        | inl here ↦
            subst (λ x. Exact g f v x w') (sym here)
              (self-Exact c i s.volume w' same same' ends settled)
        | inr there ↦
            let (x, y, z) = kept a l there in
            kept-Exact a s.volume w' x y z (d.exact a (omega (arith, l, there)))
      ] in
      let (few, few') = sums-small w' (suc c) h all in
      let before : (a : ℕ) → a < c → w'.gd a ≡ s.volume.gd a =
        λ a l. settled.others a (λ x. absurd (omega (arith, x, l))) in
      record {
        b_bitmap = λ a. settled.b_bitmap a ∙ d.b_bitmap a;
        i_bitmap = λ a. settled.i_bitmap a ∙ d.i_bitmap a;
        rebuilt = all;
        exact = exact;
        nbfree =
            omega (arith, d.nbfree, free_of-ext s.volume.gd w'.gd c before, settled.nbfree, few);
        nifree =
            omega (arith, d.nifree, inodes_of-ext s.volume.gd w'.gd c before, settled.nifree, few');
        idesc = idesc;
      }

  pub groups-Done : (n : ℕ) → n ≤ g.gcount → (s : Sums) × (groups g f n v ≡ some s) × Done g f v n s
  unfolding groups
  groups-Done zero h = (
    _,
    refl,
    record {
      b_bitmap = λ a. refl;
      i_bitmap = λ a. refl;
      rebuilt = λ a l. absurd (omega (arith, l));
      exact = λ a l. absurd (omega (arith, l));
      nbfree = refl;
      nifree = refl;
      idesc = λ e. cc;
    },
  )
  groups-Done (suc c) h =
      let (s, e, d) = groups-Done c (omega arith) in
      let (i, e', t) = tally g f v r c h in
      (carried c i s, rw (e, e') refl, carried-Done c s i h d e' t)
