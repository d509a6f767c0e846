-- ===== src/Fsck/Rebuilt.antt =====
-- What the groups of a checked volume hold, and what `pass5` needs of it.
use native.Mathlib.Nat.{mul_comm, mul-le-mul_right}
use ext2fs.Base.{ℕ, ◌+◌, ◌-◌, ◌*◌, ◌/◌, ◌^◌, ◌≤◌, ◌<◌, ◌≡◌, ◌≢◌, true, some, arith, length}
use ext2fs.Base.Bits.{isset, IsMap}
use ext2fs.Geometry.{Geometry, IsSound, fsbtodb}
use ext2fs.Alloc.Block.Consistent.{free_of}
use ext2fs.Fsck.{
  device, bad, nofix, Question, Image, Sums, Found, Tally, inode_number, inode_bits, block_bits,
  pad,
}
use ext2fs.Fsck.Tallies.{Marks, clears, block_used, block_bits_lem, inode_used, inode_bits_lem}
use ext2fs.Alloc.Node.Consistent.{inodes_of}

-- What the check needs of the volume and of the passes before: the sizes are sound, a map fits in
-- a block, every block number and the device block of every map is a daddr32_t that is not
-- negative, every inode of every group is there and of a known state, no two maps share a block,
-- and every question is answered with yes.
pub record Ready (g : Geometry) (f : Found) (v : Image) : Type 0 where
  pub sound : IsSound g
  pub block_map : g.bpg ≤ 8 * g.bsize
  pub inode_map : g.ipg ≤ 8 * g.bsize
  pub numbers : g.gcount * g.bpg + g.first_dblock < 2 ^ 31
  pub b_device : (a : ℕ) → a < g.gcount → fsbtodb g (v.gd a).b_bitmap < 2 ^ 31
  pub i_device : (a : ℕ) → a < g.gcount → fsbtodb g (v.gd a).i_bitmap < 2 ^ 31
  pub inodes : g.gcount * g.ipg ≤ f.icount
  pub known : (j : ℕ) → 0 < j → j ≤ f.icount → f.statemap j ≢ bad
  pub yes_to : (q : Question) → f.answer q ≡ true
  pub blocks_apart :
      (a b : ℕ)
      → a < g.gcount
      → b < g.gcount
      → a ≢ b
      → device g (v.gd a).b_bitmap ≢ device g (v.gd b).b_bitmap
  pub inodes_apart :
      (a b : ℕ)
      → a < g.gcount
      → b < g.gcount
      → a ≢ b
      → device g (v.gd a).i_bitmap ≢ device g (v.gd b).i_bitmap
  pub kinds_apart :
      (a b : ℕ)
      → a < g.gcount
      → b < g.gcount
      → device g (v.gd a).b_bitmap ≢ device g (v.gd b).i_bitmap

module _ (g : Geometry) (f : Found) (v : Image) where
  abbrev pub b_at : ℕ → ℕ
  b_at a = device g (v.gd a).b_bitmap

  abbrev pub i_at : ℕ → ℕ
  i_at a = device g (v.gd a).i_bitmap

  -- Group `a` is as the passes found it: its maps show what is used, its descriptor counts the rest.
  pub record Rebuilt (a : ℕ) (w : Image) : Type 0 where
    pub nbfree : (w.gd a).nbfree ≡ clears (block_used g f a) g.bpg
    pub nifree : (w.gd a).nifree ≡ clears (inode_used g f a) g.ipg
    pub blocks : Marks (block_used g f a) g.bsize g.bpg (w.disk (b_at a))
    pub bytes : IsMap (w.disk (i_at a))
    pub room : length (w.disk (i_at a)) ≡ g.bsize
    pub inodes : (j : ℕ) → j < g.ipg → isset (w.disk (i_at a)) j ≡ inode_used g f a j

  -- Group `a` holds what the loops over its inodes and blocks give.
  pub record Exact (a : ℕ) (w : Image) : Type 0 where
    pub counted : Tally
    pub ends : inode_bits g f a g.ipg ≡ some counted
    pub nbfree : (w.gd a).nbfree ≡ (block_bits g f a g.bpg).nfree
    pub nifree : (w.gd a).nifree ≡ counted.nfree
    pub ndirs : (w.gd a).ndirs ≡ counted.ndirs
    pub blocks : w.disk (b_at a) ≡ (block_bits g f a g.bpg).map
    pub inodes : w.disk (i_at a) ≡ pad g f counted.map (g.bsize - g.ipg / 8)

  -- After `n` groups.
  pub record Done (n : ℕ) (s : Sums) : Type 0 where
    pub b_bitmap : (a : ℕ) → (s.volume.gd a).b_bitmap ≡ (v.gd a).b_bitmap
    pub i_bitmap : (a : ℕ) → (s.volume.gd a).i_bitmap ≡ (v.gd a).i_bitmap
    pub rebuilt : (a : ℕ) → a < n → Rebuilt a s.volume
    pub exact : (a : ℕ) → a < n → Exact a s.volume
    pub nbfree : s.nbfree ≡ free_of s.volume.gd n
    pub nifree : s.nifree ≡ inodes_of s.volume.gd n
    pub idesc : s.idesc ≢ nofix

  module _ (r : Ready g f v) where
    group_end : (c size : ℕ) → c < g.gcount → c * size + size ≤ g.gcount * size
    group_end c size h = grind (arith, mul-le-mul_right size h)

    number_inside :
        (c i : ℕ)
        → c < g.gcount
        → i < g.ipg
        → (0 < inode_number g f c i) × (inode_number g f c i ≤ f.icount)
    number_inside c i h l =
        let whole : g.ipg * c + g.ipg ≤ g.gcount * g.ipg =
          rw (mul_comm g.ipg c) (group_end c g.ipg h) in
        (
          omega (arith, whole, r.sound.inodes_fit, l),
          omega (arith, whole, r.inodes, r.sound.inodes_fit, l),
        )

    abbrev pub Tallied : ℕ → Tally → Tally → Type 0
    Tallied c b i =
        Marks (block_used g f c) g.bsize g.bpg b.map
        × (b.nfree ≡ clears (block_used g f c) g.bpg)
        × Marks (inode_used g f c) g.bsize g.ipg i.map
        × (i.nfree ≡ clears (inode_used g f c) g.ipg)
        × (i.ndirs ≤ g.ipg)

    pub tally :
        (c : ℕ)
        → c < g.gcount
        → (i : Tally) × (inode_bits g f c g.ipg ≡ some i) × Tallied c (block_bits g f c g.bpg) i
    tally c h =
        let (b_marks, b_count) =
          block_bits_lem g f c g.bpg r.block_map
            (omega (arith, r.sound.fpg_small, r.sound.same_group_size)) in
        let (i, e, (i_marks, i_count, few)) =
          inode_bits_lem g f c (λ i l. (number_inside c i h l).1)
            (λ i l. r.known _ (number_inside c i h l).0 (number_inside c i h l).1) r.inode_map
            (omega (arith, r.sound.ipg_small)) g.ipg (omega arith) in
        (i, e, (b_marks, b_count, i_marks, omega (arith, i_count), few))
