-- ===== src/Mount/Sized.antt =====
-- What the sizes that `compute_sb_data` derives have to do with one another and with the volume.
use Prim.Native.Nat.{bit_and}
use native.Mathlib.Nat.{mul_assoc, mul-le-mul_right}
use ext2fs.Base.{
  ℕ, zero, suc, ◌+◌, ◌-◌, ◌*◌, ◌/◌, ◌%◌, ◌^◌, ◌≤◌, ◌<◌, ◌≡◌, refl, ap, Bool, true, not, ◌||◌, some,
  ◌==◌, ltb, arith,
}
use ext2fs.Base.Bits.{everywhere, everywhere_at}
use ext2fs.Geometry.{dtog}
use ext2fs.Geometry.Laws.{div_lt}
use ext2fs.Mount.{
  Superblock, Mounted, Kernel, fine, mountfs, inode_size, desc_size, group_count, block_size,
  table_blocks, geometry_of,
}
use ext2fs.Mount.Accepted.{compute_sb_data-steps, mountfs-steps, check_sb_compat-sizes}

-- A power of two up to 4096 divides each block size that is not less.
divides_table :
    everywhere 4097 (λ x. everywhere 3 (λ n.
      not (bit_and x (x - 1) == 0)
      || ltb x 32
      || ltb (2 ^ (10 + n)) x
      || (2 ^ (10 + n) / x * x == 2 ^ (10 + n))))
    ≡ true
unfolding everywhere
divides_table = refl

block_small : (n : ℕ) → n ≤ 2 → 2 ^ (10 + n) ≤ 4096
block_small zero h = omega arith
block_small (suc zero) h = omega arith
block_small (suc (suc zero)) h = omega arith
block_small (suc (suc (suc n))) h = absurd (omega arith)

block_large : (n : ℕ) → n ≤ 2 → 1024 ≤ 2 ^ (10 + n)
block_large zero h = omega arith
block_large (suc zero) h = omega arith
block_large (suc (suc zero)) h = omega arith
block_large (suc (suc (suc n))) h = absurd (omega arith)

divides :
    (x n : ℕ)
    → n ≤ 2
    → 32 ≤ x
    → x ≤ 2 ^ (10 + n)
    → bit_and x (x - 1) ≡ 0
    → 2 ^ (10 + n) / x * x ≡ 2 ^ (10 + n)
divides x n small least most power = ground (
  arith,
  everywhere_at 3 _ n (everywhere_at 4097 _ x divides_table (omega (arith, block_small n small)))
      (omega arith),
)

inode_size-divides :
    (es : Superblock) (size : ℕ)
    → es.log_bsize ≤ 2
    → inode_size es (2 ^ (10 + es.log_bsize)) ≡ fine size
    → (0 < size) × (2 ^ (10 + es.log_bsize) / size * size ≡ 2 ^ (10 + es.log_bsize))
unfolding inode_size
inode_size-divides es size small e =
    ground (arith, divides size es.log_bsize, block_large es.log_bsize)

desc_size-divides :
    (es : Superblock) (size : ℕ)
    → es.log_bsize ≤ 2
    → desc_size es (2 ^ (10 + es.log_bsize)) ≡ fine size
    → (32 ≤ size) × (2 ^ (10 + es.log_bsize) / size * size ≡ 2 ^ (10 + es.log_bsize))
unfolding desc_size
desc_size-divides es size small e =
    ground (arith, divides size es.log_bsize, block_large es.log_bsize)

-- How the sizes of a mounted volume fit together. The blocks of a group stand behind `first_dblock`.
pub record Fits (m : Mounted) : Type 0 where
  -- An inode and a descriptor do not cross the end of a block, and the table has room for every
  -- descriptor.
  pub inodes : m.sizes.ipb * m.sizes.isize ≡ m.sizes.bsize
  pub table : m.sizes.gcount * m.sizes.gdsize ≤ m.sizes.gdbcount * m.sizes.bsize
  -- Every block of the volume lies in a group, and every group has a block.
  pub covered :
      (b : ℕ) → m.es.first_dblock ≤ b → b < m.es.bcount → dtog (geometry_of m) b < m.sizes.gcount
  pub inhabited :
      (cg : ℕ) → cg < m.sizes.gcount → cg * m.sizes.bpg + m.es.first_dblock < m.es.bcount

div-le : (x n : ℕ) → 0 < n → x / n ≤ x
div-le x n h = grind arith

module _ (blocks bpg : ℕ) (some_bpg : 0 < bpg) where
  round_up_holds : blocks ≤ (blocks + bpg - 1) / bpg * bpg
  round_up_holds = grind arith

  round_up_covers : (b : ℕ) → b < blocks → b / bpg < (blocks + bpg - 1) / bpg
  round_up_covers b h = div_lt b ((blocks + bpg - 1) / bpg) bpg (omega (arith, h, round_up_holds))

  round_up_inhabited : (cg : ℕ) → cg < (blocks + bpg - 1) / bpg → cg * bpg < blocks
  round_up_inhabited cg h = grind arith

module _ (n per size bsize : ℕ) (least : 32 ≤ size) (whole : per * size ≡ bsize)
    (small : bsize ≤ 4096) (large : 1024 ≤ bsize) (few : n + 128 < 2 ^ 32) where
  per_bounds : (0 < per) × (per ≤ 128)
  per_bounds = (grind arith, grind arith)

  wrapped : (n + per + 2 ^ 32 - 1) % 2 ^ 32 ≡ n + per - 1
  wrapped = omega (arith, per_bounds, few)

  scaled : (q : ℕ) → n ≤ q * per → n * size ≤ q * bsize
  scaled q h = rw (← whole, ← mul_assoc q per size) (mul-le-mul_right size h)

  table_holds : n * size ≤ (n + per + 2 ^ 32 - 1) % 2 ^ 32 / per * bsize
  table_holds = rw wrapped (scaled _ (round_up_holds n per per_bounds.0))

-- The volume has a block behind `first_dblock`, and the sums of the code stay within 32 bits.
abbrev pub InRange : Superblock → Type 0
InRange es = (es.first_dblock < es.bcount) × (es.bcount + es.bpg + 128 ≤ 2 ^ 32)

module _ (es : Superblock) (range : InRange es) (some_bpg : 0 < es.bpg) where
  group_count_lem : group_count es ≡ (es.bcount - es.first_dblock + es.bpg - 1) / es.bpg
  group_count_lem =
      let e : (es.bcount + 2 ^ 32 - es.first_dblock + es.bpg + 2 ^ 32 - 1) % 2 ^ 32
          ≡ es.bcount - es.first_dblock + es.bpg - 1 =
        omega arith in
      ap (λ (x : ℕ). x / es.bpg) e

  group_count_bound : group_count es + 128 < 2 ^ 32
  group_count_bound =
      omega
        (arith, group_count_lem, div-le (es.bcount - es.first_dblock + es.bpg - 1) es.bpg some_bpg)

  pub covered_lem :
      (b : ℕ)
      → es.first_dblock ≤ b
      → b < es.bcount
      → (b - es.first_dblock) / es.bpg < group_count es
  covered_lem b low high = rw group_count_lem (
      round_up_covers (es.bcount - es.first_dblock) es.bpg some_bpg (b - es.first_dblock)
        (omega arith))

  pub inhabited_lem : (cg : ℕ) → cg < group_count es → cg * es.bpg + es.first_dblock < es.bcount
  inhabited_lem cg h = omega (
    arith,
    round_up_inhabited (es.bcount - es.first_dblock) es.bpg some_bpg cg (rw (← group_count_lem) h),
  )

  table_lem :
      (gdsize : ℕ)
      → es.log_bsize ≤ 2
      → 32 ≤ gdsize
      → block_size es / gdsize * gdsize ≡ block_size es
      → group_count es * gdsize ≤ table_blocks es gdsize * block_size es
  table_lem gdsize small least whole =
      table_holds (group_count es) (block_size es / gdsize) gdsize (block_size es) least whole
        (block_small es.log_bsize small) (block_large es.log_bsize small) group_count_bound

-- For a superblock that `ext2_mountfs` accepts, with a block behind `first_dblock` and sums within
-- 32 bits: the inodes of a block fill it, the blocks of the descriptor table have room for a
-- descriptor of each group, every block of the volume from `first_dblock` on lies in a group that
-- there is, and every group has a block of the volume.
pub mountfs-Fits :
    (k : Kernel) (ronly : Bool) (es : Superblock) (m : Mounted)
    → k.superblock ≡ some es
    → InRange es
    → mountfs k ronly ≡ fine m
    → Fits m
unfolding dtog
mountfs-Fits k ronly es m found range success =
    let (sound, _, _, _, (s, computed, e)) = mountfs-steps k ronly es m found success in
    let (small, some_bpg, _) = check_sb_compat-sizes es ronly sound in
    let (isize, gdsize, gd, sized, _, described, _, e') =
      compute_sb_data-steps k.bread es s computed in
    let (positive, whole) = inode_size-divides es isize small sized in
    let (least, whole_gd) = desc_size-divides es gdsize small described in
    rw (e, e')
      (record {
        inodes = whole;
        table = table_lem es range some_bpg gdsize small least whole_gd;
        covered = covered_lem es range some_bpg;
        inhabited = inhabited_lem es range some_bpg;
      })
