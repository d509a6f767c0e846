-- ===== src/Alloc/Policy.antt =====
-- `ext2_dirpref`, the choice of a group for a directory by kext/ext2_alloc.c, and `cg_has_sb`.
pub mod Chosen
pub mod Sparse
use ext2fs.Base.{
  ℕ, zero, suc, ◌+◌, ◌-◌, ◌*◌, ◌/◌, ◌%◌, ◌^◌, Bool, true, false, Option, none, some, ◌&&◌, ◌||◌,
  min, ltb, leb, ◌==◌, if◌then◌else◌,
}
use ext2fs.Geometry.{Geometry, ino_to_cg}
use ext2fs.Alloc.State.{Group, Fs}
use ext2fs.Alloc.Request.{Inode}

-- The first group from `cg` on, among `n`, that passes a test.
unfoldable pub first_of : (ℕ → Bool) → ℕ → ℕ → Option ℕ
first_of test zero cg = none
first_of test (suc n) cg = let rest = first_of test n (cg + 1) in if test cg then some cg else rest

-- The two loops from `pref` up to the last group and from the first up to `pref`.
unfoldable pub first_around : (ℕ → Bool) → ℕ → ℕ → Option ℕ
unfolding first_of
first_around test pref gcount = elim (first_of test (gcount - pref) pref) [
  | some cg ↦ some cg
  | none ↦ first_of test pref 0
]

-- The fewest directories seen so far, with their group: one of the loops for a directory of the first
-- level, over `n` groups from `cg` on.
unfoldable pub fewest : (ℕ → Group) → (ℕ → Bool) → ℕ → ℕ → ℕ × ℕ → ℕ × ℕ
fewest gd roomy zero cg best = best
fewest gd roomy (suc n) cg best =
    let here : ℕ × ℕ = if ltb (gd cg).ndirs best.1 && roomy cg then (cg, (gd cg).ndirs) else best in
    fewest gd roomy n (cg + 1) here

-- AVGDIRSIZE and AFPDIR of include/fs/ext2fs/fs.h
abbrev pub avgdirsize : ℕ
avgdirsize = 1048576

abbrev pub afpdir : ℕ
afpdir = 64

module _ (g : Geometry) where
  abbrev pub u32 : ℕ → ℕ
  u32 x = x % 2 ^ 32

  abbrev pub avgifree : Fs → ℕ
  avgifree fs = fs.ficount / g.gcount

  abbrev pub avgbfree : Fs → ℕ
  avgbfree fs = fs.fbcount / g.gcount

  abbrev pub avgndir : Fs → ℕ
  avgndir fs = fs.total_dir / g.gcount

  -- For a directory in the root; `r` is the random number.
  unfoldable pub first_level : Fs → ℕ → ℕ
  unfolding fewest
  first_level fs r =
      let roomy =
        λ (cg : ℕ). leb (avgifree fs) (fs.gd cg).nifree && leb (avgbfree fs) (fs.gd cg).nbfree in
      let pref : ℕ = r % g.gcount in
      (fewest fs.gd roomy pref 0 (fewest fs.gd roomy (g.gcount - pref) pref (pref, g.ipg))).0

  -- `min` of a count less a quarter, and 1.
  abbrev pub three_quarters : ℕ → ℕ
  three_quarters x = let y = x - x / 4 in if ltb y 1 then 1 else y

  -- `maxcontigdirs`
  unfoldable pub max_contig_dirs : Fs → ℕ
  max_contig_dirs fs =
      let cgsize : ℕ = u32 (g.fsize * g.fpg) in
      let free_bytes : ℕ = u32 (avgbfree fs * g.bsize) in
      let curdirsize : ℕ =
        if avgndir fs == 0 then 0 else u32 (cgsize + 2 ^ 32 - free_bytes) / avgndir fs in
      let dirsize : ℕ = if ltb avgdirsize curdirsize then curdirsize else avgdirsize in
      let most : ℕ = min (min (free_bytes / dirsize) 255) (g.ipg / afpdir) in
      if most == 0 then 1 else most

  -- A group that has room for another directory.
  unfoldable pub suits : Fs → ℕ → Bool
  unfolding max_contig_dirs
  suits fs cg =
      (ltb (fs.gd cg).ndirs (min (u32 (avgndir fs + g.ipg / 16)) g.ipg)
        && leb (three_quarters (avgifree fs)) (fs.gd cg).nifree
        && leb (three_quarters (avgbfree fs)) (fs.gd cg).nbfree)
      && ltb (fs.contigdirs cg) (max_contig_dirs fs)

  -- `root` is whether the parent is the root directory. The last loop ends at the parent's group when
  -- no group passes its test.
  unfoldable pub dirpref : Fs → Inode → Bool → ℕ → ℕ
  unfolding first_level first_around suits
  dirpref fs pip root r =
      let pref : ℕ = ino_to_cg g pip.number in
      let backstop = λ (cg : ℕ). leb (avgifree fs) (fs.gd cg).nifree in
      if root then first_level fs r else elim (first_around (suits fs) pref g.gcount) [
        | some cg ↦ cg
        | none ↦ elim (first_around backstop pref g.gcount) [ some cg ↦ cg | none ↦ pref ]
      ]

-- `a <= i` for the bits `a` of an `int`, where `i` is not negative.
abbrev pub int_le : ℕ → ℕ → Bool
int_le a i = leb (2 ^ 31) a || leb a i

-- The loop of `cg_has_sb`, on fuel: whether a power of 3, 5 or 7 of the same exponent is `i`. The
-- powers are of type `int`, taken to wrap.
unfoldable pub powers : ℕ → ℕ → ℕ → ℕ → ℕ → Bool
powers zero i a3 a5 a7 = false
powers (suc k) i a3 a5 a7 =
    let rest = powers k i (a3 * 3 % 2 ^ 32) (a5 * 5 % 2 ^ 32) (a7 * 7 % 2 ^ 32) in
    if int_le a3 i || int_le a5 i || int_le a7 i
    then (if (i == a3) || (i == a5) || (i == a7) then true else rest)
    else false

unfoldable pub cg_has_sb : ℕ → Bool
unfolding powers
cg_has_sb i = if (i == 0) || (i == 1) then true else powers (i + 1) i 3 5 7
