-- ===== src/Mount/Statfs.antt =====
-- `ext2_statfs_internal` of kext/ext2_vfsops.c: the figures of a mounted volume.
use ext2fs.Base.{
  ℕ, zero, suc, ◌+◌, ◌-◌, ◌*◌, ◌%◌, ◌^◌, ◌≤◌, ◌<◌, ◌≡◌, ◌⊎◌, ◌↔◌, refl, sym, ◌∙◌, inl, inr, Bool,
  true, false, not, ◌&&◌, ltb, leb, ◌==◌, if◌then◌else◌, arith, Bool-cases,
}
use ext2fs.Alloc.Policy.{cg_has_sb}
use ext2fs.Alloc.Policy.Sparse.{IsSparse, cg_has_sb-IsSparse}
use ext2fs.Mount.{Superblock, Sizes, Outcome, error, fine, einval, has, e2fs_magic}

-- struct vfsstatfs
pub record Statfs : Type 0 where
  pub f_bsize : ℕ
  pub f_iosize : ℕ
  pub f_blocks : ℕ
  pub f_bfree : ℕ
  pub f_bavail : ℕ
  pub f_files : ℕ
  pub f_ffree : ℕ

-- The loop over the first `n` groups.
unfoldable pub with_sb : ℕ → ℕ
unfolding cg_has_sb
with_sb zero = 0
with_sb (suc n) = with_sb n + (if cg_has_sb n then 1 else 0)

-- EXT2F_ROCOMPAT_SPARSESUPER and EXT2F_COMPAT_RESIZE
abbrev pub sparse : Superblock → Bool
sparse es = ltb 0 es.rev && has es.features_rocompat 0x1

abbrev pub resize : Superblock → Bool
resize es = ltb 0 es.rev && has es.features_compat 0x10

-- The number of copies of the superblock, of type `int`: none are counted from 2 ^ 31 groups on.
unfoldable pub ngroups : Sizes → Superblock → ℕ
unfolding with_sb
ngroups fs es =
    if sparse es then (if leb (2 ^ 31) fs.gcount then 0 else with_sb fs.gcount) else fs.gcount

-- The blocks of a copy of the descriptor table, those kept for its growth included.
abbrev pub ngdb : Sizes → Superblock → ℕ
ngdb fs es = (fs.gdbcount + (if resize es then es.reserved_ngdb else 0)) % 2 ^ 32

unfoldable pub overhead : Sizes → Superblock → ℕ
unfolding ngroups
overhead fs es =
    (es.first_dblock + fs.gcount * (2 + fs.itpg) + ngroups fs es * (1 + ngdb fs es)) % 2 ^ 32

unfoldable pub figures : Sizes → Superblock → Statfs
unfolding overhead
figures fs es = record {
  f_bsize = fs.fsize;
  f_iosize = fs.bsize;
  f_blocks = (es.bcount + 2 ^ 32 - overhead fs es) % 2 ^ 32;
  f_bfree = es.fbcount;
  f_bavail = if ltb es.rbcount es.fbcount then es.fbcount - es.rbcount else 0;
  f_files = es.icount;
  f_ffree = es.ficount;
}

unfoldable pub statfs : Sizes → Superblock → Outcome Statfs
unfolding figures
statfs fs es = if not (es.magic == e2fs_magic) then error einval else fine (figures fs es)

module _ (fs : Sizes) (es : Superblock) where
  -- Whether group `cg` begins with a copy of the superblock.
  unfoldable pub HasCopy : ℕ → Type 0
  HasCopy cg = (sparse es ≡ false) ⊎ IsSparse cg

  module _ (copy : ℕ → Bool) where
    -- What the first `n` groups hold beside data: the two bitmaps, the table of inodes, and where
    -- there is a copy of the superblock, it and the descriptors behind it.
    unfoldable pub metadata : ℕ → ℕ
    metadata zero = 0
    metadata (suc cg) = metadata cg + (2 + fs.itpg) + (if copy cg then 1 + ngdb fs es else 0)

    module _ (tells : (cg : ℕ) → cg < fs.gcount → (copy cg ≡ true) ↔ HasCopy cg)
        (few : fs.gcount ≤ 177147) where
      all_copies : sparse es ≡ false → (n : ℕ) → n < fs.gcount → copy n ≡ true
      unfolding HasCopy
      all_copies f n h = (tells n h).1 (inl f)

      sparse_copies : sparse es ≡ true → (n : ℕ) → n < fs.gcount → copy n ≡ cg_has_sb n
      unfolding HasCopy
      sparse_copies t n h =
          let (to, back) = cg_has_sb-IsSparse n (omega (arith, h, few)) in
          elim (Bool-cases (cg_has_sb n)) [
            | inl y ↦ (tells n h).1 (inr (to y)) ∙ sym y
            | inr no_sb ↦ elim (Bool-cases (copy n)) [
              | inr z ↦ z ∙ sym no_sb
              | inl y ↦ elim ((tells n h).0 y) [
                | inl f ↦ let p : true ≡ false = sym t ∙ f in absurd (grind (arith, p))
                | inr is ↦ let p : true ≡ false = sym (back is) ∙ no_sb in absurd (grind (arith, p))
              ]
            ]
          ]

      count_all :
          sparse es ≡ false
          → (n : ℕ) → n ≤ fs.gcount
          → metadata n ≡ n * (2 + fs.itpg) + n * (1 + ngdb fs es)
      unfolding metadata
      count_all f zero h = omega arith
      count_all f (suc n) h =
          rw (all_copies f n h) (grind (arith, count_all f n (omega (arith, h))))

      count_sparse :
          sparse es ≡ true
          → (n : ℕ) → n ≤ fs.gcount
          → metadata n ≡ n * (2 + fs.itpg) + with_sb n * (1 + ngdb fs es)
      unfolding metadata with_sb
      count_sparse t zero h = omega arith
      count_sparse t (suc n) h = rw (sparse_copies t n h) (elim (Bool-cases (cg_has_sb n)) [
        | inl y ↦ rw y (grind (arith, count_sparse t n (omega (arith, h))))
        | inr y ↦ rw y (grind (arith, count_sparse t n (omega (arith, h))))
      ])

      count_copies :
          metadata fs.gcount ≡ fs.gcount * (2 + fs.itpg) + ngroups fs es * (1 + ngdb fs es)
      unfolding ngroups
      count_copies = elim (Bool-cases (sparse es)) [
        | inl t ↦
            let w : leb (2 ^ 31) fs.gcount ≡ false = ground (arith, few) in
            rw (t, w) (count_sparse t fs.gcount (omega arith))
        | inr f ↦ rw f (count_all f fs.gcount (omega arith))
      ]

      -- `ext2_statfs_internal` of a volume with the right magic number, fewer than 2^32 blocks and
      -- at most 177147 groups, whose metadata fit in its blocks, for any test `copy` that tells
      -- the groups with a copy of the superblock, which are all groups or, with the feature for
      -- sparse copies, those whose number is 0 or a power of 3, 5 or 7: it succeeds, `f_blocks`
      -- together with the first data block, the two bitmaps and the inode table of every group,
      -- and a superblock and its descriptor blocks for every group with a copy, is the count of
      -- blocks, and `f_bavail` is what is free beyond the reserve, or 0 where not more than the
      -- reserve is free.
      pub statfs-metadata :
          es.magic ≡ e2fs_magic
          → es.bcount < 2 ^ 32
          → es.first_dblock + metadata fs.gcount ≤ es.bcount
          → (s : Statfs) × (statfs fs es ≡ fine s)
            × (s.f_blocks + es.first_dblock + metadata fs.gcount ≡ es.bcount)
            × ((s.f_bavail + es.rbcount ≡ s.f_bfree)
                ⊎ ((s.f_bavail ≡ 0) × (s.f_bfree ≤ es.rbcount)))
      unfolding statfs figures overhead
      statfs-metadata magic word fits =
          let m : (es.magic == e2fs_magic) ≡ true = ground (arith, magic) in
          (figures fs es, rw m refl, omega (arith, count_copies, word, fits), ground arith)
