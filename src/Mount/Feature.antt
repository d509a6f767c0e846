-- ===== src/Mount/Feature.antt =====
-- The features of include/fs/ext2fs/ext2fs.h that the mount tests, and the sets that it supports.
use ext2fs.Base.{ℕ, ◌+◌}

abbrev pub largefile : ℕ
largefile = 0x2

abbrev pub huge_file : ℕ
huge_file = 0x8

abbrev pub extra_isize : ℕ
extra_isize = 0x40

abbrev pub recover : ℕ
recover = 0x4

abbrev pub has_64bit : ℕ
has_64bit = 0x80

-- SPARSESUPER, LARGEFILE and EXTRA_ISIZE
abbrev pub rocompat_supp : ℕ
rocompat_supp = 0x1 + 0x2 + 0x40

-- FTYPE, EXTENTS, FLEX_BG and META_BG
abbrev pub incompat_supp : ℕ
incompat_supp = 0x2 + 0x40 + 0x200 + 0x10

-- RECOVER, 64BIT and CSUM_SEED
abbrev pub ro_incompat_supp : ℕ
ro_incompat_supp = 0x4 + 0x80 + 0x2000
