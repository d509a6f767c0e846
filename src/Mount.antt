-- ===== src/Mount.antt =====
-- The mount of a volume, kext/ext2_vfsops.c: the checks of the superblock by `ext2_check_sb_compat`,
-- the sizes that `compute_sb_data` derives from it, and `ext2_mountfs`.
pub mod Feature
pub mod Sized
pub mod Accepted
pub mod Sound
pub mod Statfs
pub mod Written
use Prim.Native.Nat.{bit_and}
use ext2fs.Base.{
  ℕ, zero, suc, ◌+◌, ◌-◌, ◌*◌, ◌/◌, ◌%◌, ◌^◌, min, Bool, true, false, not, ◌&&◌, ◌||◌, Option, none,
  some, List, [], ◌∷◌, ◌++◌, ltb, ◌==◌, if◌then◌else◌, get_or, drop, replicate,
}
use ext2fs.Base.Int.{ℤ, pos}
use ext2fs.Geometry.{Geometry}
use ext2fs.Alloc.State.{Group, Csum}
use ext2fs.Mount.Feature

-- struct ext2fs, the fields that a mount reads. A field is below two to the power of its width.
pub record Superblock : Type 0 where
  pub icount : ℕ
  pub bcount : ℕ
  pub rbcount : ℕ
  pub fbcount : ℕ
  pub ficount : ℕ
  pub first_dblock : ℕ
  pub log_bsize : ℕ
  pub log_fsize : ℕ
  pub bpg : ℕ
  pub fpg : ℕ
  pub ipg : ℕ
  pub magic : ℕ
  pub state : ℕ
  pub rev : ℕ
  pub first_ino : ℕ
  pub inode_size : ℕ
  pub features_compat : ℕ
  pub features_incompat : ℕ
  pub features_rocompat : ℕ
  pub desc_size : ℕ
  pub reserved_ngdb : ℕ

-- `x & ~mask` on 32 bits, and `x & mask` as a condition.
abbrev pub without : ℕ → ℕ → ℕ
without x mask = bit_and x (2 ^ 32 - 1 - mask)

abbrev pub has : ℕ → ℕ → Bool
has x mask = not (bit_and x mask == 0)

abbrev pub e2fs_magic : ℕ
e2fs_magic = 0xef53

abbrev pub firstino : ℕ
firstino = 11

-- `ext2_check_sb_compat`: 0 for a volume that can be mounted as asked for, 1 for a malformed one, 2
-- for one that can be mounted read-only, 3 for features that are not known. The sets that the
-- driver knows have no feature in common, so the union in the source is their sum.
unfoldable pub check_sb_compat : Superblock → Bool → ℕ
check_sb_compat es ronly =
    if not (es.magic == e2fs_magic)
    then 1
    else if ltb 2 es.log_bsize
    then 1
    else if es.bpg == 0
    then 1
    else if ltb 1 es.rev
    then 1
    else if es.rev == 0
    then 0
    else if not (es.first_ino == firstino)
    then 1
    else if not
        (without es.features_incompat (Feature.incompat_supp + Feature.ro_incompat_supp) == 0)
    then 3
    else if not ronly && not (without es.features_incompat Feature.incompat_supp == 0)
    then 2
    else if not ronly && not (without es.features_rocompat Feature.rocompat_supp == 0)
    then 2
    else 0

-- struct m_ext2fs as `compute_sb_data` fills it; `gd` are the bytes of the descriptor table.
pub record Sizes : Type 0 where
  pub bshift : ℕ
  pub bsize : ℕ
  pub fsbtodb_shift : ℕ
  pub fsize : ℕ
  pub fpb : ℕ
  pub bpg : ℕ
  pub fpg : ℕ
  pub ipg : ℕ
  pub isize : ℕ
  pub ipb : ℕ
  pub itpg : ℕ
  pub gcount : ℕ
  pub gdsize : ℕ
  pub gdbcount : ℕ
  pub gd : List ℕ
  pub total_dir : ℕ
  pub maxfilesize : ℕ

-- What can go wrong: the errors of the code, and a read that fails.
pub data Errno : Type 0 where
  eperm : Errno
  eio : Errno
  enomem : Errno
  einval : Errno
  erofs : Errno
  enotsup : Errno
  failed : Errno

-- What the steps of a mount give.
pub data Outcome (A : Type 0) : Type 0 where
  error : Errno → Outcome A
  fine : A → Outcome A

infixl 4 ◌>>=◌ ◌>>◌
abbrev pub ◌>>=◌ : {A B : Type 0} → Outcome A → (A → Outcome B) → Outcome B
error why >>= next = error why
fine value >>= next = next value

abbrev pub ◌>>◌ : {B : Type 0} → Outcome (Unit {0}) → Outcome B → Outcome B
first >> second = first >>= λ nothing. second

abbrev pub unless : Bool → Errno → Outcome (Unit {0})
unless true e = error e
unless false e = fine tt

-- 16 and 32 bits of a descriptor, the low byte first.
abbrev pub word16 : List ℕ → ℕ → ℕ
word16 bytes at = get_or bytes at 0 + get_or bytes (at + 1) 0 * 2 ^ 8

abbrev pub word32 : List ℕ → ℕ → ℕ
word32 bytes at = word16 bytes at + word16 bytes (at + 2) * 2 ^ 16

-- EXT2_GD
unfoldable pub group_at : List ℕ → ℕ → ℕ → Group
group_at gd gdsize cg =
    let bytes = drop (cg * gdsize) gd in
    record {
      b_bitmap = word32 bytes 0;
      i_bitmap = word32 bytes 4;
      i_tables = word32 bytes 8;
      nbfree = word16 bytes 12;
      nifree = word16 bytes 14;
      ndirs = word16 bytes 16;
    }

-- The loop that reads `n` blocks of descriptors from the `i`-th on.
unfoldable pub read_table : (ℕ → Option (List ℕ)) → (ℕ → ℕ) → ℕ → ℕ → Outcome (List ℕ)
read_table bread address zero i = fine []
read_table bread address (suc n) i = elim (bread (address i)) [
  | none ↦ error failed
  | some block ↦ do rest ← read_table bread address n (i + 1); fine (block ++ rest)
]

-- The directories of the first `n` groups.
unfoldable pub total_dir : List ℕ → ℕ → ℕ → ℕ
unfolding group_at
total_dir gd gdsize zero = 0
total_dir gd gdsize (suc n) = (total_dir gd gdsize n + (group_at gd gdsize n).ndirs) % 2 ^ 32

-- EXT2_INODE_SIZE, with the check of a size that the superblock gives.
unfoldable pub inode_size : Superblock → ℕ → Outcome ℕ
inode_size es bsize =
    if es.rev == 0
    then fine 128
    else if ltb es.inode_size 128
        || ltb bsize es.inode_size
        || not (bit_and es.inode_size (es.inode_size - 1) == 0)
    then error eio
    else fine es.inode_size

-- The size of a group descriptor, with its check.
unfoldable pub desc_size : Superblock → ℕ → Outcome ℕ
desc_size es bsize =
    let size =
      if ltb 0 es.rev && has es.features_incompat Feature.has_64bit && not (es.desc_size == 0)
      then es.desc_size
      else 32 in
    if ltb size 32 || not (bit_and size (size - 1) == 0) || ltb bsize size
    then error einval
    else fine size

-- The number of groups, on 32 bits.
abbrev pub group_count : Superblock → ℕ
group_count es = (es.bcount + 2 ^ 32 - es.first_dblock + es.bpg + 2 ^ 32 - 1) % 2 ^ 32 / es.bpg

-- The largest file: as far as the pointers reach, and as `i_blocks` counts blocks of 512 bytes.
unfoldable pub max_file_size : Superblock → ℕ → ℕ
max_file_size es bsize =
    if es.rev == 0 || not (has es.features_rocompat Feature.largefile)
    then 0x7fffffff
    else let b = bsize / 4 in
      let physically =
        (if has es.features_rocompat Feature.huge_file then 2 ^ 48 - 1 else 2 ^ 32 - 1) * 512 in
      min ((12 + b + b * b + b * b * b) * bsize) physically

-- The first block of descriptors follows the superblock, which a block of more than SBSIZE bytes has
-- within block 0.
abbrev pub logic_sb_block : ℕ → ℕ
logic_sb_block bsize = if ltb 1024 bsize then 0 else 1

abbrev pub block_size : Superblock → ℕ
block_size es = 2 ^ (10 + es.log_bsize)

-- The blocks of the descriptor table, from the size of a descriptor.
abbrev pub table_blocks : Superblock → ℕ → ℕ
table_blocks es gdsize =
    let descpb = block_size es / gdsize in (group_count es + descpb + 2 ^ 32 - 1) % 2 ^ 32 / descpb

abbrev pub table_block : Superblock → ℕ → ℕ
table_block es i = (logic_sb_block (block_size es) + i + 1) * 2 ^ (es.log_bsize + 1)

-- EXT2_MIN_FRAG_SIZE, shifted on 32 bits: 0 from a shift by 22 on. A shift by 32 or more is not
-- defined in C.
abbrev pub frag_size : Superblock → ℕ
frag_size es = 1024 * 2 ^ es.log_fsize % 2 ^ 32

abbrev pub sizes_of : Superblock → ℕ → ℕ → List ℕ → Sizes
sizes_of es isize gdsize gd = record {
  bshift = 10 + es.log_bsize;
  bsize = block_size es;
  fsbtodb_shift = es.log_bsize + 1;
  fsize = frag_size es;
  fpb = if frag_size es == 0 then 0 else block_size es / frag_size es;
  bpg = es.bpg;
  fpg = es.fpg;
  ipg = es.ipg;
  isize = isize;
  ipb = block_size es / isize;
  itpg = es.ipg / (block_size es / isize);
  gcount = group_count es;
  gdsize = gdsize;
  gdbcount = table_blocks es gdsize;
  gd = gd;
  total_dir = total_dir gd gdsize (group_count es);
  maxfilesize = max_file_size es (block_size es);
}

-- `compute_sb_data`. The 156 is the size of struct ext2fs_dinode.
unfoldable pub compute_sb_data : (ℕ → Option (List ℕ)) → Superblock → Outcome Sizes
compute_sb_data bread es = do
  isize ← inode_size es (block_size es)
  unless (has es.features_rocompat Feature.extra_isize && ltb isize 156) einval
  gdsize ← desc_size es (block_size es)
  gd ← read_table bread (table_block es) (table_blocks es gdsize) 0
  fine (sizes_of es isize gdsize gd)

-- What `ext2_mountfs` leaves: the sizes, the superblock with its clean mark cleared, the cluster
-- summaries before their first use, struct ext2mount, and whether `ext2_journal_replay` is called
-- and `ext2_sbupdate` writes the superblock.
pub record Mounted : Type 0 where
  pub sizes : Sizes
  pub es : Superblock
  pub ronly : Bool
  pub replays : Bool
  pub writes : Bool
  pub wasvalid : Bool
  pub fmod : Bool
  pub contigsumsize : ℕ
  pub clustersum : Csum
  pub maxcluster : ℕ
  pub nindir : ℕ
  pub bptrtodb : ℕ
  pub seqinc : ℕ

abbrev pub max : ℕ → ℕ → ℕ
max a b = if ltb a b then b else a

-- What the kernel decides: the flag MNT_FORCE, MAXPHYS, whether memory is left for struct ext2mount
-- and its parts and for the cluster summaries, and what the reads give.
pub record Kernel : Type 0 where
  pub force : Bool
  pub maxphys : ℕ
  pub memory : Bool
  pub summaries : Bool
  pub superblock : Option Superblock
  pub bread : ℕ → Option (List ℕ)

-- The errors for what `ext2_check_sb_compat` answers.
abbrev pub compat : ℕ → Outcome (Unit {0})
compat answer =
    if answer == 2
    then error erofs
    else if answer == 3
    then error enotsup
    else if answer == 0
    then fine tt
    else error einval

-- E2FS_ISCLEAN is not set, or E2FS_ERRORS is.
abbrev pub unclean : Superblock → Bool
unclean es = not (has es.state 0x1) || has es.state 0x2

abbrev pub mounted : Kernel → Bool → Superblock → Sizes → Mounted
mounted k ronly es m =
    let summary = min (max 1 (k.maxphys / m.bsize)) 32 in
    record {
      sizes = m;
      es = record es { state = if ronly then es.state else bit_and es.state (2 ^ 16 - 1 - 0x1) };
      ronly = ronly;
      replays = not ronly && has es.features_incompat Feature.recover;
      writes = not ronly;
      wasvalid = has es.state 0x1;
      fmod = not ronly;
      contigsumsize = summary;
      clustersum = record { init = false; sum = replicate (summary + 1) (pos 0) };
      maxcluster = summary;
      nindir = m.bsize / 4;
      bptrtodb = es.log_bsize + 1;
      seqinc = m.fpb;
    }

unfoldable pub mountfs : Kernel → Bool → Outcome Mounted
mountfs k ronly = elim k.superblock [
  | none ↦ error failed
  | some es ↦ do
    compat (check_sb_compat es ronly)
    unless (unclean es && not (ronly || k.force)) eperm
    unless (not k.memory) enomem
    m ← compute_sb_data k.bread es
    unless (not k.summaries) enomem
    fine (mounted k ronly es m)
]

-- The geometry that the allocators use, from the superblock and the sizes.
abbrev pub geometry_of : Mounted → Geometry
geometry_of m = record {
  bcount = m.es.bcount;
  rbcount = m.es.rbcount;
  first_dblock = m.es.first_dblock;
  fpg = m.sizes.fpg;
  bpg = m.sizes.bpg;
  ipg = m.sizes.ipg;
  ipb = m.sizes.ipb;
  gcount = m.sizes.gcount;
  bsize = m.sizes.bsize;
  fsize = m.sizes.fsize;
  bshift = m.sizes.bshift;
  fsbtodb_shift = m.sizes.fsbtodb_shift;
  contigsumsize = m.contigsumsize;
}
