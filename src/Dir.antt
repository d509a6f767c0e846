-- ===== src/Dir.antt =====
-- Directories, kext/ext2_lookup.c and include/fs/ext2fs/ext2_dir.h. A block of a directory is the
-- chain of its entries, each `e2d_reclen` bytes behind the one before: the code reaches every entry
-- by that step from the start of a block.
pub mod Chain
pub mod Content
pub mod Create
pub mod Enter
pub mod Remove
pub mod Changes
pub mod Lookup
pub mod Offsets
pub mod Search
use ext2fs.Base.{
  ℕ, zero, suc, ◌+◌, ◌-◌, ◌*◌, ◌/◌, ◌%◌, ◌^◌, ◌≤◌, ◌≡◌, Bool, true, false, Option, none, some, List,
  [], ◌∷◌, ◌&&◌, ◌||◌, ltb, leb, ◌==◌, if◌then◌else◌, length, get_or, All,
}

-- struct ext2fs_direct_2. `e2d_namlen` is the length of `name`.
pub record Entry : Type 0 where
  pub ino : ℕ
  pub reclen : ℕ
  pub ftype : ℕ
  pub name : List ℕ

-- EXT2_DIR_REC_LEN
abbrev pub dir_rec_len : ℕ → ℕ
dir_rec_len name_len = (name_len + 8 + 3) / 4 * 4

-- EXT2_DIR_REC_LEN of the entry's `e2d_namlen`.
abbrev pub needs : Entry → ℕ
needs e = dir_rec_len (length e.name)

-- `bcmp` of two names, their lengths included.
abbrev pub same_name : List ℕ → List ℕ → Bool
same_name [] [] = true
same_name [] (y ∷ ys) = false
same_name (x ∷ xs) [] = false
same_name (x ∷ xs) (y ∷ ys) = (x == y) && same_name xs ys

-- The tables `ext2_ft_to_dt` and `dt_to_ext2_ft`, with the numbers of the types DT_* in the order of
-- the second.
abbrev pub fttodt : ℕ → ℕ
fttodt ft = get_or (0 ∷ 8 ∷ 4 ∷ 2 ∷ 6 ∷ 1 ∷ 12 ∷ 10 ∷ []) ft 0

abbrev pub dttoft : ℕ → ℕ
dttoft dt = get_or (0 ∷ 5 ∷ 3 ∷ 0 ∷ 2 ∷ 0 ∷ 4 ∷ 0 ∷ 1 ∷ 0 ∷ 7 ∷ 0 ∷ 6 ∷ 0 ∷ 0 ∷ []) dt 0

-- `ext2_dirbadentry`: whether an entry at `off` in its block is bad.
unfoldable pub dirbadentry : ℕ → ℕ → Entry → ℕ → Bool
dirbadentry bsize icount de off =
    if ltb de.reclen (dir_rec_len 1)
    then true
    else if not_zero (de.reclen % 4)
    then true
    else if ltb de.reclen (needs de)
    then true
    else if ltb bsize (off + de.reclen)
    then true
    else ltb icount de.ino
  where
    not_zero : ℕ → Bool
    not_zero x = if x == 0 then false else true

-- roundup2
abbrev pub roundup : ℕ → ℕ → ℕ
roundup x b = (x + (b - 1)) / b * b

-- The errors that the code itself returns, and what the kernel's calls return.
pub data Errno : Type 0 where
  eio : Errno
  enoent : Errno
  eexist : Errno
  enotdir : Errno
  eisdir : Errno
  einval : Errno
  ejustreturn : Errno

-- Of struct inode what the code reads of a directory, `i_offset`, `i_count` and `i_endoff`, in which a
-- lookup leaves a place to the operation that follows it, and the marks IN_CHANGE and IN_UPDATE.
pub record Dirnode : Type 0 where
  pub number : ℕ
  pub size : ℕ
  pub nlink : ℕ
  pub diroff : ℕ
  pub offset : ℕ
  pub count : ℕ
  pub endoff : ℕ
  pub changed : Bool
  pub updated : Bool

-- What `ext2_blkatoff` gives for each block of a directory, `none` for an error.
abbrev pub Blocks : Type 0
Blocks = ℕ → Option (List Entry)

abbrev pub put_block : ℕ → List Entry → Blocks → Blocks
put_block b es blocks b' = if b' == b then some es else blocks b'

-- IFTODT
abbrev pub iftodt : ℕ → ℕ
iftodt mode = mode / 2 ^ 12 % 2 ^ 4

-- `e2d_type` of an entry for an inode of that mode.
abbrev pub type_for : Bool → ℕ → ℕ
type_for ftype_feature mode = if ftype_feature then dttoft (iftodt mode) else 0

-- How an operation on a directory ends: with what it returns, a panic, or a step to where no entry
-- begins.
pub data Outcome : Type 0 where
  returned : Option Errno → Dirnode → Blocks → Outcome
  panicked : Outcome
  astray : Outcome
