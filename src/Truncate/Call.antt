-- ===== src/Truncate/Call.antt =====
-- `ext2_truncate` of kext/ext2_inode.c as a whole, and the blocks that it counts.
use ext2fs.Base.{
  ℕ, ◌+◌, ◌-◌, ◌*◌, ◌/◌, ◌%◌, Bool, true, false, ◌&&◌, Option, none, some, List, [], ◌∷◌, ltb, leb,
  ◌==◌, if◌then◌else◌, length, get_or,
}
use ext2fs.Base.Int.{ℤ, pos, negsuc}
use ext2fs.Bmap.{ndaddr}
use ext2fs.Truncate.{Cut, nothing, zero_from, release_past}

-- The errors, those of the calls among them.
pub data Fault : Type 0 where
  einval : Fault
  efbig : Fault
  failed : Fault

-- Of struct inode what truncation reads and changes: the size, `i_blocks`, the pointers, whether the
-- blocks are mapped by extents, whether it is a symbolic link, and IN_CHANGE and IN_UPDATE.
pub record File : Type 0 where
  pub size : ℕ
  pub blocks : ℕ
  pub db : List ℕ
  pub ib : List ℕ
  pub extents : Bool
  pub symlink : Bool
  pub changed : Bool
  pub updated : Bool

-- What it calls: `ext2_balloc`, which gives the block that holds the last byte, `ext2_update`,
-- `buf_invalidateblks` and `ext2_ext_truncate`.
pub record Calls : Type 0 where
  pub balloc : ℕ → File → Option File
  pub update : File → Option Fault
  pub invalidate : Option Fault
  pub ext_truncate : ℕ → File → Option Fault × File × Cut

-- `dblocks` is the number of device blocks of `e2fs_fsize`, which a direct block is counted with.
module _ (bsize maxfilesize nindir nblocks dblocks : ℕ) (read : ℕ → Option (List ℕ))
    (writes : ℕ → Bool) (calls : Calls) where
  abbrev pub touched : File → File
  touched f = record f { changed = true; updated = true }

  -- `allerror`, the error of `ext2_update`, `buf_invalidateblks` or the release.
  abbrev pub allerror : Option Fault → Option Fault → Bool → Option Fault
  allerror e i true = some failed
  allerror (some e) i false = some e
  allerror none i false = i

  abbrev pub keep_indirect : ℕ → ℕ → ℕ → ℕ
  keep_indirect base kept bn = if ltb base kept then bn else 0

  abbrev pub pointers_after : ℕ → File → File
  pointers_after kept f = record f {
    db = zero_from kept f.db;
    ib =
        keep_indirect ndaddr kept (get_or f.ib 0 0)
        ∷ keep_indirect (ndaddr + nindir) kept (get_or f.ib 1 0)
        ∷ keep_indirect (ndaddr + nindir + nindir * nindir) kept (get_or f.ib 2 0)
        ∷ [];
  }

  -- Once the last block that is kept is at hand: the pointers, the release, the size and `i_blocks`.
  unfoldable pub shrink : ℕ → File → Option Fault × File × Cut
  shrink length f =
      let kept = (length + bsize - 1) / bsize in
      let cut = release_past nindir nblocks read writes dblocks kept f.db f.ib in
      let f' = pointers_after kept (touched (record f { size = length })) in
      let left = if leb cut.count f.blocks then f.blocks - cut.count else 0 in
      (allerror (calls.update f') calls.invalidate cut.failed, record f' { blocks = left }, cut)

  abbrev pub after_balloc :
      (File → Option Fault × File × Cut) → File → Option File → Option Fault × File × Cut
  after_balloc on f none = (some failed, f, nothing)
  after_balloc on f (some f') = on f'

  unfoldable pub truncate_to : ℕ → File → Option Fault × File × Cut
  truncate_to length f =
      if f.extents
      then calls.ext_truncate length f
      else if f.symlink && ltb f.size 60
      then (let f' = touched (record f { size = 0 }) in (calls.update f', f', nothing))
      else if f.size == length
      then (calls.update (touched f), touched f, nothing)
      else if ltb f.size length
      then (if ltb maxfilesize length
          then (some efbig, f, nothing)
          else after_balloc
              (λ f'. let g = touched (record f' { size = length }) in (calls.update g, g, nothing))
              f (calls.balloc ((length - 1) / bsize) f))
      else if length % bsize == 0
      then shrink length f
      else after_balloc (shrink length) f (calls.balloc (length / bsize) f)

  unfoldable pub truncate : ℤ → File → Option Fault × File × Cut
  truncate (negsuc k) f = (some einval, f, nothing)
  truncate (pos length) f = truncate_to length f
