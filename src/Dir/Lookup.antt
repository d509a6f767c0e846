-- ===== src/Dir/Lookup.antt =====
-- `ext2_lookup_ino` of kext/ext2_lookup.c, as it is called with `dd_ino`: the inode of a name, and
-- what it leaves in the directory's inode for the operation that follows.
pub mod Names
pub mod Walk
use ext2fs.Base.{
  ℕ, ◌+◌, ◌-◌, ◌*◌, ◌/◌, ◌%◌, Bool, true, false, Option, none, some, List, ◌&&◌, not, ltb, leb,
  ◌==◌, if◌then◌else◌, length,
}
use ext2fs.Dir.{
  Entry, Errno, eio, enoent, eisdir, ejustreturn, Dirnode, Blocks, dir_rec_len, needs, roundup,
}
use ext2fs.Dir.Search.{
  slot_none, slot_found, no_slot, Slot, offset_or, Scan, hit, through, io_error, dirbad, wild,
  Sought, search,
}

-- `nameiop`: LOOKUP, CREATE, DELETE and RENAME.
pub data Nameiop : Type 0 where
  op_lookup : Nameiop
  op_create : Nameiop
  op_delete : Nameiop
  op_rename : Nameiop

abbrev pub is_lookup : Nameiop → Bool
is_lookup op_lookup = true
is_lookup op = false

abbrev pub places : Nameiop → Bool
places op_create = true
places op_rename = true
places op = false

-- What a lookup is asked for: the operation, whether the name is the last of its path (ISLASTCN), and
-- the name.
pub record Wanted : Type 0 where
  pub nameiop : Nameiop
  pub islastcn : Bool
  pub name : List ℕ

-- What it depends on of the mount: `e2fs_bsize`, `e2fs_icount`, whether it is read-only, and `dirchk`.
pub record Volume : Type 0 where
  pub bsize : ℕ
  pub icount : ℕ
  pub rdonly : Bool
  pub dirchk : Bool

-- How it ends: with an inode number, an error, the panic of `ext2_dirbad`, or a read outside a block.
pub data Looked : Type 0 where
  found_ino : ℕ → Dirnode → Looked
  refused : Errno → Dirnode → Looked
  bad_dir : Looked
  outside : Looked

-- The blocks that a directory has.
abbrev pub block_count : Volume → Dirnode → ℕ
block_count v dp = roundup dp.size v.bsize / v.bsize

module _ (v : Volume) (w : Wanted) where
  -- Whether room for the name is searched for as well.
  abbrev pub for_room : Bool
  for_room = places w.nameiop && w.islastcn

  abbrev pub sought : Sought
  sought = record {
    bsize = v.bsize;
    icount = v.icount;
    dirchk = v.dirchk;
    rdonly = v.rdonly;
    needed = if for_room then dir_rec_len (length w.name) else 0;
    name = w.name;
  }

  abbrev pub slot_start : Slot
  slot_start = record {
    status = if for_room then slot_none else slot_found;
    offset = none;
    size = 0;
    free = 0;
  }

  -- The block at which the search begins. `i_diroff` lies at the start of a block.
  abbrev pub start_block : Dirnode → ℕ
  start_block dp =
      if not (is_lookup w.nameiop)
      then 0
      else if dp.diroff == 0
      then 0
      else if ltb dp.size dp.diroff
      then 0
      else dp.diroff / v.bsize

  -- The place for a new entry, in the directory's inode.
  unfoldable pub leave_place : ℕ → Slot → Dirnode → Dirnode
  leave_place useful s dp =
      let end = roundup dp.size v.bsize in
      let start = offset_or s.offset 0 in
      let useful' = if ltb useful (start + s.size) then start + s.size else useful in
      if no_slot s.status
      then record dp { offset = end; count = 0; endoff = roundup end v.bsize }
      else record dp { offset = start; count = s.size; endoff = roundup useful' v.bsize }

  -- The label `notfound`.
  unfoldable pub notfound : ℕ → Slot → Dirnode → Looked
  notfound useful s dp =
      if for_room && not (dp.nlink == 0)
      then refused ejustreturn (leave_place useful s dp)
      else refused enoent dp

  -- The label `found`: the operation's own ending, with the entry at `off` and `prevoff`.
  unfoldable pub found_end : Entry → ℕ → ℕ → Dirnode → Looked
  found_end e off prev dp = if not w.islastcn then found_ino e.ino dp else elim (w.nameiop) [
    | op_lookup ↦ found_ino e.ino (record dp { diroff = off / v.bsize * v.bsize })
    | op_create ↦ found_ino e.ino dp
    | op_delete ↦
        found_ino e.ino
          (record dp { offset = off; count = if off % v.bsize == 0 then 0 else off - prev })
    | op_rename ↦
        if dp.number == e.ino
        then refused eisdir (record dp { offset = off })
        else found_ino e.ino (record dp { offset = off })
  ]

  -- Before it, in the first of two passes only, the test of `i_size`.
  unfoldable pub found_sized : Entry → ℕ → ℕ → Dirnode → Looked
  found_sized e off prev dp =
      let end = off % v.bsize + needs e in
      if start_block dp == 0
      then found_end e off prev dp
      else if ltb off dp.diroff
      then found_end e off prev dp
      else if leb end dp.size
      then found_end e off prev dp
      else if v.rdonly
      then found_end e off prev (record dp { size = end; changed = true; updated = true })
      else bad_dir

  unfoldable pub lookup_ino : Dirnode → Blocks → Looked
  lookup_ino dp blocks =
      elim (search sought blocks (block_count v dp) (start_block dp) slot_start) [
        | hit e off prev ↦ found_sized e off prev dp
        | through prev useful s ↦ notfound useful s dp
        | io_error ↦ refused eio dp
        | dirbad ↦ bad_dir
        | wild ↦ outside
      ]
