-- ===== src/Dir/Search.antt =====
-- The search loop of `ext2_lookup_ino` in kext/ext2_lookup.c: for a name, and for room for it.
pub mod Walk
pub mod See
pub mod Places
use ext2fs.Base.{
  ℕ, zero, suc, ◌+◌, ◌-◌, ◌*◌, ◌/◌, ◌%◌, ◌^◌, Bool, true, false, Option, none, some, List, [], ◌∷◌,
  ◌&&◌, ◌||◌, not, ltb, leb, ◌==◌, if◌then◌else◌, length,
}
use ext2fs.Dir.{Entry, needs, same_name, dirbadentry}
use ext2fs.Dir.Chain.{spare}

-- `slotstatus`: NONE, COMPACT and FOUND.
pub data Status : Type 0 where
  slot_none : Status
  slot_compact : Status
  slot_found : Status

abbrev pub no_slot : Status → Bool
no_slot slot_none = true
no_slot slot_compact = false
no_slot slot_found = false

-- `slotstatus`, `slotoffset` (`none` for -1), `slotsize` and `slotfreespace`.
pub record Slot : Type 0 where
  pub status : Status
  pub offset : Option ℕ
  pub size : ℕ
  pub free : ℕ

abbrev pub offset_or : Option ℕ → ℕ → ℕ
offset_or none off = off
offset_or (some o) off = o

-- An entry at `off` is looked at for room of `needed` bytes.
abbrev pub accumulate : ℕ → Entry → ℕ → Slot → Slot
accumulate needed e off s =
    let start = offset_or s.offset off in
    if leb needed (s.free + spare e)
    then record {
      status = slot_compact;
      offset = some start;
      size = off + e.reclen - start;
      free = s.free + spare e;
    }
    else record { status = slot_none; offset = some start; size = s.size; free = s.free + spare e }

unfoldable pub see : ℕ → Entry → ℕ → Slot → Slot
see needed e off s =
    let fits : Slot = record {
      status = slot_found;
      offset = some off;
      size = e.reclen;
      free = s.free;
    } in
    if spare e == 0 then s else elim (s.status) [
      | slot_found ↦ s
      | slot_compact ↦ if leb needed (spare e) then fits else s
      | slot_none ↦ if leb needed (spare e) then fits else accumulate needed e off s
    ]

-- At the start of a block the search for room begins again.
unfoldable pub reset : Slot → Slot
reset s = elim (s.status) [
  | slot_none ↦ record s { offset = none; free = 0 }
  | slot_compact ↦ s
  | slot_found ↦ s
]

-- The end of a search: an entry with the name, with its offset and `prevoff`; the end of what was to be
-- searched, with `prevoff`, `enduseful` and the slot; an error of a read; the panic of `ext2_dirbad`;
-- or an entry that reaches past its block, behind which the code reads outside the buffer.
pub data Scan : Type 0 where
  hit : Entry → ℕ → ℕ → Scan
  through : ℕ → ℕ → Slot → Scan
  io_error : Scan
  dirbad : Scan
  wild : Scan

-- What the search depends on: the size of a block, `e2fs_icount`, `dirchk`, whether the mount is
-- read-only, and the name.
pub record Sought : Type 0 where
  pub bsize : ℕ
  pub icount : ℕ
  pub dirchk : Bool
  pub rdonly : Bool
  pub needed : ℕ
  pub name : List ℕ

module _ (q : Sought) where
  abbrev pub mangled : Entry → ℕ → Bool
  mangled e off = (e.reclen == 0) || (q.dirchk && dirbadentry q.bsize q.icount e off)

  abbrev pub matches : Entry → Bool
  matches e = not (e.ino == 0) && same_name e.name q.name

  -- The rest of a block that begins at `base`, from `off` in it on.
  unfoldable pub scan_block : ℕ → List Entry → ℕ → ℕ → ℕ → Slot → Scan
  scan_block base [] off prev useful s = if off == q.bsize then through prev useful s else wild
  scan_block base (e ∷ rest) off prev useful s =
      let s' = see q.needed e (base + off) s in
      let next = base + off + e.reclen in
      let after =
        scan_block base rest (off + e.reclen) (base + off) (if e.ino == 0 then useful else next)
          s' in
      if off == q.bsize
      then through prev useful s
      else if ltb q.bsize off
      then wild
      else if mangled e off
      then (if q.rdonly then through prev useful s else dirbad)
      else if matches e
      then hit e (base + off) prev
      else after

  -- `k` blocks from block `b` on; `read` is `ext2_blkatoff`.
  unfoldable pub scan_blocks : (ℕ → Option (List Entry)) → ℕ → ℕ → ℕ → ℕ → Slot → Scan
  scan_blocks read zero b prev useful s = through prev useful s
  scan_blocks read (suc k) b prev useful s = elim (read b) [
    | none ↦ io_error
    | some chain ↦ elim (scan_block (b * q.bsize) chain 0 prev useful (reset s)) [
      | hit e off p ↦ hit e off p
      | through p u s' ↦ scan_blocks read k (b + 1) p u s'
      | io_error ↦ io_error
      | dirbad ↦ dirbad
      | wild ↦ wild
    ]
  ]

  -- Both passes over `n` blocks: from block `start` to the end, then up to `start`.
  unfoldable pub search : (ℕ → Option (List Entry)) → ℕ → ℕ → Slot → Scan
  search read n start s = elim (scan_blocks read (n - start) start (start * q.bsize) 0 s) [
    | hit e off p ↦ hit e off p
    | through p u s' ↦ if start == 0 then through p u s' else scan_blocks read start 0 p u s'
    | io_error ↦ io_error
    | dirbad ↦ dirbad
    | wild ↦ wild
  ]
