-- ===== src/Dir/Enter.antt =====
-- `ext2_direnter` of kext/ext2_lookup.c.
pub mod Compact
pub mod Slot
use ext2fs.Base.{
  ℕ, zero, suc, ◌+◌, ◌-◌, ◌*◌, ◌/◌, ◌%◌, ◌^◌, Bool, true, false, Option, none, some, List, [], ◌∷◌,
  ◌++◌, ◌&&◌, not, ltb, leb, ◌==◌, if◌then◌else◌,
}
use ext2fs.Dir.{
  Entry, Errno, eio, Dirnode, Blocks, put_block, Outcome, needs, type_for, roundup, returned,
  panicked, astray,
}

-- How the change of a block ends: the chain as it stands in the buffer, a panic, or a step to where no
-- entry begins.
pub data Entered : Type 0 where
  entered : List Entry → Entered
  no_room : Entered
  off_chain : Entered

abbrev pub on_entered : (List Entry → List Entry) → Entered → Entered
on_entered f (entered es) = entered (f es)
on_entered f no_room = no_room
on_entered f off_chain = off_chain

-- The new entry in the `spacefree` bytes behind `ep`, or over `ep` where that is free. A field
-- `e2d_reclen` has 16 bits.
unfoldable pub put_entry : Entry → Entry → ℕ → Entered
put_entry new ep spacefree =
    if ep.ino == 0
    then (if ltb (spacefree + needs ep) (needs new)
        then no_room
        else entered (record new { reclen = (spacefree + needs ep) % 2 ^ 16 } ∷ []))
    else if ltb spacefree (needs new)
    then no_room
    else entered (record ep { reclen = needs ep } ∷ record new { reclen = spacefree % 2 ^ 16 } ∷ [])

-- The loop: `ep` is the entry at hand, and `loc` is where the next one begins.
unfoldable pub compact : Entry → ℕ → Entry → ℕ → ℕ → List Entry → Entered
compact new count ep spacefree loc [] =
    if ltb loc count then off_chain else put_entry new ep spacefree
compact new count ep spacefree loc (nep ∷ rest) =
    let gained = if ep.ino == 0 then needs ep else 0 in
    let later =
      compact new count nep (spacefree + gained + (nep.reclen - needs nep)) (loc + nep.reclen)
        rest in
    if not (ltb loc count)
    then on_entered (λ es. es ++ (nep ∷ rest)) (put_entry new ep spacefree)
    else if ep.ino == 0
    then later
    else on_entered (λ es. record ep { reclen = needs ep } ∷ es) later

-- The compaction of the part of a block that begins with `ep`.
abbrev pub squeeze : Entry → ℕ → List Entry → Entered
squeeze new count [] = off_chain
squeeze new count (ep ∷ rest) = compact new count ep (ep.reclen - needs ep) ep.reclen rest

-- What is done with a block once it is read: the entries before offset `t` stay.
unfoldable pub enter_block : Entry → ℕ → ℕ → List Entry → Entered
enter_block new count t [] = if t == 0 then squeeze new count [] else off_chain
enter_block new count t (e ∷ es) =
    let below = on_entered (λ es'. e ∷ es') (enter_block new count (t - e.reclen) es) in
    if t == 0 then squeeze new count (e ∷ es) else if ltb t e.reclen then off_chain else below

-- What the kernel and the file system say to `ext2_direnter`: the type feature, `f_bsize`, how `vn_rdwr`
-- ends, how the write of the buffer ends, and `ext2_truncate`.
pub record Calls : Type 0 where
  pub ftype_feature : Bool
  pub f_bsize : ℕ
  pub append : Option Errno
  pub write : Option Errno
  pub cut : ℕ → Dirnode → Blocks → Outcome

module _ (bsize : ℕ) (calls : Calls) where
  abbrev pub newdir : ℕ → ℕ → List ℕ → Entry
  newdir ino mode name = record {
    ino = ino;
    reclen = 0;
    ftype = type_for calls.ftype_feature mode;
    name = name;
  }

  -- No room was found: the entry is written to a new block. `vn_rdwr` has the size grow to its end.
  abbrev pub enter_fresh : Entry → Dirnode → Blocks → Outcome
  enter_fresh new dp blocks =
      let grown = if ltb dp.size (dp.offset + needs new) then dp.offset + needs new else dp.size in
      if not (dp.offset % bsize == 0)
      then panicked
      else if ltb calls.f_bsize bsize
      then panicked
      else elim (calls.append) [
        | some e ↦ returned (some e) dp blocks
        | none ↦
            returned none (record dp { size = roundup grown bsize; changed = true })
              (put_block (dp.offset / bsize) (record new { reclen = bsize % 2 ^ 16 } ∷ []) blocks)
      ]

  -- After the write of the buffer.
  abbrev pub enter_done : Dirnode → Blocks → Outcome
  enter_done dp blocks = elim (calls.write) [
    | some e ↦ returned (some e) dp blocks
    | none ↦
        if not (dp.endoff == 0) && ltb dp.endoff dp.size
        then calls.cut dp.endoff dp blocks
        else returned none dp blocks
  ]

  unfoldable pub enter_slot : Entry → Dirnode → Blocks → Outcome
  enter_slot new dp blocks =
      let end = dp.offset + dp.count in
      let dp' = if ltb dp.size end then record dp { size = end } else dp in
      elim (blocks (dp.offset / bsize)) [
        | none ↦ returned (some eio) dp' blocks
        | some chain ↦ elim (enter_block new dp.count (dp.offset % bsize) chain) [
          | entered es ↦
              enter_done (record dp' { changed = true; updated = true })
                (put_block (dp.offset / bsize) es blocks)
          | no_room ↦ panicked
          | off_chain ↦ astray
        ]
      ]

  unfoldable pub direnter : ℕ → ℕ → List ℕ → Dirnode → Blocks → Outcome
  direnter ino mode name dp blocks =
      if dp.count == 0
      then enter_fresh (newdir ino mode name) dp blocks
      else enter_slot (newdir ino mode name) dp blocks
