-- ===== src/Dir/Remove.antt =====
-- `ext2_dirremove`, `ext2_dirrewrite`, `ext2_dirempty` and `ext2_checkpath` of kext/ext2_lookup.c.
pub mod Checked
pub mod Deleted
use ext2fs.Base.{
  ℕ, zero, suc, ◌+◌, ◌-◌, ◌*◌, ◌/◌, ◌%◌, ◌^◌, Bool, true, false, Option, none, some, List, [], ◌∷◌,
  ◌&&◌, not, ltb, leb, ◌==◌, if◌then◌else◌, length, get_or,
}
use ext2fs.Dir.{
  Entry, Errno, eio, eexist, enotdir, einval, Dirnode, Blocks, put_block, Outcome, needs, type_for,
  returned, panicked, astray,
}
use ext2fs.Dir.Chain.{at_offset}

-- The first entry of a block becomes free.
abbrev pub blank : List Entry → Option (List Entry)
blank [] = none
blank (e ∷ es) = some (record e { ino = 0 } ∷ es)

-- An entry takes the space of the one behind it.
abbrev pub absorb : List Entry → Option (List Entry)
absorb [] = none
absorb (ep ∷ []) = none
absorb (ep ∷ rep ∷ es) = some (record ep { reclen = (ep.reclen + rep.reclen) % 2 ^ 16 } ∷ es)

-- The entry at hand gets another inode.
abbrev pub redirect : ℕ → ℕ → List Entry → Option (List Entry)
redirect ino ftype [] = none
redirect ino ftype (e ∷ es) = some (record e { ino = ino; ftype = ftype } ∷ es)

-- A change of the block that holds an offset; `write` is how the write of the buffer ends.
unfoldable pub edit :
    ℕ → Option Errno → (List Entry → Option (List Entry)) → ℕ → Dirnode → Blocks → Outcome
edit bsize write f o dp blocks = elim (blocks (o / bsize)) [
  | none ↦ returned (some eio) dp blocks
  | some chain ↦ elim (at_offset f (o % bsize) chain) [
    | none ↦ astray
    | some es ↦
        returned write (record dp { changed = true; updated = true })
          (put_block (o / bsize) es blocks)
  ]
]

unfoldable pub dirremove : ℕ → Option Errno → Dirnode → Blocks → Outcome
dirremove bsize write dp blocks =
    if dp.count == 0
    then edit bsize write blank dp.offset dp blocks
    else edit bsize write absorb (dp.offset - dp.count) dp blocks

unfoldable pub dirrewrite : ℕ → Option Errno → Bool → ℕ → ℕ → Dirnode → Blocks → Outcome
dirrewrite bsize write ftype_feature ino mode dp blocks =
    edit bsize write (redirect ino (type_for ftype_feature mode)) dp.offset dp blocks

-- Whether `ext2_dirempty` accepts an entry: free, "." or "..", which must be the parent.
unfoldable pub accepts : ℕ → Entry → Bool
accepts parent e =
    let namlen = length e.name in
    let c0 = get_or e.name 0 0 in
    let c1 = get_or e.name 1 0 in
    if e.ino == 0
    then true
    else if ltb 2 namlen
    then false
    else if not (c0 == 46)
    then false
    else if namlen == 1
    then true
    else (c1 == 46) && (e.ino == parent)

-- `ext2_dirempty` over the entries of the whole directory, which lie before `i_size`; an entry that
-- cannot be read, or that has no length, ends it.
unfoldable pub dirempty : ℕ → List (Option Entry) → Bool
dirempty parent [] = true
dirempty parent (none ∷ rest) = false
dirempty parent (some e ∷ rest) =
    let others = dirempty parent rest in
    if e.reclen == 0 then false else if accepts parent e then others else false

-- Of struct ext2fs_dirtemplate the half for "..", and what the kernel says of an inode on the way up:
-- whether it is a directory, the start of its first block, and whether `ext2_vget` fails.
pub record Dotdot : Type 0 where
  pub ino : ℕ
  pub ftype : ℕ
  pub name0 : ℕ
  pub name1 : ℕ

pub record Tree : Type 0 where
  pub is_dir : ℕ → Bool
  pub dotdot : ℕ → Option Dotdot
  pub vget : ℕ → Option Errno

module _ (t : Tree) (source : ℕ) where
  -- What one round of `ext2_checkpath` finds behind the entry "..": an error, the root, or the inode
  -- with which the next round goes on.
  abbrev pub look_up : Dotdot → (ℕ → Option (Option Errno)) → Option (Option Errno)
  look_up d on =
      if not (d.ftype == 2)
      then some (some enotdir)
      else if not (d.name0 == 46)
      then some (some enotdir)
      else if not (d.name1 == 46)
      then some (some enotdir)
      else if d.ino == source
      then some (some einval)
      else if d.ino == 2
      then some none
      else elim (t.vget d.ino) [ some e ↦ some (some e) | none ↦ on d.ino ]

  -- The loop, `none` where the rounds do not suffice. The code reads `namlen` from `dotdot_type`.
  unfoldable pub climb : ℕ → ℕ → Option (Option Errno)
  climb zero vp = none
  climb (suc fuel) vp =
      let on = λ (x : ℕ). climb fuel x in
      if not (t.is_dir vp)
      then some (some enotdir)
      else elim (t.dotdot vp) [ none ↦ some (some eio) | some d ↦ look_up d on ]

  unfoldable pub checkpath : ℕ → ℕ → Option (Option Errno)
  checkpath fuel target =
      if target == source
      then some (some eexist)
      else if target == 2
      then some none
      else climb fuel target
