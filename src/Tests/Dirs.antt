-- ===== src/Tests/Dirs.antt =====
-- A directory of one block, and the theorems on directories applied to it.
use ext2fs.Base.{
  ℕ, suc, ◌-◌, ◌≡◌, ◌↔◌, refl, true, false, none, some, List, [], ◌∷◌, ◌==◌, if◌then◌else◌, All,
  arith,
}
use mathlib.Core.List.{cons≢nil}
use ext2fs.Dir.{Entry, einval, Dirnode, Blocks, returned}
use ext2fs.Dir.Chain.{live}
use ext2fs.Dir.Lookup.{Nameiop, Wanted, Volume}
use ext2fs.Dir.Lookup.Names.{Names}
use ext2fs.Dir.Enter.{Calls}
use ext2fs.Dir.Remove.{Tree, dirempty, checkpath}
use ext2fs.Dir.Remove.Checked.{IsDots, all_read, is_above, dirempty-IsDots, checkpath-is_above}

abbrev volume : Volume
volume = record { bsize = 64; icount = 100; rdonly = false; dirchk = false }

abbrev dot : Entry
dot = record { ino = 5; reclen = 12; ftype = 2; name = 46 ∷ [] }

abbrev dotdot : Entry
dotdot = record { ino = 2; reclen = 12; ftype = 2; name = 46 ∷ 46 ∷ [] }

abbrev notes : Entry
notes = record { ino = 7; reclen = 40; ftype = 1; name = 97 ∷ 98 ∷ [] }

abbrev one_block : Blocks
one_block b = if b == 0 then some (dot ∷ dotdot ∷ notes ∷ []) else none

abbrev folder : Dirnode
folder = record {
  number = 5;
  size = 64;
  nlink = 2;
  diroff = 0;
  offset = 0;
  count = 0;
  endoff = 0;
  changed = false;
  updated = false;
}

abbrev wanted : Nameiop → List ℕ → Wanted
wanted op name = record { nameiop = op; islastcn = true; name = name }

abbrev calls : Calls
calls = record {
  ftype_feature = true;
  f_bsize = 64;
  append = none;
  write = none;
  cut = λ length dp blocks. returned none (record dp { size = length }) blocks;
}

dirempty-IsDots_example :
    (dirempty 2 (all_read (dot ∷ dotdot ∷ [])) ≡ true) ↔ All (IsDots 2) (live (dot ∷ dotdot ∷ []))
dirempty-IsDots_example =
    dirempty-IsDots 2 (dot ∷ dotdot ∷ []) (omega arith, (omega arith, tt))
      (cons≢nil, (cons≢nil, tt))

-- Every directory lies in the next lower one, down to the root.
abbrev tower : Tree
tower = record {
  is_dir = λ x. true;
  dotdot = λ x. some (record { ino = x - 1; ftype = 2; name0 = 46; name1 = 46 });
  vget = λ x. none;
}

checkpath-is_above_example :
    checkpath tower 4 (suc 3) 5 ≡ some (if is_above (λ x. x - 1) 4 3 5 then some einval else none)
checkpath-is_above_example =
    checkpath-is_above tower (λ x. x - 1) 4 (λ x. (refl, refl, refl)) 2 3 5 (omega arith)
      (omega arith, (omega arith, (omega arith, refl))) refl
