-- ===== src/Tests/Truncated.antt =====
-- A file with direct, single and double indirect blocks on small blocks of pointers.
use ext2fs.Base.{
  ℕ, ◌≡◌, refl, Bool, true, false, Option, none, some, List, [], ◌∷◌, ◌==◌, if◌then◌else◌,
  replicate,
}
use ext2fs.Truncate.{nothing, indirtrunc}
use ext2fs.Truncate.Call.{File, Calls}

-- Blocks of two pointers: 50 is a single indirect block, 60 a double one.
abbrev device : ℕ → Option (List ℕ)
device bn =
    if bn == 60
    then some (50 ∷ 70 ∷ [])
    else if bn == 50
    then some (51 ∷ 52 ∷ [])
    else if bn == 70
    then some (0 ∷ 72 ∷ [])
    else some (0 ∷ 0 ∷ [])

abbrev writable : ℕ → Bool
writable bn = true

-- All blocks behind the first two data blocks go, the last of them first.
indirtrunc_run : (indirtrunc 2 8 device writable 1 60 (some 1)).freed ≡ 72 ∷ 70 ∷ []
unfolding indirtrunc
indirtrunc_run = refl

abbrev pointers : List ℕ
pointers = 31 ∷ 0 ∷ 33 ∷ replicate 9 0

abbrev file : File
file = record {
  size = 15000;
  blocks = 64;
  db = pointers;
  ib = 0 ∷ 60 ∷ 0 ∷ [];
  extents = false;
  symlink = false;
  changed = false;
  updated = false;
}

abbrev calls : Calls
calls = record {
  balloc = λ lbn f. some f;
  update = λ f. none;
  invalidate = none;
  ext_truncate = λ size f. (none, f, nothing);
}
