-- ===== src/Tests/Links.antt =====
-- Links on a directory, inode 2, with the files 11 and 12 and the directories 13 and 14, which has a
-- directory 15. What the directories hold is the number of entries that name each inode.
use ext2fs.Base.{
  ℕ, ◌+◌, ◌*◌, ◌^◌, ◌≡◌, refl, true, false, ◌||◌, Option, none, some, [], ◌∷◌, ◌==◌, if◌then◌else◌,
  arith,
}
use ext2fs.Vnops.{World, Errno, failed, Name, Calls, done, link}
use ext2fs.Vnops.Attributes.{Attr, setattr}
use ext2fs.Vnops.Attributes.Secure.{EndsSecure, setattr-Secure}
use ext2fs.Vnops.Create.{Cred, refused, mkdir}
use ext2fs.Vnops.Links.{EndsLinked, link-EndsLinked}
use ext2fs.Vnops.Made.{mkdir-leaks}

abbrev Dirs : Type 0
Dirs = ℕ → ℕ

plus : ℕ → Dirs → Dirs
plus a d i = if i == a then d i + 1 else d i

-- No entry is removed or rewritten in these runs.
abbrev driver : Option Errno → Calls Dirs
driver written = record {
  valloc = λ dvp mode d. (if d 20 == 0 then some 20 else none, d);
  update = λ j d. (written, d);
  direnter = λ ino dir name d. (none, plus ino d);
  dirremove = λ dir name d. (some failed, d);
  dirrewrite = λ dir ino name d. (some failed, d);
  dirempty = λ x p d. true;
  checkpath = λ s t d. (none, d);
  truncate = λ x d. (none, d);
  balloc = λ j d. (none, d);
  write_template = λ ino dvp d. (none, plus dvp (plus ino d));
  read_dotdot = λ x d. some (record { ino = 2; ftype = 2; dots = true });
  write_dotdot = λ ino dvp d. (some failed, d);
  write_link = λ i target d. (none, d);
}

abbrev refs : Dirs → ℕ → ℕ
refs d = d

abbrev holds : Dirs
holds i =
    if i == 2
    then 4
    else if i == 11
    then 1
    else if i == 12
    then 1
    else if i == 13
    then 2
    else if i == 14
    then 3
    else if i == 15
    then 2
    else 0

abbrev world : World Dirs
world = record {
  nodes = λ i. record {
    mode = if i == 2 || i == 13 || i == 14 || i == 15 then 4 * 2 ^ 12 else 8 * 2 ^ 12;
    nlink = holds i;
    uid = 0;
    gid = 0;
    immutable = false;
    append = false;
    renaming = false;
    changed = false;
  };
  dirs = holds;
  puts = [];
}

abbrev calls : Calls Dirs
calls = driver none

abbrev cred : Cred
cred = record { user = 501; member = λ g. false }

abbrev name_b : Name
name_b = b'b' ∷ []

abbrev name_c : Name
name_c = b'c' ∷ []

-- The file `a` in the root directory under a second name.
link-EndsLinked_example :
    EndsLinked (driver none) world 11 2 name_b (link (driver none) 11 2 name_b world)
link-EndsLinked_example = link-EndsLinked (driver none) world 11 2 name_b

-- A device that cannot be written.
mkdir-leaks_example :
    (w' : World Dirs) × (mkdir (driver (some failed)) cred 493 2 name_c world
      ≡ done (refused failed) w')
    × ((w'.nodes 20).nlink ≡ 0)
    × ((w'.nodes 2).nlink ≡ 5)
    × ((j : ℕ) → w'.dirs j ≡ holds j)
mkdir-leaks_example =
    mkdir-leaks (driver (some failed)) cred refs (λ dvp mode d i. refl) (λ j d i. refl) world 2 493
      name_c 20 failed refl (λ e. absurd (omega (arith, e))) (omega arith) (λ d. refl)

-- A file that is given to another user.
abbrev given : Attr
given = record { flags = none; uid = some 7; gid = none; size = none; times = false; mode = none }

setattr-Secure_example :
    EndsSecure calls false 11 (world.nodes 11) (setattr calls false 11 given world)
setattr-Secure_example = setattr-Secure calls false 11 given refl world
