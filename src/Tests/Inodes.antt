-- ===== src/Tests/Inodes.antt =====
-- An inode of the disk and back, and a hash of two chains.
use ext2fs.Base.{ℕ, ◌+◌, ◌≡◌, refl, Bool, true, false, Option, some, List, [], ◌∷◌, arith}
use ext2fs.InodeConv.{Dinode, Incore, Features, ei2i, i2ei}
use ext2fs.InodeConv.RoundTrip.{IsPlain, i2ei-ei2i}
use ext2fs.Ihash.{Hashed, Ihash, resident, walk, attempt}

abbrev features : Features
features = record { has_xtime = true; has_huge_file = true; fsbtodb_shift = 1 }

-- A regular file with EXT2_IMMUTABLE, EXT2_NODUMP and EXT4_EXTENTS, above 4 GB.
abbrev dinode : Dinode
dinode = record {
  mode = 33188;
  uid = 501;
  size = 77;
  atime = 1;
  ctime = 2;
  mtime = 3;
  dtime = 0;
  gid = 20;
  nlink = 1;
  nblock = 8;
  flags = 524288 + 16 + 64;
  blocks = 1 ∷ 2 ∷ 3 ∷ 4 ∷ 5 ∷ 6 ∷ 7 ∷ 8 ∷ 9 ∷ 10 ∷ 11 ∷ 12 ∷ 13 ∷ 14 ∷ 15 ∷ [];
  gen = 9;
  size_high = 1;
  nblock_high = 1;
  ctime_extra = 4;
  mtime_extra = 8;
  atime_extra = 12;
  crtime = 5;
  crtime_extra = 16;
}

dinode-IsPlain : IsPlain features dinode
dinode-IsPlain = record {
  links = λ e. omega (arith, e);
  dtime_zero = refl;
  uid_small = omega arith;
  gid_small = omega arith;
  size_small = omega arith;
  size_high_small = omega arith;
  nblock_small = omega arith;
  nblock_high_small = omega arith;
  no_high = λ e. absurd (cc e);
  known = refl;
  ctime_extra_ok = omega arith;
  ctime_extra_ns = refl;
  mtime_extra_ok = omega arith;
  mtime_extra_ns = refl;
  atime_extra_ok = omega arith;
  atime_extra_ns = refl;
  crtime_extra_ok = omega arith;
  crtime_extra_ns = refl;
}

abbrev fresh : Incore
fresh = record {
  i_flag = 2;
  i_mode = 0;
  i_nlink = 0;
  i_uid = 0;
  i_gid = 0;
  i_size = 0;
  i_blocks = 0;
  i_atime = 0;
  i_mtime = 0;
  i_ctime = 0;
  i_birthtime = 0;
  i_mtimensec = 0;
  i_atimensec = 0;
  i_ctimensec = 0;
  i_birthnsec = 0;
  i_gen = 0;
  append_flag = false;
  immutable_flag = false;
  nodump_flag = false;
  i_db = [];
  i_ib = [];
}

i2ei-ei2i_example : i2ei features (ei2i features dinode fresh) dinode ≡ dinode
i2ei-ei2i_example = i2ei-ei2i features dinode dinode-IsPlain fresh refl refl

-- Inode 5 of mount 1024 is in core on vnode 40.
abbrev entry : ℕ → Bool → Hashed
entry ip linked = record {
  i_number = ip;
  i_ump = 1024;
  i_vnode = some (ip + 35);
  i_vid = 3;
  linked = linked;
}

abbrev hash : List ℕ → Ihash
hash chain = record { there = true; mask = 0; inodes = λ ip. entry ip true; chain = λ h. chain }

abbrev always : ℕ → ℕ → ℕ → Bool
always n vp vid = true

found_there : attempt (λ n. hash (4 ∷ 5 ∷ [])) always 1024 5 1 0 ≡ some (some 40)
unfolding attempt resident walk
found_there = refl

abbrev answer : Option ℕ
answer = some 40
