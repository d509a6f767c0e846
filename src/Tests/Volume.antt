-- ===== src/Tests/Volume.antt =====
-- A volume of two groups of eight blocks and eight inodes, mounted and quiet.
use ext2fs.Base.{
  ℕ, zero, suc, ◌<◌, ◌≡◌, ◌≢◌, refl, inl, Bool, true, false, [], ◌∷◌, arith, ◌==◌, if◌then◌else◌,
}
use ext2fs.Base.Bits.{isset, count_clear}
use ext2fs.Geometry.{Geometry, IsSound, fsbtodb}
use ext2fs.Alloc.State.{Group, Fs, Env}
use ext2fs.Alloc.Block.Consistent.{b_addr, IsGroup, IsValid}
use ext2fs.Alloc.Block.Outcome.{IsFair}
use ext2fs.Alloc.Node.Consistent.{HasInodes, IsNodes, i_addr}
use ext2fs.Alloc.Node.Outcome.{IsFairNodes, locked-IsNodes}
use ext2fs.Alloc.Request.Full.{IsSteady}
use ext2fs.Alloc.Valloc.Served.{IsKeeping}
use ext2fs.Alloc.Request.{Inode}
use ext2fs.Alloc.Request.Served.{BootInUse, IsReady}

abbrev pub volume : Geometry
volume = record {
  bcount = 17;
  rbcount = 0;
  first_dblock = 1;
  fpg = 8;
  bpg = 8;
  ipg = 8;
  ipb = 8;
  gcount = 2;
  bsize = 1024;
  fsize = 1024;
  bshift = 10;
  fsbtodb_shift = 1;
  contigsumsize = 2;
}

pub volume_sound : IsSound volume
volume_sound = record {
  same_group_size = refl;
  whole_bytes = refl;
  fpg_pos = omega arith;
  ipg_bytes = refl;
  ipg_pos = omega arith;
  gcount_pos = omega arith;
  fpg_small = omega arith;
  ipg_small = omega arith;
  blocks_fit = omega arith;
  inodes_fit = omega arith;
}

abbrev pub first_group : ℕ → Group
first_group nbfree = record {
  b_bitmap = 3;
  i_bitmap = 4;
  i_tables = 5;
  nbfree = nbfree;
  nifree = 6;
  ndirs = 1;
}

abbrev pub second_group : Group
second_group = record {
  b_bitmap = 11;
  i_bitmap = 12;
  i_tables = 13;
  nbfree = 7;
  nifree = 8;
  ndirs = 0;
}

-- The first group's bitmap is `byte`, with `nbfree` clear bits.
abbrev pub state : Bool → ℕ → ℕ → ℕ → Fs
state locked byte nbfree fbcount = record {
  locked = locked;
  fbcount = fbcount;
  ficount = 14;
  total_dir = 1;
  fmod = false;
  gd = λ cg. if cg == 0 then first_group nbfree else second_group;
  contigdirs = λ cg. 0;
  clustersum = λ cg. record { init = false; sum = [] };
  maxcluster = λ cg. 0;
  disk = λ blk.
      if blk == 6
      then byte ∷ []
      else if blk == 8
      then 3 ∷ []
      else if blk == 22
      then 1 ∷ []
      else 0 ∷ [];
}

abbrev pub mounted : Bool → Fs
mounted locked = state locked 3 6 13

abbrev pub held : Fs
held = mounted true

-- Reads succeed, and the others only release the mutex.
abbrev pub quiet : Env
quiet = record { read_fails = λ blk. false; others = λ fs. record fs { locked = false } }

module _ (locked : Bool) (byte nbfree : ℕ) (small : byte < 256)
    (count : nbfree ≡ count_clear (byte ∷ []) 8) where
  IsGroup-ok :
      (cg : ℕ)
      → cg < 2
      → IsGroup volume (state locked byte nbfree 0).gd (state locked byte nbfree 0).disk cg
  unfolding fsbtodb count_clear isset
  IsGroup-ok zero c = record { bytes = (small, tt); room = omega arith; count = count }
  IsGroup-ok (suc zero) c = record { bytes = (omega arith, tt); room = omega arith; count = refl }
  IsGroup-ok (suc (suc cg)) c = absurd (omega arith)

apart_ok : (a b : ℕ) → a < 2 → b < 2 → a ≢ b → b_addr volume held.gd a ≢ b_addr volume held.gd b
unfolding fsbtodb
apart_ok a b p q ne e = ground (arith, ne)

pub valid : IsValid volume held
unfolding count_clear isset
valid = record {
  groups = IsGroup-ok true 3 6 (omega arith) refl;
  total = refl;
  small = omega arith;
  apart = apart_ok;
}

pub first_sound : IsValid volume (mounted false)
first_sound = valid

pub second_sound : IsValid volume (state false 7 5 12)
unfolding count_clear isset fsbtodb
second_sound = record {
  groups = IsGroup-ok false 7 5 (omega arith) refl;
  total = refl;
  small = omega arith;
  apart = λ a b p q ne e. ground (arith, ne);
}

pub fair : IsFair volume quiet
fair = record { layout = λ fs cg. refl; unlocks = λ fs. refl; keeps = λ fs v. v }

pub boot : (fs : Fs) → BootInUse volume fs → BootInUse volume (quiet.others fs)
boot fs b = b

pub boot_held : BootInUse volume held
boot_held = inl (omega arith)

pub ready : IsReady volume held
ready = record { valid = valid; held = refl; boot = boot_held }

has_inodes : (cg : ℕ) → cg < 2 → HasInodes volume held cg
unfolding fsbtodb count_clear isset
has_inodes zero c = record { bytes = (omega arith, tt); room = omega arith; count = refl }
has_inodes (suc zero) c = record { bytes = (omega arith, tt); room = omega arith; count = refl }
has_inodes (suc (suc cg)) c = absurd (omega arith)

inodes_apart : (a b : ℕ) → a < 2 → b < 2 → a ≢ b → i_addr volume held a ≢ i_addr volume held b
unfolding fsbtodb
inodes_apart a b p q ne e = ground (arith, ne)

pub nodes : IsNodes volume held
nodes = record { groups = has_inodes; total = refl; small = omega arith; apart = inodes_apart }

pub fair_nodes : IsFairNodes volume quiet
fair_nodes = record {
  layout = λ fs cg. refl;
  unlocks = λ fs. refl;
  keeps = λ fs v. locked-IsNodes volume fs false v;
}

pub keeping : IsKeeping volume quiet
keeping = record { fair = fair_nodes; marks = λ fs cg i h. h; frees_none = λ fs a. omega arith }

pub steady : IsSteady quiet
steady = record { reads = λ blk. refl; frees_none = λ fs a. omega arith }

abbrev pub file : Inode
file = record {
  number = 2;
  block_group = 0;
  next_alloc_block = 0;
  next_alloc_goal = 0;
  blocks = 0;
  flag = 0;
}
