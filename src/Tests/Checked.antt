-- ===== src/Tests/Checked.antt =====
-- A check of the volume of two groups, of which nothing is known but the root directory.
use ext2fs.Base.{
  ℕ, ◌<◌, ◌≡◌, ◌≢◌, refl, true, false, some, [], ◌∷◌, ◌==◌, if◌then◌else◌, arith, Bool-cases, inl,
  inr,
}
use ext2fs.Geometry.{fsbtodb}
use ext2fs.Alloc.Block.Consistent.{IsConsistent}
use ext2fs.Alloc.Node.Consistent.{IsNodes}
use ext2fs.Fsck.{device, InodeState, ustate, dstate, bad, Found, Image, zeroed, pass5}
use ext2fs.Fsck.Agrees.{state_on, pass5-IsConsistent}
use ext2fs.Fsck.Again.{pass5-pass5}
use ext2fs.Fsck.Rebuilt.{Ready, Rebuilt}
use ext2fs.Tests.Volume.{volume, volume_sound, first_group, second_group, held}

abbrev state_of : ℕ → InodeState
state_of j = if j == 2 then dstate else ustate

abbrev found : Found
found = record {
  icount = 16;
  blockmap = 0xff ∷ 0xff ∷ 0x01 ∷ [];
  statemap = state_of;
  answer = λ q. true;
}

-- Every counter is 0 and every map is zeroed.
abbrev damaged : Image
damaged = record {
  gd = λ a. if a == 0 then first_group 0 else second_group;
  disk = λ b. zeroed 1024;
  fbcount = 0;
  ficount = 0;
  sb_dirty = false;
}

state_of-known : (j : ℕ) → state_of j ≢ bad
state_of-known j = elim (Bool-cases (j == 2)) [
  | inl root ↦ rw root (λ e. cc)
  | inr free ↦ rw free (λ e. cc)
]

damaged-Ready : Ready volume found damaged
unfolding device fsbtodb
damaged-Ready = record {
  sound = volume_sound;
  block_map = omega arith;
  inode_map = omega arith;
  numbers = omega arith;
  inodes = omega arith;
  b_device = λ a l. grind arith;
  i_device = λ a l. grind arith;
  known = λ j h k. state_of-known j;
  yes_to = λ q. refl;
  blocks_apart = λ a b h k ne. ground (arith, h, k, ne);
  inodes_apart = λ a b h k ne. ground (arith, h, k, ne);
  kinds_apart = λ a b h k. ground (arith, h, k);
}

pass5-IsConsistent_example :
    (w : Image) × (pass5 volume found damaged ≡ some w)
    × IsConsistent volume w.gd w.disk w.fbcount
    × IsNodes volume (state_on held w)
    × ((a : ℕ) → a < 2 → Rebuilt volume found damaged a w)
pass5-IsConsistent_example = pass5-IsConsistent volume found damaged damaged-Ready held

pass5-pass5_example :
    (w : Image) × (pass5 volume found damaged ≡ some w) × (pass5 volume found w ≡ some w)
pass5-pass5_example = pass5-pass5 volume found damaged damaged-Ready
