-- ===== src/Tests/Requests.antt =====
-- Requests for a block, on the small volume.
use ext2fs.Base.{true, ◌<◌, ◌≡◌, refl, inl, false, arith}
use ext2fs.Geometry.{IsSound, Geometry, ino_to_cg}
use ext2fs.Alloc.State.{lock_error}
use ext2fs.Alloc.Request.{alloc}
use ext2fs.Alloc.Request.Served.{Served, alloc-Served}
use ext2fs.Alloc.Policy.{suits, max_contig_dirs, dirpref}
use ext2fs.Alloc.Policy.Chosen.{dirpref-suits}
use ext2fs.Extents.Map.{new_block}
use ext2fs.Extents.Locks.{new_block_lem}
use ext2fs.Tests.Volume.{
  volume, volume_sound, mounted, held, quiet, fair, boot, boot_held, first_sound, ready, file,
}

home : ino_to_cg volume file.number < volume.gcount
unfolding ino_to_cg
home = omega arith

alloc-Served_example :
    Served volume volume_sound quiet fair boot held file 7 (alloc volume quiet file 7 5 1024 0 held)
alloc-Served_example =
    alloc-Served volume volume_sound quiet fair boot (omega arith) file home (omega arith) 7 5 1024
      0 held (inl (omega arith)) ready

new_block_lem_example : new_block volume quiet file 0 (mounted false) ≡ lock_error
new_block_lem_example =
    new_block_lem volume volume_sound quiet fair boot (omega arith) file home (omega arith) 0
      (mounted false) first_sound refl boot_held

-- With 32 inodes to a group there is room for another directory.
abbrev wide : Geometry
wide = record volume { ipg = 32 }

wide_sound : IsSound wide
wide_sound = record {
  same_group_size = refl;
  whole_bytes = refl;
  fpg_pos = omega arith;
  ipg_bytes = refl;
  ipg_pos = omega arith;
  gcount_pos = omega arith;
  fpg_small = omega arith;
  ipg_small = omega arith;
  blocks_fit = omega arith;
  inodes_fit = omega arith;
}

wide_home : ino_to_cg wide file.number < 2
unfolding ino_to_cg
wide_home = omega arith

second_suits : suits wide held 1 ≡ true
unfolding suits max_contig_dirs
second_suits = refl

dirpref-suits_example : suits wide held (dirpref wide held file false 0) ≡ true
dirpref-suits_example =
    dirpref-suits wide wide_sound held file wide_home 1 0 (omega arith) second_suits
