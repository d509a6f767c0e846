-- ===== src/Tests/Alloc.antt =====
-- The bitmap searches and the calls for one group, on the small volume.
use ext2fs.Base.{ℕ, ◌<◌, ◌≡◌, refl, true, false, none, some, List, [], ◌∷◌, arith}
use ext2fs.Base.Bits.{isset, isclr, setbit, count_clear, IsMap}
use ext2fs.Base.Int.{pos}
use ext2fs.Geometry.{fsbtodb, dtog, dtogd}
use ext2fs.Alloc.State.{Fs, done}
use ext2fs.Alloc.Scan.{
  scan_byte, fls, ffs, memcchr, start_of, mapsearch, find_block, find_node, find_run,
}
use ext2fs.Alloc.Block.{blkfree, block_of}
use ext2fs.Alloc.Block.Consistent.{IsValid}
use ext2fs.Alloc.Block.Outcome.{map_of, Took}
use ext2fs.Alloc.Block.Free.{blkfree-alloccg}
use ext2fs.Tests.Volume.{
  volume, volume_sound, mounted, state, first_sound, second_sound, held, quiet, fair,
}

-- A bitmap with the bits 0, 1 and 3 set.
abbrev map : List ℕ
map = 11 ∷ []

map_ok : IsMap map
map_ok = (omega arith, tt)

abbrev after : Fs
after = record held { locked = true }

search_run : find_block volume map 0 0 ≡ some 2
unfolding find_block start_of dtog scan_byte fls memcchr ffs
search_run = refl

some_clear : 0 < count_clear map 8
unfolding count_clear isset
some_clear = omega arith

in_second : dtog volume 14 ≡ 1
unfolding dtog
in_second = refl

clear_there : dtogd volume 14 ≡ pos 5
unfolding dtogd
clear_there = refl

search_node : find_node 8 map 3 ≡ some 2
unfolding find_node isclr memcchr ffs
search_node = refl

full_ok : IsMap (255 ∷ [])
full_ok = (omega arith, tt)

-- In groups of 16 blocks from block 9 on, no search begins at the place of block 1.
search_before : mapsearch (record volume { first_dblock = 9; bpg = 16 }) (0 ∷ []) 1 ≡ none
unfolding mapsearch start_of dtogd
search_before = refl

search_full : mapsearch volume (255 ∷ []) 3 ≡ none
unfolding mapsearch start_of memcchr dtogd
search_full = refl

-- Bits 4 to 11 of three bytes are the first eight that are clear in a row.
abbrev gap : List ℕ
gap = 15 ∷ 240 ∷ 255 ∷ []

gap_ok : IsMap gap
gap_ok = (omega arith, (omega arith, (omega arith, tt)))

search_gap : find_run gap 3 0 0 0 ≡ some 4
unfolding find_run scan_byte fls ffs
search_gap = refl

-- Block 2 of the volume is bit 1 of the first group, in use; bit 4 is not.
there : (bno : ℕ) → bno < 8 → block_of volume 0 bno < 17
unfolding block_of
there bno b = omega arith

used : isset (map_of volume (mounted false) 0) 1 ≡ true
unfolding isset fsbtodb
used = refl

unused : isset (map_of volume (mounted false) 0) 4 ≡ false
unfolding isset fsbtodb
unused = refl

-- The state after block 3, bit 2 of the first group, was taken.
taken : Took volume (mounted false) (state false 7 5 12) 0 2
unfolding isset fsbtodb setbit
taken = record { place = omega arith; was_free = refl; map = refl; group = refl; total = refl }

blkfree-alloccg_example :
    (fs'' : Fs) × (blkfree volume quiet (block_of volume 0 2) (state false 7 5 12) ≡ done tt fs'')
    × IsValid volume fs''
    × (map_of volume fs'' 0 ≡ map_of volume (mounted false) 0)
    × ((fs''.gd 0).nbfree ≡ ((mounted false).gd 0).nbfree)
    × (fs''.fbcount ≡ (mounted false).fbcount)
blkfree-alloccg_example =
    blkfree-alloccg volume volume_sound quiet fair (mounted false) (state false 7 5 12) first_sound
      second_sound 0 2 (omega arith) (omega arith) (there 2 (omega arith)) taken refl refl
