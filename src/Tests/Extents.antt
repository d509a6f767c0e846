-- ===== src/Tests/Extents.antt =====
-- A tree of one index node and one leaf of two extents.
use ext2fs.Base.{
  true, ℕ, zero, suc, ◌+◌, ◌-◌, ◌*◌, ◌^◌, ◌<◌, ◌≤◌, ◌≡◌, ltb, refl, Option, none, some, [], ◌∷◌,
  arith, if◌then◌else◌, ◌==◌,
}
use ext2fs.Bmap.Array.{mapped}
use ext2fs.Extents.{eh_ecount, Slot, Table, at, binsearch, found, find_extent, descend, bisect}
use ext2fs.Extents.Search.{IsSorted, IsLast}
use ext2fs.Geometry.{lblkno}
use ext2fs.Truncate.Extent.{ext_truncate, removed, ext_truncate-kept}
use ext2fs.Extents.Remove.{Removed, discharge, rm_extent}
use ext2fs.Extents.Remove.Shift.{rm_extent_whole}
use ext2fs.Extents.Map.{bmapext}
use ext2fs.Extents.Offset.{
  Source, BufRead, bread_data, bread_error, on_device, in_file, Agrees, blkatoff, blkatoff-bmapext,
}
use ext2fs.Extents.Tree.{LeadsTo, bmapext_lem}
use ext2fs.Tests.Volume.{file, volume}

-- Blocks 0 to 9 at 100, blocks 12 to 16 at 200.
abbrev first_extent : Slot
first_extent = record { w0 = 0; w1 = 10; w2 = 100 }

abbrev second_extent : Slot
second_extent = record { w0 = 12; w1 = 5; w2 = 200 }

abbrev leaf : Table
leaf = record { w0 = 62218 + 2 * 2 ^ 16; w1 = 4; w2 = 0 } ∷ first_extent ∷ second_extent ∷ []

-- Depth 1, with the one index of the leaf, which stands in block 50.
abbrev root : Table
root =
    record { w0 = 62218 + 2 ^ 16; w1 = 3 + 2 ^ 16; w2 = 0 }
    ∷ record { w0 = 0; w1 = 50; w2 = 0 }
    ∷ []

abbrev node : ℕ → Option Table
node blk = if blk == 50 then some leaf else none

leaf-IsSorted : IsSorted leaf 2
leaf-IsSorted zero q a b c = absurd (omega arith)
leaf-IsSorted (suc p) zero a b c = absurd (omega arith)
leaf-IsSorted (suc zero) (suc q) a b c = omega arith
leaf-IsSorted (suc (suc zero)) (suc zero) a b c = absurd (omega arith)
leaf-IsSorted (suc (suc zero)) (suc (suc zero)) a b c = omega arith
leaf-IsSorted (suc (suc zero)) (suc (suc (suc q))) a b c = absurd (omega arith)
leaf-IsSorted (suc (suc (suc p))) (suc q) a b c = absurd (omega arith)

up_to : (q : ℕ) → 1 ≤ q → q ≤ 2 → (at leaf q).w0 ≤ 14
up_to zero a b = absurd (omega arith)
up_to (suc zero) a b = omega arith
up_to (suc (suc zero)) a b = omega arith
up_to (suc (suc (suc q))) a b = absurd (omega arith)

leaf-IsLast : IsLast leaf 14 2 2
leaf-IsLast = (omega arith, up_to, λ q a b. absurd (omega arith))

root-IsSorted : IsSorted root 1
root-IsSorted p q a b c =
    let e : p ≡ 1 = omega arith in let f : q ≡ 1 = omega arith in rw (e, f) (omega arith)

root-IsLast : IsLast root 14 1 1
root-IsLast = (
  omega arith,
  (λ q a b. let e : q ≡ 1 = omega arith in rw e (omega arith)),
  λ q a b. absurd (omega arith),
)

root-LeadsTo : LeadsTo node 14 1 root leaf
unfolding LeadsTo
root-LeadsTo = (root-IsSorted, (1, omega arith, root-IsLast, (leaf, refl, refl)))

bmapext_lem_example :
    bmapext volume node root 14 ≡ some (mapped (some ((200 + (14 - 12)) * 2 ^ 1)) 0)
bmapext_lem_example =
    bmapext_lem node 14 volume root leaf 2 refl root-LeadsTo leaf-IsSorted (omega arith) leaf-IsLast
      200 refl (omega arith) (omega arith)

-- Block 14 is read from device block 404.
abbrev device : Source → BufRead
device (on_device d) = if d == 404 then bread_data (7 ∷ 8 ∷ []) else bread_error 5
device (in_file lbn) = bread_error 5

blkatoff-bmapext_example :
    Agrees volume device 14372
      (bmapext volume node root (lblkno volume 14372))
      (blkatoff volume device true node root 14372)
blkatoff-bmapext_example = blkatoff-bmapext volume device 14372 node root

-- The first of two extents.
rm_extent_whole_example :
    (t' : Table) × (rm_extent volume file leaf (some 1) 0 0 10
      ≡ some (record {
        free_start = 100;
        free_len = 10;
        inode = discharge volume file 10;
        table = t';
      }))
    × ((q : ℕ) → 1 ≤ q → q < 2 → at t' q ≡ (if ltb q 1 then at leaf q else at leaf (q + 1)))
    × (eh_ecount (at t' 0) + 1 ≡ 2)
rm_extent_whole_example =
    rm_extent_whole volume file leaf 1 2 0 10 refl (omega arith) (omega arith) (omega arith)
      (omega arith) (omega arith)

third_block : lblkno volume 3077 ≡ 3
unfolding lblkno
third_block = refl

shallow_path :
    find_extent node (lblkno volume 3077) leaf
    ≡ some (found (record { header = leaf; ext = some 1; depth = 0 }))
unfolding find_extent descend binsearch bisect lblkno
shallow_path = refl

ext_truncate-kept_example :
    (r : Removed) × (ext_truncate volume node leaf file 15000 3077 ≡ removed r 3077)
    × (r.free_start ≡ 100)
    × (r.free_len ≡ 1)
ext_truncate-kept_example =
    ext_truncate-kept volume node leaf file 15000 3077 1 leaf refl (omega arith) (omega arith)
      shallow_path refl (omega arith) (omega arith) (rw third_block (omega arith))
      (rw third_block (omega arith))
