-- ===== src/Tests/Bmap.antt =====
-- Maps of files with four pointers to a block.
use ext2fs.Base.{ℕ, suc, ◌+◌, ◌*◌, ◌≤◌, ◌<◌, ◌≡◌, refl, some, List, [], ◌∷◌, arith, get_or}
use ext2fs.Base.Int.{pos}
use ext2fs.Bmap.{ndaddr, Indir, getlbns}
use ext2fs.Bmap.Path.{IsPath, target, getlbns-target}
use ext2fs.Bmap.Array.{Mount, Pointers, Read, data_of, mapped, bmaparray, blkptrtodb32}
use ext2fs.Bmap.Array.Run.{bmaparray_run}

getlbns-target_example :
    (path : List Indir) × (getlbns 4 (pos 40) ≡ some path) × IsPath 4 path × (target 4 path ≡ 40)
getlbns-target_example = getlbns-target 4 (omega arith) 40 (omega arith) (omega arith)

-- Four pointers with the distance 1, two of them in order behind the first.
abbrev mount : Mount
mount = record { nindir = 4; bptrtodb = 1; seqinc = 1 }

abbrev pointers : Pointers
pointers = record { db = 20 ∷ 21 ∷ 22 ∷ 40 ∷ []; ib = [] }

abbrev nothing : ℕ → Read
nothing blk = data_of []

run_found : bmaparray mount nothing 8 pointers (pos 0) ≡ mapped (some 40) 2
unfolding bmaparray getlbns
run_found = refl

bmaparray_run_example :
    (40 ≡ blkptrtodb32 mount (get_or pointers.db 0 0))
    × (2 ≤ 8)
    × (0 + suc 1 < ndaddr)
    × (get_or pointers.db (0 + suc 1) 0 ≡ get_or pointers.db 0 0 + suc 1 * mount.seqinc)
bmaparray_run_example =
    bmaparray_run mount nothing 8 pointers 0 40 2 1 (omega arith) run_found (omega arith)
