-- ===== src/Bmap.antt =====
-- kext/ext2_bmap.c: from the logical blocks of a file to device blocks, through the pointers in the
-- inode and the indirect blocks.
pub mod Path
pub mod Array
use ext2fs.Base.{
  ℕ, zero, suc, ◌+◌, ◌-◌, ◌*◌, ◌/◌, ◌%◌, ◌^◌, Bool, true, false, Option, none, some, List, [], ◌∷◌,
  ltb, ◌==◌, if◌then◌else◌,
}
use ext2fs.Base.Int.{ℤ, pos, negsuc, sub_ℕ}

-- NDADDR and NIADDR
abbrev pub ndaddr : ℕ
ndaddr = 12

abbrev pub niaddr : ℕ
niaddr = 3

-- struct indir
pub record Indir : Type 0 where
  pub lbn : ℤ
  pub off : ℕ

-- The loop that finds how many levels of indirection a block needs: the level `i`, the number of
-- data blocks below a pointer of the level before, and the block counted from the first of its
-- level. `none` is EFBIG. `n` is MNINDIR, the pointers in a block.
unfoldable pub level : ℕ → ℕ → ℕ → ℕ → Option (ℕ × ℕ × ℕ)
level n zero blockcnt bn = none
level n (suc i) blockcnt bn =
    if ltb bn (blockcnt * n)
    then some (suc i, blockcnt, bn)
    else level n i (blockcnt * n) (bn - blockcnt * n)

-- `metalbn == realbn`, where `metalbn` is -m.
abbrev pub is_meta : ℤ → ℕ → Bool
is_meta (pos b) m = false
is_meta (negsuc k) m = suc k == m

-- The last loop, with `k` rounds left and `metalbn` = -m. It quits at the block that is asked for.
unfoldable pub path_from : ℕ → ℤ → ℕ → ℕ → ℕ → ℕ → List Indir
path_from n realbn zero m blockcnt bn = []
path_from n realbn (suc k) m blockcnt bn =
    if is_meta realbn m
    then []
    else record { lbn = sub_ℕ 0 m; off = bn / blockcnt % n }
      ∷ path_from n realbn k (m + bn / blockcnt % n * blockcnt - 1) (blockcnt / n) bn

-- The path from the inode's pointer at level `i` on.
unfoldable pub path_of : ℕ → ℤ → ℕ → ℕ → ℕ → ℕ → List Indir
unfolding path_from
path_of n realbn size i blockcnt bn =
    let m = size - bn + niaddr - i in
    record { lbn = sub_ℕ 0 m; off = niaddr - i } ∷ path_from n realbn (niaddr + 1 - i) m blockcnt bn

-- `if ((long)bn < 0) bn = -(long)bn;`
abbrev pub magnitude : ℤ → ℕ
magnitude (pos b) = b
magnitude (negsuc k) = suc k

-- `ext2_getlbns`: the array `ap`, of `*nump` entries, or EFBIG. A negative block stands for a block
-- of pointers.
unfoldable pub getlbns : ℕ → ℤ → Option (List Indir)
unfolding level path_of
getlbns n realbn =
    let size = magnitude realbn in
    if ltb size ndaddr then some [] else elim (level n niaddr 1 (size - ndaddr)) [
      | none ↦ none
      | some (i, blockcnt, bn) ↦ some (path_of n realbn size i blockcnt bn)
    ]
