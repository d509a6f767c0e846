-- ===== src/Truncate/Extent.antt =====
-- `ext2_ext_truncate` of kext/ext2_inode.c, with `ext4_ext_find_extent` and `ext4_ext_rm_extent`.
use ext2fs.Base.{
  ℕ, ◌+◌, ◌-◌, ◌*◌, ◌/◌, ◌%◌, ◌^◌, ◌≤◌, ◌<◌, ◌≡◌, refl, true, false, Option, none, some, min, ltb,
  leb, ◌==◌, if◌then◌else◌, arith,
}
use native.Mathlib.Nat.{mod-lt, div-lt_iff_lt-mul, div-eq_of_lt}
use ext2fs.Geometry.{Geometry, lblkno, blkoff}
use ext2fs.Alloc.Request.{Inode}
use ext2fs.Extents.{
  Slot, Table, Path4, Sought, not_there, found, find_extent, at, e_blk, e_len, e_start_lo,
}
use ext2fs.Extents.Remove.{Removed, rm_extent, part_of}

-- How it ends: the file grew or kept its size; no extent was found, and nothing is done; EIO; or what was
-- removed, with the size then set. A tree whose depths do not fall can keep the search from ending.
pub data Cutback : Type 0 where
  as_large : ℕ → Cutback
  no_extent : Cutback
  refused : Cutback
  removed : Removed → ℕ → Cutback
  endless : Cutback

-- The number of blocks asked for: those from the block of the new end up to the end of that block.
abbrev pub blocks_cut : Geometry → ℕ → ℕ
blocks_cut g length =
    let len = (blkoff g length + g.bsize - 1) / 2 ^ g.bshift % 2 ^ 32 in if len == 0 then 1 else len

-- From a number of bytes below a block on, the whole of the first extent, and of that one block.
part_of-first :
    (g : Geometry) (ex : Slot) (lbn : ℕ)
    → e_blk ex ≡ 0
    → 1 ≤ e_len ex
    → e_start_lo ex < 2 ^ 32
    → 0 < lbn
    → lblkno g lbn ≡ 0
    → part_of g ex lbn 1 ≡ (e_start_lo ex, 1)
unfolding part_of
part_of-first g ex lbn first full lo inside zero' =
    let z : (e_start_lo ex + (0 + 2 ^ 32 - 0) % 2 ^ 32) % 2 ^ 32 ≡ e_start_lo ex = omega arith in
    let t : ltb (0 * g.bsize) lbn ≡ true = ground arith in
    let m : min 1 ((e_len ex + 2 ^ 32 - (e_start_lo ex + 2 ^ 32 - e_start_lo ex) % 2 ^ 32) % 2 ^ 32)
        ≡ 1 =
      ground arith in
    rw (first, zero', t, z, m) refl

lblkno-small : (g : Geometry) (x : ℕ) → g.bsize ≡ 2 ^ g.bshift → x < g.bsize → lblkno g x ≡ 0
unfolding lblkno
lblkno-small g x same lt = div-eq_of_lt (let h : x < 2 ^ g.bshift = rw same at lt in h)

blocks_cut-one :
    (g : Geometry) (length : ℕ) → g.bsize ≡ 2 ^ g.bshift → 0 < g.bsize → blocks_cut g length ≡ 1
unfolding blkoff
blocks_cut-one g length same pos =
    let pos' : 0 < 2 ^ g.bshift = rw same at pos in
    let lt : length % 2 ^ g.bshift < 2 ^ g.bshift = mod-lt length pos' in
    let le : (length % 2 ^ g.bshift + g.bsize - 1) / 2 ^ g.bshift < 2 =
      (div-lt_iff_lt-mul pos').1 (omega arith) in
    ground arith

module _ (g : Geometry) (read : ℕ → Option Table) (root : Table) (ip : Inode) where
  abbrev pub on_removed : ℕ → Option Removed → Cutback
  on_removed length none = refused
  on_removed length (some r) = removed r length

  abbrev pub at_extent : ℕ → Path4 → Cutback
  at_extent length p = elim (p.ext) [
    | none ↦ no_extent
    | some i ↦
        on_removed length
          (rm_extent g ip p.header (some i) p.depth (lblkno g length) (blocks_cut g length))
  ]

  abbrev pub on_path : ℕ → Option Sought → Cutback
  on_path length none = endless
  on_path length (some not_there) = no_extent
  on_path length (some (found p)) = at_extent length p

  unfoldable pub ext_truncate : ℕ → ℕ → Cutback
  ext_truncate size length =
      if leb size length
      then as_large length
      else on_path length (find_extent read (lblkno g length) root)

  -- `ext2_ext_truncate` to a length below the size, whose block is not block 0 and has a number
  -- below the block size, where the search ends at an extent of the root that begins at block 0 of
  -- the file and whose words fit: it frees one block, the first of that extent, which holds the
  -- start of the file, and sets the size.
  pub ext_truncate-kept :
      (size length p : ℕ) (t : Table)
      → g.bsize ≡ 2 ^ g.bshift
      → 0 < g.bsize
      → length < size
      → find_extent read (lblkno g length) root
        ≡ some (found (record { header = t; ext = some p; depth = 0 }))
      → e_blk (at t p) ≡ 0
      → 1 ≤ e_len (at t p)
      → e_start_lo (at t p) < 2 ^ 32
      → 0 < lblkno g length
      → lblkno g length < g.bsize
      → (r : Removed) × (ext_truncate size length ≡ removed r length)
        × (r.free_start ≡ e_start_lo (at t p))
        × (r.free_len ≡ 1)
  unfolding ext_truncate rm_extent
  ext_truncate-kept size length p t same pos less path first full lo inside few =
      let l : leb size length ≡ false = ground arith in
      let zero' : lblkno g (lblkno g length) ≡ 0 = lblkno-small g (lblkno g length) same few in
      let part = part_of-first g (at t p) (lblkno g length) first full lo inside zero' in
      let one = blocks_cut-one g length same pos in rw (l, path, one, part) (_, refl, refl, refl)
