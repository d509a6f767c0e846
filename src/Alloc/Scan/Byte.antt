-- ===== src/Alloc/Scan/Byte.antt =====
-- What `ffs` and `ext2_fls` find in a byte, checked for every byte.
use ext2fs.Base.{
  ℕ, suc, ◌-◌, ◌≤◌, ◌<◌, ◌≡◌, ◌≢◌, refl, Bool, true, false, not, ◌&&◌, ◌||◌, arith, ltb, leb, ◌==◌,
}
use ext2fs.Base.Bits.{everywhere, everywhere_at, bit_of}
use ext2fs.Alloc.Scan.{fls, ffs, not_char}

abbrev above_fls : ℕ → ℕ → Bool
above_fls b j = not (leb (fls b) j && bit_of b j)

abbrev below_ffs : ℕ → ℕ → Bool
below_ffs b j = not (ltb (suc j) (ffs b) && bit_of b j)

ffs-not_table :
    everywhere 255 (λ b.
      ltb 0 (ffs (not_char b)) && leb (ffs (not_char b)) 8 && not (bit_of b (ffs (not_char b) - 1)))
    ≡ true
unfolding everywhere ffs
ffs-not_table = refl

fls_table : everywhere 256 (λ b. leb (fls b) 8 && everywhere 8 (above_fls b)) ≡ true
unfolding everywhere fls
fls_table = refl

ffs_table :
    everywhere 256 (λ b. (b == 0) || (ltb 0 (ffs b) && leb (ffs b) 8 && everywhere 8 (below_ffs b)))
    ≡ true
unfolding everywhere ffs
ffs_table = refl

-- A byte that is not full has a clear bit where `ffs` of its complement points.
pub ffs_not_lem :
    (b : ℕ)
    → b < 256
    → b ≢ 0xff
    → (0 < ffs (not_char b)) × (ffs (not_char b) ≤ 8) × (bit_of b (ffs (not_char b) - 1) ≡ false)
ffs_not_lem b h ne = ground (arith, everywhere_at 255 _ b ffs-not_table (omega arith))

-- No bit at or above `fls` is set.
pub fls_lem : (b : ℕ) → b < 256 → fls b ≤ 8
fls_lem b h = ground (arith, everywhere_at 256 _ b fls_table h)

pub fls_clear : (b j : ℕ) → b < 256 → j < 8 → fls b ≤ j → bit_of b j ≡ false
fls_clear b j h hj le =
    let row : everywhere 8 (above_fls b) ≡ true =
      ground (arith, everywhere_at 256 _ b fls_table h) in
    ground (arith, everywhere_at 8 (above_fls b) j row hj)

-- No bit below `ffs` is set.
pub ffs_lem : (b : ℕ) → b < 256 → b ≢ 0 → (0 < ffs b) × (ffs b ≤ 8)
ffs_lem b h ne = ground (arith, everywhere_at 256 _ b ffs_table h)

pub ffs_clear : (b j : ℕ) → b < 256 → b ≢ 0 → suc j < ffs b → bit_of b j ≡ false
ffs_clear b j h ne lt =
    let row : everywhere 8 (below_ffs b) ≡ true =
      ground (arith, everywhere_at 256 _ b ffs_table h) in
    ground (arith, everywhere_at 8 (below_ffs b) j row (omega (arith, ffs_lem b h ne)))
