-- ===== src/Truncate/File.antt =====
-- `ext2_truncate` releases the blocks of a file behind those that are kept, and no other.
use ext2fs.Base.{ℕ, ◌+◌, ◌≤◌, ◌<◌, ◌≡◌, ◌≢◌, ◌⊎◌, Bool, Option, some, List, length, get_or}
use ext2fs.Truncate.Swept.{Under}

module _ (nindir nblocks : ℕ) (read : ℕ → Option (List ℕ)) (writes : ℕ → Bool) (pos : 0 < nindir)
    (fit : (bn : ℕ) (table : List ℕ) → read bn ≡ some table → length table ≤ nindir)
    (kept b : ℕ) where
  -- Block `b` is an indirect pointer of the inode or hangs below it, and the first data block that needs
  -- it is not kept; the pointer is for the data blocks from `base` on.
  abbrev pub Hangs : ℕ → ℕ → ℕ → Type 0
  Hangs level bn base =
      (bn ≢ 0)
      × (((b ≡ bn) × (kept ≤ base))
          ⊎ ((lo : ℕ) × Under nindir nblocks read writes level bn lo b × (kept ≤ base + lo)))

  -- A direct pointer behind those that are kept.
  abbrev pub Direct : List ℕ → Type 0
  Direct db = (i : ℕ) × (kept ≤ i) × (i < length db) × (get_or db i 0 ≢ 0) × (b ≡ get_or db i 0)
