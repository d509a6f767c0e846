-- ===== src/Fsck/Totals.antt =====
-- The sum of the free blocks that descriptors count.
use ext2fs.Base.{ℕ, zero, suc, ◌*◌, ◌≤◌, ◌<◌, ◌≡◌, refl, arith}
use ext2fs.Alloc.State.{Group}
use ext2fs.Alloc.Block.Consistent.{free_of}

module _ (gd gd' : ℕ → Group) where
  pub free_of-ext : (n : ℕ) → ((a : ℕ) → a < n → gd' a ≡ gd a) → free_of gd' n ≡ free_of gd n
  free_of-ext zero h = refl
  free_of-ext (suc n) h = rw (free_of-ext n (λ a l. h a (omega arith)), h n (omega arith)) refl

module _ (gd : ℕ → Group) (most : ℕ) where
  pub free_of-le : (n : ℕ) → ((a : ℕ) → a < n → (gd a).nbfree ≤ most) → free_of gd n ≤ n * most
  free_of-le zero h = omega arith
  free_of-le (suc n) h = grind (arith, free_of-le n (λ a l. h a (omega arith)), h n (omega arith))
