-- ===== src/Geometry/Laws.antt =====
-- Block and inode numbers split into a group and a place in it, and back.
use ext2fs.Base.{ℕ, ◌+◌, ◌-◌, ◌*◌, ◌/◌, ◌%◌, ◌<◌, ◌≡◌, ap, true, leb, arith}
use ext2fs.Base.Int.{pos}
use ext2fs.Geometry.{Geometry, IsSound, dtog, dtogd}

-- The quotient and remainder of `c * n + r` by `n`.
pub div_lem : (c n r : ℕ) → r < n → (c * n + r) / n ≡ c
div_lem c n r h = grind arith

pub mod_lem : (c n r : ℕ) → r < n → (c * n + r) % n ≡ r
mod_lem c n r h = grind arith

module _ (g : Geometry) (s : IsSound g) where
  -- On a volume of sound geometry, `dtog` and `dtogd` take the number of the block at place `i` of
  -- group `cg`, for a place within the group, back to `cg` and `i`.
  pub dtog_of :
      (cg i : ℕ)
      → i < g.fpg
      → (dtog g (cg * g.fpg + g.first_dblock + i) ≡ cg)
        × (dtogd g (cg * g.fpg + g.first_dblock + i) ≡ pos i)
  unfolding dtog dtogd
  dtog_of cg i h =
      rw (behind, ← s.same_group_size, shift) (div_lem cg g.fpg i h, ap pos (mod_lem cg g.fpg i h))
    where
      behind : leb g.first_dblock (cg * g.fpg + g.first_dblock + i) ≡ true
      behind = ground arith

      shift : cg * g.fpg + g.first_dblock + i - g.first_dblock ≡ cg * g.fpg + i
      shift = omega arith

pub div_lt : (x k n : ℕ) → x < k * n → x / n < k
div_lt x k n h = grind arith

pub product_pos : (a b : ℕ) → 0 < a → 0 < b → 0 < a * b
product_pos a b p q = grind arith
