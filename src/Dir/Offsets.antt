-- ===== src/Dir/Offsets.antt =====
-- Offsets in a directory, as a block and a place in it.
use ext2fs.Base.{ℕ, ◌+◌, ◌-◌, ◌*◌, ◌/◌, ◌%◌, ◌≤◌, ◌<◌, ◌≡◌, refl, ◌∙◌, false, arith, ◌==◌}
use native.Mathlib.Nat.{
  mul-add-div_right, div-eq_of_lt, div-eq_of_lt-le, mul-add-mod_self_right, mod-eq_of_lt,
  mul-div_cancel, le-div_iff_mul-le, div-mul-le_self, lt-div-mul-add,
}
use ext2fs.Dir.{roundup}

module _ (b : ℕ) (pos : 0 < b) where
  pub place-block : (i r : ℕ) → r < b → (i * b + r) / b ≡ i
  place-block i r lt = let z = div-eq_of_lt lt in let e = mul-add-div_right pos i r in omega arith

  pub place-inner : (i r : ℕ) → r < b → (i * b + r) % b ≡ r
  place-inner i r lt = mul-add-mod_self_right i b r ∙ mod-eq_of_lt lt

  -- A block that begins before the end of a file is one of its blocks.
  pub block-le-roundup : (o size : ℕ) → o ≤ size → o / b ≤ roundup size b / b
  block-le-roundup o size le =
      let c : roundup size b / b ≡ (size + (b - 1)) / b =
        mul-div_cancel ((size + (b - 1)) / b) pos in
      let d : o / b * b ≤ size + (b - 1) = let h = div-mul-le_self o b in omega arith in
      let h : o / b ≤ (size + (b - 1)) / b = (le-div_iff_mul-le pos).1 d in omega arith

  -- A file that reaches past its first block.
  pub block-pos : (o : ℕ) → (o / b == 0) ≡ false → b ≤ o
  block-pos o nz =
      let h = div-mul-le_self o b in
      let p : 1 ≤ o / b = ground arith in
      let q : 1 * b ≤ o = (le-div_iff_mul-le pos).0 p in omega arith

  pub roundup-next : (n r : ℕ) → 0 < r → r ≤ b → roundup (n * b + r) b ≡ (n + 1) * b
  roundup-next n r some_bytes le =
      let e : (n * b + (r + (b - 1))) / b ≡ n + (r + (b - 1)) / b =
        mul-add-div_right pos n (r + (b - 1)) in
      let one : (r + (b - 1)) / b ≡ 1 = div-eq_of_lt-le b (omega arith) (omega arith) in
      let a : n * b + r + (b - 1) ≡ n * b + (r + (b - 1)) = omega arith in rw (a, e, one) refl

  pub roundup-whole : (n : ℕ) → roundup (n * b) b ≡ n * b
  roundup-whole n =
      let e : (n * b + (b - 1)) / b ≡ n + (b - 1) / b = mul-add-div_right pos n (b - 1) in
      let z : (b - 1) / b ≡ 0 = div-eq_of_lt (omega arith) in
      let s : n + 0 ≡ n = omega arith in rw (e, z, s) refl

  pub roundup-le : (x : ℕ) → x ≤ roundup x b
  roundup-le x = let h = lt-div-mul-add {a = x + (b - 1)} pos in omega arith
