-- ===== src/Bmap/Path.antt =====
-- The path that `ext2_getlbns` gives leads to the block that was asked for.
use ext2fs.Base.{
  ℕ, zero, suc, ◌+◌, ◌-◌, ◌*◌, ◌/◌, ◌%◌, ◌≤◌, ◌<◌, ◌≡◌, ◌↔◌, refl, inl, inr, true, false, none,
  some, List, [], ◌∷◌, arith, length, All, ltb, lt-cases,
}
use native.Mathlib.Nat.{mod-lt, mod-eq_of_lt, div-div-eq-div-mul}
use ext2fs.Geometry.Laws.{div_lt}
use ext2fs.Base.Int.{pos}
use ext2fs.Bmap.{ndaddr, niaddr, Indir, level, path_of, getlbns}

-- The digits of a number in base `n`.
two_digits : (n x : ℕ) → x < n * n → (x / n % n) * n + x % n ≡ x
two_digits n x h = rw (mod-eq_of_lt (div_lt x n n h)) (omega arith)

three_digits : (n x : ℕ) → x < n * n * n → ((x / (n * n) % n) * n + x / n % n) * n + x % n ≡ x
three_digits n x h =
    rw (← div-div-eq-div-mul x n n) (rw (two_digits n (x / n) (div_lt x (n * n) n h)) (omega arith))

-- The first data block behind pointer `k` of the inode's indirect pointers.
abbrev pub base : ℕ → ℕ → ℕ
base n zero = ndaddr
base n (suc zero) = ndaddr + n
base n (suc (suc k)) = ndaddr + n + n * n

-- The number that offsets spell in base `n`, after `acc`.
abbrev pub spell : ℕ → ℕ → List Indir → ℕ
spell n acc [] = acc
spell n acc (e ∷ path) = spell n (acc * n + e.off) path

-- The data block that a path leads to: its first entry chooses one of the inode's pointers, each
-- later one a pointer in the block reached so far.
abbrev pub target : ℕ → List Indir → ℕ
target n [] = 0
target n (e ∷ path) = base n e.off + spell n 0 path

-- A path through the tree: as many blocks of pointers as the first entry says, and no offset
-- outside its block.
abbrev pub IsPath : ℕ → List Indir → Type 0
IsPath n [] = ⊥
IsPath n (e ∷ path) = (e.off < niaddr) × (length path ≡ e.off + 1) × All (λ x. x.off < n) path

-- The number of data blocks that a file can have.
abbrev pub capacity : ℕ → ℕ
capacity n = ndaddr + n + n * n + n * n * n

div_one : (x : ℕ) → x / 1 ≡ x
div_one x = omega arith

module _ (n : ℕ) (pos_n : 0 < n) where
  div_self : (m : ℕ) → m * n / n ≡ m
  div_self m = grind (arith, pos_n)

  one_left : n / n ≡ 1
  one_left = grind (arith, pos_n)

  -- Which level a block that is no direct one has.
  level_one : (x : ℕ) → x < n → level n 3 1 x ≡ some (3, 1, x)
  unfolding level
  level_one x h = let e : ltb x (1 * n) ≡ true = ground arith in rw e refl

  level_two : (x : ℕ) → n ≤ x → x < n + n * n → level n 3 1 x ≡ some (2, n, x - n)
  unfolding level
  level_two x lo hi =
      let one : 1 * n ≡ n = omega arith in
      let e : ltb x n ≡ false = ground arith in
      let f : ltb (x - n) (n * n) ≡ true = ground arith in rw one (rw e (rw f refl))

  level_three :
      (x : ℕ)
      → n + n * n ≤ x
      → x < n + n * n + n * n * n
      → level n 3 1 x ≡ some (1, n * n, x - n - n * n)
  unfolding level
  level_three x lo hi =
      let one : 1 * n ≡ n = omega arith in
      let e : ltb x n ≡ false = ground arith in
      let f : ltb (x - n) (n * n) ≡ false = ground arith in
      let g : ltb (x - n - n * n) (n * n * n) ≡ true = ground arith in
      rw one (rw e (rw f (rw g refl)))

  level-none : (x : ℕ) → n + n * n + n * n * n ≤ x → level n 3 1 x ≡ none
  unfolding level
  level-none x lo =
      let one : 1 * n ≡ n = omega arith in
      let e : ltb x n ≡ false = ground arith in
      let f : ltb (x - n) (n * n) ≡ false = ground arith in
      let g : ltb (x - n - n * n) (n * n * n) ≡ false = ground arith in
      rw one (rw e (rw f (rw g refl)))

  by_level :
      (b i blockcnt bn : ℕ)
      → ndaddr ≤ b
      → level n 3 1 (b - ndaddr) ≡ some (i, blockcnt, bn)
      → getlbns n (pos b) ≡ some (path_of n (pos b) b i blockcnt bn)
  unfolding getlbns
  by_level b i blockcnt bn lo e = let t : ltb b ndaddr ≡ false = ground arith in rw (t, e) refl

  by_none : (b : ℕ) → ndaddr ≤ b → level n 3 1 (b - ndaddr) ≡ none → getlbns n (pos b) ≡ none
  unfolding getlbns
  by_none b lo e = let t : ltb b ndaddr ≡ false = ground arith in rw (t, e) refl

  direct_lem : (b : ℕ) → b < ndaddr → getlbns n (pos b) ≡ some []
  unfolding getlbns
  direct_lem b h = let t : ltb b ndaddr ≡ true = ground arith in rw t refl

  -- The level's path of a data block.
  one-IsPath :
      (b : ℕ)
      → ndaddr ≤ b
      → b < base n 1
      → let path = path_of n (pos b) b 3 1 (b - ndaddr) in IsPath n path × (target n path ≡ b)
  unfolding path_of
  one-IsPath b lo hi = (
    (omega arith, refl, (mod-lt _ pos_n, tt)),
    rw div_one (omega (arith, mod-eq_of_lt {n = b - ndaddr} {m = n} (omega arith))),
  )

  two-IsPath :
      (b : ℕ)
      → base n 1 ≤ b
      → b < base n 2
      → let path = path_of n (pos b) b 2 n (b - ndaddr - n) in IsPath n path × (target n path ≡ b)
  unfolding path_of
  two-IsPath b lo hi = (
    (omega arith, refl, (mod-lt _ pos_n, (mod-lt _ pos_n, tt))),
    rw (one_left, div_one) (omega (arith, two_digits n (b - ndaddr - n) (ground arith))),
  )

  three-IsPath :
      (b : ℕ)
      → base n 2 ≤ b
      → b < capacity n
      → let path = path_of n (pos b) b 1 (n * n) (b - ndaddr - n - n * n) in
        IsPath n path × (target n path ≡ b)
  unfolding path_of
  three-IsPath b lo hi = (
    (omega arith, refl, (mod-lt _ pos_n, (mod-lt _ pos_n, (mod-lt _ pos_n, tt)))),
    rw (div_self n, one_left, div_one)
        (omega (arith, three_digits n (b - ndaddr - n - n * n) (ground arith))),
  )

  -- For a data block that is not direct and lies within what the pointers reach, with at least one
  -- pointer to a block, `ext2_getlbns` gives a path: one that starts at an indirect pointer of the
  -- inode, has an offset for each level below it, none outside its block, and whose offsets, read
  -- as digits in base MNINDIR behind the first block of that pointer, spell the block.
  pub getlbns-target :
      (b : ℕ)
      → ndaddr ≤ b
      → b < capacity n
      → (path : List Indir) × (getlbns n (pos b) ≡ some path) × IsPath n path × (target n path ≡ b)
  getlbns-target b lo hi = elim (lt-cases b (base n 1)) [
    | inl l1 ↦
        let (w, e) = one-IsPath b lo l1 in
        (_, by_level b 3 1 (b - ndaddr) lo (level_one (b - ndaddr) (omega arith)), w, e)
    | inr g1 ↦ elim (lt-cases b (base n 2)) [
      | inl l2 ↦
          let (w, e) = two-IsPath b g1 l2 in
          (
            _,
            by_level b 2 n (b - ndaddr - n) lo (level_two (b - ndaddr) (omega arith) (omega arith)),
            w,
            e,
          )
      | inr g2 ↦
          let (w, e) = three-IsPath b g2 hi in
          (
            _,
            by_level b 1 (n * n) (b - ndaddr - n - n * n) lo
                (level_three (b - ndaddr) (omega arith) (omega arith)),
            w,
            e,
          )
    ]
  ]

  -- On a data block, with at least one pointer to a block, `ext2_getlbns` fails with EFBIG exactly
  -- when the block lies past the last one that the direct and indirect pointers reach.
  pub getlbns_efbig : (b : ℕ) → (getlbns n (pos b) ≡ none) ↔ (capacity n ≤ b)
  getlbns_efbig b = (within, too_big)
    where
      too_big : capacity n ≤ b → getlbns n (pos b) ≡ none
      too_big h = by_none b (omega arith) (level-none (b - ndaddr) (omega arith))

      within : getlbns n (pos b) ≡ none → capacity n ≤ b
      within e = elim (lt-cases b (capacity n)) [
        | inr past ↦ past
        | inl fits ↦ elim (lt-cases b ndaddr) [
          | inl direct ↦ absurd (cc (direct_lem b direct, e))
          | inr ge ↦ let (path, found, w, e2) = getlbns-target b ge fits in absurd (cc (found, e))
        ]
      ]
