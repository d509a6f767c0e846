-- ===== src/Mount/Written/Again.antt =====
-- What `ext2_unmount` leaves on a device whose writes succeed, against what the next mount reads.
use ext2fs.Base.{
  ℕ, zero, suc, ◌+◌, ◌*◌, ◌^◌, ◌≤◌, ◌<◌, ◌≡◌, ◌≢◌, refl, ◌∙◌, ap, sym, true, false, none, some,
  List, [], ◌∷◌, ◌++◌, ◌==◌, if◌then◌else◌, length, take, drop, arith, eq-cases, lt-cases,
  Bool-cases, ==_iff, inl, inr,
}
use native.Mathlib.Nat.{mul-lt-mul_of_pos_right}
use ext2fs.Mount.{Superblock, Mounted, fine, block_size, logic_sb_block, table_block, read_table}
use ext2fs.Mount.Written.{
  Disk, Device, sblock, sbupdate, gd_address, gd_block, save_table, cg_rest, cgupdate, marked_clean,
  mark_clean, write_back, unmount,
}

abbrev the_empty : (A : Type 0) → List A
the_empty A = []

module _ {A : Type 0} where
  take-drop : (n : ℕ) (xs : List A) → take n xs ++ drop n xs ≡ xs
  take-drop zero xs = refl
  take-drop (suc n) [] = refl
  take-drop (suc n) (x ∷ xs) = ap (λ ys. x ∷ ys) (take-drop n xs)

  drop_none : (n : ℕ) → drop n (the_empty A) ≡ []
  drop_none zero = refl
  drop_none (suc n) = refl

  drop-drop : (a b : ℕ) (xs : List A) → drop a (drop b xs) ≡ drop (b + a) xs
  drop-drop a zero xs = let e : 0 + a ≡ a = omega arith in rw e refl
  drop-drop a (suc b) [] = let e : suc b + a ≡ suc (b + a) = omega arith in rw e (drop_none a)
  drop-drop a (suc b) (x ∷ xs) =
      let e : suc b + a ≡ suc (b + a) = omega arith in rw e (drop-drop a b xs)

  drop-all : (n : ℕ) (xs : List A) → length xs ≡ n → drop n xs ≡ []
  drop-all zero [] e = refl
  drop-all zero (x ∷ xs) e = absurd (omega (arith, e))
  drop-all (suc n) [] e = refl
  drop-all (suc n) (x ∷ xs) e = drop-all n xs (omega (arith, e))

pow_pos : (s : ℕ) → 0 < 2 ^ s
pow_pos zero = omega arith
pow_pos (suc s) = omega (arith, pow_pos s)

scaled : (x y m : ℕ) → 0 < m → x * m ≡ y * m → x ≡ y
scaled x y m h e = elim (lt-cases x y) [
  | inl l ↦ absurd (omega (arith, e, mul-lt-mul_of_pos_right {m = x} {n = y} {k = m} l h))
  | inr l ↦ elim (lt-cases y x) [
    | inl l' ↦ absurd (omega (arith, e, mul-lt-mul_of_pos_right {m = y} {n = x} {k = m} l' h))
    | inr l' ↦ omega (arith, l, l')
  ]
]

-- Where every buffer is given and every write succeeds.
module _ (dev : Device) (buffers : (a : ℕ) → dev.buffer a ≡ true)
    (lands : (a : ℕ) → dev.lands a ≡ true) (m : Mounted) where
  apart : (i j : ℕ) → j ≢ i → (gd_address dev true m j == gd_address dev true m i) ≡ false
  apart i j ne = elim (Bool-cases (gd_address dev true m j == gd_address dev true m i)) [
    | inr f ↦ f
    | inl t ↦
        let e = scaled _ _ _ (pow_pos m.sizes.fsbtodb_shift) ((==_iff _ _).0 t) in
        absurd (omega (arith, e, ne))
  ]

  save_lem :
      (n i : ℕ) (d : Disk)
      → let r = save_table dev true m n i none d in
        (r.0 ≡ false)
        × (r.1 ≡ none)
        × (r.2.sb ≡ d.sb)
        × ((j : ℕ)
            → j < i
            → r.2.block (gd_address dev true m j) ≡ d.block (gd_address dev true m j))
        × ((j : ℕ)
            → i ≤ j
            → j < i + n
            → r.2.block (gd_address dev true m j) ≡ gd_block dev true m j)
  unfolding save_table
  save_lem zero i d = (refl, refl, refl, (λ j l. refl), λ j l h. absurd (omega (arith, l, h)))
  save_lem (suc n) i d =
      let a = gd_address dev true m i in
      let d₁ = record d { block = λ b. if b == a then gd_block dev true m i else d.block b } in
      let (kept, none_failed, sb, before, behind) = save_lem n (i + 1) d₁ in
      rw (buffers a, lands a)
        (
          kept,
          none_failed,
          sb,
          (λ j l.
              before j (omega (arith, l))
              ∙ rw (apart i j (λ e. absurd (omega (arith, e, l)))) refl),
          λ j l h. elim (eq-cases j i) [
            | inl e ↦
                let self : (gd_address dev true m i == gd_address dev true m i) ≡ true =
                  ground arith in
                rw e (before i (omega arith) ∙ rw self refl)
            | inr ne ↦ behind j (omega (arith, l, ne)) (omega (arith, h))
          ],
        )

  sb_lem : (es : Superblock) (d : Disk) → sbupdate dev true es d ≡ (none, record d { sb = es })
  unfolding sbupdate
  sb_lem es d = rw (buffers sblock, lands sblock) refl

  -- The disk with the superblock and the descriptors written.
  abbrev saved : Disk → Disk
  saved d = (save_table dev true m m.sizes.gdbcount 0 none (record d { sb = m.es })).2

  cg_lem : (d : Disk) → cgupdate dev true m d ≡ (none, saved d)
  unfolding cgupdate cg_rest
  cg_lem d =
      let (kept, none_failed, sb, before, behind) =
        save_lem m.sizes.gdbcount 0 (record d { sb = m.es }) in
      ap (cg_rest dev true m) (sb_lem m.es d) ∙ rw (kept, none_failed) refl

  back_lem :
      (d : Disk)
      → m.ronly ≡ false
      → write_back dev m d ≡ record (saved d) { sb = marked_clean dev m }
  unfolding write_back mark_clean
  back_lem d writable =
      rw writable
        (ap (mark_clean dev m) (cg_lem d) ∙ ap (λ r. r.1) (sb_lem (marked_clean dev m) (saved d)))

  -- The descriptors as they are read again, from the `i`-th block on.
  read_back :
      (block : ℕ → List ℕ) (n i : ℕ)
      → length m.sizes.gd ≡ (i + n) * m.sizes.bsize
      → ((j : ℕ) → i ≤ j → j < i + n → block (table_block m.es j) ≡ gd_block dev true m j)
      → read_table (λ a. some (block a)) (table_block m.es) n i
        ≡ fine (drop (i * m.sizes.bsize) m.sizes.gd)
  unfolding read_table
  read_back block zero i e h = sym (
      ap fine
        (drop-all (i * m.sizes.bsize) m.sizes.gd (e ∙ ap (λ k. k * m.sizes.bsize) (omega arith))))
  read_back block (suc n) i e h =
      let b = m.sizes.bsize in
      let next : (i + 1) * b ≡ i * b + b = grind arith in
      let rest =
        read_back block n (i + 1) (e ∙ ap (λ k. k * b) (omega arith))
          (λ j l k. h j (omega (arith, l)) (omega (arith, k))) in
      rw (rest, h i (omega arith) (omega arith), next, sym (drop-drop b (i * b) m.sizes.gd))
        (ap fine (take-drop b (drop (i * b) m.sizes.gd)))

  module _ (bsize : m.sizes.bsize ≡ block_size m.es)
      (shift : m.sizes.fsbtodb_shift ≡ m.es.log_bsize + 1)
      (first : m.es.first_dblock ≡ logic_sb_block (block_size m.es))
      (whole : length m.sizes.gd ≡ m.sizes.gdbcount * m.sizes.bsize) where
    same_place : (j : ℕ) → table_block m.es j ≡ gd_address dev true m j
    same_place j = rw (shift, first) (ap (λ k. k * 2 ^ (m.es.log_bsize + 1)) (omega arith))

    -- Where the device gives every buffer and takes every write, for a volume that is mounted for
    -- writing with the block size and the shift of its superblock, whose first data block is the
    -- one before the table of descriptors that the mount reads, and whose descriptors fill that
    -- table: once `ext2_flushfiles` has succeeded and `ext2_unmount` has written back, the device
    -- has the superblock of the mount, marked clean exactly if it was valid when it was mounted,
    -- and the loop of `compute_sb_data` reads from it the descriptors of the mount.
    pub unmount-read_table :
        (d : Disk)
        → m.ronly ≡ false
        → let d' = (unmount dev none m d).1 in
          (d'.sb ≡ marked_clean dev m)
          × (read_table (λ a. some (d'.block a)) (table_block m.es) m.sizes.gdbcount 0
              ≡ fine m.sizes.gd)
    unfolding unmount
    unmount-read_table d writable =
        let (kept, none_failed, sb, before, behind) =
          save_lem m.sizes.gdbcount 0 (record d { sb = m.es }) in
        let none_left : 0 * m.sizes.bsize ≡ 0 = omega arith in
        rw (back_lem d writable) (
          refl,
          read_back (saved d).block m.sizes.gdbcount 0
                (whole ∙ ap (λ k. k * m.sizes.bsize) (omega arith))
                (λ j l h. ap (saved d).block (same_place j) ∙ behind j l h)
              ∙ rw none_left refl,
        )
