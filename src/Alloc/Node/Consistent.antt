-- ===== src/Alloc/Node/Consistent.antt =====
-- Agreement of the inode bitmaps with the counts of free inodes, and what a change of one group
-- keeps of it.
use ext2fs.Base.{
  ℕ, zero, suc, ◌+◌, ◌*◌, ◌^◌, ◌≤◌, ◌<◌, ◌≡◌, ◌≢◌, refl, sym, ◌∙◌, ap, inl, inr, subst, List, arith,
  length, eq-cases,
}
use ext2fs.Base.Bits.{IsMap, count_clear}
use ext2fs.Geometry.{Geometry, fsbtodb}
use ext2fs.Alloc.State.{Group, Fs}

-- The free inodes of the first `n` groups, by their descriptors.
abbrev pub inodes_of : (ℕ → Group) → ℕ → ℕ
inodes_of gd zero = 0
inodes_of gd (suc n) = inodes_of gd n + (gd n).nifree

pub inodes_of-member : (gd : ℕ → Group) (n a : ℕ) → a < n → (gd a).nifree ≤ inodes_of gd n
inodes_of-member gd zero a h = absurd (omega (arith, h))
inodes_of-member gd (suc n) a h = elim (eq-cases a n) [
  | inl last ↦ ground (arith, last)
  | inr other ↦ omega (arith, inodes_of-member gd n a (omega (arith, h, other)))
]

module _ (gd : ℕ → Group) (most : ℕ) where
  pub inodes_of-le : (n : ℕ) → ((a : ℕ) → a < n → (gd a).nifree ≤ most) → inodes_of gd n ≤ n * most
  inodes_of-le zero h = omega arith
  inodes_of-le (suc n) h =
      grind (arith, inodes_of-le n (λ a l. h a (omega arith)), h n (omega arith))

  -- A group that is not all free keeps the sum below its bound.
  pub inodes_of-lt :
      (n cg : ℕ)
      → ((a : ℕ) → a < n → (gd a).nifree ≤ most)
      → cg < n
      → (gd cg).nifree < most
      → inodes_of gd n < n * most
  inodes_of-lt zero cg h l k = absurd (omega (arith, l))
  inodes_of-lt (suc n) cg h l k = elim (eq-cases cg n) [
    | inl last ↦
        let end : (gd n).nifree < most = subst (λ a. (gd a).nifree < most) last k in
        grind (arith, inodes_of-le n (λ a m. h a (omega (arith, m))), end)
    | inr other ↦ grind (
      arith,
      inodes_of-lt n cg (λ a m. h a (omega (arith, m))) (omega (arith, l, other)) k,
      h n (omega arith),
    )
  ]

module _ (gd gd' : ℕ → Group) where
  pub inodes_of-ext : (n : ℕ) → ((a : ℕ) → a < n → gd' a ≡ gd a) → inodes_of gd' n ≡ inodes_of gd n
  inodes_of-ext zero h = refl
  inodes_of-ext (suc n) h = rw (inodes_of-ext n (λ a l. h a (omega arith)), h n (omega arith)) refl

  -- One group alone differs.
  inodes_of-change :
      (cg n : ℕ)
      → ((a : ℕ) → a ≢ cg → gd' a ≡ gd a)
      → cg < n
      → inodes_of gd' n + (gd cg).nifree ≡ inodes_of gd n + (gd' cg).nifree
  inodes_of-change cg zero h l = absurd (omega (arith, l))
  inodes_of-change cg (suc n) h l = elim (eq-cases n cg) [
    | inl last ↦
        let below = inodes_of-ext n (λ a k. h a (λ e. absurd (omega (arith, e, k, last)))) in
        omega
          (arith, below, ap (λ (k : ℕ). (gd k).nifree) last, ap (λ (k : ℕ). (gd' k).nifree) last)
    | inr other ↦ omega (
      arith,
      inodes_of-change cg n h (omega (arith, l, other)),
      ap (λ (x : Group). x.nifree) (h n other),
    )
  ]

module _ (g : Geometry) where
  abbrev pub i_addr : Fs → ℕ → ℕ
  i_addr fs cg = fsbtodb g (fs.gd cg).i_bitmap

  abbrev pub i_map : Fs → ℕ → List ℕ
  i_map fs cg = fs.disk (i_addr fs cg)

  -- The group's inode bitmap is a bitmap of the group, and its descriptor counts the clear bits.
  pub record HasInodes (fs : Fs) (cg : ℕ) : Type 0 where
    pub bytes : IsMap (i_map fs cg)
    pub room : g.ipg ≤ 8 * length (i_map fs cg)
    pub count : (fs.gd cg).nifree ≡ count_clear (i_map fs cg) g.ipg

  -- Every descriptor agrees with its inode bitmap, the superblock with the descriptors, and no two
  -- groups share a bitmap block.
  pub record IsNodes (fs : Fs) : Type 0 where
    pub groups : (cg : ℕ) → cg < g.gcount → HasInodes fs cg
    pub total : fs.ficount ≡ inodes_of fs.gd g.gcount
    pub small : fs.ficount < 2 ^ 32
    pub apart : (a b : ℕ) → a < g.gcount → b < g.gcount → a ≢ b → i_addr fs a ≢ i_addr fs b

  -- From `fs` to `fs'` group `cg` alone changed, and its bitmap.
  pub record Alone (cg : ℕ) (fs fs' : Fs) : Type 0 where
    pub others : (a : ℕ) → a ≢ cg → fs'.gd a ≡ fs.gd a
    pub place : (fs'.gd cg).i_bitmap ≡ (fs.gd cg).i_bitmap
    pub disk : (blk : ℕ) → blk ≢ i_addr fs cg → fs'.disk blk ≡ fs.disk blk

  module _ (cg : ℕ) (fs fs' : Fs) (c : cg < g.gcount) (v : IsNodes fs)
      (alone : Alone cg fs fs') where
    same_addr : (a : ℕ) → i_addr fs' a ≡ i_addr fs a
    same_addr a = elim (eq-cases a cg) [
      | inl e ↦ rw (e, alone.place) refl
      | inr ne ↦ rw (alone.others a ne) refl
    ]

    other-HasInodes : (a : ℕ) → a < g.gcount → a ≢ cg → HasInodes fs' a
    other-HasInodes a l ne =
        let x = v.groups a l in
        let map : i_map fs' a ≡ i_map fs a =
          ap fs'.disk (same_addr a) ∙ alone.disk (i_addr fs a) (v.apart a cg l c ne) in
        let group = alone.others a ne in
        record {
          bytes = rw map x.bytes;
          room = rw map x.room;
          count = rw map (ap (λ (y : Group). y.nifree) group ∙ x.count);
        }

    -- Such a change keeps the volume consistent where the group itself is.
    pub alone-IsNodes :
        HasInodes fs' cg
        → fs'.ficount + (fs.gd cg).nifree ≡ fs.ficount + (fs'.gd cg).nifree
        → fs'.ficount < 2 ^ 32
        → IsNodes fs'
    alone-IsNodes self total small = record {
      groups = λ a l. elim (eq-cases a cg) [
        | inl e ↦ subst (HasInodes fs') (sym e) self
        | inr ne ↦ other-HasInodes a l ne
      ];
      total =
          omega (arith, total, v.total, inodes_of-change fs.gd fs'.gd cg g.gcount alone.others c);
      small = small;
      apart = λ a b k l ne. rw (same_addr a, same_addr b) (v.apart a b k l ne);
    }
