-- ===== src/Alloc/Block/Consistent.antt =====
-- Agreement of the block bitmaps with the counts of free blocks, kept by taking and giving a block.
use ext2fs.Base.{
  ℕ, zero, suc, ◌+◌, ◌*◌, ◌^◌, ◌≤◌, ◌<◌, ◌≡◌, ◌≢◌, refl, inl, inr, true, false, List, arith, length,
  eq-cases,
}
use ext2fs.Base.Bits.{
  IsMap, isset, setbit, clrbit, count_clear, length-setbit, length-clrbit, setbit-IsMap,
  clrbit-IsMap, count_clear-setbit, count_clear-le, count_clear-clrbit,
}
use ext2fs.Geometry.{Geometry, IsSound, fsbtodb}
use ext2fs.Alloc.State.{Group, Fs, update, dec16, dec32, inc16, inc32}

-- The free blocks of the first `n` groups, by their descriptors.
abbrev pub free_of : (ℕ → Group) → ℕ → ℕ
free_of gd zero = 0
free_of gd (suc n) = free_of gd n + (gd n).nbfree

module _ (gd : ℕ → Group) (cg : ℕ) (x : Group) where
  free_of-below : (n : ℕ) → n ≤ cg → free_of (update gd cg x) n ≡ free_of gd n
  free_of-below zero h = refl
  free_of-below (suc n) h = ground (arith, free_of-below n)

  free_of-update :
      (n : ℕ) → cg < n → free_of (update gd cg x) n + (gd cg).nbfree ≡ free_of gd n + x.nbfree
  free_of-update zero h = absurd (omega arith)
  free_of-update (suc n) h = elim (eq-cases n cg) [
    | inl e ↦ ground (arith, free_of-below n)
    | inr ne ↦ ground (arith, free_of-update n)
  ]

module _ (g : Geometry) where
  -- The device block of a group's block bitmap.
  abbrev pub b_addr : (ℕ → Group) → ℕ → ℕ
  b_addr gd cg = fsbtodb g (gd cg).b_bitmap

  -- The group's bitmap is a bitmap of the group, and its descriptor counts the clear bits.
  pub record IsGroup (gd : ℕ → Group) (disk : ℕ → List ℕ) (cg : ℕ) : Type 0 where
    pub bytes : IsMap (disk (b_addr gd cg))
    pub room : g.fpg ≤ 8 * length (disk (b_addr gd cg))
    pub count : (gd cg).nbfree ≡ count_clear (disk (b_addr gd cg)) g.fpg

  -- Every descriptor agrees with its bitmap, the superblock with the descriptors, and no two
  -- groups share a bitmap block.
  pub record IsConsistent (gd : ℕ → Group) (disk : ℕ → List ℕ) (fbcount : ℕ) : Type 0 where
    pub groups : (cg : ℕ) → cg < g.gcount → IsGroup gd disk cg
    pub total : fbcount ≡ free_of gd g.gcount
    pub small : fbcount < 2 ^ 32
    pub apart : (a b : ℕ) → a < g.gcount → b < g.gcount → a ≢ b → b_addr gd a ≢ b_addr gd b

  abbrev pub IsValid : Fs → Type 0
  IsValid fs = IsConsistent fs.gd fs.disk fs.fbcount

module _ (g : Geometry) {gd : ℕ → Group} {disk : ℕ → List ℕ} {fbcount : ℕ}
    (v : IsConsistent g gd disk fbcount) (cg : ℕ) (c : cg < g.gcount) (map : List ℕ) (n k : ℕ) where
  abbrev gd' : ℕ → Group
  gd' = update gd cg (record (gd cg) { nbfree = n })

  abbrev disk' : ℕ → List ℕ
  disk' = update disk (b_addr g gd cg) map

  b_addr-update : (a : ℕ) → b_addr g gd' a ≡ b_addr g gd a
  b_addr-update a = ground arith

  pub disk_self : (a : ℕ) → a ≡ cg → disk' (b_addr g gd' a) ≡ map
  disk_self a e = ground (arith, b_addr-update a)

  pub disk-other : (a : ℕ) → a < g.gcount → a ≢ cg → disk' (b_addr g gd' a) ≡ disk (b_addr g gd a)
  disk-other a l ne = ground (arith, b_addr-update a, v.apart a cg l c ne)

  self-IsGroup :
      (a : ℕ)
      → a ≡ cg
      → IsMap map
      → g.fpg ≤ 8 * length map
      → n ≡ count_clear map g.fpg
      → IsGroup g gd' disk' a
  self-IsGroup a e w room count = record {
    bytes = rw (disk_self a e) w;
    room = rw (disk_self a e) room;
    count = rw (disk_self a e) (ground arith);
  }

  other-IsGroup : (a : ℕ) → a < g.gcount → a ≢ cg → IsGroup g gd' disk' a
  other-IsGroup a l ne = record {
    bytes = rw (disk-other a l ne) (v.groups a l).bytes;
    room = rw (disk-other a l ne) (v.groups a l).room;
    count = rw (disk-other a l ne) (ground (arith, (v.groups a l).count));
  }

  -- A new bitmap of one group, with a descriptor and a total to match, keeps the volume consistent.
  pub update-IsConsistent :
      IsMap map
      → g.fpg ≤ 8 * length map
      → n ≡ count_clear map g.fpg
      → k + (gd cg).nbfree ≡ fbcount + n
      → k < 2 ^ 32
      → IsConsistent g gd' disk' k
  update-IsConsistent w room count total small = record {
    groups = λ a la. elim (eq-cases a cg) [
      | inl e ↦ self-IsGroup a e w room count
      | inr ne ↦ other-IsGroup a la ne
    ];
    total = omega (arith, free_of-update gd cg (record (gd cg) { nbfree = n }) g.gcount c, v.total);
    small = small;
    apart = λ a b la lb ne. rw (b_addr-update a, b_addr-update b) (v.apart a b la lb ne);
  }

-- What `free_of` adds up counts each group.
pub nbfree-le : (gd : ℕ → Group) (cg n : ℕ) → cg < n → (gd cg).nbfree ≤ free_of gd n
nbfree-le gd cg zero h = absurd (omega arith)
nbfree-le gd cg (suc n) h = elim (eq-cases n cg) [
  | inl e ↦ ground arith
  | inr ne ↦ omega (arith, nbfree-le gd cg n (omega arith))
]

module _ (g : Geometry) (s : IsSound g) {gd : ℕ → Group} {disk : ℕ → List ℕ} {fbcount : ℕ}
    (v : IsConsistent g gd disk fbcount) (cg : ℕ) (c : cg < g.gcount) (bno : ℕ)
    (lt : bno < g.fpg) where
  abbrev bmap : List ℕ
  bmap = disk (b_addr g gd cg)

  in_map : bno < 8 * length bmap
  in_map = omega (arith, (v.groups cg c).room)

  pub take-IsConsistent :
      isset bmap bno ≡ false
      → IsConsistent g
          (update gd cg (record (gd cg) { nbfree = dec16 (gd cg).nbfree }))
          (update disk (b_addr g gd cg) (setbit bmap bno))
          (dec32 fbcount)
  take-IsConsistent clear =
      let gr = v.groups cg c in
      let one = count_clear-setbit bmap bno gr.bytes in_map g.fpg lt clear in
      let le = nbfree-le gd cg g.gcount c in
      update-IsConsistent g v cg c (setbit bmap bno) (dec16 (gd cg).nbfree) (dec32 fbcount)
        (setbit-IsMap bmap bno gr.bytes) (rw length-setbit gr.room)
        (omega (arith, gr.count, one, count_clear-le bmap g.fpg, s.fpg_small))
        (omega (arith, gr.count, one, le, v.total, v.small, count_clear-le bmap g.fpg, s.fpg_small))
        (omega arith)

  pub give-IsConsistent :
      isset bmap bno ≡ true
      → fbcount + 1 < 2 ^ 32
      → IsConsistent g
          (update gd cg (record (gd cg) { nbfree = inc16 (gd cg).nbfree }))
          (update disk (b_addr g gd cg) (clrbit bmap bno))
          (inc32 fbcount)
  give-IsConsistent used small =
      let gr = v.groups cg c in
      let one = count_clear-clrbit bmap bno gr.bytes in_map g.fpg lt used in
      let le = count_clear-le (clrbit bmap bno) g.fpg in
      update-IsConsistent g v cg c (clrbit bmap bno) (inc16 (gd cg).nbfree) (inc32 fbcount)
        (clrbit-IsMap bmap bno gr.bytes) (rw length-clrbit gr.room)
        (omega (arith, gr.count, one, le, s.fpg_small))
        (omega (arith, gr.count, one, le, s.fpg_small, v.total)) (omega arith)
