-- ===== src/Extents/Remove/Shift.antt =====
-- What `ext4_ext_rm_extent` leaves of a leaf when it takes out a whole extent.
use ext2fs.Base.{
  ℕ, zero, suc, ◌+◌, ◌-◌, ◌*◌, ◌^◌, ◌≤◌, ◌<◌, ◌≡◌, refl, ◌∙◌, true, false, some, min, ltb, ◌==◌,
  if◌then◌else◌, ◌&&◌, set, length, length-set, get_or-set_self, get_or-set_ne, arith, eq-cases,
  lt-cases, inl, inr,
}
use ext2fs.Geometry.{Geometry}
use ext2fs.Alloc.Request.{Inode}
use ext2fs.Extents.{no_slot, Table, at, eh_ecount, e_blk, e_len, e_start_lo}
use ext2fs.Extents.Remove.{with_ecount, shift, take_out, part_of, left_of, discharge, rm_extent}

shift-below : (k p q : ℕ) (t : Table) → q < p → at (shift k p t) q ≡ at t q
unfolding shift
shift-below zero p q t lt = refl
shift-below (suc k) p q t lt =
    shift-below k (p + 1) q (set t p (at t (p + 1))) (omega arith)
    ∙ get_or-set_ne t p q (at t (p + 1)) no_slot (omega arith)

shift-inside :
    (k p q : ℕ) (t : Table)
    → p ≤ q
    → q < p + k
    → p + k < length t
    → at (shift k p t) q ≡ at t (q + 1)
unfolding shift
shift-inside zero p q t lo hi room = absurd (omega arith)
shift-inside (suc k) p q t lo hi room = elim (eq-cases q p) [
  | inl e ↦ rw e (
      shift-below k (p + 1) p (set t p (at t (p + 1))) (omega arith)
      ∙ get_or-set_self t p (at t (p + 1)) no_slot (omega arith))
  | inr ne ↦
      shift-inside k (p + 1) q (set t p (at t (p + 1))) (omega arith) (omega arith)
        (omega (arith, length-set t p (at t (p + 1))))
      ∙ get_or-set_ne t p (q + 1) (at t (p + 1)) no_slot (omega arith)
]

length-shift : (k p : ℕ) (t : Table) → length (shift k p t) ≡ length t
unfolding shift
length-shift zero p t = refl
length-shift (suc k) p t =
    length-shift k (p + 1) (set t p (at t (p + 1))) ∙ length-set t p (at t (p + 1))

shift-entry :
    (n p q : ℕ) (t : Table)
    → p ≤ n
    → q < n
    → n < length t
    → at (shift (n - p) p t) q ≡ (if ltb q p then at t q else at t (q + 1))
shift-entry n p q t le hi room = elim (lt-cases q p) [
  | inl below ↦ let b : ltb q p ≡ true = ground arith in rw b (shift-below (n - p) p q t below)
  | inr above ↦
      let b : ltb q p ≡ false = ground arith in
      rw b (shift-inside (n - p) p q t above (omega arith) (omega arith))
]

-- The table that is left: its entries, and how many there are.
module _ (t : Table) (p n : ℕ) (is : n ≡ eh_ecount (at t 0)) (one : 1 ≤ p) (le : p ≤ n)
    (room : n < length t) where
  shorter : Table
  shorter = set (shift (n - p) p t) n no_slot

  take_out-entry :
      (q : ℕ) → 1 ≤ q → q < n → at (take_out p t) q ≡ (if ltb q p then at t q else at t (q + 1))
  unfolding take_out shorter
  take_out-entry q lo hi = rw (← is) (
      get_or-set_ne shorter 0 q (with_ecount (eh_ecount (at shorter 0) + 2 ^ 16 - 1) (at shorter 0))
        no_slot (omega arith)
      ∙ get_or-set_ne (shift (n - p) p t) n q no_slot no_slot (omega arith)
      ∙ shift-entry n p q t le hi room)

  take_out-count : eh_ecount (at (take_out p t) 0) + 1 ≡ n
  unfolding take_out shorter
  take_out-count =
      let size : length shorter ≡ length t =
        length-set (shift (n - p) p t) n no_slot ∙ length-shift (n - p) p t in
      let header : at shorter 0 ≡ at t 0 =
        get_or-set_ne (shift (n - p) p t) n 0 no_slot no_slot (omega arith)
        ∙ shift-below (n - p) p 0 t (omega arith) in
      rw (← is) (
        rw
          (get_or-set_self shorter 0
            (with_ecount (eh_ecount (at shorter 0) + 2 ^ 16 - 1) (at shorter 0)) no_slot
            (omega (arith, size)))
          (rw header (omega (arith, is))))

module _ (g : Geometry) where
  -- `ext4_ext_rm_extent` at an entry of a leaf that holds its entries, asked from the first byte
  -- of the extent or before for at least its length: it frees as many blocks as the extent has,
  -- from its `e_start_lo` on, takes as many off the inode's count, every entry below stays in its
  -- slot, every later one moves down by one, and the count is one less.
  pub rm_extent_whole :
      (ip : Inode) (t : Table) (p n lbn len : ℕ)
      → n ≡ eh_ecount (at t 0)
      → 1 ≤ p
      → p ≤ n
      → n < length t
      → lbn ≤ e_blk (at t p) * g.bsize
      → e_len (at t p) ≤ len
      → (t' : Table) × (rm_extent g ip t (some p) 0 lbn len
          ≡ some (record {
            free_start = e_start_lo (at t p);
            free_len = e_len (at t p);
            inode = discharge g ip (e_len (at t p));
            table = t';
          }))
        × ((q : ℕ) → 1 ≤ q → q < n → at t' q ≡ (if ltb q p then at t q else at t (q + 1)))
        × (eh_ecount (at t' 0) + 1 ≡ n)
  unfolding rm_extent part_of left_of
  rm_extent_whole ip t p n lbn len is one le room from all =
      let a : ltb (e_blk (at t p) * g.bsize) lbn ≡ false = ground arith in
      let b : min len (e_len (at t p)) ≡ e_len (at t p) = omega arith in
      let c : ((e_start_lo (at t p) == e_start_lo (at t p)) && (e_len (at t p) == e_len (at t p)))
          ≡ true =
        ground arith in
      (
        take_out p t,
        rw (a, b, c) refl,
        take_out-entry t p n is one le room,
        take_out-count t p n is one le room,
      )
