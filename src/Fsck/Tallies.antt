-- ===== src/Fsck/Tallies.antt =====
-- What the loops of `pass5` over the inodes and the blocks of a group come to.
use ext2fs.Base.{
  ℕ, zero, suc, ◌+◌, ◌*◌, ◌/◌, ◌%◌, ◌^◌, ◌≤◌, ◌<◌, ◌≡◌, ◌≢◌, inl, inr, refl, sym, ◌∙◌, subst, Bool,
  true, false, not, ◌&&◌, ◌||◌, Option, some, List, ◌==◌, ltb, leb, if◌then◌else◌, length, arith,
  Bool-cases, eq-cases, get_or, ap, length-set, get_or-set_ne, All-set,
}
use ext2fs.Base.Bits.{
  isset, setbit, bit_of, count_clear, IsMap, IsByte, isset-setbit, length-setbit, setbit-IsMap,
}
use ext2fs.Geometry.{Geometry}
use ext2fs.Alloc.State.{dec32}
use ext2fs.Fsck.{
  InodeState, ustate, fstate, dstate, dfound, dclear, fclear, bad, Found, Tally, zeroed,
  inode_state, inode_number, inode_bit, inode_bits, pad, dbase, block_bits,
}

-- How many of the first `n` numbers do not satisfy `p`.
unfoldable pub clears : (ℕ → Bool) → ℕ → ℕ
clears p zero = 0
clears p (suc n) = clears p n + (if p n then 0 else 1)

pub clears-le : (p : ℕ → Bool) (n : ℕ) → clears p n ≤ n
unfolding clears
clears-le p zero = omega arith
clears-le p (suc n) = ground (arith, clears-le p n)

length-replicate : (n : ℕ) → length (zeroed n) ≡ n
length-replicate zero = refl
length-replicate (suc n) = ap suc (length-replicate n)

replicate-IsMap : (n : ℕ) → IsMap (zeroed n)
replicate-IsMap zero = tt
replicate-IsMap (suc n) = (omega arith, replicate-IsMap n)

get_or-replicate : (n i : ℕ) → get_or (zeroed n) i 0 ≡ 0
get_or-replicate zero i = refl
get_or-replicate (suc n) zero = refl
get_or-replicate (suc n) (suc i) = get_or-replicate n i

zero_bit : (k : ℕ) → bit_of 0 k ≡ false
zero_bit k = ground arith

isset-replicate : (n j : ℕ) → isset (zeroed n) j ≡ false
unfolding isset
isset-replicate n j = rw (get_or-replicate n (j / 8)) (zero_bit (j % 8))

-- A block of `size` bytes in which, of the first `n` bits, those that satisfy `p` are set, and no others.
pub record Marks (p : ℕ → Bool) (size n : ℕ) (map : List ℕ) : Type 0 where
  pub bytes : IsMap map
  pub room : length map ≡ size
  pub bits : (j : ℕ) → isset map j ≡ (ltb j n && p j)

blank-Marks : (p : ℕ → Bool) (size : ℕ) → Marks p size 0 (zeroed size)
blank-Marks p size = record {
  bytes = replicate-IsMap size;
  room = length-replicate size;
  bits = λ j. ground (arith, isset-replicate size j);
}

module _ (p : ℕ → Bool) (size n : ℕ) (map : List ℕ) (m : Marks p size n map) where
  setbit-Marks : n < 8 * size → p n ≡ true → Marks p size (suc n) (setbit map n)
  setbit-Marks h e = record {
    bytes = setbit-IsMap map n m.bytes;
    room = ground (arith, length-setbit map n, m.room);
    bits = λ j. ground (arith, isset-setbit map n j m.bytes (ground (arith, m.room)), m.bits j, e);
  }

  skip-Marks : p n ≡ false → Marks p size (suc n) map
  skip-Marks e = record {
    bytes = m.bytes;
    room = m.room;
    bits = λ j. elim (eq-cases j n) [
      | inl same ↦ ground (arith, m.bits j, e, same)
      | inr other ↦ ground (arith, m.bits j)
    ];
  }

-- The clear bits are those that do not satisfy `p`.
pub count_clear-Marks :
    (p : ℕ → Bool) (map : List ℕ) (n : ℕ)
    → ((j : ℕ) → j < n → isset map j ≡ p j)
    → count_clear map n ≡ clears p n
unfolding count_clear clears
count_clear-Marks p map zero h = refl
count_clear-Marks p map (suc n) h =
    rw (count_clear-Marks p map n (λ j l. h j (omega arith)), h n (omega arith)) refl

module _ (g : Geometry) (f : Found) (c : ℕ) where
  -- Bit `i` of the block map of group `c`.
  abbrev pub block_used : ℕ → Bool
  block_used i = isset f.blockmap (dbase g f c + i) || leb g.bcount (dbase g f c + i)

  pub block_bits_lem :
      (n : ℕ)
      → n ≤ 8 * g.bsize
      → n < 2 ^ 32
      → Marks block_used g.bsize n (block_bits g f c n).map
        × ((block_bits g f c n).nfree ≡ clears block_used n)
  unfolding block_bits clears
  block_bits_lem zero h k = (blank-Marks block_used g.bsize, refl)
  block_bits_lem (suc n) h k =
      let (m, count) = block_bits_lem n (omega arith) (omega arith) in
      elim (Bool-cases (block_used n)) [
        | inl taken ↦
            rw taken
              (setbit-Marks block_used g.bsize n _ m (omega arith) taken, ground (arith, count))
        | inr free ↦ rw free (
          skip-Marks block_used g.bsize n _ m free,
          ground (arith, count, clears-le block_used n),
        )
      ]

abbrev pub in_use : InodeState → Bool
in_use ustate = false
in_use fstate = true
in_use dstate = true
in_use dfound = true
in_use dclear = true
in_use fclear = true
in_use bad = true

module _ (g : Geometry) (f : Found) (c : ℕ) where
  -- Bit `i` of the inode map of group `c`.
  abbrev pub inode_used : ℕ → Bool
  inode_used i =
      (ltb (inode_number g f c i) 11 && not (inode_number g f c i == 2))
      || ltb f.icount (inode_number g f c i)
      || in_use (f.statemap (inode_number g f c i))

  -- What a turn does for an inode that is used or not.
  abbrev Turned : Bool → ℕ → Tally → Option Tally → Type 0
  Turned u i t r =
      (t' : Tally) × (r ≡ some t')
      × (t'.map ≡ (if u then setbit t.map i else t.map))
      × (t'.nfree ≡ (if u then dec32 t.nfree else t.nfree))
      × (t'.ndirs ≤ t.ndirs + 1)

  inode_state_lem :
      (s : InodeState) (i : ℕ) (t : Tally) → s ≢ bad → Turned (in_use s) i t (inode_state g f s i t)
  unfolding inode_state
  inode_state_lem ustate i t h = (_, refl, refl, refl, omega arith)
  inode_state_lem fstate i t h = (_, refl, refl, refl, omega arith)
  inode_state_lem dstate i t h = (_, refl, refl, refl, omega arith)
  inode_state_lem dfound i t h = (_, refl, refl, refl, omega arith)
  inode_state_lem dclear i t h = (_, refl, refl, refl, omega arith)
  inode_state_lem fclear i t h = (_, refl, refl, refl, omega arith)
  inode_state_lem bad i t h = absurd (h refl)

  inode_bit_lem :
      (i : ℕ) (t : Tally)
      → inode_number g f c i ≤ f.icount
      → f.statemap (inode_number g f c i) ≢ bad
      → Turned (inode_used i) i t (inode_bit g f c i t)
  unfolding inode_bit
  inode_bit_lem i t h good =
      elim (Bool-cases (ltb (inode_number g f c i) 11 && not (inode_number g f c i == 2))) [
        | inl reserved ↦ rw reserved (_, refl, refl, refl, omega arith)
        | inr plain ↦
            let inside : ltb f.icount (inode_number g f c i) ≡ false = ground (arith, h) in
            rw (plain, inside) (inode_state_lem (f.statemap (inode_number g f c i)) i t good)
      ]

  module _ (inside : (i : ℕ) → i < g.ipg → inode_number g f c i ≤ f.icount)
      (good : (i : ℕ) → i < g.ipg → f.statemap (inode_number g f c i) ≢ bad)
      (fits : g.ipg ≤ 8 * g.bsize) (small : g.ipg < 2 ^ 32) where
    -- The first `n` turns, and the free inodes that they leave counted.
    abbrev pub Counted : ℕ → Tally → Type 0
    Counted n t =
        Marks inode_used g.bsize n t.map
        × (t.nfree + n ≡ g.ipg + clears inode_used n)
        × (t.ndirs ≤ n)

    turned-Counted :
        (n : ℕ) (t t' : Tally)
        → n < g.ipg
        → Counted n t
        → t'.map ≡ (if inode_used n then setbit t.map n else t.map)
        → t'.nfree ≡ (if inode_used n then dec32 t.nfree else t.nfree)
        → t'.ndirs ≤ t.ndirs + 1
        → Counted (suc n) t'
    unfolding clears
    turned-Counted n t t' l (m, count, few) map nfree ndirs = elim (Bool-cases (inode_used n)) [
      | inl taken ↦ (
        subst (Marks inode_used g.bsize (suc n)) (sym (rw taken at map))
            (setbit-Marks inode_used g.bsize n t.map m (omega (arith, fits)) taken),
        ground (arith, count, nfree, taken, clears-le inode_used n, small),
        omega (arith, few, ndirs),
      )
      | inr free ↦ (
        subst (Marks inode_used g.bsize (suc n)) (sym (rw free at map))
            (skip-Marks inode_used g.bsize n t.map m free),
        ground (arith, count, nfree, free),
        omega (arith, few, ndirs),
      )
    ]

    pub inode_bits_lem :
        (n : ℕ) → n ≤ g.ipg → (t : Tally) × (inode_bits g f c n ≡ some t) × Counted n t
    unfolding inode_bits clears
    inode_bits_lem zero h = (_, refl, (blank-Marks inode_used g.bsize, omega arith, omega arith))
    inode_bits_lem (suc n) h =
        let (t, e, counted) = inode_bits_lem n (omega arith) in
        let (t', e', map, nfree, ndirs) = inode_bit_lem n t (inside n h) (good n h) in
        (t', rw (e, e') refl, turned-Counted n t t' h counted map nfree ndirs)

-- Filling the bytes behind the inodes leaves the bits of the inodes.
module _ (g : Geometry) (f : Found) (map : List ℕ) where
  pub length-pad : (n : ℕ) → length (pad g f map n) ≡ length map
  unfolding pad
  length-pad zero = refl
  length-pad (suc n) = length-set (pad g f map n) (g.ipg / 8 + n) 0xff ∙ length-pad n

  pub pad-IsMap : IsMap map → (n : ℕ) → IsMap (pad g f map n)
  unfolding pad
  pad-IsMap w zero = w
  pad-IsMap w (suc n) =
      All-set IsByte (pad g f map n) (g.ipg / 8 + n) 0xff (pad-IsMap w n) (omega arith)

  pub isset-pad : g.ipg % 8 ≡ 0 → (n j : ℕ) → j < g.ipg → isset (pad g f map n) j ≡ isset map j
  unfolding pad isset
  isset-pad whole zero j h = refl
  isset-pad whole (suc n) j h =
      rw
        (get_or-set_ne (pad g f map n) (g.ipg / 8 + n) (j / 8) 0xff 0
          (λ e. absurd (omega (arith, e, h, whole))))
        (isset-pad whole n j h)
