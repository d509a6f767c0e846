-- ===== src/Extents.antt =====
-- The extent trees of kext/ext2_extents.c. A node is a table of slots of 12 bytes, each of three words
-- of 32 bits: slot 0 is the header (struct ext4_extent_header), and the slots behind it are extents
-- (struct ext4_extent) or indices (struct ext4_extent_index). A pointer into a node is the number of
-- a slot.
pub mod Remove
pub mod Search
pub mod Cache
pub mod Locks
pub mod Map
pub mod Offset
pub mod Tree
use ext2fs.Base.{
  ℕ, zero, suc, ◌+◌, ◌-◌, ◌*◌, ◌/◌, ◌%◌, ◌^◌, Bool, true, false, Option, none, some, List, [], ◌∷◌,
  ltb, leb, ◌==◌, if◌then◌else◌, get_or, ◌&&◌,
}

pub record Slot : Type 0 where
  pub w0 : ℕ
  pub w1 : ℕ
  pub w2 : ℕ

abbrev pub no_slot : Slot
no_slot = record { w0 = 0; w1 = 0; w2 = 0 }

-- EXT4_EXT_MAGIC
abbrev pub magic : ℕ
magic = 62218

-- The fields of the header: `eh_magic`, `eh_ecount`, `eh_max` and `eh_depth`.
abbrev pub eh_magic : Slot → ℕ
eh_magic s = s.w0 % 2 ^ 16

abbrev pub eh_ecount : Slot → ℕ
eh_ecount s = s.w0 / 2 ^ 16 % 2 ^ 16

abbrev pub eh_max : Slot → ℕ
eh_max s = s.w1 % 2 ^ 16

abbrev pub eh_depth : Slot → ℕ
eh_depth s = s.w1 / 2 ^ 16 % 2 ^ 16

-- Of an extent: `e_blk`, `e_len`, `e_start_hi` and `e_start_lo`.
abbrev pub e_blk : Slot → ℕ
e_blk s = s.w0

abbrev pub e_len : Slot → ℕ
e_len s = s.w1 % 2 ^ 16

abbrev pub e_start_hi : Slot → ℕ
e_start_hi s = s.w1 / 2 ^ 16 % 2 ^ 16

abbrev pub e_start_lo : Slot → ℕ
e_start_lo s = s.w2

-- The 48 bits of `ei_leaf_hi` and `ei_leaf_lo` of an index, whose `ei_blk` is the word of `e_blk`.
abbrev pub ei_leaf : Slot → ℕ
ei_leaf s = s.w2 % 2 ^ 16 * 2 ^ 32 + s.w1

abbrev pub Table : Type 0
Table = List Slot

abbrev pub at : Table → ℕ → Slot
at t p = get_or t p no_slot

module _ (t : Table) (lbn : ℕ) where
  -- The loop of both searches: `l` and the slot behind `r`, on fuel.
  unfoldable pub bisect : ℕ → ℕ → ℕ → Option ℕ
  bisect zero l hi = none
  bisect (suc k) l hi =
      let m : ℕ = l + (hi - 1 - l) / 2 in
      let lower = bisect k l m in
      let upper = bisect k (m + 1) hi in
      if ltb l hi then (if ltb lbn (at t m).w0 then lower else upper) else some (l - 1)

  -- `ext4_ext_binsearch_index`: the slot of `ep_index`. With no entry it is the header's.
  unfoldable pub binsearch_index : Option ℕ
  unfolding bisect
  binsearch_index = bisect (eh_ecount (at t 0) + 1) 1 (eh_ecount (at t 0) + 1)

  -- `ext4_ext_binsearch`: the slot of `ep_ext`, or NULL.
  unfoldable pub binsearch : Option (Option ℕ)
  unfolding bisect
  binsearch =
      if eh_ecount (at t 0) == 0
      then some none
      else (elim (bisect (eh_ecount (at t 0) + 1) 1 (eh_ecount (at t 0) + 1)) [
        | none ↦ none
        | some p ↦ some (some p)
      ])

-- `ep_header` and `ep_ext` of a path that was found.
pub record Path4 : Type 0 where
  pub header : Table
  pub ext : Option ℕ
  pub depth : ℕ

-- What comes of `ext4_ext_find_extent`: NULL, or a path.
pub data Sought : Type 0 where
  not_there : Sought
  found : Path4 → Sought

-- `read` gives the table of a file system block, or the error of `buf_meta_bread`.
module _ (read : ℕ → Option Table) (lbn : ℕ) where
  -- The loop on `eh_depth`, then the search in the leaf. A loop that runs out of fuel gives `none`.
  unfoldable pub descend : ℕ → Table → Option Sought
  descend zero t = elim (binsearch t lbn) [
    | none ↦ none
    | some p ↦ some (found (record { header = t; ext = p; depth = 0 }))
  ]
  descend (suc i) t = elim (binsearch_index t lbn) [
    | none ↦ none
    | some p ↦ elim (read (ei_leaf (at t p))) [
      | none ↦ some not_there
      | some below ↦ descend i below
    ]
  ]

  -- `root` is what `i_db` holds.
  unfoldable pub find_extent : Table → Option Sought
  find_extent root =
      if eh_magic (at root 0) == magic then descend (eh_depth (at root 0)) root else some not_there
