-- ===== src/Extents/Offset.antt =====
-- `ext2_blkatoff` of kext/ext2_subr.c: the block of a directory that an offset lies in.
use ext2fs.Base.{
  ℕ, ◌%◌, ◌^◌, ◌≤◌, ◌≡◌, ◌⊎◌, refl, inl, inr, Bool, true, Option, none, some, List, leb, ◌==◌, ◌||◌,
  if◌then◌else◌, arith, Bool-cases,
}
use ext2fs.Geometry.{Geometry, lblkno}
use ext2fs.Bmap.Array.{Mapped, error, mapped}
use ext2fs.Extents.{Table, Sought, at, not_there, found, find_extent}
use ext2fs.Extents.Map.{eio, device_block, mapped_bits, bmapext}

-- Where the block is read: from the device, by its number there, or from the file, whose block
-- the kernel maps.
pub data Source : Type 0 where
  on_device : ℕ → Source
  in_file : ℕ → Source

-- `*bpp` and `*res`: the data of the buffer with its logical block, and the place of the offset in it.
pub data AtOffset : Type 0 where
  failed : ℕ → AtOffset
  buffer : List ℕ → ℕ → ℕ → AtOffset

-- What `buf_meta_bread` gives: an error or data.
pub data BufRead : Type 0 where
  bread_error : ℕ → BufRead
  bread_data : List ℕ → BufRead

module _ (g : Geometry) where
  -- `path.ep_ext` of what `ext4_ext_find_extent` gave; without one the label `normal`.
  unfoldable pub source_of : Sought → ℕ → Source
  unfolding device_block
  source_of not_there lbn = in_file lbn
  source_of (found path) lbn = elim (path.ext) [
    | none ↦ in_file lbn
    | some p ↦ on_device (device_block g (at path.header p) lbn)
  ]

  -- A search that runs out of fuel gives `none`.
  unfoldable pub source_from : Option Sought → ℕ → Option Source
  unfolding source_of
  source_from none lbn = none
  source_from (some s) lbn = some (source_of s lbn)

  -- `extents` is IN_E4EXTENTS.
  unfoldable pub source_at : Bool → (ℕ → Option Table) → Table → ℕ → Option Source
  unfolding source_from
  source_at extents read root lbn =
      if extents then source_from (find_extent read lbn root) lbn else some (in_file lbn)

  unfoldable pub filled : BufRead → ℕ → ℕ → AtOffset
  filled (bread_error e) lbn offset = failed e
  filled (bread_data bytes) lbn offset = buffer bytes lbn (offset % g.bsize)

  -- `buf_setlblkno` gives a buffer of the device the number that one of the file has.
  unfoldable pub blkatoff :
      (Source → BufRead) → Bool → (ℕ → Option Table) → Table → ℕ → Option AtOffset
  unfolding source_at filled
  blkatoff bread extents read root offset = elim (source_at extents read root (lblkno g offset)) [
    | none ↦ none
    | some s ↦ some (filled (bread s) (lblkno g offset) offset)
  ]

  module _ (bread : Source → BufRead) (offset : ℕ) where
    -- What a read from there gives.
    abbrev pub given : Source → Option AtOffset
    given s = some (filled (bread s) (lblkno g offset) offset)

    -- How what `ext2_blkatoff` gives stands to what `ext4_bmapext` gives for the block.
    unfoldable pub Agrees : Option Mapped → Option AtOffset → Type 0
    unfolding filled
    Agrees none r = r ≡ none
    Agrees (some (error e)) r = r ≡ given (in_file (lblkno g offset))
    Agrees (some (mapped none n)) r = (d : ℕ) × (r ≡ given (on_device d)) × ((d ≡ 0) ⊎ (2 ^ 63 ≤ d))
    Agrees (some (mapped (some d) n)) r = r ≡ given (on_device d)

    bits_agree : (bits : ℕ) → Agrees (some (mapped_bits g bits)) (given (on_device bits))
    unfolding mapped_bits Agrees
    bits_agree bits = elim (Bool-cases ((bits == 0) || leb (2 ^ 63) bits)) [
      | inl t ↦ rw t (bits, refl, ground (arith, t))
      | inr f ↦ rw f refl
    ]

    module _ (read : ℕ → Option Table) (root : Table) where
      abbrev lbn : ℕ
      lbn = lblkno g offset

      at_extent :
          (header : Table) (o : Option ℕ)
          → Agrees
              (elim o [
                | none ↦ some (error eio)
                | some p ↦ some (mapped_bits g (device_block g (at header p) lbn))
              ])
              (given (elim o [
                | none ↦ in_file lbn
                | some p ↦ on_device (device_block g (at header p) lbn)
              ]))
      unfolding Agrees
      at_extent header none = refl
      at_extent header (some p) = bits_agree (device_block g (at header p) lbn)

      at_sought :
          (x : Option Sought)
          → Agrees
              (elim x [
                | none ↦ none
                | some not_there ↦ some (error eio)
                | some (found path) ↦ elim (path.ext) [
                  | none ↦ some (error eio)
                  | some p ↦ some (mapped_bits g (device_block g (at path.header p) lbn))
                ]
              ])
              (elim (source_from x lbn) [ none ↦ none | some s ↦ given s ])
      unfolding Agrees source_from
      at_sought none = refl
      at_sought (some not_there) = refl
      at_sought (some (found path)) = at_extent path.header path.ext

      -- `ext2_blkatoff` of any offset in a file with extents against `ext4_bmapext` of the block
      -- that the offset lies in: where that gives a device block, the block is read from there;
      -- where it fails with an error, the block is read through the file; where it gives a hole,
      -- the block is read from device block 0 or from one of 2^63 or more; and what is returned is
      -- the error of that read, or its data with the block of the file as its number and the
      -- offset within the block.
      pub blkatoff-bmapext : Agrees (bmapext g read root lbn) (blkatoff bread true read root offset)
      unfolding blkatoff bmapext
      blkatoff-bmapext = at_sought (find_extent read lbn root)
