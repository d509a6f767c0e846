-- ===== src/Alloc/Scan.antt =====
-- The searches of a group's bitmap for a free bit: `memcchr` and `ext2_fls` of
-- include/fs/ext2fs/ext2_apple.h, `ext2_mapsearch` and the run search of `ext2_alloccg` in
-- kext/ext2_alloc.c.
mod Byte
pub mod Runs
pub mod Found
use ext2fs.Base.{
  ℕ, zero, suc, ◌+◌, ◌-◌, ◌*◌, ◌/◌, ◌%◌, ◌^◌, Bool, true, false, Option, none, some, List, not,
  ◌&&◌, ltb, leb, ◌==◌, if◌then◌else◌, get_or,
}
use ext2fs.Base.Bits.{isclr}
use ext2fs.Base.Int.{ℤ, pos, negsuc, sub_ℕ}
use ext2fs.Geometry.{Geometry, dtog, dtogd, nbby, howmany}

-- The highest set bit of a 32-bit word, numbered from 1, or 0.
fls_from : ℕ → ℕ → ℕ
fls_from zero v = 0
fls_from (suc f) v = if v == 0 then 0 else suc (fls_from f (v / 2))

unfoldable pub fls : ℕ → ℕ
unfolding fls_from
fls v = fls_from 32 v

-- `ffs` of the C library: the lowest set bit, numbered from 1, or 0.
ffs_from : ℕ → ℕ → ℕ → ℕ
ffs_from zero v k = 0
ffs_from (suc f) v k = if v % 2 == 1 then k else ffs_from f (v / 2) (k + 1)

unfoldable pub ffs : ℕ → ℕ
unfolding ffs_from
ffs v = ffs_from 32 v 1

-- `~c` for a byte `c` that is read through a `char *`, which is signed.
abbrev pub not_char : ℕ → ℕ
not_char c = if ltb c 128 then 2 ^ 32 - 1 - c else 255 - c

-- The first place from `s` on, among `n`, whose byte is not `c`.
unfoldable pub memcchr : List ℕ → ℕ → ℕ → ℕ → Option ℕ
memcchr map s c zero = none
memcchr map s c (suc n) = if get_or map s 0 == c then memcchr map (s + 1) c n else some s

-- `(loc - bbp) * NBBY + ffs(~*loc) - 1`
abbrev pub clear_bit : List ℕ → ℕ → ℕ
clear_bit map loc = loc * nbby + ffs (not_char (get_or map loc 0)) - 1

-- The two calls of `memcchr` that `ext2_mapsearch` and `ext2_nodealloccg` make: `len` bytes from
-- `start` on, then the bytes up to `start`. `none` is their panic "map corrupted".
unfoldable pub search : List ℕ → ℕ → ℕ → Option ℕ
search map start len = elim (memcchr map start 0xff len) [
  | some loc ↦ some (clear_bit map loc)
  | none ↦ elim (memcchr map 0 0xff (start + 1)) [
    | some loc ↦ some (clear_bit map loc)
    | none ↦ none
  ]
]

module _ (g : Geometry) where
  -- The byte at which a search for a block begins; C divides towards 0.
  unfoldable pub start_of : ℕ → ℤ
  start_of bpref = elim (if bpref == 0 then pos 0 else dtogd g bpref) [
    | pos d ↦ pos (d / nbby)
    | negsuc d ↦ sub_ℕ 0 ((d + 1) / nbby)
  ]

  -- `none` is the panic, or a search that begins before the map.
  unfoldable pub mapsearch : List ℕ → ℕ → Option ℕ
  unfolding search start_of
  mapsearch map bpref = elim (start_of bpref) [
    | pos start ↦ search map start (howmany g.fpg nbby - start)
    | negsuc d ↦ none
  ]

-- One byte of the run search: the run so far is `len` bits from `start`, where 0 bits are no run.
-- `gotit` ends the search: the run is long enough.
pub data Scanned : Type 0 where
  gotit : ℕ → Scanned
  run : ℕ → ℕ → Scanned

abbrev pub new_run : ℕ → ℕ → Scanned
new_run loc byte =
    if leb 8 (nbby - fls byte)
    then gotit (loc * nbby + fls byte)
    else run (nbby - fls byte) (loc * nbby + fls byte)

unfoldable pub scan_byte : ℕ → ℕ → ℕ → ℕ → Scanned
scan_byte loc byte len start =
    if byte == 0xff
    then run 0 start
    else if len == 0
    then new_run loc byte
    else if byte == 0
    then (if leb 8 (len + nbby) then gotit start else run (len + nbby) start)
    else if leb 8 (len + (ffs byte - 1))
    then gotit start
    else new_run loc byte

-- The loop over `n` bytes from `loc`.
unfoldable pub find_run : List ℕ → ℕ → ℕ → ℕ → ℕ → Option ℕ
find_run map zero loc len start = none
find_run map (suc n) loc len start = elim (scan_byte loc (get_or map loc 0) len start) [
  | gotit bno ↦ some bno
  | run len' start' ↦ find_run map n (loc + 1) len' start'
]

module _ (g : Geometry) where
  -- The search behind the two labels `retry` and, at the end, `ext2_mapsearch`. As there, `none`
  -- is a panic or a search that begins before the map, where C defines nothing.
  unfoldable pub find_free : List ℕ → ℕ → Option ℕ
  unfolding find_run mapsearch
  find_free map bpref = elim (start_of g bpref) [
    | negsuc d ↦ none
    | pos start ↦
        let end = howmany g.fpg nbby - start in
        let first = find_run map (end - start) start 0 0 in
        let second = if start == 0 then none else find_run map start 0 0 0 in
        elim first [
          | some bno ↦ some bno
          | none ↦ elim second [ some bno ↦ some bno | none ↦ mapsearch g map bpref ]
        ]
  ]

  -- `bpref` counts only in its own group; the block itself is taken if it is free. A place before
  -- the map is `none` as well.
  unfoldable pub find_block : List ℕ → ℕ → ℕ → Option ℕ
  unfolding find_free
  find_block map cg bpref =
      let pref = if dtog g bpref == cg then bpref else 0 in
      if pref == 0 then find_free map 0 else elim (dtogd g pref) [
        | pos bit ↦ if isclr map bit then some bit else find_free map bit
        | negsuc d ↦ none
      ]

-- The search of `ext2_nodealloccg` for an inode, from the wish `ipref` (already less one) on.
unfoldable pub find_node : ℕ → List ℕ → ℕ → Option ℕ
unfolding search
find_node ipg map ipref =
    let pref = if ipref == 0 then 0 else ipref % ipg in
    if not (ipref == 0) && isclr map pref
    then some pref
    else search map (pref / nbby) (howmany (ipg - pref) nbby)
