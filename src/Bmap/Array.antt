-- ===== src/Bmap/Array.antt =====
-- `ext2_bmaparray`, `ext2_blockmap`, `ext2_blktooff` and `ext2_offtoblk` of kext/ext2_bmap.c.
pub mod Run
use ext2fs.Base.{
  ℕ, zero, suc, ◌+◌, ◌-◌, ◌*◌, ◌/◌, ◌%◌, ◌^◌, Bool, true, false, Option, none, some, List, [], ◌∷◌,
  not, ◌&&◌, ◌||◌, min, ltb, leb, ◌==◌, if◌then◌else◌, get_or,
}
use ext2fs.Base.Int.{ℤ, pos, negsuc, eqb_ℤ}
use ext2fs.Geometry.{Geometry, blkoff, lblkno}
use ext2fs.Bmap.{ndaddr, Indir, getlbns}

-- What struct ext2mount holds for the mapping: MNINDIR, `um_bptrtodb` and `um_seqinc`.
pub record Mount : Type 0 where
  pub nindir : ℕ
  pub bptrtodb : ℕ
  pub seqinc : ℕ

-- The inode's direct and indirect pointers, of 32 bits.
pub record Pointers : Type 0 where
  pub db : List ℕ
  pub ib : List ℕ

-- A read of a device block: its pointers, or an error.
pub data Read : Type 0 where
  data_of : List ℕ → Read
  failed : ℕ → Read

-- The result: an error, or `*bnp` (`none` is -1, a hole) and `*runp`.
pub data Mapped : Type 0 where
  error : ℕ → Mapped
  mapped : Option ℕ → ℕ → Mapped

abbrev pub efbig : ℕ
efbig = 27

module _ (ump : Mount) where
  -- How many pointers from place `i` on follow their predecessor on the disk, at most `k`.
  unfoldable pub seq_run : List ℕ → ℕ → ℕ → ℕ
  seq_run table zero i = 0
  seq_run table (suc k) i =
      if get_or table i 0 == get_or table (i - 1) 0 + ump.seqinc
      then suc (seq_run table k (i + 1))
      else 0

  -- The run behind place `i` of a table of `size` pointers.
  unfoldable pub run_of : List ℕ → ℕ → ℕ → ℕ → ℕ
  unfolding seq_run
  run_of table size maxrun i = seq_run table (min maxrun (size - (i + 1))) (i + 1)

  -- `blkptrtodb` of a pointer of 32 bits, which stays of 32 bits.
  unfoldable pub blkptrtodb32 : ℕ → ℕ
  blkptrtodb32 b = b * 2 ^ ump.bptrtodb % 2 ^ 32

  -- And of a `daddr64_t`.
  unfoldable pub blkptrtodb : ℕ → ℕ
  blkptrtodb b = b * 2 ^ ump.bptrtodb

  -- `if (*bnp == 0) *bnp = -1;`
  abbrev pub or_hole : ℕ → Option ℕ
  or_hole a = if a == 0 then none else some a

  module _ (read : ℕ → Read) (maxrun : ℕ) where
    -- The walk down the indirect blocks.
    unfoldable pub walk : ℤ → List Indir → ℕ → Mapped
    walk bn [] daddr = mapped (or_hole (blkptrtodb daddr)) 0
    walk bn (e ∷ path) daddr =
        let down = λ (table : List ℕ). walk bn path (get_or table e.off 0) in
        let last = λ (table : List ℕ).
          mapped (or_hole (blkptrtodb (get_or table e.off 0)))
            (if get_or table e.off 0 == 0 then 0 else run_of table ump.nindir maxrun e.off) in
        if (daddr == 0) || eqb_ℤ e.lbn bn
        then mapped (or_hole (blkptrtodb daddr)) 0
        else elim (read (blkptrtodb daddr)) [
          | failed err ↦ error err
          | data_of table ↦ elim path [ [] ↦ last table | _ ∷ _ ↦ down table ]
        ]

    -- `runp` is there and `runb` is NULL, as in every call.
    unfoldable pub direct : Pointers → ℕ → Mapped
    unfolding run_of blkptrtodb32
    direct ip b =
        if blkptrtodb32 (get_or ip.db b 0) == 0
        then mapped none 0
        else mapped (some (blkptrtodb32 (get_or ip.db b 0))) (run_of ip.db ndaddr maxrun b)

    -- From the path of `ext2_getlbns` on; an empty one is a direct block. No caller asks for one of
    -- the negative blocks from -1 to -11, for which the source reads before `i_db`.
    unfoldable pub by_path : Pointers → ℤ → List Indir → Mapped
    unfolding direct walk
    by_path ip (pos b) [] = direct ip b
    by_path ip (negsuc b) [] = mapped none 0
    by_path ip bn (e ∷ path) = walk bn path (get_or ip.ib e.off 0)

    unfoldable pub bmaparray : Pointers → ℤ → Mapped
    unfolding by_path
    bmaparray ip bn = elim (getlbns ump.nindir bn) [
      | none ↦ error efbig
      | some path ↦ by_path ip bn path
    ]

module _ (g : Geometry) where
  -- `ext2_blktooff` and `ext2_offtoblk`, with a place for the result.
  unfoldable pub blktooff : ℕ → ℕ
  blktooff lblkno = lblkno * g.bsize

  unfoldable pub offtoblk : ℕ → ℕ
  offtoblk offset = offset / g.bsize

  -- The bytes that a run covers from `foffset` on, of the `size` asked for and a file of `i_size`.
  unfoldable pub contig_of : ℕ → ℕ → ℕ → ℕ → ℕ
  contig_of run foffset size i_size =
      let contig = min ((run + 1) * g.bsize - blkoff g foffset) size in
      if ltb i_size (foffset + contig) then i_size - foffset else contig

  -- `ext2_blockmap` without extents: the mapping of a byte offset, from that of its block. The
  -- result is `*a_bpn`, `none` for -1, and `*a_run`, or the error.
  unfoldable pub blockmap : (ℕ → Mapped) → ℕ → ℕ → ℕ → Mapped
  unfolding contig_of
  blockmap bmap foffset size i_size = elim (bmap (lblkno g foffset)) [
    | error e ↦ error e
    | mapped none run ↦ mapped none 0
    | mapped (some bn) run ↦
        mapped (some (bn + blkoff g foffset / 512)) (contig_of run foffset size i_size)
  ]
