-- ===== src/InodeConv.antt =====
-- `ext2_ei2i` and `ext2_i2ei` of kext/ext2_inode_cnv.c: an inode of the disk and one in core.
pub mod RoundTrip
use ext2fs.Base.{
  ℕ, ◌+◌, ◌-◌, ◌*◌, ◌/◌, ◌%◌, ◌^◌, Bool, true, false, List, ◌++◌, ltb, ◌==◌, if◌then◌else◌, take,
  drop,
}
use ext2fs.Bmap.{ndaddr}

-- struct ext2fs_dinode, its first 156 bytes. The times are their bits.
pub record Dinode : Type 0 where
  pub mode : ℕ
  pub uid : ℕ
  pub size : ℕ
  pub atime : ℕ
  pub ctime : ℕ
  pub mtime : ℕ
  pub dtime : ℕ
  pub gid : ℕ
  pub nlink : ℕ
  pub nblock : ℕ
  pub flags : ℕ
  pub blocks : List ℕ
  pub gen : ℕ
  pub size_high : ℕ
  pub nblock_high : ℕ
  pub ctime_extra : ℕ
  pub mtime_extra : ℕ
  pub atime_extra : ℕ
  pub crtime : ℕ
  pub crtime_extra : ℕ

-- The fields of struct inode that stand for those. The three that end `i_flags` are the bits SF_APPEND,
-- SF_IMMUTABLE and UF_NODUMP of it, whose places the system's headers choose.
pub record Incore : Type 0 where
  pub i_flag : ℕ
  pub i_mode : ℕ
  pub i_nlink : ℕ
  pub i_uid : ℕ
  pub i_gid : ℕ
  pub i_size : ℕ
  pub i_blocks : ℕ
  pub i_atime : ℕ
  pub i_mtime : ℕ
  pub i_ctime : ℕ
  pub i_birthtime : ℕ
  pub i_mtimensec : ℕ
  pub i_atimensec : ℕ
  pub i_ctimensec : ℕ
  pub i_birthnsec : ℕ
  pub i_gen : ℕ
  pub append_flag : Bool
  pub immutable_flag : Bool
  pub nodump_flag : Bool
  pub i_db : List ℕ
  pub i_ib : List ℕ

-- `x & (1 << k)` as a condition, and `x |= 1 << k`.
abbrev pub bit_at : ℕ → ℕ → Bool
bit_at k x = x / 2 ^ k % 2 == 1

abbrev pub or_bit : ℕ → ℕ → ℕ
or_bit k x = if bit_at k x then x else x + 2 ^ k

-- `(c) ? bit : 0`
abbrev pub bit_if : Bool → ℕ → ℕ
bit_if c bit = if c then bit else 0

-- S_ISREG
abbrev pub s_isreg : ℕ → Bool
s_isreg mode = mode / 2 ^ 12 % 2 ^ 4 == 8

-- XTIME_TO_NSEC and NSEC_TO_XTIME
abbrev pub xtime_to_nsec : ℕ → ℕ
xtime_to_nsec x = x / 4

abbrev pub nsec_to_xtime : ℕ → ℕ
nsec_to_xtime t = t * 4 % 2 ^ 32

-- What the conversion asks of the file system: E2DI_HAS_XTIME, E2DI_HAS_HUGE_FILE, and the shift of
-- `fsbtodb`.
pub record Features : Type 0 where
  pub has_xtime : Bool
  pub has_huge_file : Bool
  pub fsbtodb_shift : ℕ

module _ (c : Features) where
  -- `i_blocks`, of 64 bits.
  unfoldable pub blocks_of : Dinode → ℕ
  blocks_of ei =
      let both : ℕ = ei.nblock + ei.nblock_high * 2 ^ 32 in
      if c.has_huge_file
      then (if bit_at 18 ei.flags then both * 2 ^ c.fsbtodb_shift % 2 ^ 64 else both)
      else ei.nblock

  -- `i_flag` gains IN_E4INDEX and IN_E4EXTENTS.
  unfoldable pub flag_of : Dinode → ℕ → ℕ
  flag_of ei flag =
      let indexed : ℕ = if bit_at 12 ei.flags then or_bit 16 flag else flag in
      if bit_at 19 ei.flags then or_bit 17 indexed else indexed

  unfoldable pub ei2i : Dinode → Incore → Incore
  unfolding blocks_of flag_of
  ei2i ei ip =
      let i_mode : ℕ = if ei.nlink == 0 then 0 else ei.mode in
      let old_time = λ (new old : ℕ). if c.has_xtime then new else old in
      record {
        i_flag = flag_of ei ip.i_flag;
        i_mode = i_mode;
        i_nlink = ei.nlink;
        i_uid = ei.uid;
        i_gid = ei.gid;
        i_size = if s_isreg i_mode then ei.size + ei.size_high * 2 ^ 32 else ei.size;
        i_blocks = blocks_of ei;
        i_atime = ei.atime;
        i_mtime = ei.mtime;
        i_ctime = ei.ctime;
        i_birthtime = old_time ei.crtime ip.i_birthtime;
        i_mtimensec = old_time (xtime_to_nsec ei.mtime_extra) ip.i_mtimensec;
        i_atimensec = old_time (xtime_to_nsec ei.atime_extra) ip.i_atimensec;
        i_ctimensec = old_time (xtime_to_nsec ei.ctime_extra) ip.i_ctimensec;
        i_birthnsec = old_time (xtime_to_nsec ei.crtime_extra) ip.i_birthnsec;
        i_gen = ei.gen;
        append_flag = bit_at 5 ei.flags;
        immutable_flag = bit_at 4 ei.flags;
        nodump_flag = bit_at 6 ei.flags;
        i_db = take ndaddr ei.blocks;
        i_ib = drop ndaddr ei.blocks;
      }

  -- `e2di_flags`, built of five bits that are all different.
  unfoldable pub flags_of : Incore → ℕ
  flags_of ip =
      bit_if ip.append_flag 32
      + bit_if ip.immutable_flag 16
      + bit_if ip.nodump_flag 64
      + bit_if (bit_at 16 ip.i_flag) 4096
      + bit_if (bit_at 17 ip.i_flag) 524288

  unfoldable pub i2ei : Incore → Dinode → Dinode
  unfolding flags_of
  i2ei ip ei =
      let old_time = λ (new old : ℕ). if c.has_xtime then new else old in
      record {
        mode = ip.i_mode;
        uid = ip.i_uid % 2 ^ 16;
        size = ip.i_size % 2 ^ 32;
        atime = ip.i_atime;
        ctime = ip.i_ctime;
        mtime = ip.i_mtime;
        dtime = if ip.i_nlink == 0 then ip.i_mtime else 0;
        gid = ip.i_gid % 2 ^ 16;
        nlink = ip.i_nlink;
        nblock = ip.i_blocks % 2 ^ 32;
        flags = flags_of ip;
        blocks = ip.i_db ++ ip.i_ib;
        gen = ip.i_gen;
        size_high = if s_isreg ip.i_mode then ip.i_size / 2 ^ 32 % 2 ^ 32 else ei.size_high;
        nblock_high = ip.i_blocks / 2 ^ 32 % 2 ^ 16;
        ctime_extra = old_time (nsec_to_xtime ip.i_ctimensec) ei.ctime_extra;
        mtime_extra = old_time (nsec_to_xtime ip.i_mtimensec) ei.mtime_extra;
        atime_extra = old_time (nsec_to_xtime ip.i_atimensec) ei.atime_extra;
        crtime = old_time ip.i_birthtime ei.crtime;
        crtime_extra = old_time (nsec_to_xtime ip.i_birthnsec) ei.crtime_extra;
      }
