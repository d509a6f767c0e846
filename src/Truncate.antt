-- ===== src/Truncate.antt =====
-- The release of blocks by `ext2_truncate` and `ext2_indirtrunc` of kext/ext2_inode.c. The calls of
-- `ext2_blkfree` and the writes of blocks of pointers are kept in their order.
pub mod Swept
pub mod Released
pub mod File
pub mod Call
pub mod Counted
pub mod Extent
use ext2fs.Base.{
  ℕ, zero, suc, ◌+◌, ◌-◌, ◌*◌, ◌/◌, ◌%◌, ◌^◌, Bool, true, false, ◌||◌, Option, none, some, List, [],
  ◌∷◌, ◌++◌, ltb, ◌==◌, if◌then◌else◌, get_or, drop,
}
use ext2fs.Bmap.{ndaddr}

-- What was done: the blocks given to `ext2_blkfree`, the blocks of pointers written, the device
-- blocks counted, and whether an error is returned.
pub record Cut : Type 0 where
  pub freed : List ℕ
  pub written : List (ℕ × List ℕ)
  pub count : ℕ
  pub failed : Bool

abbrev pub nothing : Cut
nothing = record { freed = []; written = []; count = 0; failed = false }

abbrev pub and_then : Cut → Cut → Cut
and_then a b = record {
  freed = a.freed ++ b.freed;
  written = a.written ++ b.written;
  count = a.count + b.count;
  failed = a.failed || b.failed;
}

-- The pointers from index `k` on become 0.
abbrev pub zero_from : ℕ → List ℕ → List ℕ
zero_from k [] = []
zero_from zero (x ∷ xs) = 0 ∷ zero_from zero xs
zero_from (suc k) (x ∷ xs) = x ∷ zero_from k xs

-- `factor`, the data blocks below a pointer at a level; level 0 is SINGLE.
abbrev pub factor : ℕ → ℕ → ℕ
factor n zero = 1
factor n (suc level) = factor n level * n

-- A pointer of the inode in `int32_t bn`, as it goes on to a 64-bit block number: those from 2^31 on are
-- numbers below 0.
unfoldable pub sign32 : ℕ → ℕ
sign32 bn = if ltb bn (2 ^ 31) then bn else bn + 2 ^ 64 - 2 ^ 32

-- The loop "All whole direct blocks", each of `dblocks` device blocks: `blksize` is `e2fs_fsize`.
unfoldable pub direct_blocks : ℕ → List ℕ → Cut
direct_blocks dblocks [] = nothing
direct_blocks dblocks (ptr ∷ rest) =
    let bn = sign32 ptr in
    and_then (direct_blocks dblocks rest) (
      if bn == 0
      then nothing
      else record { freed = bn ∷ []; written = []; count = dblocks; failed = false })

-- `nindir` is NINDIR, `nblocks` the device blocks of a block; `read` gives the pointers in a block, and
-- `writes` says whether its write succeeds.
module _ (nindir nblocks : ℕ) (read : ℕ → Option (List ℕ)) (writes : ℕ → Bool) where
  abbrev pub release : ℕ → Cut
  release nb = record { freed = nb ∷ []; written = []; count = nblocks; failed = false }

  -- The loop over pointers to be released, from the last to the first: `below` releases what lies
  -- below a pointer. In a block of pointers these are unsigned, and `nb` holds 64 bits.
  abbrev pub sweep : (ℕ → Cut) → List ℕ → Cut
  sweep below [] = nothing
  sweep below (nb ∷ rest) =
      and_then (sweep below rest) (if nb == 0 then nothing else and_then (below nb) (release nb))

  abbrev pub put_table : ℕ → List ℕ → Cut
  put_table bn table = record {
    freed = [];
    written = (bn, table) ∷ [];
    count = 0;
    failed = if writes bn then false else true;
  }

  -- The first pointer that is released in a block of pointers; `last` is `lastbn`, `none` for -1.
  abbrev pub keep : ℕ → Option ℕ → ℕ
  keep level none = 0
  keep level (some last) = last / factor nindir level + 1

  -- The last partial block.
  abbrev pub partial : (ℕ → Option ℕ → Cut) → ℕ → List ℕ → Option ℕ → Cut
  partial below level table none = nothing
  partial below level table (some last) =
      let nb = get_or table (last / factor nindir level) 0 in
      if nb == 0 then nothing else below nb (some (last % factor nindir level))

  abbrev pub cut_table : (ℕ → Option ℕ → Cut) → ℕ → ℕ → Option ℕ → List ℕ → Cut
  cut_table below level bn last table =
      and_then (put_table bn (zero_from (keep level last) table)) (
        and_then (sweep (λ nb. below nb none) (drop (keep level last) table))
          (partial below level table last))

  abbrev pub or_failed : (List ℕ → Cut) → Option (List ℕ) → Cut
  or_failed f none = record nothing { failed = true }
  or_failed f (some table) = f table

  unfoldable pub indirtrunc : ℕ → ℕ → Option ℕ → Cut
  indirtrunc zero bn last = or_failed (cut_table (λ nb l. nothing) 0 bn last) (read bn)
  indirtrunc (suc level) bn last =
      or_failed (cut_table (indirtrunc level) (suc level) bn last) (read bn)

  -- `lastiblock[level]` where `kept` blocks stay: the blocks before that level are `base`.
  abbrev pub lastiblock : ℕ → ℕ → Option ℕ
  lastiblock base kept = if ltb base kept then some (kept - 1 - base) else none

  -- One level of the loop "Indirect blocks first" at the pointer `ptr`, and what follows unless blocks
  -- of that level stay.
  abbrev pub level_step : ℕ → ℕ → Option ℕ → Cut → Cut
  level_step level ptr none later =
      let bn = sign32 ptr in
      and_then (if bn == 0 then nothing else and_then (indirtrunc level bn none) (release bn)) later
  level_step level ptr (some last) later =
      let bn = sign32 ptr in if bn == 0 then nothing else indirtrunc level bn (some last)

  -- The release of all blocks behind the first `kept`: the three indirect pointers `ib`, then the
  -- direct pointers `db`, each of `dblocks` device blocks.
  unfoldable pub release_past : ℕ → ℕ → List ℕ → List ℕ → Cut
  release_past dblocks kept db ib =
      level_step 2 (get_or ib 2 0) (lastiblock (ndaddr + nindir + nindir * nindir) kept) (
        level_step 1 (get_or ib 1 0) (lastiblock (ndaddr + nindir) kept) (
          level_step 0 (get_or ib 0 0) (lastiblock ndaddr kept)
            (direct_blocks dblocks (drop kept db))))
