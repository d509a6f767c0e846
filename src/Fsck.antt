-- ===== src/Fsck.antt =====
-- `pass5` of fs/fsck_ext2fs/pass5.c, which rebuilds the bitmaps and the counts from what the
-- passes before it found, and `dofix` of fs/fsck_ext2fs/utilities.c. A block number is a
-- daddr32_t, which holds those of a volume of fewer than 2^31 blocks, and so is a device block
-- (`device`). A buffer that is marked dirty is taken as written, which `getblk` does before it
-- reads the next group's.
pub mod Again
pub mod Agrees
pub mod Finished
pub mod Groups
pub mod Rebuilt
pub mod Totals
pub mod Settled
pub mod Tallies
use ext2fs.Base.{
  ℕ, zero, suc, ◌+◌, ◌-◌, ◌*◌, ◌/◌, ◌%◌, ◌^◌, Bool, true, false, not, ◌&&◌, ◌||◌, Option, none,
  some, List, [], ◌∷◌, ◌==◌, ltb, leb, if◌then◌else◌, set, replicate,
}
use ext2fs.Base.Bits.{isset, setbit}
use ext2fs.Geometry.{Geometry, fsbtodb}
use ext2fs.Alloc.State.{Group, update, dec32, inc32}

-- The entries of `statemap`; `bad` is any other value.
pub data InodeState : Type 0 where
  ustate : InodeState
  fstate : InodeState
  dstate : InodeState
  dfound : InodeState
  dclear : InodeState
  fclear : InodeState
  bad : InodeState

-- enum fixstate, without IGNORE, which `pass5` does not use.
pub data FixState : Type 0 where
  dontknow : FixState
  nofix : FixState
  fix : FixState

pub data Question : Type 0 where
  summary : ℕ → Question
  blocks_missing : ℕ → Question
  inodes_missing : ℕ → Question
  superblock : Question

-- The volume as the check finds and leaves it; `sb_dirty` is what `sbdirty` sets.
pub record Image : Type 0 where
  pub gd : ℕ → Group
  pub disk : ℕ → List ℕ
  pub fbcount : ℕ
  pub ficount : ℕ
  pub sb_dirty : Bool

-- A bitmap in the making, with the free bits and the directories counted so far.
pub record Tally : Type 0 where
  pub map : List ℕ
  pub nfree : ℕ
  pub ndirs : ℕ

-- What the loop over the groups carries: `id_fix` of `idesc[0]` and the sums.
pub record Sums : Type 0 where
  pub volume : Image
  pub idesc : FixState
  pub nbfree : ℕ
  pub nifree : ℕ
  pub ndir : ℕ

-- What the passes before it found, and the answers: `answer` is `reply`, or always true under preen.
pub record Found : Type 0 where
  pub icount : ℕ
  pub blockmap : List ℕ
  pub statemap : ℕ → InodeState
  pub answer : Question → Bool

-- `dofix`: one answer holds for all questions on the same `idesc`.
unfoldable pub dofix : (Question → Bool) → FixState → Question → Bool × FixState
dofix answer dontknow q = if answer q then (true, fix) else (false, nofix)
dofix answer nofix q = (false, nofix)
dofix answer fix q = (true, fix)

-- `memcmp` of two blocks, as a condition.
unfoldable pub differ : List ℕ → List ℕ → Bool
differ [] [] = false
differ [] (y ∷ ys) = true
differ (x ∷ xs) [] = true
differ (x ∷ xs) (y ∷ ys) = not (x == y) || differ xs ys

-- `memset` of a block to 0.
abbrev pub zeroed : ℕ → List ℕ
zeroed n = replicate n 0

-- The device block of a block of the volume, which `getblk` keeps in a daddr32_t: the low 32 bits.
-- Those from 2^31 on stand for numbers below 0.
unfoldable pub device : Geometry → ℕ → ℕ
unfolding fsbtodb
device g b = fsbtodb g b % 2 ^ 32

module _ (g : Geometry) (f : Found) where
  abbrev pub take_inode : ℕ → Tally → Tally
  take_inode i t = record t { map = setbit t.map i; nfree = dec32 t.nfree }

  unfoldable pub inode_state : InodeState → ℕ → Tally → Option Tally
  inode_state ustate i t = some t
  inode_state dstate i t = some (record (take_inode i t) { ndirs = inc32 t.ndirs })
  inode_state dclear i t = some (record (take_inode i t) { ndirs = inc32 t.ndirs })
  inode_state dfound i t = some (record (take_inode i t) { ndirs = inc32 t.ndirs })
  inode_state fstate i t = some (take_inode i t)
  inode_state fclear i t = some (take_inode i t)
  inode_state bad i t = none

  -- The inode at bit `i` of group `c`; EXT2_FIRSTINO is 11 and EXT2_ROOTINO 2.
  abbrev pub inode_number : ℕ → ℕ → ℕ
  inode_number c i = (g.ipg * c + 1) % 2 ^ 32 + i

  unfoldable pub inode_bit : ℕ → ℕ → Tally → Option Tally
  unfolding inode_state
  inode_bit c i t =
      if ltb (inode_number c i) 11 && not (inode_number c i == 2)
      then some (take_inode i t)
      else if ltb f.icount (inode_number c i)
      then some (record t { map = setbit t.map i })
      else inode_state (f.statemap (inode_number c i)) i t

  -- The first `n` turns of the loop over a group's inodes.
  unfoldable pub inode_bits : ℕ → ℕ → Option Tally
  unfolding inode_bit
  inode_bits c zero = some (record { map = zeroed g.bsize; nfree = g.ipg; ndirs = 0 })
  inode_bits c (suc n) = elim (inode_bits c n) [ none ↦ none | some t ↦ inode_bit c n t ]

  -- The first `n` turns of the loop that fills the rest of the inode map.
  unfoldable pub pad : List ℕ → ℕ → List ℕ
  pad map zero = map
  pad map (suc n) = set (pad map n) (g.ipg / 8 + n) 0xff

  abbrev pub dbase : ℕ → ℕ
  dbase c = c * g.bpg + g.first_dblock

  unfoldable pub block_bit : ℕ → ℕ → Tally → Tally
  block_bit c i t =
      if isset f.blockmap (dbase c + i) || leb g.bcount (dbase c + i)
      then record t { map = setbit t.map i }
      else record t { nfree = inc32 t.nfree }

  -- The first `n` turns of the loop over a group's blocks.
  unfoldable pub block_bits : ℕ → ℕ → Tally
  unfolding block_bit
  block_bits c zero = record { map = zeroed g.bsize; nfree = 0; ndirs = 0 }
  block_bits c (suc n) = block_bit c n (block_bits c n)

  abbrev pub miscounted : Group → ℕ → ℕ → ℕ → Bool
  miscounted x nbfree nifree ndirs =
      not (x.nbfree == nbfree) || not (x.nifree == nifree) || not (x.ndirs == ndirs)

  -- The descriptor of group `c`, if it is wrong and the answer is to fix it.
  abbrev pub put_counts : Bool → ℕ → Tally → Tally → Image → Image
  put_counts false c b i v = v
  put_counts true c b i v = record v {
    sb_dirty = true;
    gd = update v.gd c (record (v.gd c) {
      nbfree = b.nfree % 2 ^ 16;
      nifree = i.nfree % 2 ^ 16;
      ndirs = i.ndirs % 2 ^ 16;
    });
  }

  abbrev pub put_map : Bool → ℕ → List ℕ → Image → Image
  put_map false blk map v = v
  put_map true blk map v = record v { disk = update v.disk blk map }

  -- A question that is put only where something is wrong.
  abbrev pub ask : Bool → FixState → Question → Bool × FixState
  ask false x q = (false, x)
  ask true x q = dofix f.answer x q

  -- The questions on a group: `idesc[1]` serves for both bitmaps.
  unfoldable pub settle : ℕ → Tally → Tally → Image → Image × FixState
  unfolding dofix
  settle c b i v =
      let x = v.gd c in
      let imap = pad i.map (g.bsize - g.ipg / 8) in
      let b_blk = device g x.b_bitmap in
      let i_blk = device g x.i_bitmap in
      let (counts, idesc) = ask (miscounted x b.nfree i.nfree i.ndirs) dontknow (summary c) in
      let (blocks, second) = ask (differ (v.disk b_blk) b.map) dontknow (blocks_missing c) in
      let (inodes, third) = ask (differ (v.disk i_blk) imap) second (inodes_missing c) in
      (put_map inodes i_blk imap (put_map blocks b_blk b.map (put_counts counts c b i v)), idesc)

  -- The first `n` groups; an inode of a bad state ends the program.
  unfoldable pub groups : ℕ → Image → Option Sums
  unfolding inode_bits block_bits settle
  groups zero v = some (record { volume = v; idesc = dontknow; nbfree = 0; nifree = 0; ndir = 0 })
  groups (suc c) v = elim (groups c v) [
    | none ↦ none
    | some s ↦ elim (inode_bits c g.ipg) [
      | none ↦ none
      | some i ↦
          let b = block_bits c g.bpg in
          let (v', idesc) = settle c b i s.volume in
          some (record {
            volume = v';
            idesc = idesc;
            nbfree = (s.nbfree + b.nfree) % 2 ^ 32;
            nifree = (s.nifree + i.nfree) % 2 ^ 32;
            ndir = (s.ndir + i.ndirs) % 2 ^ 32;
          })
    ]
  ]

  -- The superblock, on the `idesc[0]` of the last group.
  unfoldable pub put_totals : Sums → Image
  put_totals s =
      let v = s.volume in
      let (agreed, idesc) =
        ask (not (v.fbcount == s.nbfree) || not (v.ficount == s.nifree)) s.idesc superblock in
      if agreed then record v { fbcount = s.nbfree; ficount = s.nifree; sb_dirty = true } else v

  unfoldable pub pass5 : Image → Option Image
  pass5 v = elim (groups g.gcount v) [ none ↦ none | some s ↦ some (put_totals s) ]
