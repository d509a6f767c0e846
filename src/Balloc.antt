-- ===== src/Balloc.antt =====
-- `ext2_balloc` of kext/ext2_balloc.c for a file that is not mapped by extents: the block that holds a
-- logical block of the file, allocated with the blocks of pointers that lead to it where they are missing.
pub mod Reached
use ext2fs.Base.{
  ℕ, zero, suc, ◌+◌, ◌-◌, ◌*◌, ◌/◌, ◌%◌, Bool, true, false, not, ◌&&◌, Option, none, some, List, [],
  ◌∷◌, ◌++◌, ltb, leb, ◌==◌, if◌then◌else◌, get_or, set, replicate,
}
use ext2fs.Base.Int.{ℤ, pos, negsuc}
use ext2fs.Bmap.{ndaddr, Indir, getlbns}
use ext2fs.Dir.{roundup}

-- Of struct inode what it reads and changes; the blocks of pointers as buffers on the device; what the
-- calls of `ext2_alloc` to come will give (`none`, or no more, for an error); and the blocks given to
-- `ext2_blkfree`.
pub record State : Type 0 where
  pub size : ℕ
  pub next_block : ℕ
  pub next_goal : ℕ
  pub db : List ℕ
  pub ib : List ℕ
  pub table : ℕ → List ℕ
  pub supply : List (Option ℕ)
  pub freed : List ℕ
  pub marked : Bool

-- How it ends: with the block, with an error, with the mutex released twice, or with a panic.
pub data Got : Type 0 where
  got : ℕ → State → Got
  fault : State → Got
  unlocked_twice : State → Got
  wrong : Got

-- One call of `ext2_alloc`.
abbrev pub next_of : List (Option ℕ) → Option ℕ
next_of [] = none
next_of (o ∷ os) = o

abbrev pub rest_of_supply : List (Option ℕ) → List (Option ℕ)
rest_of_supply [] = []
rest_of_supply (o ∷ os) = os

abbrev pub put_pointer : ℕ → ℕ → ℕ → (ℕ → List ℕ) → ℕ → List ℕ
put_pointer b o nb table b' = if b' == b then set (table b) o nb else table b'

abbrev pub clear_table : ℕ → ℕ → (ℕ → List ℕ) → ℕ → List ℕ
clear_table n b table b' = if b' == b then replicate n 0 else table b'

-- What the kernel says of device blocks: whether they can be read, whether a buffer is given for them, and
-- whether they can be written; and whether a buffer is given for, and can be read of, a data block.
pub record Device : Type 0 where
  pub reads : ℕ → Bool
  pub gets : ℕ → Bool
  pub writes : ℕ → Bool
  pub data_reads : Bool
  pub data_gets : Bool

-- `bsize` is `e2fs_bsize`, `nindir` NINDIR, `clear` says whether BA_CLRBUF is set, and `ask` is `size`.
module _ (bsize nindir : ℕ) (dev : Device) (clear : Bool) (ask : ℕ) where
  abbrev pub taken : State → State
  taken s = record s { supply = rest_of_supply s.supply }

  abbrev pub give_back : ℕ → State → State
  give_back nb s = record s { freed = s.freed ++ (nb ∷ []) }

  -- A new block of pointers, zeroed and written: the loop's own way to fail releases the mutex, which
  -- `ext2_alloc` has released.
  abbrev pub new_table : (State → Got) → (State → Got) → ℕ → (State → Got) → State → Got
  new_table no_buffer no_write nb on s =
      if not (dev.gets nb)
      then no_buffer (give_back nb s)
      else if not (dev.writes nb)
      then no_write (give_back nb (record s { table = clear_table nindir nb s.table }))
      else on (record s { table = clear_table nindir nb s.table })

  abbrev pub with_offer : (State → Got) → (ℕ → State → Got) → Option ℕ → State → Got
  with_offer none_left on none s = none_left (taken s)
  with_offer none_left on (some nb) s = on nb (taken s)

  -- A call of `ext2_alloc`, and what follows if it fails or gives a block.
  abbrev pub with_block : (State → Got) → (ℕ → State → Got) → State → Got
  with_block none_left on s = with_offer none_left on (next_of s.supply) s

  -- The data block at offset `o` of the block of pointers `b`.
  abbrev pub data_block : ℕ → ℕ → State → Got
  data_block b o s =
      let nb = get_or (s.table b) o 0 in
      if nb == 0
      then with_block fault
          (λ new s'.
            if dev.data_gets
            then got new (record s' { table = put_pointer b o new s'.table })
            else fault (give_back new (record s' { table = put_pointer b o 0 s'.table })))
          s
      else if clear
      then (if dev.data_reads then got nb s else fault s)
      else (if dev.data_gets then got nb s else fault s)

  -- The loop through the blocks of pointers: `b` is `indirb`, and the offsets are those from there on.
  unfoldable pub fetch : ℕ → ℕ → List ℕ → State → Got
  fetch b o [] s = if not (dev.reads b) then fault s else data_block b o s
  fetch b o (o' ∷ os) s =
      let nb = get_or (s.table b) o 0 in
      let down = λ (x : ℕ) (s' : State). fetch x o' os s' in
      if not (dev.reads b) then fault s else elim (nb == 0) [
        | true ↦
            with_block fault
              (λ new s'.
                new_table unlocked_twice unlocked_twice new
                  (λ s''. down new (record s'' { table = put_pointer b o new s''.table })) s')
              s
        | false ↦ down nb s
      ]

  -- The first block of pointers, in the inode's pointer `o`.
  unfoldable pub first_table : ℕ → (ℕ → State → Got) → State → Got
  first_table o on s =
      let nb = get_or s.ib o 0 in
      if nb == 0
      then with_block fault
          (λ new s'.
            new_table fault fault new
              (λ s''. on new (record s'' { ib = set s''.ib o new; marked = true })) s')
          s
      else on nb s

  abbrev pub offsets : List Indir → List ℕ
  offsets [] = []
  offsets (i ∷ path) = i.off ∷ offsets path

  -- The path that `ext2_getlbns` gives.
  abbrev pub by_path : List ℕ → State → Got
  by_path [] s = wrong
  by_path (o ∷ []) s = wrong
  by_path (o ∷ o' ∷ os) s = first_table o (λ b s'. fetch b o' os s') s

  abbrev pub read_data : ℕ → (State → State) → State → Got
  read_data nb mark s = if dev.data_reads then got nb (mark s) else fault s

  -- The first NDADDR blocks; `fsize` is `e2fs_fsize`.
  unfoldable pub direct_block : ℕ → ℕ → State → Got
  direct_block fsize lbn s =
      let nb = get_or s.db lbn 0 in
      let mark = λ (s' : State). record s' { marked = true } in
      if nb == 0
      then with_block fault
          (λ new s'.
            if dev.data_gets
            then got new (record s' { db = set s'.db lbn new; marked = true })
            else fault (give_back new (record s' { db = set s'.db lbn 0 })))
          s
      else if leb ((lbn + 1) * bsize) s.size
      then read_data nb (λ s'. s') s
      else if leb (roundup ask fsize) (roundup (s.size % bsize) fsize)
      then read_data nb mark s
      else wrong

  abbrev pub sequential : ℕ → State → State
  sequential lbn s =
      if lbn == s.next_block + 1
      then record s { next_block = s.next_block + 1; next_goal = s.next_goal + 1 }
      else s

  unfoldable pub balloc : ℕ → ℤ → State → Got
  balloc fsize (negsuc k) s = fault s
  balloc fsize (pos lbn) s =
      let s' = sequential lbn s in
      if ltb lbn ndaddr then direct_block fsize lbn s' else elim (getlbns nindir (pos lbn)) [
        | none ↦ fault s'
        | some path ↦ by_path (offsets path) s'
      ]
