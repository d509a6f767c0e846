-- ===== src/Alloc/Cluster.antt =====
-- `ext2_clusteracct` of kext/ext2_subr.c: the summary of a group's runs of free blocks. `sum` has at
-- each length up to `contigsumsize` how many runs have it, longer ones counted as that length.
pub mod Account
pub mod Change
pub mod Exact
pub mod First
pub mod Runs
pub mod Sides
use ext2fs.Base.{ℕ, zero, suc, ◌+◌, ◌-◌, true, List, min, ◌==◌, ltb, if◌then◌else◌, get_or, set}
use ext2fs.Base.Int.{ℤ, pos, ◌+ℤ◌, ◌-ℤ◌, ltb_ℤ}
use ext2fs.Base.Bits.{isset}
use ext2fs.Geometry.{Geometry}
use ext2fs.Alloc.State.{Csum}

-- `sump[i] += d`
abbrev pub add_at : List ℤ → ℕ → ℤ → List ℤ
add_at sump i d = set sump i (get_or sump i (pos 0) +ℤ d)

-- `sump[min(run, size)]++` for a run that has ended.
abbrev pub count_run : ℕ → List ℤ → ℕ → List ℤ
count_run size sump run = if run == 0 then sump else add_at sump (min run size) (pos 1)

-- The loop over `n` bits from `i`, with the run before `i`. The source keeps the byte and the mask
-- of bit `i` beside it.
unfoldable pub init_sum : ℕ → List ℕ → ℕ → ℕ → ℕ → List ℤ → List ℤ
init_sum size map zero i run sump = count_run size sump run
init_sum size map (suc n) i run sump =
    init_sum size map n (i + 1) (if isset map i then 0 else run + 1)
      (if isset map i then count_run size sump run else sump)

-- The clear bits from `i` on, at most `n`.
unfoldable pub forward : List ℕ → ℕ → ℕ → ℕ
forward map zero i = 0
forward map (suc n) i = if isset map i then 0 else suc (forward map n (i + 1))

-- The clear bits below `i`, at most `n`, with `n ≤ i`.
unfoldable pub backward : List ℕ → ℕ → ℕ → ℕ
backward map zero i = 0
backward map (suc n) i = if isset map (i - 1) then 0 else suc (backward map n (i - 1))

-- The greatest length up to `n` with a positive count.
unfoldable pub max_cluster : List ℤ → ℕ → ℕ
max_cluster sump zero = 0
max_cluster sump (suc n) =
    if ltb_ℤ (pos 0) (get_or sump (suc n) (pos 0)) then suc n else max_cluster sump n

module _ (g : Geometry) where
  -- The summary before the change is taken from the bitmap if there is none yet.
  unfoldable pub init_csum : List ℕ → Csum → Csum
  unfolding init_sum
  init_csum map c =
      if c.init
      then c
      else record { init = true; sum = init_sum g.contigsumsize map g.fpg 0 0 c.sum }

  -- The lengths of the runs on both sides of `bno`, up to `contigsumsize`.
  unfoldable pub forw_of : List ℕ → ℕ → ℕ
  unfolding forward
  forw_of map bno = forward map (min g.contigsumsize (g.fpg - (bno + 1))) (bno + 1)

  unfoldable pub back_of : List ℕ → ℕ → ℕ
  unfolding backward
  back_of map bno = backward map (min g.contigsumsize bno) bno

  unfoldable pub account : ℕ → ℕ → ℤ → List ℤ → List ℤ
  account back forw cnt sump =
      let joined = add_at sump (min (back + forw + 1) g.contigsumsize) cnt in
      let less_back = if ltb 0 back then add_at joined back (pos 0 -ℤ cnt) else joined in
      if ltb 0 forw then add_at less_back forw (pos 0 -ℤ cnt) else less_back

  -- `cnt` is 1 for a block that is freed and -1 for one that is taken; `map` has the change made.
  -- The result is the summary and the group's entry of `e2fs_maxcluster`, whose old value is given.
  unfoldable pub clusteracct : List ℕ → ℕ → ℤ → Csum → ℕ → Csum × ℕ
  unfolding init_csum forw_of back_of account max_cluster
  clusteracct map bno cnt c maxcluster =
      let c' = init_csum map c in
      if g.contigsumsize == 0
      then (c', maxcluster)
      else (let sum' = account (back_of map bno) (forw_of map bno) cnt c'.sum in
          (record c' { sum = sum' }, max_cluster sum' g.contigsumsize))
