-- ===== src/Tests/Grown.antt =====
-- A file that gets its block 17, on a device with four pointers in a block.
use ext2fs.Base.{◌≡◌, refl, true, false, some, List, [], ◌∷◌, replicate, arith}
use ext2fs.Base.Int.{pos, negsuc}
use ext2fs.Bmap.{Indir, getlbns, level, path_of, path_from}
use ext2fs.Balloc.{State, Device, balloc}
use ext2fs.Balloc.Reached.{Leads, balloc-Leads}

abbrev seventeen : List Indir
seventeen =
    record { lbn = negsuc 16; off = 1 }
    ∷ record { lbn = negsuc 16; off = 0 }
    ∷ record { lbn = negsuc 15; off = 1 }
    ∷ []

seventeen_run : getlbns 4 (pos 17) ≡ some seventeen
unfolding getlbns level path_of path_from
seventeen_run = refl

abbrev device : Device
device = record {
  reads = λ b. true;
  gets = λ b. true;
  writes = λ b. true;
  data_reads = true;
  data_gets = true;
}

-- The double indirect block 60 is there and holds no pointer.
abbrev grown : State
grown = record {
  size = 16384;
  next_block = 0;
  next_goal = 0;
  db = replicate 12 0;
  ib = 0 ∷ 60 ∷ 0 ∷ [];
  table = λ b. 0 ∷ 0 ∷ 0 ∷ 0 ∷ [];
  supply = some 71 ∷ some 72 ∷ some 73 ∷ [];
  freed = [];
  marked = false;
}

balloc-Leads_example :
    Leads 1024 4 device false 1024
      (λ b. refl)
      (λ b. refl)
      (λ b. refl)
      refl
      refl
      1
      0
      (1 ∷ [])
      (balloc 1024 4 device false 1024 1024 (pos 17) grown)
balloc-Leads_example =
    balloc-Leads 1024 4 device false 1024 (λ b. refl) (λ b. refl) (λ b. refl) refl refl 1024 17 1 0
      (1 ∷ []) seventeen grown (omega arith) seventeen_run refl (omega arith, (omega arith, tt)) tt
      (
        λ e. omega (arith, e),
        (λ e. omega (arith, e), (λ e. omega (arith, e), tt)),
        (λ e. omega (arith, e), (λ e. omega (arith, e), tt), (λ e. omega (arith, e), tt, tt)),
      )
      (omega arith)
      (λ nz. (
        omega arith,
        (λ e. omega (arith, e), (λ e. omega (arith, e), (λ e. omega (arith, e), tt))),
        λ h. absurd (h refl),
      ))
