-- ===== src/Tests/Clusters.antt =====
-- The cluster summaries of the small volume, whose groups have a run of six and one of seven blocks.
use ext2fs.Base.{ℕ, zero, suc, ◌<◌, ◌≤◌, ◌≡◌, refl, inl, inr, true, false, [], ◌∷◌, arith, get_or}
use ext2fs.Base.Int.{pos}
use ext2fs.Base.Bits.{isset, IsMap, setbit}
use ext2fs.Geometry.{ino_to_cg, fsbtodb}
use ext2fs.Alloc.State.{Fs, Csum}
use ext2fs.Alloc.Block.{block_of, blkfree}
use ext2fs.Alloc.Block.Outcome.{map_of}
use ext2fs.Alloc.Block.Summed.{IsSummed, Keeps, blkfree-IsSummed}
use ext2fs.Alloc.Cluster.{clusteracct}
use ext2fs.Alloc.Cluster.Change.{flip, freed_by}
use ext2fs.Alloc.Cluster.Exact.{IsExact, IsLongest, IsCounted, clusteracct-IsCounted}
use ext2fs.Alloc.Cluster.First.{clusteracct-first}
use ext2fs.Alloc.Cluster.Runs.{before, closed}
use ext2fs.Alloc.Cluster.Sides.{runs}
use ext2fs.Alloc.Request.{alloc}
use ext2fs.Alloc.Request.Served.{IsReady}
use ext2fs.Alloc.Request.Summed.{alloc-IsSummed}
use ext2fs.Tests.Volume.{volume, volume_sound, held, quiet, fair, boot, boot_held, valid, file}

-- One run of two blocks or more.
abbrev long_run : Csum
long_run = record { init = true; sum = pos 0 ∷ pos 0 ∷ pos 1 ∷ [] }

abbrev summed : Fs
summed = record held { clustersum = λ cg. long_run; maxcluster = λ cg. 2 }

module _ (byte : ℕ) (none : runs 2 (byte ∷ []) 8 1 ≡ 0) (one : runs 2 (byte ∷ []) 8 2 ≡ 1) where
  IsCounted-ok : IsCounted volume (byte ∷ []) (long_run, 2)
  unfolding IsCounted IsExact IsLongest
  IsCounted-ok = ((refl, counts), (omega arith, (λ k lo hi h. hi), inr (omega (arith, one))))
    where
      counts :
          (k : ℕ) → 0 < k → k ≤ 2 → get_or long_run.sum k (pos 0) ≡ pos (runs 2 (byte ∷ []) 8 k)
      counts zero lo hi = absurd (omega (arith, lo))
      counts (suc zero) lo hi = rw none refl
      counts (suc (suc zero)) lo hi = rw one refl
      counts (suc (suc (suc k))) lo hi = absurd (omega (arith, hi))

first_counted : IsCounted volume (map_of volume summed 0) (long_run, 2)
unfolding runs before closed isset fsbtodb
first_counted = IsCounted-ok 3 refl refl

second_counted : IsCounted volume (map_of volume summed 1) (long_run, 2)
unfolding runs before closed isset fsbtodb
second_counted = IsCounted-ok 1 refl refl

IsSummed-ok : IsSummed volume summed
IsSummed-ok = record { started = λ cg c. refl; counted = counted }
  where
    counted : (cg : ℕ) → cg < 2 → IsCounted volume (map_of volume summed cg) (long_run, 2)
    counted zero c = first_counted
    counted (suc zero) c = second_counted
    counted (suc (suc cg)) c = absurd (omega (arith, c))

ready : IsReady volume summed
ready = record { valid = valid; held = refl; boot = boot_held }

others : (fs : Fs) → IsSummed volume fs → IsSummed volume (quiet.others fs)
others fs m = record { started = m.started; counted = m.counted }

home : ino_to_cg volume file.number < volume.gcount
unfolding ino_to_cg
home = omega arith

alloc-IsSummed_example : Keeps volume (alloc volume quiet file 7 5 1024 0 summed)
alloc-IsSummed_example =
    alloc-IsSummed volume volume_sound quiet fair boot (λ fs v. others fs) (omega arith)
      (omega arith) file home (omega arith) 7 5 1024 0 summed (inl (omega arith)) ready IsSummed-ok

-- Block 2 of the volume is bit 1 of the first group, in use.
there : block_of volume 0 1 < 17
unfolding block_of
there = omega arith

used : isset (map_of volume summed 0) 1 ≡ true
unfolding isset fsbtodb
used = refl

blkfree-IsSummed_example : Keeps volume (blkfree volume quiet (block_of volume 0 1) summed)
blkfree-IsSummed_example =
    blkfree-IsSummed volume (omega arith) volume_sound 0 (omega arith) quiet fair
      (λ fs v. others fs) summed valid IsSummed-ok 1 (omega arith) (omega arith) there refl used

-- Taking block 3 splits the run in one of one block and one of four.
byte_ok : IsMap (3 ∷ [])
byte_ok = (omega arith, tt)

exact : IsExact volume (3 ∷ []) long_run.sum
unfolding IsCounted runs before closed isset
exact = (IsCounted-ok 3 refl refl).0

clusteracct-IsCounted_example :
    IsCounted volume
      (flip 3 (3 ∷ []))
      (clusteracct volume (flip 3 (3 ∷ [])) 3 (freed_by 3 (3 ∷ [])) long_run 2)
clusteracct-IsCounted_example =
    clusteracct-IsCounted volume 3 (3 ∷ []) long_run 2 (omega arith) (omega arith) byte_ok
      (omega arith) refl exact

-- Where that is the first call, it counts the run of one block twice.
abbrev unused : Csum
unused = record { init = false; sum = pos 0 ∷ pos 0 ∷ pos 0 ∷ [] }

zeros : (k : ℕ) → get_or unused.sum k (pos 0) ≡ pos 0
zeros zero = refl
zeros (suc zero) = refl
zeros (suc (suc zero)) = refl
zeros (suc (suc (suc k))) = refl

clusteracct-first_example :
    get_or (clusteracct volume (flip 3 (3 ∷ [])) 3 (freed_by 3 (3 ∷ [])) unused 0).0.sum 1 (pos 0)
    ≡ pos 2
unfolding runs before closed isset setbit
clusteracct-first_example =
    clusteracct-first volume unused refl refl zeros 3 (omega arith) (3 ∷ []) byte_ok (omega arith) 0
      (omega arith) 1 (omega arith) (omega arith)
