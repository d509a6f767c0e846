-- ===== src/Alloc/Cluster/First.antt =====
-- The loop of `ext2_clusteracct` that takes a group's summary from its bitmap.
use ext2fs.Base.{
  ℕ, zero, suc, ◌+◌, ◌*◌, ◌≤◌, ◌<◌, ◌≡◌, refl, ◌∙◌, ap, inl, inr, false, arith, List, min, ◌==◌,
  if◌then◌else◌, get_or, length, Bool-cases,
}
use ext2fs.Base.Int.{ℤ, pos, sub_ℕ, ◌+ℤ◌}
use ext2fs.Base.Bits.{isset, IsMap}
use ext2fs.Geometry.{Geometry}
use ext2fs.Alloc.State.{Csum}
use ext2fs.Alloc.Cluster.{count_run, init_sum, init_csum, clusteracct}
use ext2fs.Alloc.Cluster.Account.{length-add_at, get_or-add_at}
use ext2fs.Alloc.Cluster.Change.{flip, freed_by, account-IsShifted}
use ext2fs.Alloc.Cluster.Runs.{before, closed}
use ext2fs.Alloc.Cluster.Sides.{one, runs}
use ext2fs.Alloc.Cluster.Exact.{IsExact}

module _ (size : ℕ) (map : List ℕ) where
  length-count_run : (s : List ℤ) (r : ℕ) → length (count_run size s r) ≡ length s
  length-count_run s zero = refl
  length-count_run s (suc r) =
      let e : (suc r == 0) ≡ false = ground arith in
      rw e (length-add_at s (min (suc r) size) (pos 1))

  get_or-count_run :
      (s : List ℤ) (r k x : ℕ)
      → 0 < k
      → k < length s
      → get_or s k (pos 0) ≡ pos x
      → get_or (count_run size s r) k (pos 0) ≡ pos (x + one size k r)
  unfolding ◌+ℤ◌
  get_or-count_run s zero k x lo h e = e ∙ grind (arith, lo)
  get_or-count_run s (suc r) k x lo h e =
      let q : (suc r == 0) ≡ false = ground arith in
      rw q (get_or-add_at s (min (suc r) size) k (pos 1) h ∙ rw e (grind arith))

  length-init_sum : (n i run : ℕ) (s : List ℤ) → length (init_sum size map n i run s) ≡ length s
  unfolding init_sum
  length-init_sum zero i run s = length-count_run s run
  length-init_sum (suc n) i run s = elim (Bool-cases (isset map i)) [
    | inl u ↦ rw u (length-init_sum n (i + 1) 0 (count_run size s run) ∙ length-count_run s run)
    | inr f ↦ rw f (length-init_sum n (i + 1) (run + 1) s)
  ]

  -- One more bit.
  next :
      (k : ℕ)
      → 0 < k
      → (i x : ℕ) (s : List ℤ) → k < length s
      → get_or s k (pos 0) ≡ pos (x + closed (isset map) (one size k) i)
      → (k < length (if isset map i then count_run size s (before (isset map) i) else s))
        × (get_or (if isset map i then count_run size s (before (isset map) i) else s) k (pos 0)
            ≡ pos (x + closed (isset map) (one size k) (suc i)))
  unfolding closed
  next k lo i x s h e = elim (Bool-cases (isset map i)) [
    | inl u ↦ rw u (
      omega (arith, h, length-count_run s (before (isset map) i)),
      get_or-count_run s (before (isset map) i) k _ lo h e ∙ ap pos (omega arith),
    )
    | inr f ↦ rw f (h, e ∙ ap pos (omega arith))
  ]

  get_or-init_sum :
      (k : ℕ)
      → 0 < k
      → (n i x : ℕ) (s : List ℤ) → k < length s
      → get_or s k (pos 0) ≡ pos (x + closed (isset map) (one size k) i)
      → get_or (init_sum size map n i (before (isset map) i) s) k (pos 0)
        ≡ pos (x + runs size map (n + i) k)
  unfolding init_sum runs closed before
  get_or-init_sum k lo zero i x s h e =
      let z : 0 + i ≡ i = omega arith in
      rw z (
        get_or-count_run s (before (isset map) i) k (x + closed (isset map) (one size k) i) lo h e
        ∙ ap pos (omega arith))
  get_or-init_sum k lo (suc n) i x s h e =
      let shift : suc n + i ≡ n + suc i = omega arith in
      let step : i + 1 ≡ suc i = omega arith in
      let (h', e') = next k lo i x s h e in
      rw (shift, step) (get_or-init_sum k lo n (suc i) x _ h' e')

module _ (g : Geometry) (c : Csum) (fresh : c.init ≡ false)
    (empty : length c.sum ≡ g.contigsumsize + 1)
    (zeros : (k : ℕ) → get_or c.sum k (pos 0) ≡ pos 0) where
  pub init_csum-IsExact : (map : List ℕ) → IsExact g map (init_csum g map c).sum
  unfolding IsExact init_csum closed before
  init_csum-IsExact map = rw fresh (
    length-init_sum g.contigsumsize map g.fpg 0 0 c.sum ∙ empty,
    λ k lo hi.
        let e : g.fpg + 0 ≡ g.fpg = omega arith in
        let r =
          get_or-init_sum g.contigsumsize map k lo g.fpg 0 0 c.sum (omega (arith, empty, hi))
            (zeros k ∙ ap pos (omega arith)) in
        rw e at r ∙ ap pos (omega arith),
  )

  module _ (b : ℕ) (inside : b < g.fpg) (map : List ℕ) (w : IsMap map) (room : b < 8 * length map)
      (maxcluster : ℕ) (sized : 0 < g.contigsumsize) where
    -- The first call of `ext2_clusteracct` for a group, with a summary of zeros, of a length above
    -- 0, and a block whose bit has just changed: the summary that it leaves has at each length
    -- from 1 to `contigsumsize` twice the number of runs of free blocks in the new bitmap less the
    -- number in the old one, so that the change is counted twice.
    pub clusteracct-first :
        (k : ℕ)
        → 0 < k
        → k ≤ g.contigsumsize
        → get_or (clusteracct g (flip b map) b (freed_by b map) c maxcluster).0.sum k (pos 0)
          ≡ sub_ℕ (2 * runs g.contigsumsize (flip b map) g.fpg k) (runs g.contigsumsize map g.fpg k)
    unfolding clusteracct IsExact
    clusteracct-first k lo hi =
        let z : (g.contigsumsize == 0) ≡ false = ground (arith, sized) in
        let s =
          account-IsShifted g b inside map w room (runs g.contigsumsize (flip b map) g.fpg)
            (init_csum g (flip b map) c).sum (init_csum-IsExact (flip b map)) in
        let twice : (n : ℕ) → n + n ≡ 2 * n = λ n. omega arith in rw z (rw twice at (s.1 k lo hi))
