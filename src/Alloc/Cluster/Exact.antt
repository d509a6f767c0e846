-- ===== src/Alloc/Cluster/Exact.antt =====
-- The cluster summary of kext/ext2_subr.c against the bitmap of its group: it has at each length the
-- number of the runs of free blocks of that length, and `e2fs_maxcluster` the longest of them.
use ext2fs.Base.{
  ℕ, zero, suc, ◌+◌, ◌*◌, ◌≤◌, ◌<◌, ◌≡◌, ◌⊎◌, refl, ◌∙◌, ap, inl, inr, true, false, arith, List,
  ltb, ◌==◌, get_or, length, Bool-cases, eq-cases, lt-cases,
}
use ext2fs.Base.Int.{ℤ, pos}
use ext2fs.Base.Bits.{IsMap}
use ext2fs.Geometry.{Geometry}
use ext2fs.Alloc.State.{Csum}
use ext2fs.Alloc.Cluster.{max_cluster, init_csum, forw_of, back_of, account, clusteracct}
use ext2fs.Alloc.Cluster.Account.{sub_ℕ-self}
use ext2fs.Alloc.Cluster.Change.{flip, freed_by, IsSum, account-IsShifted}
use ext2fs.Alloc.Cluster.Sides.{runs}

module _ (g : Geometry) where
  unfoldable pub IsExact : List ℕ → List ℤ → Type 0
  IsExact map sum = IsSum g (runs g.contigsumsize map g.fpg) sum

  unfoldable pub IsLongest : List ℕ → ℕ → Type 0
  IsLongest map m =
      (m ≤ g.contigsumsize)
      × ((k : ℕ) → 0 < k → k ≤ g.contigsumsize → 0 < runs g.contigsumsize map g.fpg k → k ≤ m)
      × ((m ≡ 0) ⊎ (0 < runs g.contigsumsize map g.fpg m))

  -- What `clusteracct` gives agrees with `map`.
  unfoldable pub IsCounted : List ℕ → Csum × ℕ → Type 0
  unfolding IsExact IsLongest
  IsCounted map r = IsExact map r.0.sum × IsLongest map r.1

max_cluster-longest :
    (s : List ℤ) (f : ℕ → ℕ) (n : ℕ)
    → ((k : ℕ) → 0 < k → k ≤ n → get_or s k (pos 0) ≡ pos (f k))
    → (max_cluster s n ≤ n)
      × ((k : ℕ) → 0 < k → k ≤ n → 0 < f k → k ≤ max_cluster s n)
      × ((max_cluster s n ≡ 0) ⊎ (0 < f (max_cluster s n)))
unfolding max_cluster
max_cluster-longest s f zero h = (omega arith, λ k a b c. b, inl refl)
max_cluster-longest s f (suc n) h =
    let (below, above, some) = max_cluster-longest s f n (λ k a c. h k a (omega (arith, c))) in
    rw (h (suc n) (omega arith) (omega arith)) (elim (lt-cases 0 (f (suc n))) [
      | inl l ↦
          let e : ltb 0 (f (suc n) + 0) ≡ true = ground (arith, l) in
          rw e (omega arith, λ k a c d. c, inr l)
      | inr l ↦
          let e : ltb 0 (f (suc n) + 0) ≡ false = ground (arith, l) in
          rw e (
            omega (arith, below),
            λ k a c d. elim (eq-cases k (suc n)) [
              | inl q ↦ absurd (omega (arith, d, l, ap f q))
              | inr q ↦ above k a (omega (arith, c, q)) d
            ],
            some,
          )
    ])

exact-IsLongest :
    (g : Geometry) (map : List ℕ) (s : List ℤ)
    → IsExact g map s
    → IsLongest g map (max_cluster s g.contigsumsize)
unfolding IsExact IsLongest
exact-IsLongest g map s (room, exact) =
    max_cluster-longest s (runs g.contigsumsize map g.fpg) g.contigsumsize exact

module _ (g : Geometry) (b : ℕ) (map : List ℕ) (c : Csum) (maxcluster : ℕ)
    (sized : 0 < g.contigsumsize) (started : c.init ≡ true) where
  counted :
      (d : ℤ)
      → IsExact g map (account g (back_of g map b) (forw_of g map b) d c.sum)
      → IsCounted g map (clusteracct g map b d c maxcluster)
  unfolding clusteracct init_csum IsCounted
  counted d e =
      let z : (g.contigsumsize == 0) ≡ false = ground (arith, sized) in
      rw (z, started) (e, exact-IsLongest g map _ e)

pub clusteracct-init :
    (g : Geometry) (map : List ℕ) (b : ℕ) (d : ℤ) (c : Csum) (maxcluster : ℕ)
    → c.init ≡ true
    → (clusteracct g map b d c maxcluster).0.init ≡ true
unfolding clusteracct init_csum
clusteracct-init g map b d c maxcluster started = elim (Bool-cases (g.contigsumsize == 0)) [
  | inl z ↦ rw (z, started) refl
  | inr z ↦ rw (z, started) refl
]

module _ (g : Geometry) (b : ℕ) (map : List ℕ) (c : Csum) (maxcluster : ℕ)
    (sized : 0 < g.contigsumsize) (inside : b < g.fpg) (w : IsMap map) (room : b < 8 * length map)
    (started : c.init ≡ true) (exact : IsExact g map c.sum) where
  changed :
      IsExact g
        (flip b map)
        (account g (back_of g (flip b map) b) (forw_of g (flip b map) b) (freed_by b map) c.sum)
  unfolding IsExact
  changed =
      let (n, e) =
        account-IsShifted g b inside map w room (runs g.contigsumsize map g.fpg) c.sum exact in
      (n, λ k lo hi. e k lo hi ∙ sub_ℕ-self _ _)

  -- `ext2_clusteracct` for a block of a group whose bit has just changed, where the group has a
  -- summary that agrees with its bitmap before the change and summaries have a length above 0: the
  -- new summary has at each length from 1 to `contigsumsize` the number of maximal runs of free
  -- blocks of that length in the new bitmap, those that are longer counted at `contigsumsize`, and
  -- `e2fs_maxcluster` is the greatest of these lengths that a run is counted at, or 0 where no
  -- block is free.
  pub clusteracct-IsCounted :
      IsCounted g (flip b map) (clusteracct g (flip b map) b (freed_by b map) c maxcluster)
  clusteracct-IsCounted =
      counted g b (flip b map) c maxcluster sized started (freed_by b map) changed
