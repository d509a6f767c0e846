-- ===== src/Alloc/Cluster/Change.antt =====
-- What the change of one block does to the counts of a summary.
use ext2fs.Base.{
  ℕ, ◌+◌, ◌*◌, ◌≤◌, ◌<◌, ◌≡◌, ◌≢◌, sym, ◌∙◌, inl, inr, true, false, arith, List, min, ◌==◌,
  if◌then◌else◌, get_or, length, Bool-cases,
}
use ext2fs.Base.Int.{ℤ, pos, negsuc, sub_ℕ}
use ext2fs.Base.Bits.{isset, setbit, clrbit, IsMap, isset-setbit, isset-clrbit}
use ext2fs.Geometry.{Geometry}
use ext2fs.Alloc.Cluster.{forw_of, back_of, account}
use ext2fs.Alloc.Cluster.Account.{unit_of, length-account, account-free, account-take}
use ext2fs.Alloc.Cluster.Sides.{
  runs, back_run, forw_run, forw_before, forw_after, back_before, back_after, runs_change,
}

module _ (b : ℕ) where
  -- The bit of `b` changed, and the number of blocks that frees.
  abbrev pub flip : List ℕ → List ℕ
  flip map = if isset map b then clrbit map b else setbit map b

  abbrev pub freed_by : List ℕ → ℤ
  freed_by map = if isset map b then pos 1 else negsuc 0

module _ (g : Geometry) (count : ℕ → ℕ) where
  -- `sum` has the count at each length.
  abbrev pub IsSum : List ℤ → Type 0
  IsSum sum =
      (length sum ≡ g.contigsumsize + 1)
      × ((k : ℕ) → 0 < k → k ≤ g.contigsumsize → get_or sum k (pos 0) ≡ pos (count k))

  -- The counts of `map'` less those of `map` have been added.
  abbrev pub IsShifted : List ℕ → List ℕ → List ℤ → Type 0
  IsShifted map map' sum =
      (length sum ≡ g.contigsumsize + 1)
      × ((k : ℕ)
          → 0 < k
          → k ≤ g.contigsumsize
          → get_or sum k (pos 0)
            ≡ sub_ℕ (count k + runs g.contigsumsize map' g.fpg k)
                (runs g.contigsumsize map g.fpg k))

module _ (g : Geometry) (map map' : List ℕ) (b : ℕ) (inside : b < g.fpg)
    (same : (j : ℕ) → j ≢ b → isset map' j ≡ isset map j) (taken : isset map b ≡ true)
    (freed : isset map' b ≡ false) (count : ℕ → ℕ) (sum : List ℤ) (is : IsSum g count sum) where
  abbrev size : ℕ
  size = g.contigsumsize

  abbrev back : ℕ
  back = min (back_run g map map' b inside same taken freed) size

  abbrev forw : ℕ
  forw = min (forw_run g map map' b inside same taken freed) size

  account-change :
      (k : ℕ)
      → runs size map g.fpg k + unit_of (min (back + forw + 1) size == k)
        ≡ runs size map' g.fpg k + unit_of (back == k) + unit_of (forw == k)
  account-change k =
      let r = back_run g map map' b inside same taken freed in
      let f = forw_run g map map' b inside same taken freed in
      let e : min (back + forw + 1) size ≡ min (r + f + 1) size = omega arith in
      rw e (runs_change g map map' b inside same taken freed k)

  free-IsShifted :
      IsShifted g count map map' (account g (back_of g map' b) (forw_of g map' b) (pos 1) sum)
  free-IsShifted =
      rw
        (
          back_after g map map' b inside same taken freed,
          forw_after g map map' b inside same taken freed,
        )
        (
          length-account g back forw (pos 1) sum ∙ is.0,
          λ k lo hi.
              account-free g back forw sum k lo (omega (arith, is.0, hi)) (count k) _ _
                (is.1 k lo hi) (account-change k),
        )

  take-IsShifted :
      IsShifted g count map' map (account g (back_of g map b) (forw_of g map b) (negsuc 0) sum)
  take-IsShifted =
      rw
        (
          back_before g map map' b inside same taken freed,
          forw_before g map map' b inside same taken freed,
        )
        (
          length-account g back forw (negsuc 0) sum ∙ is.0,
          λ k lo hi.
              account-take g back forw sum k lo (omega (arith, is.0, hi)) (count k) _ _
                (is.1 k lo hi) (account-change k),
        )

module _ (g : Geometry) (b : ℕ) (inside : b < g.fpg) (map : List ℕ) (w : IsMap map)
    (room : b < 8 * length map) (count : ℕ → ℕ) (sum : List ℤ) (is : IsSum g count sum) where
  abbrev change : List ℕ → ℤ → List ℤ
  change map' d = account g (back_of g map' b) (forw_of g map' b) d sum

  freeing :
      isset map b ≡ true → IsShifted g count map (clrbit map b) (change (clrbit map b) (pos 1))
  freeing u =
      free-IsShifted g map (clrbit map b) b inside
        (λ j ne. isset-clrbit map b j w room ∙ ground (arith, ne)) u
        (isset-clrbit map b b w room ∙ ground arith) count sum is

  taking :
      isset map b ≡ false → IsShifted g count map (setbit map b) (change (setbit map b) (negsuc 0))
  taking f =
      take-IsShifted g (setbit map b) map b inside
        (λ j ne. sym (isset-setbit map b j w room ∙ ground (arith, ne)))
        (isset-setbit map b b w room ∙ ground arith) f count sum is

  pub account-IsShifted : IsShifted g count map (flip b map) (change (flip b map) (freed_by b map))
  account-IsShifted = elim (Bool-cases (isset map b)) [
    | inl u ↦ rw u (freeing u)
    | inr f ↦ rw f (taking f)
  ]
