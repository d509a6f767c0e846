-- ===== src/Alloc/Cluster/Sides.antt =====
-- The runs at the sides of a block, as the loops of `ext2_clusteracct` measure them, and the counts
-- of the runs before and after the block changes.
use ext2fs.Base.{
  ℕ, zero, suc, ◌+◌, ◌-◌, ◌≤◌, ◌<◌, ◌≡◌, ◌≢◌, ◌⊎◌, refl, ◌∙◌, inl, inr, true, false, arith, List,
  min, ◌==◌, Bool-cases, lt-cases,
}
use ext2fs.Base.Bits.{isset}
use ext2fs.Geometry.{Geometry}
use ext2fs.Alloc.Cluster.{forward, backward, forw_of, back_of}
use ext2fs.Alloc.Cluster.Account.{unit_of}
use ext2fs.Alloc.Cluster.Runs.{
  before, after, closed, total, before-le, after-le, after-clear, after-ends, after-min, after-ext,
  below, total_change, length_beside,
}

-- Whether a run of `r` blocks is counted at length `k`: all longer ones count as `size`.
abbrev pub one : ℕ → ℕ → ℕ → ℕ
one size k r = unit_of (min r size == k)

-- The runs among the first `n` bits of `map` that are counted at length `k`.
unfoldable pub runs : ℕ → List ℕ → ℕ → ℕ → ℕ
unfolding closed before
runs size map n k = total (isset map) (one size k) n

pub forward-after : (map : List ℕ) (n i : ℕ) → forward map n i ≡ after (isset map) n i
unfolding forward after
forward-after map zero i = refl
forward-after map (suc n) i = rw (forward-after map n (i + 1)) refl

pub backward-before :
    (map : List ℕ) (n i : ℕ) → n ≤ i → backward map n i ≡ min (before (isset map) i) n
unfolding backward before
backward-before map zero i h = omega arith
backward-before map (suc n) zero h = absurd (omega (arith, h))
backward-before map (suc n) (suc i) h =
    let e : suc i - 1 ≡ i = omega arith in
    elim (Bool-cases (isset map i)) [
      | inl u ↦ rw (e, u) (omega arith)
      | inr f ↦ rw (e, f) (omega (arith, backward-before map n i (omega (arith, h))))
    ]

module _ (g : Geometry) (map map' : List ℕ) (b : ℕ) (inside : b < g.fpg)
    (same : (j : ℕ) → j ≢ b → isset map' j ≡ isset map j) (taken : isset map b ≡ true)
    (freed : isset map' b ≡ false) where
  abbrev end_of : ℕ
  end_of = b + 1 + after (isset map) (g.fpg - (b + 1)) (b + 1)

  over : b < end_of
  over = omega arith

  clear : (i : ℕ) → b < i → i < end_of → isset map i ≡ false
  clear i lo hi = after-clear (isset map) (g.fpg - (b + 1)) (b + 1) i (omega (arith, lo)) hi

  stop : (end_of ≡ g.fpg) ⊎ ((end_of < g.fpg) × (isset map end_of ≡ true))
  stop = elim (lt-cases end_of g.fpg) [
    | inl l ↦ elim (after-ends (isset map) (g.fpg - (b + 1)) (b + 1)) [
      | inl e ↦ inl (omega (arith, e, inside))
      | inr u ↦ inr (l, u)
    ]
    | inr l ↦ inl (omega (arith, after-le (isset map) (g.fpg - (b + 1)) (b + 1), inside, l))
  ]

  -- The lengths of the runs at the sides of `b`.
  abbrev pub back_run : ℕ
  back_run = before (isset map) b

  abbrev pub forw_run : ℕ
  forw_run = before (isset map) end_of

  forw_len : forw_run ≡ after (isset map) (g.fpg - (b + 1)) (b + 1)
  forw_len =
      omega (
        arith,
        length_beside (isset map) (isset map') b same taken freed (one 0 0) end_of over clear,
      )

  back_cap : (m : List ℕ) → back_of g m b ≡ min (before (isset m) b) g.contigsumsize
  unfolding back_of
  back_cap m =
      omega
        (arith, backward-before m (min g.contigsumsize b) b (omega arith), before-le (isset m) b)

  pub forw_before : forw_of g map b ≡ min forw_run g.contigsumsize
  unfolding forw_of
  forw_before =
      forward-after map (min g.contigsumsize (g.fpg - (b + 1))) (b + 1)
      ∙ after-min (isset map) (g.fpg - (b + 1)) g.contigsumsize (b + 1)
      ∙ rw forw_len refl

  pub forw_after : forw_of g map' b ≡ min forw_run g.contigsumsize
  unfolding forw_of
  forw_after =
      forward-after map' (min g.contigsumsize (g.fpg - (b + 1))) (b + 1)
      ∙ after-ext (isset map) (isset map') (min g.contigsumsize (g.fpg - (b + 1))) (b + 1)
          (λ j l. same j (λ e. absurd (omega (arith, e, l))))
      ∙ after-min (isset map) (g.fpg - (b + 1)) g.contigsumsize (b + 1)
      ∙ rw forw_len refl

  pub back_before : back_of g map b ≡ min back_run g.contigsumsize
  unfolding back_of
  back_before = back_cap map

  pub back_after : back_of g map' b ≡ min back_run g.contigsumsize
  unfolding back_of
  back_after =
      back_cap map'
      ∙ rw ((below (isset map) (isset map') b same taken freed (one 0 0) b (omega arith)).0) refl

  pub runs_change :
      (k : ℕ)
      → runs g.contigsumsize map g.fpg k + one g.contigsumsize k (back_run + forw_run + 1)
        ≡ runs g.contigsumsize map' g.fpg k
          + one g.contigsumsize k back_run
          + one g.contigsumsize k forw_run
  unfolding runs
  runs_change k =
      total_change (isset map) (isset map') b same taken freed (one g.contigsumsize k) end_of over
        clear g.fpg stop
