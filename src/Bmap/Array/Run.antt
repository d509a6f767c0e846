-- ===== src/Bmap/Array/Run.antt =====
-- The runs that `ext2_bmaparray` reports, and byte offsets against blocks.
use ext2fs.Base.{
  ℕ, zero, suc, ◌+◌, ◌-◌, ◌*◌, ◌≤◌, ◌<◌, ◌≡◌, ◌⊎◌, refl, ◌∙◌, sym, true, none, some, List, [], min,
  inl, inr, arith, ltb, ◌==◌, get_or, Bool-cases,
}
use ext2fs.Base.Int.{pos}
use ext2fs.Bmap.{ndaddr, getlbns}
use ext2fs.Bmap.Array.{
  Mount, Pointers, Read, mapped, seq_run, run_of, blkptrtodb32, direct, by_path, bmaparray,
}

hole_ne : {a r : ℕ} → mapped none 0 ≡ mapped (some a) r → ⊥
hole_ne e = cc

mapped_eq : {a a' r r' : ℕ} → mapped (some a) r ≡ mapped (some a') r' → (a ≡ a') × (r ≡ r')
mapped_eq e = (cc, cc)

module _ (ump : Mount) (table : List ℕ) where
  seq_run-zero : (i : ℕ) → seq_run ump table zero i ≡ 0
  unfolding seq_run
  seq_run-zero i = refl

  -- One round: the next pointer follows, or the run is over.
  seq_run-step :
      (k i : ℕ)
      → ((get_or table (suc i) 0 ≡ get_or table i 0 + ump.seqinc)
          × (seq_run ump table (suc k) (suc i) ≡ suc (seq_run ump table k (suc (suc i)))))
        ⊎ (seq_run ump table (suc k) (suc i) ≡ 0)
  unfolding seq_run
  seq_run-step k i =
      let pred : suc i - 1 ≡ i = omega arith in
      let next : suc i + 1 ≡ suc (suc i) = omega arith in
      rw (pred, next)
        (elim (Bool-cases (get_or table (suc i) 0 == get_or table i 0 + ump.seqinc)) [
          | inl t ↦ inl (ground arith, rw t refl)
          | inr f ↦ inr (rw f refl)
        ])

  -- Every pointer of a run lies where its distance from the first says.
  pub seq_run_lem :
      (k i j : ℕ)
      → j < seq_run ump table k (suc i)
      → get_or table (i + suc j) 0 ≡ get_or table i 0 + suc j * ump.seqinc
  seq_run_lem zero i j h = absurd (none_there h)
    where
      none_there : j < seq_run ump table zero (suc i) → ⊥
      none_there l = omega (arith, seq_run-zero (suc i))
  seq_run_lem (suc k) i zero h = elim (seq_run-step k i) [
    | inl (e, r) ↦ let one : i + 1 ≡ suc i = omega arith in rw one (omega arith)
    | inr stop ↦ absurd (omega arith)
  ]
  seq_run_lem (suc k) i (suc j) h = elim (seq_run-step k i) [
    | inl (e, r) ↦
        let shift : i + suc (suc j) ≡ suc i + suc j = omega arith in
        rw shift (omega (arith, e, seq_run_lem k (suc i) j (omega arith)))
    | inr stop ↦ absurd (omega arith)
  ]

  pub seq_run-le : (k i : ℕ) → seq_run ump table k i ≤ k
  unfolding seq_run
  seq_run-le zero i = omega arith
  seq_run-le (suc k) i = ground (arith, seq_run-le k (i + 1))

  -- What `run_of` counts stays inside the table and lies in order.
  pub run_of_lem :
      (size maxrun b j : ℕ)
      → b < size
      → j < run_of ump table size maxrun b
      → (b + suc j < size) × (get_or table (b + suc j) 0 ≡ get_or table b 0 + suc j * ump.seqinc)
  unfolding run_of
  run_of_lem size maxrun b j lt h =
      let one : b + 1 ≡ suc b = omega arith in
      let h' : j < seq_run ump table (min maxrun (size - suc b)) (suc b) = rw one at h in
      let bound = seq_run-le (min maxrun (size - suc b)) (suc b) in
      (omega (arith, h', bound), seq_run_lem (min maxrun (size - suc b)) b j h')

  pub run_of-le : (size maxrun b : ℕ) → run_of ump table size maxrun b ≤ maxrun
  unfolding run_of
  run_of-le size maxrun b = omega (arith, seq_run-le (min maxrun (size - (b + 1))) (b + 1))

module _ (ump : Mount) (read : ℕ → Read) (maxrun : ℕ) (ip : Pointers) where
  getlbns-direct : (n b : ℕ) → b < ndaddr → getlbns n (pos b) ≡ some []
  unfolding getlbns
  getlbns-direct n b h = let t : ltb b ndaddr ≡ true = ground arith in rw (t, getlbns) refl

  direct-eq :
      (b : ℕ) → b < ndaddr → bmaparray ump read maxrun ip (pos b) ≡ direct ump read maxrun ip b
  unfolding bmaparray by_path
  direct-eq b h = rw (getlbns-direct ump.nindir b h, bmaparray) refl

  -- For a direct block `b` that `ext2_bmaparray` maps with a run of `r`, and every `j` below `r`:
  -- the block is the device block of its pointer, the run is at most `maxrun`, block `b + j + 1`
  -- is direct too, and its pointer is `j + 1` times `um_seqinc` behind the first one's.
  pub bmaparray_run :
      (b a r j : ℕ)
      → b < ndaddr
      → bmaparray ump read maxrun ip (pos b) ≡ mapped (some a) r
      → j < r
      → (a ≡ blkptrtodb32 ump (get_or ip.db b 0))
        × (r ≤ maxrun)
        × (b + suc j < ndaddr)
        × (get_or ip.db (b + suc j) 0 ≡ get_or ip.db b 0 + suc j * ump.seqinc)
  unfolding direct
  bmaparray_run b a r j lt e l =
      let e' = sym (direct-eq b lt) ∙ e in
      elim (Bool-cases (blkptrtodb32 ump (get_or ip.db b 0) == 0)) [
        | inl hole ↦ absurd (hole_ne (rw (hole, direct) at e'))
        | inr there ↦
            let (p, q) = mapped_eq (rw (there, direct) at e') in
            let most = run_of-le ump ip.db ndaddr maxrun b in
            let (inside, along) = run_of_lem ump ip.db ndaddr maxrun b j lt (omega (arith, q, l)) in
            (sym p, omega (arith, most, q), inside, along)
      ]
