-- ===== src/Truncate/Released.antt =====
-- `ext2_indirtrunc` releases the blocks behind the last one that is kept, and no other.
use ext2fs.Base.{
  ℕ, zero, suc, ◌+◌, ◌*◌, ◌/◌, ◌%◌, ◌≤◌, ◌<◌, ◌≡◌, ◌≢◌, ◌↔◌, ◌⊎◌, inl, inr, refl, sym, ◌∙◌, Bool,
  Option, none, some, List, [], ◌∷◌, Bool-cases, Option-cases, lt-cases, ◌==◌, length, get_or,
  arith,
}
use mathlib.Core.Option.{some-injective, none-ne-some}
use native.Mathlib.Nat.{div-add-mod'}
use ext2fs.Truncate.{Cut, nothing, keep, partial, cut_table, factor, indirtrunc}
use ext2fs.Truncate.Swept.{
  In, Under, Frees, Past, factor-pos, Under-bound, past-later, not-past, Parts, From,
  cut_table-Parts,
}

module _ (nindir nblocks : ℕ) (read : ℕ → Option (List ℕ)) (writes : ℕ → Bool) (pos : 0 < nindir)
    (fit : (bn : ℕ) (table : List ℕ) → read bn ≡ some table → length table ≤ nindir) where
  indirtrunc-single :
      (bn : ℕ) (last : Option ℕ) (table : List ℕ)
      → read bn ≡ some table
      → indirtrunc nindir nblocks read writes 0 bn last
        ≡ cut_table nindir nblocks read writes (λ nb l. nothing) 0 bn last table
  unfolding indirtrunc
  indirtrunc-single bn last table r = rw r refl

  indirtrunc-more :
      (level bn : ℕ) (last : Option ℕ) (table : List ℕ)
      → read bn ≡ some table
      → indirtrunc nindir nblocks read writes (suc level) bn last
        ≡ cut_table nindir nblocks read writes
            (indirtrunc nindir nblocks read writes level)
            (suc level)
            bn
            last
            table
  unfolding indirtrunc
  indirtrunc-more level bn last table r = rw r refl

  indirtrunc-unread :
      (level bn : ℕ) (last : Option ℕ)
      → read bn ≡ none
      → (indirtrunc nindir nblocks read writes level bn last).freed ≡ []
  unfolding indirtrunc
  indirtrunc-unread zero bn last r = rw r refl
  indirtrunc-unread (suc level) bn last r = rw r refl

  Under-table :
      (level bn first b : ℕ)
      → Under nindir nblocks read writes level bn first b
      → (table : List ℕ) × (read bn ≡ some table)
  Under-table zero bn first b u = (u.0, u.1)
  Under-table (suc level) bn first b u = (u.0, u.2)

  -- The index in a table of the pointer to a data block that is kept, and what comes after it.
  keep-Past :
      (level : ℕ) (last : Option ℕ) (i : ℕ)
      → keep nindir nblocks read writes level last ≤ i
      → Past nindir nblocks read writes last (i * factor nindir level)
  keep-Past level none i le = tt
  keep-Past level (some last) i le =
      past-later nindir nblocks read writes pos fit (factor nindir level) last i
        (factor-pos nindir nblocks read writes pos fit level) le

  Past-more :
      (last : Option ℕ) (first lo : ℕ)
      → Past nindir nblocks read writes last first
      → Past nindir nblocks read writes last (first + lo)
  Past-more none first lo p = tt
  Past-more (some last) first lo p = omega arith

  unread-Frees :
      (level bn : ℕ) (last : Option ℕ) (b : ℕ)
      → read bn ≡ none
      → In b (indirtrunc nindir nblocks read writes level bn last).freed
        ↔ Frees nindir nblocks read writes level bn last b
  unread-Frees level bn last b r = rw (indirtrunc-unread level bn last r) (
    λ h. absurd h,
    λ (first, p, u).
        let (table, r') = Under-table level bn first b u in
        absurd (none-ne-some table (sym r ∙ r')),
  )

  partial-nothing :
      (table : List ℕ) (last : Option ℕ) (b : ℕ)
      → In b (partial nindir nblocks read writes (λ nb l. nothing) 0 table last).freed
      → ⊥
  partial-nothing table none b h = h
  partial-nothing table (some last) b h = elim (Bool-cases (get_or table (last / 1) 0 == 0)) [
    | inl z ↦ let f : ⊥ = rw z at h in f
    | inr nz ↦ let f : ⊥ = rw nz at h in f
  ]

  keep-single :
      (last : Option ℕ) (i : ℕ)
      → Past nindir nblocks read writes last i
      → keep nindir nblocks read writes 0 last ≤ i
  keep-single none i p = omega arith
  keep-single (some last) i p = omega arith

  single-Frees :
      (bn : ℕ) (last : Option ℕ) (table : List ℕ) (b : ℕ)
      → read bn ≡ some table
      → In b (indirtrunc nindir nblocks read writes 0 bn last).freed
        ↔ Frees nindir nblocks read writes 0 bn last b
  single-Frees bn last table b r =
      let parts =
        cut_table-Parts nindir nblocks read writes pos fit (λ nb l. nothing) 0 bn last table b in
      rw (indirtrunc-single bn last table r) (
        λ h. elim (parts.0 h) [
          | inl (i, le, lt, nz, w) ↦ elim w [
            | inl e ↦
                let z : i * 1 ≡ i = omega arith in
                (i, (rw z at (keep-Past 0 last i le)), (table, r, lt, nz, e))
            | inr f ↦ absurd f
          ]
          | inr p ↦ absurd (partial-nothing table last b p)
        ],
        λ (first, p, (table', r', lt, nz, e)).
            let same : table' ≡ table = some-injective _ _ (sym r' ∙ r) in
            let lt' : first < length table = rw same at lt in
            parts.1
              (inl (first, keep-single last first p, lt', (rw same at nz), inl (rw same at e))),
      )

  in_range : (xs : List ℕ) (i : ℕ) → get_or xs i 0 ≢ 0 → i < length xs
  in_range [] i nz = absurd (nz refl)
  in_range (x ∷ xs) zero nz = omega arith
  in_range (x ∷ xs) (suc i) nz = let h = in_range xs i nz in omega arith

  partial-In :
      (below : ℕ → Option ℕ → Cut) (level last : ℕ) (table : List ℕ) (b : ℕ)
      → In b (partial nindir nblocks read writes below level table (some last)).freed ↔ (
          (get_or table (last / factor nindir level) 0 ≢ 0)
          × In b
              (below
                (get_or table (last / factor nindir level) 0)
                (some (last % factor nindir level))).freed)
  partial-In below level last table b =
      let nb = get_or table (last / factor nindir level) 0 in
      elim (Bool-cases (nb == 0)) [
        | inl z ↦ rw z (λ h. absurd h, λ h. absurd (h.0 (ground arith)))
        | inr nz ↦ rw nz (λ h. (ground arith, h), λ h. h.1)
      ]

  -- What goes with a pointer is behind the last block that is kept, or below the pointer to it.
  module _ (level bn : ℕ) (table : List ℕ) (b : ℕ) (r : read bn ≡ some table)
      (ih : (nb : ℕ) (l : Option ℕ)
        → In b (indirtrunc nindir nblocks read writes level nb l).freed
          ↔ Frees nindir nblocks read writes level nb l b) where
    From-Frees :
        (last : Option ℕ)
        → From nindir nblocks read writes pos fit
            (λ nb. indirtrunc nindir nblocks read writes level nb none)
            (keep nindir nblocks read writes (suc level) last)
            table
            b
        → Frees nindir nblocks read writes (suc level) bn last b
    From-Frees last (i, le, lt, nz, inl e) = (
      i * factor nindir (suc level),
      keep-Past (suc level) last i le,
      (table, i, r, lt, nz, inl (e, refl)),
    )
    From-Frees last (i, le, lt, nz, inr inside) =
        let (lo, p, u) = (ih (get_or table i 0) none).0 inside in
        (
          i * factor nindir (suc level) + lo,
          Past-more last _ lo (keep-Past (suc level) last i le),
          (table, i, r, lt, nz, inr (lo, u, refl)),
        )

    partial-Frees :
        (last : Option ℕ)
        → In b
            (partial nindir nblocks read writes
              (indirtrunc nindir nblocks read writes level)
              (suc level)
              table
              last).freed
        → Frees nindir nblocks read writes (suc level) bn last b
    partial-Frees none h = absurd h
    partial-Frees (some last) h =
        let f = factor nindir (suc level) in
        let (nz, inside) =
          (partial-In (indirtrunc nindir nblocks read writes level) (suc level) last table b).0 h in
        let (lo, p, u) = (ih _ (some (last % f))).0 inside in
        let d = div-add-mod' last f in
        (
          last / f * f + lo,
          omega arith,
          (table, last / f, r, in_range table (last / f) nz, nz, inr (lo, u, refl)),
        )

    kept-partial :
        (last : Option ℕ) (i first : ℕ)
        → Past nindir nblocks read writes last first
        → get_or table i 0 ≢ 0
        → i < keep nindir nblocks read writes (suc level) last
        → (((b ≡ get_or table i 0) × (first ≡ i * factor nindir (suc level)))
            ⊎ ((lo : ℕ) × Under nindir nblocks read writes level (get_or table i 0) lo b
                × (first ≡ i * factor nindir (suc level) + lo)))
        → In b
            (partial nindir nblocks read writes
              (indirtrunc nindir nblocks read writes level)
              (suc level)
              table
              last).freed
    kept-partial none i first p nz before w = absurd (omega arith)
    kept-partial (some last) i first p nz before (inl (e, at)) =
        let h =
          not-past nindir nblocks read writes pos fit (factor nindir (suc level)) last i
            (factor-pos nindir nblocks read writes pos fit (suc level)) (omega arith) in
        absurd (omega arith)
    kept-partial (some last) i first p nz before (inr (lo, u, at)) =
        let f = factor nindir (suc level) in
        let small =
          Under-bound nindir nblocks read writes pos fit level (get_or table i 0) lo b u in
        elim (lt-cases i (last / f)) [
          | inl lt ↦
              let h : (i + 1) * f ≤ last =
                not-past nindir nblocks read writes pos fit f last (i + 1)
                  (factor-pos nindir nblocks read writes pos fit (suc level)) (omega arith) in
              absurd (omega arith)
          | inr ge ↦
              let same : last / f ≡ i = omega arith in
              let d : last / f * f + last % f ≡ last = div-add-mod' last f in
              let more : last % f < lo =
                let d' : i * f + last % f ≡ last = rw same at d in omega arith in
              (partial-In (indirtrunc nindir nblocks read writes level) (suc level) last table b).1
                (rw same (nz, (ih (get_or table i 0) (some (last % f))).1 (lo, more, u)))
        ]

    Frees-Parts :
        (last : Option ℕ) (i first : ℕ)
        → Past nindir nblocks read writes last first
        → i < length table
        → get_or table i 0 ≢ 0
        → (((b ≡ get_or table i 0) × (first ≡ i * factor nindir (suc level)))
            ⊎ ((lo : ℕ) × Under nindir nblocks read writes level (get_or table i 0) lo b
                × (first ≡ i * factor nindir (suc level) + lo)))
        → Parts nindir nblocks read writes pos fit
            (indirtrunc nindir nblocks read writes level)
            (suc level)
            last
            table
            b
    Frees-Parts last i first p lt nz w =
        elim (lt-cases i (keep nindir nblocks read writes (suc level) last)) [
          | inr le ↦ inl (
            i,
            le,
            lt,
            nz,
            elim w [
              | inl e ↦ inl (e.0)
              | inr u ↦ inr ((ih (get_or table i 0) none).1 (u.0, tt, u.1))
            ],
          )
          | inl before ↦ inr (kept-partial last i first p nz before w)
        ]

  more-Frees :
      (level bn : ℕ) (last : Option ℕ) (table : List ℕ) (b : ℕ)
      → read bn ≡ some table
      → ((nb : ℕ) (l : Option ℕ)
          → In b (indirtrunc nindir nblocks read writes level nb l).freed
            ↔ Frees nindir nblocks read writes level nb l b)
      → In b (indirtrunc nindir nblocks read writes (suc level) bn last).freed
        ↔ Frees nindir nblocks read writes (suc level) bn last b
  more-Frees level bn last table b r ih =
      let parts =
        cut_table-Parts nindir nblocks read writes pos fit
          (indirtrunc nindir nblocks read writes level) (suc level) bn last table b in
      rw (indirtrunc-more level bn last table r) (
        λ h. elim (parts.0 h) [
          | inl x ↦ From-Frees level bn table b r ih last x
          | inr x ↦ partial-Frees level bn table b r ih last x
        ],
        λ (first, p, (table', i, r', lt, nz, w)).
            let same : table' ≡ table = some-injective _ _ (sym r' ∙ r) in
            parts.1 (
              Frees-Parts level bn table b r ih last i first p (rw same at lt) (rw same at nz)
                (rw same at w)),
      )

  -- Where no block of pointers holds more of them than NINDIR, which is above 0: `ext2_indirtrunc`
  -- of a block of pointers at any level gives a block to `ext2_blkfree` exactly when it hangs
  -- below that block of pointers, through blocks that can be read, and the first data block that
  -- needs it is behind `lastbn`.
  pub indirtrunc-Frees :
      (level bn : ℕ) (last : Option ℕ) (b : ℕ)
      → In b (indirtrunc nindir nblocks read writes level bn last).freed
        ↔ Frees nindir nblocks read writes level bn last b
  indirtrunc-Frees zero bn last b = elim (Option-cases (read bn)) [
    | inl r ↦ unread-Frees 0 bn last b r
    | inr (table, r) ↦ single-Frees bn last table b r
  ]
  indirtrunc-Frees (suc level) bn last b = elim (Option-cases (read bn)) [
    | inl r ↦ unread-Frees (suc level) bn last b r
    | inr (table, r) ↦ more-Frees level bn last table b r (λ nb l. indirtrunc-Frees level nb l b)
  ]
