-- ===== src/Truncate/Swept.antt =====
-- What one block of pointers contributes to the release of blocks by `ext2_indirtrunc`, and which data
-- blocks need the blocks below it.
use ext2fs.Base.{
  ℕ, zero, suc, ◌+◌, ◌-◌, ◌*◌, ◌/◌, ◌≤◌, ◌<◌, ◌≡◌, ◌≢◌, ◌↔◌, ◌⊎◌, inl, inr, refl, ap, ◌∙◌, Bool,
  Option, none, some, List, [], ◌∷◌, ◌++◌, Bool-cases, ◌==◌, if◌then◌else◌, length, get_or, drop,
  arith,
}
use native.Mathlib.Nat.{mul-le-mul_right, div-lt_iff_lt-mul, le-div_iff_mul-le, mul-pos}
use ext2fs.Truncate.{Cut, nothing, and_then, release, sweep, keep, partial, cut_table, factor}

abbrev pub In : ℕ → List ℕ → Type 0
In b [] = ⊥
In b (x ∷ xs) = (b ≡ x) ⊎ In b xs

pub In-append : (b : ℕ) (xs ys : List ℕ) → In b (xs ++ ys) ↔ (In b xs ⊎ In b ys)
In-append b [] ys = (inr, λ h. elim h [ inl e ↦ absurd e | inr i ↦ i ])
In-append b (x ∷ xs) ys =
    let ih = In-append b xs ys in
    (
      λ h. elim h [
        | inl e ↦ inl (inl e)
        | inr i ↦ elim (ih.0 i) [ inl l ↦ inl (inr l) | inr r ↦ inr r ]
      ],
      λ h. elim h [
        | inl l ↦ elim l [ inl e ↦ inl e | inr i ↦ inr (ih.1 (inl i)) ]
        | inr r ↦ inr (ih.1 (inr r))
      ],
    )

module _ (nindir nblocks : ℕ) (read : ℕ → Option (List ℕ)) (writes : ℕ → Bool) where
  -- A pointer that is not 0 in a list, with what its release gives.
  abbrev pub Swept : (ℕ → Cut) → List ℕ → ℕ → Type 0
  Swept below xs b =
      (i : ℕ) × (i < length xs)
      × (get_or xs i 0 ≢ 0)
      × ((b ≡ get_or xs i 0) ⊎ In b (below (get_or xs i 0)).freed)

  Swept-back :
      {R : Type 0} (below : ℕ → Cut) (nb : ℕ) (rest : List ℕ) (b : ℕ)
      → Swept below (nb ∷ rest) b
      → (Swept below rest b → R)
      → ((nb ≢ 0) × ((b ≡ nb) ⊎ In b (below nb).freed) → R)
      → R
  Swept-back below nb rest b (zero, lt, nz, w) later here = here (nz, w)
  Swept-back below nb rest b (suc i, lt, nz, w) later here = later (i, omega arith, nz, w)

  pub one-Swept :
      (below : ℕ → Cut) (nb b : ℕ)
      → In b
          (if nb == 0
            then nothing
            else and_then (below nb) (release nindir nblocks read writes nb)).freed
        ↔ ((nb ≢ 0) × ((b ≡ nb) ⊎ In b (below nb).freed))
  one-Swept below nb b = elim (Bool-cases (nb == 0)) [
    | inl z ↦ rw z (λ h. absurd h, λ h. absurd (h.0 (ground arith)))
    | inr nz ↦
        let parts = In-append b (below nb).freed (nb ∷ []) in
        rw nz (
          λ h. (
            ground arith,
            elim (parts.0 h) [
              | inl i ↦ inr i
              | inr e ↦ elim e [ inl same ↦ inl same | inr f ↦ absurd f ]
            ],
          ),
          λ h. elim (h.1) [ inl same ↦ parts.1 (inr (inl same)) | inr i ↦ parts.1 (inl i) ],
        )
  ]

  pub sweep-Swept :
      (below : ℕ → Cut) (xs : List ℕ) (b : ℕ)
      → In b (sweep nindir nblocks read writes below xs).freed ↔ Swept below xs b
  sweep-Swept below [] b = (λ h. absurd h, λ h. absurd (let lt = h.1 in omega arith))
  sweep-Swept below (nb ∷ rest) b =
      let ih = sweep-Swept below rest b in
      let own = one-Swept below nb b in
      let parts =
        In-append b (sweep nindir nblocks read writes below rest).freed
          (if nb == 0
            then nothing
            else and_then (below nb) (release nindir nblocks read writes nb)).freed in
      (
        λ h. elim (parts.0 h) [
          | inl later ↦ let (i, lt, nz, w) = ih.0 later in (suc i, omega arith, nz, w)
          | inr here ↦ let (nz, w) = own.0 here in (0, omega arith, nz, w)
        ],
        λ h.
            Swept-back below nb rest b h (λ w. parts.1 (inl (ih.1 w)))
              (λ w. parts.1 (inr (own.1 w))),
      )

  -- Block `b` hangs below the block of pointers `bn`, and `first` is the first data block that needs it.
  abbrev pub Under : ℕ → ℕ → ℕ → ℕ → Type 0
  Under zero bn first b =
      (table : List ℕ) × (read bn ≡ some table)
      × (first < length table)
      × (get_or table first 0 ≢ 0)
      × (b ≡ get_or table first 0)
  Under (suc level) bn first b =
      (table : List ℕ) × (i : ℕ) × (read bn ≡ some table)
      × (i < length table)
      × (get_or table i 0 ≢ 0)
      × (((b ≡ get_or table i 0) × (first ≡ i * factor nindir (suc level)))
          ⊎ ((lo : ℕ) × Under level (get_or table i 0) lo b
              × (first ≡ i * factor nindir (suc level) + lo)))

  -- A data block is behind the last one that is kept.
  abbrev pub Past : Option ℕ → ℕ → Type 0
  Past none first = Unit
  Past (some last) first = last < first

  abbrev pub Frees : ℕ → ℕ → Option ℕ → ℕ → Type 0
  Frees level bn last b = (first : ℕ) × Past last first × Under level bn first b

  module _ (pos : 0 < nindir)
      (fit : (bn : ℕ) (table : List ℕ) → read bn ≡ some table → length table ≤ nindir) where
    pub factor-pos : (level : ℕ) → 0 < factor nindir level
    factor-pos zero = omega arith
    factor-pos (suc level) = mul-pos (factor-pos level) pos

    pub Under-bound :
        (level bn first b : ℕ) → Under level bn first b → first < factor nindir (suc level)
    Under-bound zero bn first b (table, r, lt, nz, e) = let h = fit bn table r in omega arith
    Under-bound (suc level) bn first b (table, i, r, lt, nz, w) =
        let h = fit bn table r in
        let f = factor nindir (suc level) in
        let fp = factor-pos (suc level) in
        let m : (i + 1) * f ≤ nindir * f = mul-le-mul_right f (omega arith) in
        elim w [
          | inl (e, at) ↦ omega arith
          | inr (lo, u, at) ↦ let g = Under-bound level (get_or table i 0) lo b u in omega arith
        ]

    pub past-later : (f last i : ℕ) → 0 < f → last / f + 1 ≤ i → last < i * f
    past-later f last i fp le = (div-lt_iff_lt-mul fp).0 (omega arith)

    pub not-past : (f last i : ℕ) → 0 < f → i ≤ last / f → i * f ≤ last
    not-past f last i fp le = (le-div_iff_mul-le fp).0 le

    -- What `cut_table` releases, by where its pointer stands in the table.
    abbrev CutIn : (ℕ → Option ℕ → Cut) → ℕ → Option ℕ → List ℕ → ℕ → Type 0
    CutIn below level last table b =
        Swept (λ nb. below nb none) (drop (keep nindir nblocks read writes level last) table) b
        ⊎ In b (partial nindir nblocks read writes below level table last).freed

    cut_table-CutIn :
        (below : ℕ → Option ℕ → Cut) (level bn : ℕ) (last : Option ℕ) (table : List ℕ) (b : ℕ)
        → In b (cut_table nindir nblocks read writes below level bn last table).freed
          ↔ CutIn below level last table b
    cut_table-CutIn below level bn last table b =
        let swept =
          sweep-Swept (λ nb. below nb none)
            (drop (keep nindir nblocks read writes level last) table) b in
        let parts =
          In-append b
            (sweep nindir nblocks read writes (λ nb. below nb none)
              (drop (keep nindir nblocks read writes level last) table)).freed
            (partial nindir nblocks read writes below level table last).freed in
        (
          λ h. elim (parts.0 h) [ inl s ↦ inl (swept.0 s) | inr p ↦ inr p ],
          λ h. elim h [ inl s ↦ parts.1 (inl (swept.1 s)) | inr p ↦ parts.1 (inr p) ],
        )

    drop-length : (k : ℕ) (xs : List ℕ) → length (drop k xs) ≡ length xs - k
    drop-length zero xs = omega arith
    drop-length (suc k) [] = omega arith
    drop-length (suc k) (x ∷ xs) = let h = drop-length k xs in omega arith

    get_or-drop : (k i : ℕ) (xs : List ℕ) → get_or (drop k xs) i 0 ≡ get_or xs (k + i) 0
    get_or-drop zero i xs = let z : 0 + i ≡ i = omega arith in rw z refl
    get_or-drop (suc k) i [] = refl
    get_or-drop (suc k) i (x ∷ xs) =
        let z : suc k + i ≡ suc (k + i) = omega arith in rw z (get_or-drop k i xs)

    -- The pointers swept are those from index `k` on.
    abbrev pub From : (ℕ → Cut) → ℕ → List ℕ → ℕ → Type 0
    From below k table b =
        (i : ℕ) × (k ≤ i)
        × (i < length table)
        × (get_or table i 0 ≢ 0)
        × ((b ≡ get_or table i 0) ⊎ In b (below (get_or table i 0)).freed)

    pub Swept-From :
        (below : ℕ → Cut) (k : ℕ) (table : List ℕ) (b : ℕ)
        → Swept below (drop k table) b ↔ From below k table b
    Swept-From below k table b =
        let len = drop-length k table in
        (
          λ (i, lt, nz, w).
              let e = get_or-drop k i table in
              (k + i, omega arith, omega arith, (rw e at nz), (rw e at w)),
          λ (i, le, lt, nz, w).
              let z : k + (i - k) ≡ i = omega arith in
              let e : get_or (drop k table) (i - k) 0 ≡ get_or table i 0 =
                get_or-drop k (i - k) table ∙ ap (λ j. get_or table j 0) z in
              (i - k, omega arith, rw e nz, rw e w),
        )

    -- The pointers from the first that is released on, and the last one kept.
    abbrev pub Parts : (ℕ → Option ℕ → Cut) → ℕ → Option ℕ → List ℕ → ℕ → Type 0
    Parts below level last table b =
        From (λ nb. below nb none) (keep nindir nblocks read writes level last) table b
        ⊎ In b (partial nindir nblocks read writes below level table last).freed

    pub cut_table-Parts :
        (below : ℕ → Option ℕ → Cut) (level bn : ℕ) (last : Option ℕ) (table : List ℕ) (b : ℕ)
        → In b (cut_table nindir nblocks read writes below level bn last table).freed
          ↔ Parts below level last table b
    cut_table-Parts below level bn last table b =
        let c = cut_table-CutIn below level bn last table b in
        let s =
          Swept-From (λ nb. below nb none) (keep nindir nblocks read writes level last) table b in
        (
          λ h. elim (c.0 h) [ inl x ↦ inl (s.0 x) | inr p ↦ inr p ],
          λ h. elim h [ inl x ↦ c.1 (inl (s.1 x)) | inr p ↦ c.1 (inr p) ],
        )
