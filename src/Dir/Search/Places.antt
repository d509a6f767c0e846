-- ===== src/Dir/Search/Places.antt =====
-- The room that the search of `ext2_lookup_ino` reports: consecutive entries of a block.
use ext2fs.Base.{
  ℕ, suc, ◌+◌, ◌-◌, ◌*◌, ◌≤◌, ◌<◌, ◌≡◌, ◌≢◌, ◌⊎◌, inl, inr, refl, sym, subst, ap, ◌∙◌, true, false,
  Option, none, some, List, [], ◌∷◌, ◌++◌, Bool-cases, eq-cases, leb, ◌==◌, arith,
}
use mathlib.Core.Bool.{true≢false}
use mathlib.Core.Option.{some-injective}
use mathlib.Core.List.{append_assoc, append-nil}
use ext2fs.Dir.{Entry, Blocks}
use ext2fs.Dir.Chain.{span, room, spare, span-append, room-append, append_one-full}
use ext2fs.Dir.Search.{no_slot, Slot, offset_or, accumulate, see, reset}
use ext2fs.Dir.Search.Walk.{see_all}
use ext2fs.Dir.Search.See.{
  Status-cases, see-still, see-later, see-kept, see-done, see-fits, see_all-no_slot, reset-none,
  reset-settled,
}

module _ (needed bsize n : ℕ) (blocks : Blocks) where
  -- The slot is a run of entries of a block with enough bytes free.
  abbrev pub Placed : Option ℕ → ℕ → Type 0
  Placed offset size =
      (i : ℕ) × (pre : List Entry) × (region : List Entry) × (post : List Entry) × (i < n)
      × (blocks i ≡ some (pre ++ (region ++ post)))
      × (region ≢ [])
      × (offset ≡ some (i * bsize + span pre))
      × (size ≡ span region)
      × (needed ≤ room region)

  -- Where the entries `seen` of a block from `base` on have room, it begins with the first that has.
  abbrev Begun : ℕ → List Entry → Option ℕ → Type 0
  Begun base seen none = room seen ≡ 0
  Begun base seen (some o) =
      (pre : List Entry) × (region : List Entry) × (seen ≡ pre ++ region)
      × (region ≢ [])
      × (o ≡ base + span pre)
      × (room pre ≡ 0)

  abbrev Searching : ℕ → List Entry → Slot → Type 0
  Searching base seen s =
      (no_slot s.status ≡ true)
      × (s.free ≡ room seen)
      × (s.free < needed)
      × Begun base seen s.offset

  abbrev pub Settled : Slot → Type 0
  Settled s = (no_slot s.status ≡ false) × Placed s.offset s.size

  abbrev Known : ℕ → List Entry → Slot → Type 0
  Known base seen s = Searching base seen s ⊎ Settled s

  Begun-more :
      (base : ℕ) (seen : List Entry) (e : Entry) (o : Option ℕ)
      → spare e ≡ 0
      → Begun base seen o
      → Begun base (seen ++ (e ∷ [])) o
  Begun-more base seen e none z h = let r = room-append seen (e ∷ []) in omega arith
  Begun-more base seen e (some o) z (pre, region, split, full, at, empty) = (
    pre,
    region ++ (e ∷ []),
    rw split (append_assoc pre region (e ∷ [])),
    append_one-full region e,
    at,
    empty,
  )

  fits-Placed :
      (i : ℕ) (seen : List Entry) (e : Entry) (rest : List Entry)
      → i < n
      → blocks i ≡ some (seen ++ (e ∷ rest))
      → needed ≤ spare e
      → Placed (some (i * bsize + span seen)) e.reclen
  fits-Placed i seen e rest lt r big =
      (i, seen, e ∷ [], rest, lt, r, append_one-full [] e, refl, omega arith, omega arith)

  -- With one entry more, the run that has begun or that begins there.
  grown-Begun :
      (base : ℕ) (seen : List Entry) (e : Entry) (o : Option ℕ)
      → Begun base seen o
      → Begun base (seen ++ (e ∷ [])) (some (offset_or o (base + span seen)))
  grown-Begun base seen e none z = (seen, e ∷ [], refl, append_one-full [] e, refl, z)
  grown-Begun base seen e (some o) (pre, region, split, full, at, empty) = (
    pre,
    region ++ (e ∷ []),
    rw split (append_assoc pre region (e ∷ [])),
    append_one-full region e,
    at,
    empty,
  )

  run-Placed :
      (i : ℕ) (seen rest : List Entry) (o : ℕ)
      → i < n
      → blocks i ≡ some (seen ++ rest)
      → Begun (i * bsize) seen (some o)
      → needed ≤ room seen
      → Placed (some o) (i * bsize + span seen - o)
  run-Placed i seen rest o lt r (pre, region, split, full, at, empty) big =
      let there : blocks i ≡ some (pre ++ (region ++ rest)) =
        r ∙ ap some (rw split (append_assoc pre region rest)) in
      let a : span seen ≡ span pre + span region = rw split (span-append pre region) in
      let c : room seen ≡ room pre + room region = rw split (room-append pre region) in
      (i, pre, region, rest, lt, there, full, ap some at, omega arith, omega arith)

  accumulate-Known :
      (i : ℕ) (seen : List Entry) (e : Entry) (rest : List Entry) (s : Slot)
      → i < n
      → blocks i ≡ some (seen ++ (e ∷ rest))
      → Searching (i * bsize) seen s
      → Known (i * bsize) (seen ++ (e ∷ [])) (accumulate needed e (i * bsize + span seen) s)
  accumulate-Known i seen e rest s lt r (status, free, few, begun) =
      let start = offset_or s.offset (i * bsize + span seen) in
      let more : room (seen ++ (e ∷ [])) ≡ room seen + (spare e + 0) = room-append seen (e ∷ []) in
      let grown = grown-Begun (i * bsize) seen e s.offset begun in
      elim (Bool-cases (leb needed (s.free + spare e))) [
        | inl enough ↦
            let there : blocks i ≡ some ((seen ++ (e ∷ [])) ++ rest) =
              r ∙ ap some (sym (append_assoc seen (e ∷ []) rest)) in
            let big : needed ≤ room (seen ++ (e ∷ [])) = ground arith in
            let size : i * bsize + span seen + e.reclen - start
                ≡ i * bsize + span (seen ++ (e ∷ [])) - start =
              let h = span-append seen (e ∷ []) in omega arith in
            rw (enough, size)
              (inr (refl, run-Placed i (seen ++ (e ∷ [])) rest start lt there grown big))
        | inr short ↦
            let small : s.free + spare e < needed = ground arith in
            rw short (inl (refl, omega arith, small, grown))
      ]

  Known-more :
      (i : ℕ) (seen : List Entry) (e : Entry) (s : Slot)
      → spare e ≡ 0
      → Known (i * bsize) seen s
      → Known (i * bsize) (seen ++ (e ∷ [])) s
  Known-more i seen e s z (inr settled) = inr settled
  Known-more i seen e s z (inl (status, free, few, begun)) =
      let r = room-append seen (e ∷ []) in
      inl (status, omega arith, few, Begun-more (i * bsize) seen e s.offset z begun)

  Known-settled :
      (i : ℕ) (seen : List Entry) (e : Entry) (s : Slot)
      → no_slot s.status ≡ false
      → Known (i * bsize) seen s
      → Known (i * bsize) (seen ++ (e ∷ [])) s
  Known-settled i seen e s f (inr settled) = inr settled
  Known-settled i seen e s f (inl searching) = absurd (true≢false (sym searching.0 ∙ f))

  Searching-of :
      (i : ℕ) (seen : List Entry) (s : Slot)
      → no_slot s.status ≡ true
      → Known (i * bsize) seen s
      → Searching (i * bsize) seen s
  Searching-of i seen s t (inl searching) = searching
  Searching-of i seen s t (inr settled) = absurd (true≢false (sym t ∙ settled.0))

  see-Known :
      (i : ℕ) (seen : List Entry) (e : Entry) (rest : List Entry) (s : Slot)
      → i < n
      → blocks i ≡ some (seen ++ (e ∷ rest))
      → Known (i * bsize) seen s
      → Known (i * bsize) (seen ++ (e ∷ [])) (see needed e (i * bsize + span seen) s)
  see-Known i seen e rest s lt r known =
      let off = i * bsize + span seen in
      let There : Slot → Type 0 = Known (i * bsize) (seen ++ (e ∷ [])) in
      elim (Bool-cases (spare e == 0)) [
        | inl z ↦
            subst There (sym (see-still needed e off s z))
              (Known-more i seen e s (ground arith) known)
        | inr nz ↦ elim (Status-cases s.status) [
          | inr f ↦
              subst There (sym (see-done needed e off s f))
                (Known-settled i seen e s (rw f refl) known)
          | inl unset ↦ elim (Bool-cases (leb needed (spare e))) [
            | inl big ↦
                subst There (sym (see-fits needed e off s nz unset big))
                  (inr (refl, fits-Placed i seen e rest lt r (ground arith)))
            | inr small ↦ elim unset [
              | inr c ↦
                  subst There (sym (see-kept needed e off s c small))
                    (Known-settled i seen e s (rw c refl) known)
              | inl none' ↦ subst There (sym (see-later needed e off s nz none' small)) (
                  accumulate-Known i seen e rest s lt r
                    (Searching-of i seen s (rw none' refl) known))
            ]
          ]
        ]
      ]

  -- The rest of a block.
  see_all-Known :
      (i : ℕ) (seen rest : List Entry) (s : Slot)
      → i < n
      → blocks i ≡ some (seen ++ rest)
      → Known (i * bsize) seen s
      → Known (i * bsize) (seen ++ rest) (see_all needed (i * bsize) (span seen) rest s)
  see_all-Known i seen [] s lt r known = rw (append-nil seen) known
  see_all-Known i seen (e ∷ rest) s lt r known =
      let same : (seen ++ (e ∷ [])) ++ rest ≡ seen ++ (e ∷ rest) =
        append_assoc seen (e ∷ []) rest in
      let size : span (seen ++ (e ∷ [])) ≡ span seen + e.reclen =
        let h = span-append seen (e ∷ []) in omega arith in
      let it =
        see_all-Known i (seen ++ (e ∷ [])) rest (see needed e (i * bsize + span seen) s) lt
          (rw same r) (see-Known i seen e rest s lt r known) in
      rw (same, size) at it

  -- Before block `b`: a run of entries with the room is known, or every block so far has less room.
  abbrev pub Reported : ℕ → Slot → Type 0
  Reported b s =
      Settled s
      ⊎ ((no_slot s.status ≡ true)
          × ((i : ℕ) → i < b → (chain : List Entry) → blocks i ≡ some chain → room chain < needed))

  pub see_all-Reported :
      0 < needed
      → (i : ℕ) (chain : List Entry) (s : Slot) → i < n
      → blocks i ≡ some chain
      → Reported i s
      → Reported (suc i) (see_all needed (i * bsize) 0 chain (reset s))
  see_all-Reported pos i chain s lt r (inl settled) =
      let f = see_all-no_slot needed (i * bsize) 0 chain s settled.0 in
      rw (reset-settled s settled.0) (elim (see_all-Known i [] chain s lt r (inr settled)) [
        | inl searching ↦ absurd (true≢false (sym searching.0 ∙ f))
        | inr settled' ↦ inl settled'
      ])
  see_all-Reported pos i chain s lt r (inr (t, short)) =
      rw (reset-none s t) (elim (see_all-Known i [] chain _ lt r (inl (refl, refl, pos, refl))) [
        | inl (status, free, few, begun) ↦ inr (
          status,
          λ j le chain' r'. elim (eq-cases j i) [
            | inl same ↦
                let e : chain ≡ chain' = some-injective _ _ (sym r ∙ rw same at r') in
                rw e at (let h : room chain < needed = omega arith in h)
            | inr differs ↦ short j (omega arith) chain' r'
          ],
        )
        | inr settled ↦ inl settled
      ])
