-- ===== src/Dir/Search/See.antt =====
-- What looking at one entry for room does in the search of `ext2_lookup_ino`, by the slot's status.
use ext2fs.Base.{
  ℕ, ◌+◌, ◌≡◌, ◌⊎◌, inl, inr, refl, sym, ◌∙◌, true, false, none, some, List, [], ◌∷◌, Bool-cases,
  leb, ◌==◌, arith,
}
use mathlib.Core.Bool.{true≢false}
use ext2fs.Dir.{Entry}
use ext2fs.Dir.Chain.{spare}
use ext2fs.Dir.Search.{
  Status, slot_none, slot_compact, slot_found, no_slot, Slot, accumulate, see, reset,
}
use ext2fs.Dir.Search.Walk.{see_all}

pub Status-cases : (st : Status) → ((st ≡ slot_none) ⊎ (st ≡ slot_compact)) ⊎ (st ≡ slot_found)
Status-cases slot_none = inl (inl refl)
Status-cases slot_compact = inl (inr refl)
Status-cases slot_found = inr refl

module _ (needed : ℕ) (e : Entry) (off : ℕ) (s : Slot) where
  pub see-still : (spare e == 0) ≡ true → see needed e off s ≡ s
  unfolding see
  see-still z = rw (z, see) refl

  pub see-later :
      (spare e == 0) ≡ false
      → s.status ≡ slot_none
      → leb needed (spare e) ≡ false
      → see needed e off s ≡ accumulate needed e off s
  unfolding see
  see-later z st f = rw (z, st, f, see) refl

  pub see-kept : s.status ≡ slot_compact → leb needed (spare e) ≡ false → see needed e off s ≡ s
  unfolding see
  see-kept st f = rw (st, f, see) (ground arith)

  pub see-done : s.status ≡ slot_found → see needed e off s ≡ s
  unfolding see
  see-done st = rw (st, see) (ground arith)

  pub see-fits :
      (spare e == 0) ≡ false
      → (s.status ≡ slot_none) ⊎ (s.status ≡ slot_compact)
      → leb needed (spare e) ≡ true
      → see needed e off s
        ≡ record { status = slot_found; offset = some off; size = e.reclen; free = s.free }
  unfolding see
  see-fits z (inl st) f = rw (z, st, f, see) refl
  see-fits z (inr st) f = rw (z, st, f, see) refl

  -- Room that was found is never given up.
  pub see-no_slot : no_slot s.status ≡ false → no_slot (see needed e off s).status ≡ false
  see-no_slot f = elim (Status-cases s.status) [
    | inl (inl st) ↦ absurd (true≢false (sym (rw st refl) ∙ f))
    | inl (inr st) ↦ elim (Bool-cases (spare e == 0)) [
      | inl z ↦ rw (see-still z) f
      | inr nz ↦ elim (Bool-cases (leb needed (spare e))) [
        | inl big ↦ rw (see-fits nz (inr st) big) refl
        | inr small ↦ rw (see-kept st small) f
      ]
    ]
    | inr st ↦ rw (see-done st) f
  ]

pub see_all-no_slot :
    (needed base off : ℕ) (es : List Entry) (s : Slot)
    → no_slot s.status ≡ false
    → no_slot (see_all needed base off es s).status ≡ false
see_all-no_slot needed base off [] s f = f
see_all-no_slot needed base off (e ∷ es) s f =
    see_all-no_slot needed base (off + e.reclen) es _ (see-no_slot needed e (base + off) s f)

pub reset-none :
    (s : Slot)
    → no_slot s.status ≡ true
    → reset s ≡ record { status = slot_none; offset = none; size = s.size; free = 0 }
unfolding reset
reset-none s t = elim (Status-cases s.status) [
  | inl (inl st) ↦ rw (st, reset) (ground arith)
  | inl (inr st) ↦ absurd (true≢false (sym t ∙ rw st refl))
  | inr st ↦ absurd (true≢false (sym t ∙ rw st refl))
]

pub reset-settled : (s : Slot) → no_slot s.status ≡ false → reset s ≡ s
unfolding reset
reset-settled s f = elim (Status-cases s.status) [
  | inl (inl st) ↦ absurd (true≢false (sym (rw st refl) ∙ f))
  | inl (inr st) ↦ rw (st, reset) (ground arith)
  | inr st ↦ rw (st, reset) (ground arith)
]
