-- ===== src/Vnops/Links.antt =====
-- The count of links that `ext2_link` leaves.
use ext2fs.Base.{
  ℕ, ◌+◌, ◌<◌, ◌≡◌, ◌≢◌, refl, inl, inr, Option, none, some, leb, arith, Bool-cases, Option-cases,
}
use ext2fs.Vnops.{
  World, Errno, Name, Calls, Run, done, panicked, bump, drop, call, after, pure, ◌>>=◌, ◌>>◌, link,
  fixed, link_max,
}
use ext2fs.Vnops.Ledger.{bump_lem, drop_lem, call_lem, nlink-more, nlink-less, nlink-other}

module _ {D : Type 0} (calls : Calls D) (w : World D) (vp tdvp : ℕ) (cnp : Name) where
  -- What the directories hold when the entry has been asked for.
  abbrev pub entered : Option Errno × D
  entered = calls.direnter vp tdvp cnp (calls.update vp w.dirs).1

  -- How a link ends: with no error, the entry made and one link more in the source alone, or with an
  -- error and every inode with the links that it had.
  abbrev pub EndsLinked : Run D (Option Errno) → Type 0
  EndsLinked (done none w') =
      (entered.0 ≡ none)
      × (w'.dirs ≡ entered.1)
      × ((w'.nodes vp).nlink ≡ (w.nodes vp).nlink + 1)
      × ((i : ℕ) → i ≢ vp → (w'.nodes i).nlink ≡ (w.nodes i).nlink)
  EndsLinked (done (some e) w') = (i : ℕ) → (w'.nodes i).nlink ≡ (w.nodes i).nlink
  EndsLinked panicked = ⊥

  linked_run :
      (w.nodes vp).nlink < 32000
      → EndsLinked (
          (do
            bump vp
            e ← call (calls.update vp)
            after e
                (drop vp)
                (do e' ← call (calls.direnter vp tdvp cnp); after e' (drop vp) (pure none)))
            w)
  linked_run few =
      let undone = λ (i : ℕ). nlink-less vp w.nodes i (omega arith) in
      elim (Option-cases (calls.update vp w.dirs).0) [
        | inl e ↦ elim (Option-cases entered.0) [
          | inl e' ↦
              rw (bump_lem, call_lem, e, call_lem, e')
                (
                  e',
                  refl,
                  nlink-more vp w.nodes (omega arith),
                  λ i other. nlink-other vp w.nodes i other,
                )
          | inr (x, e') ↦ rw (bump_lem, call_lem, e, call_lem, e', drop_lem) undone
        ]
        | inr (x, e) ↦ rw (bump_lem, call_lem, e, drop_lem) undone
      ]

  -- `ext2_link`, whatever the calls of `ext2_update` and `ext2_direnter` do to the directories and
  -- give back, does not panic, and ends with no error, and then `ext2_direnter` gave none, the
  -- directories are as it left them, the source has one link more and no other inode more or less,
  -- or with an error, and then every inode has the links that it had.
  pub link-EndsLinked : EndsLinked (link calls vp tdvp cnp w)
  unfolding link
  link-EndsLinked = elim (Bool-cases (leb link_max (w.nodes vp).nlink)) [
    | inl full ↦ rw full (λ i. refl)
    | inr few ↦ elim (Bool-cases (fixed (w.nodes vp))) [
      | inl kept ↦ rw (few, kept) (λ i. refl)
      | inr free ↦ rw (few, free) (linked_run (ground arith))
    ]
  ]
