-- ===== src/Alloc/Policy/Chosen.antt =====
-- The group that `ext2_dirpref` of kext/ext2_alloc.c chooses.
use ext2fs.Base.{
  ℕ, zero, suc, ◌+◌, ◌-◌, ◌%◌, ◌≤◌, ◌<◌, ◌≡◌, refl, sym, ap, ◌∙◌, inl, inr, Bool, true, false,
  Option, none, some, ◌&&◌, ltb, leb, arith, Bool-cases, Option-cases, eq-cases, lt-cases,
}
use native.Mathlib.Nat.{mod-lt}
use ext2fs.Geometry.{Geometry, IsSound, ino_to_cg}
use ext2fs.Alloc.State.{Group, Fs}
use ext2fs.Alloc.Request.{Inode}
use ext2fs.Alloc.Policy.{first_of, first_around, fewest, first_level, suits, avgifree, dirpref}

some_eq : {x y : ℕ} → some x ≡ some y → x ≡ y
some_eq e = cc

none_ne : {x : ℕ} → some x ≡ none → ⊥
none_ne e = cc

module _ (test : ℕ → Bool) where
  first_of-some :
      (n cg c : ℕ) → first_of test n cg ≡ some c → (cg ≤ c) × (c < cg + n) × (test c ≡ true)
  unfolding first_of
  first_of-some zero cg c e = absurd (none_ne (sym e))
  first_of-some (suc n) cg c e = elim (Bool-cases (test cg)) [
    | inl t ↦
        let q : cg ≡ c = some_eq (rw (t, first_of) at e) in
        (omega arith, omega arith, ap test (sym q) ∙ t)
    | inr f ↦
        let (a, b, t) = first_of-some n (cg + 1) c (rw (f, first_of) at e) in
        (omega arith, omega arith, t)
  ]

  first_of-none : (n cg a : ℕ) → first_of test n cg ≡ none → cg ≤ a → a < cg + n → test a ≡ false
  unfolding first_of
  first_of-none zero cg a e lo hi = absurd (omega arith)
  first_of-none (suc n) cg a e lo hi = elim (Bool-cases (test cg)) [
    | inl t ↦ absurd (none_ne (rw (t, first_of) at e))
    | inr f ↦ elim (eq-cases cg a) [
      | inl q ↦ ap test (sym q) ∙ f
      | inr ne ↦ first_of-none n (cg + 1) a (rw (f, first_of) at e) (omega arith) (omega arith)
    ]
  ]

  first_around-some :
      (pref gcount c : ℕ)
      → pref < gcount
      → first_around test pref gcount ≡ some c
      → (c < gcount) × (test c ≡ true)
  unfolding first_around
  first_around-some pref gcount c lt e = elim (Option-cases (first_of test (gcount - pref) pref)) [
    | inr (d, p) ↦
        let q : d ≡ c = some_eq (rw (p, first_around) at e) in
        let (a, b, t) = first_of-some (gcount - pref) pref d p in (omega arith, ap test (sym q) ∙ t)
    | inl p ↦ let (a, b, t) = first_of-some pref 0 c (rw (p, first_around) at e) in (omega arith, t)
  ]

  first_around-none :
      (pref gcount a : ℕ)
      → pref < gcount
      → first_around test pref gcount ≡ none
      → a < gcount
      → test a ≡ false
  unfolding first_around
  first_around-none pref gcount a lt e in_range =
      elim (Option-cases (first_of test (gcount - pref) pref)) [
        | inr (d, p) ↦ absurd (none_ne (rw (p, first_around) at e))
        | inl p ↦ elim (lt-cases a pref) [
          | inl below ↦
              first_of-none pref 0 a (rw (p, first_around) at e) (omega arith) (omega arith)
          | inr above ↦ first_of-none (gcount - pref) pref a p above (omega arith)
        ]
      ]

fewest-lt :
    (gd : ℕ → Group) (roomy : ℕ → Bool) (gcount n cg : ℕ) (best : ℕ × ℕ)
    → cg + n ≤ gcount
    → best.0 < gcount
    → (fewest gd roomy n cg best).0 < gcount
unfolding fewest
fewest-lt gd roomy gcount zero cg best fits lt = lt
fewest-lt gd roomy gcount (suc n) cg best fits lt =
    elim (Bool-cases (ltb (gd cg).ndirs best.1 && roomy cg)) [
      | inl t ↦
          rw (t, fewest)
            (fewest-lt gd roomy gcount n (cg + 1) (cg, (gd cg).ndirs) (omega arith) (omega arith))
      | inr f ↦ rw (f, fewest) (fewest-lt gd roomy gcount n (cg + 1) best (omega arith) lt)
    ]

or_home :
    (o : Option ℕ) (pref n : ℕ)
    → ((c : ℕ) → o ≡ some c → c < n)
    → pref < n
    → (elim o [ some cg ↦ cg | none ↦ pref ]) < n
or_home none pref n found lt = lt
or_home (some c) pref n found lt = found c refl

module _ (g : Geometry) (s : IsSound g) (fs : Fs) (pip : Inode)
    (home : ino_to_cg g pip.number < g.gcount) where
  -- On a volume of sound geometry, with a parent in a group that there is, `ext2_dirpref` chooses
  -- a group that there is, whatever the random number, for a parent that is the root as for any
  -- other.
  pub dirpref-lt : (root : Bool) (r : ℕ) → dirpref g fs pip root r < g.gcount
  unfolding dirpref first_level
  dirpref-lt true r =
      let low : r % g.gcount < g.gcount = mod-lt _ s.gcount_pos in
      fewest-lt fs.gd _ g.gcount (r % g.gcount) 0 _ (omega arith)
        (fewest-lt fs.gd _ g.gcount (g.gcount - r % g.gcount) (r % g.gcount) _ (omega arith) low)
  dirpref-lt false r =
      elim (Option-cases (first_around (suits g fs) (ino_to_cg g pip.number) g.gcount)) [
        | inr (c, p) ↦
            rw (p, dirpref)
              ((first_around-some (suits g fs) (ino_to_cg g pip.number) g.gcount c home p).0)
        | inl p ↦
            rw (p, dirpref)
              (or_home
                (first_around (λ cg. leb (avgifree g fs) (fs.gd cg).nifree) (ino_to_cg g pip.number)
                  g.gcount)
                (ino_to_cg g pip.number) g.gcount
                (λ c q.
                  (first_around-some (λ cg. leb (avgifree g fs) (fs.gd cg).nifree)
                    (ino_to_cg g pip.number) g.gcount c home q).0)
                home)
      ]

  -- For a parent that is not the root and lies in a group that there is: if any group has room for
  -- another directory, by the limits on directories, free inodes, free blocks and directories in a
  -- row, then the group that `ext2_dirpref` chooses has.
  pub dirpref-suits :
      (a r : ℕ) → a < g.gcount → suits g fs a ≡ true → suits g fs (dirpref g fs pip false r) ≡ true
  unfolding dirpref
  dirpref-suits a r lt ok =
      elim (Option-cases (first_around (suits g fs) (ino_to_cg g pip.number) g.gcount)) [
        | inr (c, p) ↦
            rw (p, dirpref)
              ((first_around-some (suits g fs) (ino_to_cg g pip.number) g.gcount c home p).1)
        | inl p ↦
            absurd (
              cc (ok, first_around-none (suits g fs) (ino_to_cg g pip.number) g.gcount a home p lt))
      ]
