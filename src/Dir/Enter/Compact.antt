-- ===== src/Dir/Enter/Compact.antt =====
-- The compaction by `ext2_direnter`: it keeps the entries in use and the size of the block.
use ext2fs.Base.{
  ℕ, ◌+◌, ◌-◌, ◌%◌, ◌^◌, ◌≤◌, ◌<◌, ◌≡◌, ◌≢◌, inl, inr, refl, ap, true, false, List, [], ◌∷◌, ◌++◌,
  Bool-cases, ltb, ◌==◌, if◌then◌else◌, All, arith,
}
use mathlib.Core.List.{append-nil}
use ext2fs.Dir.{Entry, needs}
use ext2fs.Dir.Chain.{spare, span, room, live, Holds, Holds-pos, All-left}
use ext2fs.Dir.Enter.{Entered, entered, on_entered, put_entry, compact, enter_block}

-- The change leaves, before `post`, the entries of `old` in use and `new` behind them, in `total`
-- bytes and each with room for its name.
abbrev pub Adds : Entry → List Entry → ℕ → List Entry → Entered → Type 0
Adds new old total post out =
    (es : List Entry) × (out ≡ entered (es ++ post))
    × (live es ≡ live old ++ ((new.ino, new.ftype, new.name) ∷ []))
    × (span es ≡ total)
    × All Holds es

module _ (new : Entry) (used : (new.ino == 0) ≡ false) where
  put_entry-Adds :
      (ep : Entry) (spacefree total : ℕ)
      → total ≡ spacefree + needs ep
      → total < 2 ^ 16
      → needs new ≤ spacefree + (if ep.ino == 0 then needs ep else 0)
      → Adds new (ep ∷ []) total [] (put_entry new ep spacefree)
  unfolding put_entry
  put_entry-Adds ep spacefree total t small fits = elim (Bool-cases (ep.ino == 0)) [
    | inl f ↦
        let fits' : needs new ≤ spacefree + needs ep = rw f at fits in
        let enough : ltb (spacefree + needs ep) (needs new) ≡ false = ground arith in
        let whole : (spacefree + needs ep) % 2 ^ 16 ≡ total = omega arith in
        rw (f, enough, whole)
          (record new { reclen = total } ∷ [], refl, rw used refl, omega arith, (omega arith, tt))
    | inr u ↦
        let fits' : needs new ≤ spacefree + 0 = rw u at fits in
        let enough : ltb spacefree (needs new) ≡ false = ground arith in
        let whole : spacefree % 2 ^ 16 ≡ spacefree = omega arith in
        rw (u, enough, whole)
          (
            record ep { reclen = needs ep } ∷ record new { reclen = spacefree } ∷ [],
            refl,
            rw (u, used) refl,
            omega arith,
            (omega arith, (omega arith, tt)),
          )
  ]

  Adds-behind :
      (old post : List Entry) (total : ℕ) (out : Entered)
      → Adds new old total [] out
      → Adds new old total post (on_entered (λ es. es ++ post) out)
  Adds-behind old post total out (es, e, l, s, h) =
      (es, rw e (ap (λ xs. entered (xs ++ post)) (append-nil es)), l, s, h)

  Adds-kept :
      (ep : Entry) (old post : List Entry) (total : ℕ) (out : Entered)
      → (ep.ino == 0) ≡ false
      → Adds new old total post out
      → Adds new
          (ep ∷ old)
          (needs ep + total)
          post
          (on_entered (λ es. record ep { reclen = needs ep } ∷ es) out)
  Adds-kept ep old post total out u (es, e, l, s, h) = (
    record ep { reclen = needs ep } ∷ es,
    rw e refl,
    rw (u, l) refl,
    omega arith,
    (omega arith, h),
  )

  -- `mid` is the rest of the room that the search reported.
  compact-Adds :
      (ep : Entry) (mid post : List Entry) (count spacefree loc total : ℕ)
      → loc + span mid ≡ count
      → All Holds mid
      → total ≡ spacefree + needs ep + span mid
      → total < 2 ^ 16
      → needs new ≤ spacefree + (if ep.ino == 0 then needs ep else 0) + room mid
      → Adds new (ep ∷ mid) total post (compact new count ep spacefree loc (mid ++ post))
  unfolding compact
  compact-Adds ep [] [] count spacefree loc total end holds t small fits =
      let stop : ltb loc count ≡ false = ground arith in
      rw stop (put_entry-Adds ep spacefree total (omega arith) small (omega arith))
  compact-Adds ep [] (p ∷ ps) count spacefree loc total end holds t small fits =
      let stop : ltb loc count ≡ false = ground arith in
      rw stop (
        Adds-behind (ep ∷ []) (p ∷ ps) total _
          (put_entry-Adds ep spacefree total (omega arith) small (omega arith)))
  compact-Adds ep (nep ∷ mid) post count spacefree loc total end holds t small fits =
      let pos = Holds-pos nep holds.0 in
      let go : ltb loc count ≡ true = ground arith in
      let own : spare nep ≡ nep.reclen - needs nep + (if nep.ino == 0 then needs nep else 0) =
        ground arith in
      let ih = compact-Adds nep mid post count in
      elim (Bool-cases (ep.ino == 0)) [
        | inl f ↦
            let fits' : needs new ≤ spacefree + needs ep + (spare nep + room mid) = rw f at fits in
            rw (go, f)
              (ih (spacefree + needs ep + (nep.reclen - needs nep)) (loc + nep.reclen) total
                (omega arith) holds.1 (omega arith) small (omega arith))
        | inr u ↦
            let fits' : needs new ≤ spacefree + 0 + (spare nep + room mid) = rw u at fits in
            let it = Adds-kept ep (nep ∷ mid) post (total - needs ep) _ u (
              ih (spacefree + 0 + (nep.reclen - needs nep)) (loc + nep.reclen) (total - needs ep)
                (omega arith) holds.1 (omega arith) (omega arith) (omega arith)) in
            let whole : needs ep + (total - needs ep) ≡ total = omega arith in
            rw (go, u) (rw (whole, u) at it)
      ]

  pub enter_block-Adds :
      (pre region post : List Entry)
      → All Holds (pre ++ (region ++ post))
      → region ≢ []
      → span region < 2 ^ 16
      → needs new ≤ room region
      → (es : List Entry) × (enter_block new (span region) (span pre) (pre ++ (region ++ post))
          ≡ entered (pre ++ (es ++ post)))
        × (live es ≡ live region ++ ((new.ino, new.ftype, new.name) ∷ []))
        × (span es ≡ span region)
        × All Holds es
  unfolding enter_block
  enter_block-Adds [] [] post holds some_entry small fits = absurd (some_entry refl)
  enter_block-Adds [] (ep ∷ mid) post holds some_entry small fits =
      let own : spare ep ≡ ep.reclen - needs ep + (if ep.ino == 0 then needs ep else 0) =
        let h = holds.0 in ground arith in
      let h = holds.0 in
      compact-Adds ep mid post (span (ep ∷ mid)) (ep.reclen - needs ep) ep.reclen (span (ep ∷ mid))
        refl (All-left Holds mid post holds.1) (omega arith) small (omega arith)
  enter_block-Adds (x ∷ xs) region post holds some_entry small fits =
      let pos = Holds-pos x holds.0 in
      let (es, e, l, s, h) = enter_block-Adds xs region post holds.1 some_entry small fits in
      let off : x.reclen + span xs - x.reclen ≡ span xs = omega arith in
      let a : (x.reclen + span xs == 0) ≡ false = ground arith in
      let b : ltb (x.reclen + span xs) x.reclen ≡ false = ground arith in
      (es, rw (a, b, off, e) refl, l, s, h)
