-- ===== src/Alloc/Scan/Found.antt =====
-- What `ext2_mapsearch` and the block search of `ext2_alloccg` return is a free bit of the group,
-- and they fail only on a full map.
use ext2fs.Base.{
  ℕ, ◌+◌, ◌-◌, ◌*◌, ◌/◌, ◌%◌, ◌≤◌, ◌<◌, ◌≡◌, ◌≢◌, refl, ap, ◌∙◌, inl, inr, true, false, not, ◌&&◌,
  Option, none, some, List, arith, ◌==◌, if◌then◌else◌, get_or, leb, Bool-cases, lt-cases,
  Option-cases, subst, sym,
}
use ext2fs.Base.Bits.{
  everywhere, everywhere_at, bit_of, IsMap, isset, isclr, count_clear, count_clear-pos,
}
use ext2fs.Base.Int.{pos}
use ext2fs.Geometry.{Geometry, IsSound, Near, dtog, dtogd, nbby, howmany}
use ext2fs.Alloc.Scan.{
  ffs, not_char, memcchr, clear_bit, search, start_of, find_node, mapsearch, find_run, find_free,
  find_block,
}
use ext2fs.Alloc.Scan.Byte.{ffs_not_lem}
use ext2fs.Alloc.Scan.Runs.{isset_in_byte, byte, find_run_lem, no-IsRun, memcchr-some, memcchr-none}

some_eq : {a b : ℕ} → some a ≡ some b → a ≡ b
some_eq e = cc

none_ne : {a : ℕ} → none ≡ some a → ⊥
none_ne e = cc

ff_table : everywhere 8 (bit_of 0xff) ≡ true
unfolding everywhere
ff_table = refl

all_below_ff : (k : ℕ) → k < 8 → bit_of 0xff k ≡ true
all_below_ff k h = everywhere_at 8 (bit_of 0xff) k ff_table h

-- The bit that `clear_bit` names in a byte that is not full.
clear_bit_lem :
    (map : List ℕ) (loc : ℕ)
    → IsMap map
    → get_or map loc 0 ≢ 0xff
    → (loc * 8 ≤ clear_bit map loc)
      × (clear_bit map loc < loc * 8 + 8)
      × (isset map (clear_bit map loc) ≡ false)
clear_bit_lem map loc w ne =
    let (p, q, c) = ffs_not_lem (get_or map loc 0) (byte map w loc) ne in
    let e : clear_bit map loc ≡ loc * 8 + (ffs (not_char (get_or map loc 0)) - 1) = omega arith in
    (
      omega arith,
      omega arith,
      rw e (isset_in_byte map loc (ffs (not_char (get_or map loc 0)) - 1) (omega arith) ∙ c),
    )

-- A bit among the first `n` that is clear.
abbrev pub IsFree : ℕ → List ℕ → ℕ → Type 0
IsFree n map bno = (bno < n) × (isset map bno ≡ false)

module _ (n : ℕ) (whole : n % 8 ≡ 0) (map : List ℕ) (w : IsMap map) where
  found_at :
      (st len loc : ℕ)
      → (st + len) * 8 ≤ n
      → memcchr map st 0xff len ≡ some loc
      → IsFree n map (clear_bit map loc)
  found_at st len loc h e =
      let (a, b, ne) = memcchr-some map len st 0xff loc e in
      let (c, d, clear) = clear_bit_lem map loc w ne in (omega (arith, whole), clear)

  -- A search of the whole map finds a clear bit of it.
  pub search-IsFree :
      (st len bno : ℕ)
      → (st + len) * 8 ≡ n
      → st * 8 < n
      → search map st len ≡ some bno
      → IsFree n map bno
  unfolding search
  search-IsFree st len bno all lt e = elim (Option-cases (memcchr map st 0xff len)) [
    | inr (loc, p) ↦
        let q : clear_bit map loc ≡ bno = some_eq (rw (p, search) at e) in
        subst (IsFree n map) q (found_at st len loc (omega arith) p)
    | inl p ↦ elim (Option-cases (memcchr map 0 0xff (st + 1))) [
      | inr (loc, p') ↦
          let q : clear_bit map loc ≡ bno = some_eq (rw (p, p', search) at e) in
          subst (IsFree n map) q (found_at 0 (st + 1) loc (omega (arith, whole)) p')
      | inl p' ↦ absurd (none_ne (rw (p, p', search) at e))
    ]
  ]

  full_byte : (i : ℕ) → get_or map (i / 8) 0 ≡ 0xff → isset map i ≡ true
  unfolding isset
  full_byte i e = rw e (all_below_ff (i % 8) (omega arith))

  -- It fails only where every bit is set.
  pub search-full :
      (st len : ℕ)
      → (st + len) * 8 ≡ n
      → search map st len ≡ none
      → (i : ℕ) → i < n
      → isset map i ≡ true
  unfolding search
  search-full st len all e i l = elim (Option-cases (memcchr map st 0xff len)) [
    | inr (loc, p) ↦ absurd (none_ne (sym (rw (p, search) at e)))
    | inl p ↦ elim (Option-cases (memcchr map 0 0xff (st + 1))) [
      | inr (loc, p') ↦ absurd (none_ne (sym (rw (p, p', search) at e)))
      | inl p' ↦ full_byte i (elim (lt-cases (i / 8) st) [
        | inl lt ↦ memcchr-none map (st + 1) 0 0xff p' (i / 8) (omega arith) (omega arith)
        | inr ge ↦ memcchr-none map len st 0xff p (i / 8) ge (omega arith)
      ])
    ]
  ]

module _ (ipg : ℕ) (whole : ipg % 8 ≡ 0) (pos : 0 < ipg) (map : List ℕ) (w : IsMap map) where
  bytes_left : (p : ℕ) → p < ipg → (p / nbby + howmany (ipg - p) nbby) * 8 ≡ ipg
  bytes_left p lt = omega (arith, whole)

  pref_lt : (ipref : ℕ) → (if ipref == 0 then 0 else ipref % ipg) < ipg
  pref_lt ipref = ground (arith, pos)

  -- The bit that `ext2_nodealloccg` chooses in a bitmap of a whole number of bytes is an inode of
  -- the group and is clear.
  pub find_node-IsFree : (ipref i : ℕ) → find_node ipg map ipref ≡ some i → IsFree ipg map i
  unfolding find_node isclr
  find_node-IsFree ipref i e =
      let pref = if ipref == 0 then 0 else ipref % ipg in
      elim (Bool-cases (not (ipref == 0) && not (isset map pref))) [
        | inl t ↦
            let q : pref ≡ i = some_eq (rw t at e) in
            subst (IsFree ipg map) q (pref_lt ipref, ground arith)
        | inr f ↦
            search-IsFree ipg whole map w (pref / nbby) (howmany (ipg - pref) nbby) i
              (bytes_left pref (pref_lt ipref)) (omega (arith, pref_lt ipref)) (rw f at e)
      ]

  -- In a bitmap of a whole number of bytes with a clear bit among the group's inodes,
  -- `ext2_nodealloccg` finds one, whatever inode is preferred: its panic is not reached.
  pub find_node-ne-none : (ipref : ℕ) → 0 < count_clear map ipg → find_node ipg map ipref ≢ none
  unfolding find_node isclr
  find_node-ne-none ipref some_free e =
      let pref = if ipref == 0 then 0 else ipref % ipg in
      let (i, l, c) = count_clear-pos map ipg some_free in
      elim (Bool-cases (not (ipref == 0) && not (isset map pref))) [
        | inl t ↦ absurd (none_ne (sym (rw t at e)))
        | inr f ↦ cc (
            sym c
            ∙ search-full ipg whole map w (pref / nbby) (howmany (ipg - pref) nbby)
                (bytes_left pref (pref_lt ipref)) (rw f at e) i l)
      ]

module _ (g : Geometry) (s : IsSound g) (map : List ℕ) (w : IsMap map) where
  -- The place of a block in its group, and the byte at which a search begins, where nothing is below 0.
  offset : ℕ → ℕ
  offset d = (d - g.first_dblock) % g.bpg

  begin : ℕ → ℕ
  begin bpref = if bpref == 0 then 0 else offset bpref / 8

  dtogd_behind : (d : ℕ) → Near g d → d ≢ 0 → dtogd g d ≡ pos (offset d)
  unfolding dtogd offset
  dtogd_behind d (inl one) nz = let t : leb g.first_dblock d ≡ true = ground arith in rw t refl
  dtogd_behind d (inr z) nz = absurd (nz z)

  start_behind : (bpref : ℕ) → Near g bpref → start_of g bpref ≡ pos (begin bpref)
  unfolding start_of begin
  start_behind bpref near = elim (Bool-cases (bpref == 0)) [
    | inl z ↦ rw (z, start_of) refl
    | inr nz ↦ rw (nz, dtogd_behind bpref near (λ z. ground (arith, z, nz)), start_of) refl
  ]

  offset_lt : (d : ℕ) → offset d < g.fpg
  unfolding offset
  offset_lt d = ground (arith, s.same_group_size, s.fpg_pos)

  begin_lt : (bpref : ℕ) → begin bpref < howmany g.fpg nbby
  unfolding begin
  begin_lt bpref = ground (arith, offset_lt bpref, s.whole_bytes, s.fpg_pos)

  find_run-IsFree :
      (n loc bno : ℕ)
      → loc + n ≤ howmany g.fpg nbby
      → find_run map n loc 0 0 ≡ some bno
      → IsFree g.fpg map bno
  find_run-IsFree n loc bno h e =
      let (clear, le) = find_run_lem map w n loc 0 0 bno (no-IsRun map w loc 0) e in
      (omega (arith, s.whole_bytes), clear bno (omega arith) (omega arith))

  free_search : ℕ → Option ℕ → Option ℕ
  free_search st last = elim (find_run map (howmany g.fpg nbby - st - st) st 0 0) [
    | some bno ↦ some bno
    | none ↦ elim (if st == 0 then none else find_run map st 0 0 0) [
      | some bno ↦ some bno
      | none ↦ last
    ]
  ]

  last_search : ℕ → Option ℕ
  last_search st = search map st (howmany g.fpg nbby - st)

  mapsearch-eq : (bpref : ℕ) → Near g bpref → mapsearch g map bpref ≡ last_search (begin bpref)
  unfolding mapsearch last_search
  mapsearch-eq bpref near = rw (start_behind bpref near, mapsearch) refl

  find_free-eq :
      (bpref : ℕ)
      → Near g bpref
      → find_free g map bpref ≡ free_search (begin bpref) (last_search (begin bpref))
  unfolding find_free free_search
  find_free-eq bpref near =
      let opened : find_free g map bpref ≡ free_search (begin bpref) (mapsearch g map bpref) =
        rw (start_behind bpref near, find_free) refl in
      opened ∙ ap (free_search (begin bpref)) (mapsearch-eq bpref near)

  second-IsFree :
      (st bno : ℕ)
      → st < howmany g.fpg nbby
      → (if st == 0 then none else find_run map st 0 0 0) ≡ some bno
      → IsFree g.fpg map bno
  second-IsFree st bno lt e = elim (Bool-cases (st == 0)) [
    | inl t ↦ absurd (none_ne (rw t at e))
    | inr f ↦ find_run-IsFree st 0 bno (omega arith) (rw f at e)
  ]

  free_search-IsFree :
      (st bno : ℕ)
      → st < howmany g.fpg nbby
      → free_search st (last_search st) ≡ some bno
      → IsFree g.fpg map bno
  unfolding free_search last_search
  free_search-IsFree st bno lt e =
      elim (Option-cases (find_run map (howmany g.fpg nbby - st - st) st 0 0)) [
        | inr (b, p) ↦
            let q : b ≡ bno = some_eq (rw (p, free_search) at e) in
            find_run-IsFree (howmany g.fpg nbby - st - st) st bno (omega arith) (rw q at p)
        | inl p ↦ elim (Option-cases (if st == 0 then none else find_run map st 0 0 0)) [
          | inr (b, p') ↦
              let q : b ≡ bno = some_eq (rw (p, p', free_search) at e) in
              second-IsFree st bno lt (rw q at p')
          | inl p' ↦
              search-IsFree g.fpg s.whole_bytes map w st (howmany g.fpg nbby - st) bno
                (omega (arith, s.whole_bytes)) (omega (arith, s.whole_bytes))
                (rw (p, p', free_search) at e)
        ]
      ]

  free_search-full :
      (st : ℕ)
      → st < howmany g.fpg nbby
      → free_search st (last_search st) ≡ none
      → (i : ℕ) → i < g.fpg
      → isset map i ≡ true
  unfolding free_search last_search
  free_search-full st lt e =
      elim (Option-cases (find_run map (howmany g.fpg nbby - st - st) st 0 0)) [
        | inr (b, p) ↦ absurd (none_ne (sym (rw (p, free_search) at e)))
        | inl p ↦ elim (Option-cases (if st == 0 then none else find_run map st 0 0 0)) [
          | inr (b, p') ↦ absurd (none_ne (sym (rw (p, p', free_search) at e)))
          | inl p' ↦
              search-full g.fpg s.whole_bytes map w st (howmany g.fpg nbby - st)
                (omega (arith, s.whole_bytes)) (rw (p, p', free_search) at e)
        ]
      ]

  find_free-IsFree :
      (bpref bno : ℕ) → Near g bpref → find_free g map bpref ≡ some bno → IsFree g.fpg map bno
  find_free-IsFree bpref bno near e =
      free_search-IsFree (begin bpref) bno (begin_lt bpref) (sym (find_free-eq bpref near) ∙ e)

  find_free-full :
      (bpref : ℕ)
      → Near g bpref
      → find_free g map bpref ≡ none
      → (i : ℕ) → i < g.fpg
      → isset map i ≡ true
  find_free-full bpref near e =
      free_search-full (begin bpref) (begin_lt bpref) (sym (find_free-eq bpref near) ∙ e)

  -- The block that is looked for in group `cg`, and why it is not before the first one.
  abbrev wanted : ℕ → ℕ → ℕ
  wanted cg bpref = if dtog g bpref == cg then bpref else 0

  wanted_lem :
      (cg bpref : ℕ)
      → Near g bpref
      → (wanted cg bpref == 0) ≡ false
      → (g.first_dblock ≤ 1) × (dtogd g (wanted cg bpref) ≡ pos (offset (wanted cg bpref)))
  wanted_lem cg bpref (inl one) nz =
      (one, dtogd_behind (wanted cg bpref) (inl one) (λ z. ground (arith, z, nz)))
  wanted_lem cg bpref (inr z) nz = absurd (ground (arith, z, nz))

  -- The bit that `ext2_alloccg` chooses in a group's bitmap lies in the group and is clear.
  pub find_block-IsFree :
      (cg bpref bno : ℕ)
      → Near g bpref
      → find_block g map cg bpref ≡ some bno
      → IsFree g.fpg map bno
  unfolding find_block isclr
  find_block-IsFree cg bpref bno near e =
      let pref = wanted cg bpref in
      elim (Bool-cases (pref == 0)) [
        | inl z ↦ find_free-IsFree 0 bno (inr refl) (rw z at e)
        | inr nz ↦
            let (one, at) = wanted_lem cg bpref near nz in
            elim (Bool-cases (isset map (offset pref))) [
              | inl t ↦ find_free-IsFree (offset pref) bno (inl one) (rw (nz, at, t) at e)
              | inr c ↦
                  let q : offset pref ≡ bno = some_eq (rw (nz, at, c) at e) in
                  subst (IsFree g.fpg map) q (offset_lt pref, c)
            ]
      ]

  -- In a bitmap with a clear bit among those of the group, `ext2_alloccg` finds one, whatever
  -- block is preferred.
  pub find_block-ne-none :
      (cg bpref : ℕ) → Near g bpref → 0 < count_clear map g.fpg → find_block g map cg bpref ≢ none
  unfolding find_block isclr
  find_block-ne-none cg bpref near some_free e =
      let pref = wanted cg bpref in
      let (i, l, c) = count_clear-pos map g.fpg some_free in
      elim (Bool-cases (pref == 0)) [
        | inl z ↦ cc (sym c ∙ find_free-full 0 (inr refl) (rw z at e) i l)
        | inr nz ↦
            let (one, at) = wanted_lem cg bpref near nz in
            elim (Bool-cases (isset map (offset pref))) [
              | inl t ↦
                  cc (sym c ∙ find_free-full (offset pref) (inl one) (rw (nz, at, t) at e) i l)
              | inr f ↦ absurd (none_ne (sym (rw (nz, at, f) at e)))
            ]
      ]
