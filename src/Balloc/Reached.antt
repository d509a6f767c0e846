-- ===== src/Balloc/Reached.antt =====
-- A walk of `ext2_balloc` through the blocks of pointers ends at the block that the pointers then lead to.
use ext2fs.Base.{
  ℕ, zero, suc, ◌+◌, ◌≤◌, ◌<◌, ◌≡◌, ◌≢◌, refl, sym, subst, ap, ◌∙◌, inl, inr, Bool, true, false,
  Option, none, some, List, [], ◌∷◌, Bool-cases, ltb, ◌==◌, length, get_or, set, replicate,
  get_or-set_self, All, arith,
}
use mathlib.Core.Option.{some-injective, none-ne-some}
use ext2fs.Base.Int.{pos}
use ext2fs.Bmap.{ndaddr, Indir, getlbns}
use ext2fs.Balloc.{
  State, Got, got, Device, next_of, rest_of_supply, put_pointer, clear_table, taken, data_block,
  fetch, first_table, offsets, sequential, balloc,
}

-- The block that a path of offsets leads to.
abbrev pub follow : (ℕ → List ℕ) → ℕ → List ℕ → ℕ → ℕ
follow table o [] b = get_or (table b) o 0
follow table o (o' ∷ os) b = follow table o' os (get_or (table b) o 0)

-- The first `k` calls of `ext2_alloc` give a block.
abbrev pub Enough : ℕ → List (Option ℕ) → Type 0
Enough zero sup = Unit
Enough (suc k) [] = ⊥
Enough (suc k) (none ∷ sup) = ⊥
Enough (suc k) (some x ∷ sup) = Enough k sup

-- A block is not among those to be allocated.
abbrev pub Avoids : ℕ → List (Option ℕ) → Type 0
Avoids x [] = Unit
Avoids x (none ∷ sup) = Avoids x sup
Avoids x (some y ∷ sup) = (x ≢ y) × Avoids x sup

-- The blocks to be allocated differ, and none is 0.
abbrev pub Distinct : List (Option ℕ) → Type 0
Distinct [] = Unit
Distinct (none ∷ sup) = Distinct sup
Distinct (some x ∷ sup) = (x ≢ 0) × Avoids x sup × Distinct sup

Enough-next :
    (k : ℕ) (sup : List (Option ℕ))
    → Enough (suc k) sup
    → (new : ℕ) × (next_of sup ≡ some new) × Enough k (rest_of_supply sup)
Enough-next k [] h = absurd h
Enough-next k (none ∷ sup) h = absurd h
Enough-next k (some x ∷ sup) h = (x, refl, h)

Distinct-next :
    (new : ℕ) (sup : List (Option ℕ))
    → next_of sup ≡ some new
    → Distinct sup
    → (new ≢ 0) × Avoids new (rest_of_supply sup) × Distinct (rest_of_supply sup)
Distinct-next new [] e d = absurd (none-ne-some new e)
Distinct-next new (none ∷ sup) e d = absurd (none-ne-some new e)
Distinct-next new (some x ∷ sup) e d = rw (some-injective x new e) at d

Avoids-next :
    (x new : ℕ) (sup : List (Option ℕ))
    → next_of sup ≡ some new
    → Avoids x sup
    → (x ≢ new) × Avoids x (rest_of_supply sup)
Avoids-next x new [] e d = absurd (none-ne-some new e)
Avoids-next x new (none ∷ sup) e d = absurd (none-ne-some new e)
Avoids-next x new (some y ∷ sup) e d = rw (some-injective y new e) at d

-- A block is not one of the blocks of pointers on a path.
abbrev pub NotOn : ℕ → (ℕ → List ℕ) → ℕ → List ℕ → ℕ → Type 0
NotOn x table o [] b = x ≢ b
NotOn x table o (o' ∷ os) b =
    (x ≢ b) × (get_or (table b) o 0 ≢ 0 → NotOn x table o' os (get_or (table b) o 0))

-- No block of pointers stands twice on a path or is about to be allocated, and the offsets are within
-- their blocks.
abbrev pub Apart : (ℕ → List ℕ) → List (Option ℕ) → ℕ → List ℕ → ℕ → Type 0
Apart table sup o [] b = o < length (table b)
Apart table sup o (o' ∷ os) b =
    (o < length (table b))
    × Avoids b sup
    × (get_or (table b) o 0 ≢ 0
        → NotOn b table o' os (get_or (table b) o 0) × Apart table sup o' os (get_or (table b) o 0))

module _ (bsize nindir : ℕ) (dev : Device) (clear : Bool) (ask : ℕ)
    (reads : (x : ℕ) → dev.reads x ≡ true) (gets : (x : ℕ) → dev.gets x ≡ true)
    (writes : (x : ℕ) → dev.writes x ≡ true) (data_reads : dev.data_reads ≡ true)
    (data_gets : dev.data_gets ≡ true) where
  -- The walk ends at a block that is not 0, the path then leads there, and no other block of pointers
  -- has changed.
  abbrev pub Reaches : ℕ → ℕ → List ℕ → State → Got → Type 0
  Reaches b o os s out =
      (nb : ℕ) × (s' : State) × (out ≡ got nb s')
      × (nb ≢ 0)
      × (follow s'.table o os b ≡ nb)
      × (s'.ib ≡ s.ib)
      × ((x : ℕ) → NotOn x s.table o os b → Avoids x s.supply → s'.table x ≡ s.table x)

  put_pointer_other :
      (b o nb : ℕ) (table : ℕ → List ℕ) (x : ℕ) → x ≢ b → put_pointer b o nb table x ≡ table x
  put_pointer_other b o nb table x ne = let f : (x == b) ≡ false = ground arith in rw f refl

  put_pointer_self :
      (b o nb : ℕ) (table : ℕ → List ℕ) → put_pointer b o nb table b ≡ set (table b) o nb
  put_pointer_self b o nb table = let t : (b == b) ≡ true = ground arith in rw t refl

  data_block-Reaches :
      (b o : ℕ) (s : State)
      → Enough 1 s.supply
      → Distinct s.supply
      → o < length (s.table b)
      → Reaches b o [] s (data_block bsize nindir dev clear ask b o s)
  data_block-Reaches b o s enough distinct lt = elim (Bool-cases (get_or (s.table b) o 0 == 0)) [
    | inl z ↦
        let (new, e, rest) = Enough-next 0 s.supply enough in
        let (nz, av, d) = Distinct-next new s.supply e distinct in
        rw (z, e, data_gets)
          (
            new,
            record (taken bsize nindir dev clear ask s) { table = put_pointer b o new s.table },
            refl,
            nz,
            rw (put_pointer_self b o new s.table) (get_or-set_self (s.table b) o new 0 lt),
            refl,
            λ x on av'. put_pointer_other b o new s.table x on,
          )
    | inr nz ↦ elim (Bool-cases clear) [
      | inl c ↦
          rw (nz, c, data_reads)
            (get_or (s.table b) o 0, s, refl, ground arith, refl, refl, λ x on av'. refl)
      | inr c ↦
          rw (nz, c, data_gets)
            (get_or (s.table b) o 0, s, refl, ground arith, refl, refl, λ x on av'. refl)
    ]
  ]

  fetch-old :
      (b o o' : ℕ) (os : List ℕ) (s : State)
      → (get_or (s.table b) o 0 == 0) ≡ false
      → fetch bsize nindir dev clear ask b o (o' ∷ os) s
        ≡ fetch bsize nindir dev clear ask (get_or (s.table b) o 0) o' os s
  unfolding fetch
  fetch-old b o o' os s nz = rw (reads b, nz, fetch) refl

  -- The state in which a new block of pointers is linked.
  abbrev linked : ℕ → ℕ → ℕ → State → State
  linked b o new s = record s {
    supply = rest_of_supply s.supply;
    table = put_pointer b o new (clear_table nindir new s.table);
  }

  fetch-new :
      (b o o' new : ℕ) (os : List ℕ) (s : State)
      → (get_or (s.table b) o 0 == 0) ≡ true
      → next_of s.supply ≡ some new
      → fetch bsize nindir dev clear ask b o (o' ∷ os) s
        ≡ fetch bsize nindir dev clear ask new o' os (linked b o new s)
  unfolding fetch
  fetch-new b o o' new os s z e = rw (reads b, z, e, gets new, writes new, fetch) refl

  fetch-last :
      (b o : ℕ) (s : State)
      → fetch bsize nindir dev clear ask b o [] s ≡ data_block bsize nindir dev clear ask b o s
  unfolding fetch
  fetch-last b o s = rw (reads b) refl

  replicate-zero : (n i : ℕ) → get_or (replicate {A = ℕ} n 0) i 0 ≡ 0
  replicate-zero zero i = refl
  replicate-zero (suc n) zero = refl
  replicate-zero (suc n) (suc i) = replicate-zero n i

  length-replicate : (n : ℕ) → length (replicate {A = ℕ} n 0) ≡ n
  length-replicate zero = refl
  length-replicate (suc n) = ap suc (length-replicate n)

  clear_table_self :
      (n b : ℕ) (table : ℕ → List ℕ) → clear_table n b table b ≡ replicate {A = ℕ} n 0
  clear_table_self n b table = let t : (b == b) ≡ true = ground arith in rw t refl

  clear_table_other : (n b x : ℕ) (table : ℕ → List ℕ) → x ≢ b → clear_table n b table x ≡ table x
  clear_table_other n b x table ne = let f : (x == b) ≡ false = ground arith in rw f refl

  -- A block of pointers that holds none leads nowhere.
  NotOn-fresh :
      (x new o : ℕ) (os : List ℕ) (table : ℕ → List ℕ)
      → x ≢ new
      → table new ≡ replicate nindir 0
      → NotOn x table o os new
  NotOn-fresh x new o [] table ne e = ne
  NotOn-fresh x new o (o' ∷ os) table ne e =
      (ne, λ nz. absurd (nz (rw e (replicate-zero nindir o))))

  Apart-fresh :
      (new o : ℕ) (os : List ℕ) (table : ℕ → List ℕ) (sup : List (Option ℕ))
      → Avoids new sup
      → table new ≡ replicate nindir 0
      → o < nindir
      → Apart table sup o os new
  Apart-fresh new o [] table sup av e lt = rw (e, length-replicate nindir) lt
  Apart-fresh new o (o' ∷ os) table sup av e lt =
      (rw (e, length-replicate nindir) lt, av, λ nz. absurd (nz (rw e (replicate-zero nindir o))))

  Enough-less : (k : ℕ) (sup : List (Option ℕ)) → Enough (suc k) sup → Enough k sup
  Enough-less zero sup h = tt
  Enough-less (suc k) [] h = absurd h
  Enough-less (suc k) (none ∷ sup) h = absurd h
  Enough-less (suc k) (some x ∷ sup) h = Enough-less k sup h

  pub fetch-Reaches :
      (b o : ℕ) (os : List ℕ) (s : State)
      → Enough (suc (length os)) s.supply
      → Distinct s.supply
      → Apart s.table s.supply o os b
      → All (λ x. x < nindir) os
      → Reaches b o os s (fetch bsize nindir dev clear ask b o os s)
  fetch-Reaches b o [] s enough distinct apart small =
      rw (fetch-last b o s) (data_block-Reaches b o s enough distinct apart)
  fetch-Reaches b o (o' ∷ os) s enough distinct (lt, avoid, deep) small =
      elim (Bool-cases (get_or (s.table b) o 0 == 0)) [
        | inl z ↦
            let (new, e, rest) = Enough-next (suc (length os)) s.supply enough in
            let (nzn, avn, dn) = Distinct-next new s.supply e distinct in
            let apart_b = Avoids-next b new s.supply e avoid in
            let s1 = linked b o new s in
            let blank : s1.table new ≡ replicate nindir 0 =
              put_pointer_other b o new (clear_table nindir new s.table) new
                (λ h. apart_b.0 (sym h))
              ∙ clear_table_self nindir new s.table in
            let (nb, s', t, nz', f, kept, frame) =
              fetch-Reaches new o' os s1 rest dn
                (Apart-fresh new o' os s1.table s1.supply avn blank small.0) small.1 in
            let held : s'.table b ≡ set (s.table b) o new =
              frame b (NotOn-fresh b new o' os s1.table apart_b.0 blank) apart_b.1
              ∙ put_pointer_self b o new (clear_table nindir new s.table)
              ∙ ap (λ l. set l o new) (clear_table_other nindir new b s.table apart_b.0) in
            let leads : get_or (s'.table b) o 0 ≡ new =
              ap (λ l. get_or l o 0) held ∙ get_or-set_self (s.table b) o new 0 lt in
            (
              nb,
              s',
              fetch-new b o o' new os s z e ∙ t,
              nz',
              subst (λ c. follow s'.table o' os c ≡ nb) (sym leads) f,
              kept,
              λ x on av.
                  let apart_x = Avoids-next x new s.supply e av in
                  frame x (NotOn-fresh x new o' os s1.table apart_x.0 blank) apart_x.1
                  ∙ put_pointer_other b o new (clear_table nindir new s.table) x on.0
                  ∙ clear_table_other nindir new x s.table apart_x.0,
            )
        | inr nz ↦
            let (own, apart) = deep (ground arith) in
            let (nb, s', t, nz', f, kept, frame) =
              fetch-Reaches (get_or (s.table b) o 0) o' os s
                (Enough-less (suc (length os)) s.supply enough) distinct apart small.1 in
            let same = frame b own avoid in
            (
              nb,
              s',
              fetch-old b o o' os s nz ∙ t,
              nz',
              subst (λ t'. follow s'.table o' os (get_or t' o 0) ≡ nb) (sym same) f,
              kept,
              λ x on av. frame x (on.1 (ground arith)) av,
            )
      ]

  -- The file's block `lbn` then has a block, behind the pointer `o` of the inode.
  abbrev pub Leads : ℕ → ℕ → List ℕ → Got → Type 0
  Leads o o' os out =
      (nb : ℕ) × (s' : State) × (out ≡ got nb s')
      × (nb ≢ 0)
      × (follow s'.table o' os (get_or s'.ib o 0) ≡ nb)

  first_table-old :
      (o : ℕ) (on : ℕ → State → Got) (s : State)
      → (get_or s.ib o 0 == 0) ≡ false
      → first_table bsize nindir dev clear ask o on s ≡ on (get_or s.ib o 0) s
  unfolding first_table
  first_table-old o on s nz = rw nz refl

  abbrev first_linked : ℕ → ℕ → State → State
  first_linked o new s = record s {
    ib = set s.ib o new;
    table = clear_table nindir new s.table;
    supply = rest_of_supply s.supply;
    marked = true;
  }

  first_table-new :
      (o : ℕ) (on : ℕ → State → Got) (s : State) (new : ℕ)
      → (get_or s.ib o 0 == 0) ≡ true
      → next_of s.supply ≡ some new
      → first_table bsize nindir dev clear ask o on s ≡ on new (first_linked o new s)
  unfolding first_table
  first_table-new o on s new z e = rw (z, e, gets new, writes new) refl

  first_table-Leads :
      (o o' : ℕ) (os : List ℕ) (s : State)
      → Enough (suc (suc (length os))) s.supply
      → Distinct s.supply
      → o < length s.ib
      → (get_or s.ib o 0 ≢ 0 → Apart s.table s.supply o' os (get_or s.ib o 0))
      → All (λ x. x < nindir) (o' ∷ os)
      → Leads o o' os (
          first_table bsize nindir dev clear ask o
            (λ b s'. fetch bsize nindir dev clear ask b o' os s')
            s)
  first_table-Leads o o' os s enough distinct lt apart small =
      elim (Bool-cases (get_or s.ib o 0 == 0)) [
        | inl z ↦
            let (new, e, rest) = Enough-next (suc (length os)) s.supply enough in
            let (nzn, avn, dn) = Distinct-next new s.supply e distinct in
            let s1 = first_linked o new s in
            let blank = clear_table_self nindir new s.table in
            let (nb, s', t, nz, f, kept, frame) =
              fetch-Reaches new o' os s1 rest dn
                (Apart-fresh new o' os s1.table s1.supply avn blank small.0) small.1 in
            let at : get_or s'.ib o 0 ≡ new =
              ap (λ l. get_or l o 0) kept ∙ get_or-set_self s.ib o new 0 lt in
            (
              nb,
              s',
              first_table-new o _ s new z e ∙ t,
              nz,
              subst (λ b. follow s'.table o' os b ≡ nb) (sym at) f,
            )
        | inr nz ↦
            let (nb, s', t, nzb, f, kept, frame) =
              fetch-Reaches (get_or s.ib o 0) o' os s
                (Enough-less (suc (length os)) s.supply enough) distinct (apart (ground arith))
                small.1 in
            (
              nb,
              s',
              first_table-old o _ s nz ∙ t,
              nzb,
              subst (λ l. follow s'.table o' os (get_or l o 0) ≡ nb) (sym kept) f,
            )
      ]

  balloc-first_table :
      (fsize lbn o o' : ℕ) (os : List ℕ) (path : List Indir) (s : State)
      → ndaddr ≤ lbn
      → getlbns nindir (pos lbn) ≡ some path
      → offsets bsize nindir dev clear ask path ≡ o ∷ o' ∷ os
      → balloc bsize nindir dev clear ask fsize (pos lbn) s
        ≡ first_table bsize nindir dev clear ask o
            (λ b s'. fetch bsize nindir dev clear ask b o' os s')
            (sequential bsize nindir dev clear ask lbn s)
  unfolding balloc
  balloc-first_table fsize lbn o o' os path s le g p =
      let f : ltb lbn ndaddr ≡ false = ground arith in rw (f, g, p, balloc) refl

  -- On a device whose reads and writes succeed and that gives buffers, for a block `lbn` of a file
  -- without extents that is not direct and whose path by `ext2_getlbns` has the offsets `o`, `o'`
  -- and `os`, those behind the first within their blocks of pointers: if as many calls of
  -- `ext2_alloc` as the path has steps give blocks, none of them 0, all different and none a block
  -- of pointers that the path goes through above its last, no such block stands on the path below
  -- itself, and the tables that the path goes through are long enough, then `ext2_balloc` ends
  -- with a block that is not 0, and the path from the inode's pointer `o` then leads to it.
  pub balloc-Leads :
      (fsize lbn o o' : ℕ) (os : List ℕ) (path : List Indir) (s : State)
      → ndaddr ≤ lbn
      → getlbns nindir (pos lbn) ≡ some path
      → offsets bsize nindir dev clear ask path ≡ o ∷ o' ∷ os
      → All (λ x. x < nindir) (o' ∷ os)
      → Enough (suc (suc (length os))) s.supply
      → Distinct s.supply
      → o < length s.ib
      → (get_or s.ib o 0 ≢ 0 → Apart s.table s.supply o' os (get_or s.ib o 0))
      → Leads o o' os (balloc bsize nindir dev clear ask fsize (pos lbn) s)
  balloc-Leads fsize lbn o o' os path s le g p small enough distinct lt apart =
      rw (balloc-first_table fsize lbn o o' os path s le g p)
        (elim (Bool-cases (lbn == s.next_block + 1)) [
          | inl t ↦ rw t (
              first_table-Leads o o' os
                (record s { next_block = s.next_block + 1; next_goal = s.next_goal + 1 }) enough
                distinct lt apart small)
          | inr f ↦ rw f (first_table-Leads o o' os s enough distinct lt apart small)
        ])
