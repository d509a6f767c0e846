-- ===== src/Truncate/Counted.antt =====
-- The blocks that a truncation releases are those that it counts.
use ext2fs.Base.{
  ℕ, zero, suc, ◌+◌, ◌-◌, ◌*◌, ◌/◌, ◌≡◌, Bool, true, false, Option, none, some, List, [], ◌∷◌, ◌++◌,
  ◌==◌, if◌then◌else◌, length, get_or, drop, arith,
}
use ext2fs.Truncate.{
  sign32, direct_blocks, Cut, nothing, and_then, release, sweep, zero_from, put_table, keep,
  partial, cut_table, or_failed, indirtrunc, level_step, release_past,
}
use ext2fs.Truncate.Call.{File, Calls}

length-append : (xs ys : List ℕ) → length (xs ++ ys) ≡ length xs + length ys
length-append [] ys = omega arith
length-append (x ∷ xs) ys = let h = length-append xs ys in omega arith

module _ (nindir nblocks : ℕ) (read : ℕ → Option (List ℕ)) (writes : ℕ → Bool) where
  -- Every block that is released is counted.
  abbrev pub Counted : Cut → Type 0
  Counted c = c.count ≡ length c.freed * nblocks

  and_then-Counted : (a b : Cut) → Counted a → Counted b → Counted (and_then a b)
  and_then-Counted a b p q =
      let l = length-append a.freed b.freed in
      let d : (length a.freed + length b.freed) * nblocks
          ≡ length a.freed * nblocks + length b.freed * nblocks =
        omega arith in
      rw l (omega arith)

  release-Counted : (nb : ℕ) → Counted (release nindir nblocks read writes nb)
  release-Counted nb = omega arith

  if-Counted : (t : Bool) (a b : Cut) → Counted a → Counted b → Counted (if t then a else b)
  if-Counted true a b p q = p
  if-Counted false a b p q = q

  sweep-Counted :
      (below : ℕ → Cut) (xs : List ℕ)
      → ((nb : ℕ) → Counted (below nb))
      → Counted (sweep nindir nblocks read writes below xs)
  sweep-Counted below [] h = omega arith
  sweep-Counted below (nb ∷ rest) h =
      let one = and_then (below nb) (release nindir nblocks read writes nb) in
      and_then-Counted (sweep nindir nblocks read writes below rest)
        (if nb == 0 then nothing else one) (sweep-Counted below rest h)
        (if-Counted (nb == 0) nothing one (omega arith) (
          and_then-Counted (below nb) (release nindir nblocks read writes nb) (h nb)
            (release-Counted nb)))

  partial-Counted :
      (below : ℕ → Option ℕ → Cut) (level : ℕ) (table : List ℕ) (last : Option ℕ)
      → ((nb : ℕ) (l : Option ℕ) → Counted (below nb l))
      → Counted (partial nindir nblocks read writes below level table last)
  partial-Counted below level table none h = omega arith
  partial-Counted below level table (some last) h =
      if-Counted _ nothing (below _ _) (omega arith) (h _ _)

  cut_table-Counted :
      (below : ℕ → Option ℕ → Cut) (level bn : ℕ) (last : Option ℕ) (table : List ℕ)
      → ((nb : ℕ) (l : Option ℕ) → Counted (below nb l))
      → Counted (cut_table nindir nblocks read writes below level bn last table)
  cut_table-Counted below level bn last table h =
      let k = keep nindir nblocks read writes level last in
      let swept = sweep nindir nblocks read writes (λ nb. below nb none) (drop k table) in
      let rest = partial nindir nblocks read writes below level table last in
      and_then-Counted (put_table nindir nblocks read writes bn (zero_from k table))
        (and_then swept rest) (omega arith)
        (and_then-Counted swept rest
          (sweep-Counted (λ nb. below nb none) (drop k table) (λ nb. h nb none))
          (partial-Counted below level table last h))

  or_failed-Counted :
      (f : List ℕ → Cut) (o : Option (List ℕ))
      → ((table : List ℕ) → Counted (f table))
      → Counted (or_failed nindir nblocks read writes f o)
  or_failed-Counted f none h = omega arith
  or_failed-Counted f (some table) h = h table

  indirtrunc-Counted :
      (level bn : ℕ) (last : Option ℕ)
      → Counted (indirtrunc nindir nblocks read writes level bn last)
  unfolding indirtrunc
  indirtrunc-Counted zero bn last =
      or_failed-Counted _ (read bn)
        (λ table. cut_table-Counted (λ nb l. nothing) 0 bn last table (λ nb l. omega arith))
  indirtrunc-Counted (suc level) bn last = or_failed-Counted _ (read bn) (λ table.
      cut_table-Counted (indirtrunc nindir nblocks read writes level) (suc level) bn last table
        (indirtrunc-Counted level))

  level_step-Counted :
      (level ptr : ℕ) (last : Option ℕ) (later : Cut)
      → Counted later
      → Counted (level_step nindir nblocks read writes level ptr last later)
  level_step-Counted level ptr none later h =
      let bn = sign32 ptr in
      let whole =
        and_then (indirtrunc nindir nblocks read writes level bn none)
          (release nindir nblocks read writes bn) in
      and_then-Counted (if bn == 0 then nothing else whole) later
        (if-Counted (bn == 0) nothing whole (omega arith) (
          and_then-Counted (indirtrunc nindir nblocks read writes level bn none)
            (release nindir nblocks read writes bn) (indirtrunc-Counted level bn none)
            (release-Counted bn)))
        h
  level_step-Counted level ptr (some last) later h =
      let bn = sign32 ptr in
      if-Counted (bn == 0) nothing (indirtrunc nindir nblocks read writes level bn (some last))
        (omega arith) (indirtrunc-Counted level bn (some last))

  direct-Counted : (xs : List ℕ) → Counted (direct_blocks nblocks xs)
  unfolding direct_blocks
  direct-Counted [] = omega arith
  direct-Counted (x ∷ xs) =
      let one : Cut = record {
        freed = sign32 x ∷ [];
        written = [];
        count = nblocks;
        failed = false;
      } in
      and_then-Counted (direct_blocks nblocks xs) (if sign32 x == 0 then nothing else one)
        (direct-Counted xs) (if-Counted (sign32 x == 0) nothing one (omega arith) (omega arith))

  pub release_past-Counted :
      (kept : ℕ) (db ib : List ℕ)
      → Counted (release_past nindir nblocks read writes nblocks kept db ib)
  unfolding release_past
  release_past-Counted kept db ib = level_step-Counted 2 (get_or ib 2 0) _ _ (
      level_step-Counted 1 (get_or ib 1 0) _ _
        (level_step-Counted 0 (get_or ib 0 0) _ _ (direct-Counted (drop kept db))))

module _ (bsize maxfilesize nindir nblocks dblocks : ℕ) (read : ℕ → Option (List ℕ))
    (writes : ℕ → Bool) (calls : Calls) (size : ℕ) (f : File) where
  abbrev pub kept_blocks : ℕ
  kept_blocks = (size + bsize - 1) / bsize

  abbrev pub released : Cut
  released = release_past nindir nblocks read writes dblocks kept_blocks f.db f.ib
