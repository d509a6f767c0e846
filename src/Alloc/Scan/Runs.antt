-- ===== src/Alloc/Scan/Runs.antt =====
-- What the run search of `ext2_alloccg` returns is a run of clear bits.
use ext2fs.Base.{
  ℕ, zero, suc, ◌+◌, ◌-◌, ◌*◌, ◌/◌, ◌%◌, ◌≤◌, ◌<◌, ◌≡◌, ◌≢◌, refl, ◌∙◌, ap, inl, inr, true, false,
  none, some, List, arith, leb, ◌==◌, if◌then◌else◌, get_or, Bool-cases, eq-cases, lt-cases,
  All-get_or,
}
use ext2fs.Base.Bits.{bit_of, IsByte, IsMap, isset}
use ext2fs.Geometry.{nbby}
use ext2fs.Alloc.Scan.{fls, ffs, memcchr, Scanned, gotit, run, new_run, scan_byte, find_run}
use ext2fs.Alloc.Scan.Byte.{fls_lem, fls_clear, ffs_lem, ffs_clear}

-- Every bit from `a` up to `b` is clear.
abbrev pub ClearRun : List ℕ → ℕ → ℕ → Type 0
ClearRun map a b = (i : ℕ) → a ≤ i → i < b → isset map i ≡ false

pub isset_in_byte :
    (map : List ℕ) (loc j : ℕ) → j < 8 → isset map (loc * 8 + j) ≡ bit_of (get_or map loc 0) j
unfolding isset
isset_in_byte map loc j h =
    let d : (loc * 8 + j) / 8 ≡ loc = omega arith in
    let m : (loc * 8 + j) % 8 ≡ j = omega arith in cc (d, m)

pub fls-zero : fls 0 ≡ 0
unfolding fls
fls-zero = refl

module _ (map : List ℕ) (w : IsMap map) where
  pub byte : (loc : ℕ) → get_or map loc 0 < 256
  byte loc = All-get_or IsByte map loc 0 w (omega arith)

  -- The bits of a byte that the run search calls clear are clear.
  clear_bits :
      (loc a b : ℕ)
      → ((j : ℕ) → j < 8 → a ≤ j → j < b → bit_of (get_or map loc 0) j ≡ false)
      → b ≤ 8
      → ClearRun map (loc * 8 + a) (loc * 8 + b)
  clear_bits loc a b clear le i ai ib =
      let e : i ≡ loc * 8 + (i - loc * 8) = omega arith in
      rw e (
        isset_in_byte map loc (i - loc * 8) (omega arith)
        ∙ clear (i - loc * 8) (omega arith) (omega arith) (omega arith))

  upper : (loc : ℕ) → ClearRun map (loc * 8 + fls (get_or map loc 0)) (loc * 8 + 8)
  upper loc =
      clear_bits loc (fls (get_or map loc 0)) 8
        (λ j h a b. fls_clear (get_or map loc 0) j (byte loc) h a) (omega arith)

  lower :
      (loc : ℕ)
      → get_or map loc 0 ≢ 0
      → ClearRun map (loc * 8) (loc * 8 + (ffs (get_or map loc 0) - 1))
  lower loc ne i ai ib =
      clear_bits loc 0 (ffs (get_or map loc 0) - 1)
        (λ j h a b. ffs_clear (get_or map loc 0) j (byte loc) ne (omega arith))
        (omega (arith, ffs_lem (get_or map loc 0) (byte loc) ne)) i (omega arith) ib

  -- Two adjacent runs make one.
  join : (a b c : ℕ) → ClearRun map a b → ClearRun map b c → ClearRun map a c
  join a b c p q i ai ic = elim (lt-cases i b) [ inl l ↦ p i ai l | inr ge ↦ q i ge ic ]

  -- The state of the search before byte `loc`.
  pub record IsRun (loc len start : ℕ) : Type 0 where
    pub ends : 0 < len → start + len ≡ loc * 8
    pub clear : ClearRun map start (start + len)

  abbrev Outcome : ℕ → Scanned → Type 0
  Outcome loc (gotit bno) = ClearRun map bno (bno + 8) × (bno + 8 ≤ suc loc * 8)
  Outcome loc (run len start) = IsRun (suc loc) len start

  pub no-IsRun : (loc start : ℕ) → IsRun loc 0 start
  no-IsRun loc start = record { ends = omega arith; clear = λ i a b. absurd (omega arith) }

  new_run_lem : (loc : ℕ) → Outcome loc (new_run loc (get_or map loc 0))
  new_run_lem loc = elim (Bool-cases (leb 8 (nbby - fls (get_or map loc 0)))) [
    | inl t ↦ rw t (λ i a b. upper loc i a (ground arith), ground arith)
    | inr f ↦ rw f (record {
      ends = omega (arith, fls_lem (get_or map loc 0) (byte loc));
      clear = λ i a b. upper loc i a (omega (arith, fls_lem (get_or map loc 0) (byte loc)));
    })
  ]

  free_byte : (loc : ℕ) → get_or map loc 0 ≡ 0 → ClearRun map (loc * 8) (loc * 8 + 8)
  free_byte loc e i a b = upper loc i (omega (arith, ap fls e, fls-zero)) b

  whole_byte :
      (loc len start : ℕ)
      → IsRun loc len start
      → 0 < len
      → get_or map loc 0 ≡ 0
      → Outcome loc (if leb 8 (len + nbby) then gotit start else run (len + nbby) start)
  whole_byte loc len start inv pos e =
      let all =
        join start (loc * 8) (loc * 8 + 8) (λ i a b. inv.clear i a (omega (arith, inv.ends pos)))
          (free_byte loc e) in
      let t : leb 8 (len + nbby) ≡ true = ground arith in
      rw t (λ i a b. all i a (omega (arith, inv.ends pos)), omega (arith, inv.ends pos))

  part_byte :
      (loc len start : ℕ)
      → IsRun loc len start
      → 0 < len
      → get_or map loc 0 ≢ 0
      → Outcome loc (
          if leb 8 (len + (ffs (get_or map loc 0) - 1))
          then gotit start
          else new_run loc (get_or map loc 0))
  part_byte loc len start inv pos ne =
      elim (Bool-cases (leb 8 (len + (ffs (get_or map loc 0) - 1)))) [
        | inl t ↦ rw t (
          (λ i a b. all i a (ground arith)),
          ground (arith, inv.ends pos, ffs_lem (get_or map loc 0) (byte loc) ne),
        )
        | inr f ↦ rw f (new_run_lem loc)
      ]
    where
      all : ClearRun map start (start + (len + (ffs (get_or map loc 0) - 1)))
      all = λ i a b.
          join start (loc * 8) (loc * 8 + (ffs (get_or map loc 0) - 1))
            (λ j c d. inv.clear j c (omega (arith, inv.ends pos))) (lower loc ne) i a
            (omega (arith, inv.ends pos))

  scan_byte_lem :
      (loc len start : ℕ)
      → IsRun loc len start
      → Outcome loc (scan_byte loc (get_or map loc 0) len start)
  unfolding scan_byte
  scan_byte_lem loc len start inv = elim (Bool-cases (get_or map loc 0 == 0xff)) [
    | inl t ↦ rw t (no-IsRun (suc loc) start)
    | inr f ↦ rw f (elim (Bool-cases (len == 0)) [
      | inl z ↦ rw z (new_run_lem loc)
      | inr nz ↦ rw nz (elim (Bool-cases (get_or map loc 0 == 0)) [
        | inl e ↦ rw e (whole_byte loc len start inv (ground arith) (ground arith))
        | inr ne ↦ rw ne (part_byte loc len start inv (ground arith) (ground arith))
      ])
    ])
  ]

  pub find_run_lem :
      (n loc len start bno : ℕ)
      → IsRun loc len start
      → find_run map n loc len start ≡ some bno
      → ClearRun map bno (bno + 8) × (bno + 8 ≤ (loc + n) * 8)
  unfolding find_run
  find_run_lem zero loc len start bno inv e = cc
  find_run_lem (suc n) loc len start bno inv e =
      go (find_run_lem n (loc + 1)) (scan_byte loc (get_or map loc 0) len start)
        (scan_byte_lem loc len start inv) e
    where
      go :
          ((len start bno : ℕ)
            → IsRun (loc + 1) len start
            → find_run map n (loc + 1) len start ≡ some bno
            → ClearRun map bno (bno + 8) × (bno + 8 ≤ (loc + 1 + n) * 8))
          → (s : Scanned) → Outcome loc s
          → (elim s [ gotit b ↦ some b | run len' start' ↦ find_run map n (loc + 1) len' start' ])
            ≡ some bno
          → ClearRun map bno (bno + 8) × (bno + 8 ≤ (loc + suc n) * 8)
      go ih (gotit b) o p = let q : b ≡ bno = cc in rw (← q) (o.0, omega (arith, o.1))
      go ih (run len' start') o p =
          let (clear, le) =
            ih len' start' bno (record { ends = λ h. omega (arith, o.ends h); clear = o.clear })
              p in
          (clear, omega arith)

  -- What the search for eight clear bits in a row returns is the first of eight clear bits, none
  -- of them outside the `n` bytes from byte `loc` on that were searched.
  pub find_run_clear :
      (n loc bno i : ℕ)
      → find_run map n loc 0 0 ≡ some bno
      → bno ≤ i
      → i < bno + 8
      → (isset map i ≡ false) × (i < (loc + n) * 8)
  find_run_clear n loc bno i e from to =
      let (clear, le) = find_run_lem n loc 0 0 bno (no-IsRun loc 0) e in
      (clear i from to, omega arith)

-- The first byte that differs from `c` among those searched.
pub memcchr-some :
    (map : List ℕ) (n s c loc : ℕ)
    → memcchr map s c n ≡ some loc
    → (s ≤ loc) × (loc < s + n) × (get_or map loc 0 ≢ c)
unfolding memcchr
memcchr-some map zero s c loc e = cc
memcchr-some map (suc n) s c loc e = ground (arith, memcchr-some map n (s + 1) c loc)

pub memcchr-none :
    (map : List ℕ) (n s c : ℕ)
    → memcchr map s c n ≡ none
    → (loc : ℕ) → s ≤ loc
    → loc < s + n
    → get_or map loc 0 ≡ c
unfolding memcchr
memcchr-none map zero s c e loc a b = absurd (omega arith)
memcchr-none map (suc n) s c e loc a b = elim (eq-cases s loc) [
  | inl q ↦ ground arith
  | inr ne ↦ memcchr-none map n (s + 1) c (ground arith) loc (omega arith) (omega arith)
]
