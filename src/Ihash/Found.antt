-- ===== src/Ihash/Found.antt =====
-- What a lookup of the inode hash finds.
use ext2fs.Base.{
  ℕ, zero, suc, ◌+◌, ◌*◌, ◌/◌, ◌^◌, ◌≡◌, ◌≢◌, ◌<◌, ◌≤◌, ◌⊎◌, refl, sym, ◌∙◌, inl, inr, Bool, true,
  false, Option, none, some, List, [], ◌∷◌, ltb, leb, ◌==◌, if◌then◌else◌, ◌&&◌, arith, Bool-cases,
  Option-cases, eq-cases,
}
use ext2fs.Ihash.{Hashed, Ihash, double, hash_size, walk, resident, attempt, without}

abbrev pub IsKey : Hashed → ℕ → ℕ → Type 0
IsKey h ump ino = (h.i_number ≡ ino) × (h.i_ump ≡ ump)

-- How often a chain holds `ip`.
abbrev pub times : ℕ → List ℕ → ℕ
times ip [] = 0
times ip (x ∷ rest) = if x == ip then suc (times ip rest) else times ip rest

double_lem :
    (k nelem h : ℕ)
    → 0 < h
    → h ≤ 2 * nelem
    → nelem < h + k
    → (nelem < double k nelem h) × (double k nelem h ≤ 2 * nelem)
unfolding double
double_lem zero nelem h pos le fuel = (omega arith, le)
double_lem (suc k) nelem h pos le fuel = elim (Bool-cases (leb h nelem)) [
  | inl t ↦ rw t (double_lem k nelem (h * 2) (omega arith) (ground arith) (omega arith))
  | inr f ↦ rw f (ground arith, le)
]

double_pow : (k nelem h : ℕ) → (e : ℕ) → h ≡ 2 ^ e → (e' : ℕ) × (double k nelem h ≡ 2 ^ e')
unfolding double
double_pow zero nelem h e p = (e, p)
double_pow (suc k) nelem h e p = elim (Bool-cases (leb h nelem)) [
  | inl t ↦ rw t (double_pow k nelem (h * 2) (suc e) (ground (arith, p)))
  | inr f ↦ rw f (e, p)
]

half_pow : (d e : ℕ) → d ≡ 2 ^ e → 1 < d → (e' : ℕ) × (d / 2 ≡ 2 ^ e') × (d ≡ 2 * (d / 2))
half_pow d zero p big = absurd (omega arith)
half_pow d (suc e) p big = (e, omega (arith, p), omega (arith, p))

-- The number of chains of the inode hash is a power of two, the greatest up to the number of
-- vnodes, or up to 64 when there are fewer.
pub hash_size_lem :
    (desired nelem : ℕ)
    → nelem ≡ (if ltb desired 64 then 64 else desired)
    → (hash_size desired ≤ nelem)
      × (nelem < 2 * hash_size desired)
      × ((e : ℕ) × (hash_size desired ≡ 2 ^ e))
unfolding hash_size
hash_size_lem desired nelem p =
    let most : 64 ≤ nelem = ground arith in
    let (above, below) = double_lem (nelem + 1) nelem 1 (omega arith) (omega arith) (omega arith) in
    let (e, q) = double_pow (nelem + 1) nelem 1 0 refl in
    let (e', r, twice) = half_pow (double (nelem + 1) nelem 1) e q (omega arith) in
    rw (← p) (omega arith, omega arith, (e', r))

module _ (inodes : ℕ → Hashed) (ump ino : ℕ) where
  abbrev is_key : ℕ → Bool
  is_key x = ((inodes x).i_number == ino) && ((inodes x).i_ump == ump)

  is_key_lem : (x : ℕ) → is_key x ≡ true → IsKey (inodes x) ump ino
  is_key_lem x h = ground arith

  walk-skip :
      (x : ℕ) (l : List ℕ) → is_key x ≡ false → walk inodes ump ino (x ∷ l) ≡ walk inodes ump ino l
  unfolding walk
  walk-skip x l h = rw h refl

  no_key : (x : ℕ) → (IsKey (inodes x) ump ino → ⊥) → is_key x ≡ false
  no_key x h = elim (Bool-cases (is_key x)) [ inl t ↦ absurd (h (is_key_lem x t)) | inr f ↦ f ]

  -- A chain in which no inode has the key.
  walk-none :
      (l : List ℕ)
      → ((x : ℕ) → 0 < times x l → IsKey (inodes x) ump ino → ⊥)
      → walk inodes ump ino l ≡ none
  unfolding walk
  walk-none [] others = refl
  walk-none (x ∷ l) others =
      walk-skip x l (no_key x (others x (ground arith)))
      ∙ walk-none l (λ y m. others y (ground arith))

  walk-without :
      (ip : ℕ) (l : List ℕ)
      → times ip l ≤ 1
      → ((x : ℕ) → 0 < times x l → x ≢ ip → IsKey (inodes x) ump ino → ⊥)
      → walk inodes ump ino (without ip l) ≡ none
  unfolding walk without
  walk-without ip [] once others = refl
  walk-without ip (x ∷ l) once others = elim (eq-cases x ip) [
    | inl e ↦
        let t : (x == ip) ≡ true = ground arith in
        rw t (walk-none l (λ y m. others y (ground arith) (λ z. ground (arith, z, e))))
    | inr ne ↦
        let f : (x == ip) ≡ false = ground arith in
        rw f (
          walk-skip x (without ip l) (no_key x (others x (ground arith) ne))
          ∙ walk-without ip l (ground arith) (λ y m. others y (ground arith)))
  ]

some_eq : {x y : Option ℕ} → some x ≡ some y → x ≡ y
some_eq e = cc

some_ne : {x : Option ℕ} → some x ≡ none → ⊥
some_ne e = cc

module _ (world : ℕ → Ihash) (gets : ℕ → ℕ → ℕ → Bool) (ump ino : ℕ) where
  -- Where the walk stops when it begins for the time `n`.
  abbrev pub stop : ℕ → Option (ℕ × ℕ)
  stop n = resident (world n) ump ino

  -- What `ext2_ihashget` answers is what one of its walks saw: nothing that has the key and a
  -- vnode, or a vnode on which `vnode_getwithvid` took its reference with the vid that was read
  -- beside it in that walk.
  pub attempt_lem :
      (k n : ℕ) (r : Option ℕ)
      → attempt world gets ump ino k n ≡ some r
      → ((r ≡ none) × ((m : ℕ) × (stop m ≡ none)))
        ⊎ ((m : ℕ) × (vp : ℕ) × (vid : ℕ) × (r ≡ some vp)
            × (stop m ≡ some (vp, vid))
            × (gets m vp vid ≡ true))
  unfolding attempt
  attempt_lem zero n r e = absurd (some_ne (sym e))
  attempt_lem (suc k) n r e = elim (Option-cases (stop n)) [
    | inl gone ↦ inl (sym (some_eq (rw (gone, attempt) at e)), (n, gone))
    | inr ((vp, vid), seen) ↦ elim (Bool-cases (gets n vp vid)) [
      | inl t ↦ inr (n, vp, vid, sym (some_eq (rw (seen, t, attempt) at e)), seen, t)
      | inr f ↦ attempt_lem k (suc n) r (rw (seen, f, attempt) at e)
    ]
  ]
