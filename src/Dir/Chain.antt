-- ===== src/Dir/Chain.antt =====
-- Chains of directory entries: their size, the room in them, the names in them, and a change at an
-- offset, as kext/ext2_lookup.c makes it behind `ext2_blkatoff`.
use ext2fs.Base.{
  ℕ, ◌+◌, ◌-◌, ◌≤◌, ◌≡◌, ◌≢◌, inl, inr, refl, ap, sym, false, Option, none, some, List, [], ◌∷◌,
  ◌++◌, Bool-cases, ltb, ◌==◌, if◌then◌else◌, All, arith,
}
use mathlib.Core.List.{nil≢cons}
use ext2fs.Dir.{Entry, needs}

-- The bytes of an entry that are free: all of a free one's, and of another what its name leaves.
abbrev pub spare : Entry → ℕ
spare e = if e.ino == 0 then e.reclen else e.reclen - needs e

abbrev pub span : List Entry → ℕ
span [] = 0
span (e ∷ es) = e.reclen + span es

abbrev pub room : List Entry → ℕ
room [] = 0
room (e ∷ es) = spare e + room es

-- What a directory holds: the entries in use, without their places.
abbrev pub live : List Entry → List (ℕ × ℕ × List ℕ)
live [] = []
live (e ∷ es) = if e.ino == 0 then live es else (e.ino, e.ftype, e.name) ∷ live es

-- An entry has room for its own name.
abbrev pub Holds : Entry → Type 0
Holds e = needs e ≤ e.reclen

abbrev pub behind : Entry → Option (List Entry) → Option (List Entry)
behind e none = none
behind e (some es) = some (e ∷ es)

-- `f` on the rest of the chain that begins at offset `t`; `none` where no entry begins there.
unfoldable pub at_offset : (List Entry → Option (List Entry)) → ℕ → List Entry → Option (List Entry)
at_offset f t [] = if t == 0 then f [] else none
at_offset f t (e ∷ es) =
    let below = behind e (at_offset f (t - e.reclen) es) in
    if t == 0 then f (e ∷ es) else if ltb t e.reclen then none else below

pub span-append : (xs ys : List Entry) → span (xs ++ ys) ≡ span xs + span ys
span-append [] ys = omega arith
span-append (x ∷ xs) ys = let ih = span-append xs ys in omega arith

pub room-append : (xs ys : List Entry) → room (xs ++ ys) ≡ room xs + room ys
room-append [] ys = omega arith
room-append (x ∷ xs) ys = let ih = room-append xs ys in omega arith

pub live-append : (xs ys : List Entry) → live (xs ++ ys) ≡ live xs ++ live ys
live-append [] ys = refl
live-append (x ∷ xs) ys = elim (Bool-cases (x.ino == 0)) [
  | inl t ↦ rw t (live-append xs ys)
  | inr f ↦ rw f (ap (λ l. (x.ino, x.ftype, x.name) ∷ l) (live-append xs ys))
]

pub All-append {ℓ} :
    {A : Type ℓ} (P : A → Type 0) (xs ys : List A) → All P xs → All P ys → All P (xs ++ ys)
All-append P [] ys a b = b
All-append P (x ∷ xs) ys a b = (a.0, All-append P xs ys a.1 b)

pub All-left {ℓ} : {A : Type ℓ} (P : A → Type 0) (xs ys : List A) → All P (xs ++ ys) → All P xs
All-left P [] ys a = tt
All-left P (x ∷ xs) ys a = (a.0, All-left P xs ys a.1)

pub All-right {ℓ} : {A : Type ℓ} (P : A → Type 0) (xs ys : List A) → All P (xs ++ ys) → All P ys
All-right P [] ys a = a
All-right P (x ∷ xs) ys a = All-right P xs ys a.1

-- An entry that has room for its name is not empty.
pub Holds-pos : (e : Entry) → Holds e → 8 ≤ e.reclen
Holds-pos e h = omega arith

pub at_offset-span :
    (f : List Entry → Option (List Entry)) (pre rest new : List Entry)
    → All Holds pre
    → f rest ≡ some new
    → at_offset f (span pre) (pre ++ rest) ≡ some (pre ++ new)
unfolding at_offset
at_offset-span f [] [] new h e = e
at_offset-span f [] (y ∷ ys) new h e = e
at_offset-span f (x ∷ xs) rest new h e =
    let pos : 8 ≤ x.reclen = Holds-pos x h.0 in
    let off : x.reclen + span xs - x.reclen ≡ span xs = omega arith in
    let a : (x.reclen + span xs == 0) ≡ false = ground arith in
    let b : ltb (x.reclen + span xs) x.reclen ≡ false = ground arith in
    rw (a, b, off, at_offset-span f xs rest new h.1 e) refl

pub append_one-full : (xs : List Entry) (x : Entry) → xs ++ (x ∷ []) ≢ []
append_one-full [] x h = nil≢cons (sym h)
append_one-full (y ∷ ys) x h = nil≢cons (sym h)
