-- ===== src/Alloc/Cluster/Account.antt =====
-- The changes that `account` makes of a cluster summary.
use ext2fs.Base.{
  ℕ, zero, suc, ◌+◌, ◌<◌, ◌≡◌, refl, ◌∙◌, inl, inr, Bool, true, false, arith, List, min, ltb, ◌==◌,
  if◌then◌else◌, get_or, length, length-set, get_or-set_self, get_or-set_ne, eq-cases,
}
use ext2fs.Base.Int.{ℤ, pos, negsuc, sub_ℕ, ◌+ℤ◌, ◌-ℤ◌}
use ext2fs.Geometry.{Geometry}
use ext2fs.Alloc.Cluster.{add_at, account}

pub length-add_at : (s : List ℤ) (i : ℕ) (d : ℤ) → length (add_at s i d) ≡ length s
length-add_at s i d = length-set s i _

pub get_or-add_at :
    (s : List ℤ) (i k : ℕ) (d : ℤ)
    → k < length s
    → get_or (add_at s i d) k (pos 0)
      ≡ (if i == k then get_or s k (pos 0) +ℤ d else get_or s k (pos 0))
get_or-add_at s i k d h = elim (eq-cases i k) [
  | inl e ↦ rw e (get_or-set_self s k _ (pos 0) h ∙ grind arith)
  | inr ne ↦ get_or-set_ne s i k _ (pos 0) ne ∙ grind (arith, ne)
]

ltb-suc : (i : ℕ) → ltb 0 (suc i) ≡ true
ltb-suc i = ground arith

-- The count at a length that is not 0, where a run of no blocks is passed over.
pass_at : List ℤ → ℕ → ℤ → List ℤ
pass_at s i d = if ltb 0 i then add_at s i d else s

length-pass_at : (s : List ℤ) (i : ℕ) (d : ℤ) → length (pass_at s i d) ≡ length s
unfolding pass_at
length-pass_at s zero d = refl
length-pass_at s (suc i) d = rw (ltb-suc i) (length-add_at s (suc i) d)

get_or-pass_at :
    (s : List ℤ) (i k : ℕ) (d : ℤ)
    → 0 < k
    → k < length s
    → get_or (pass_at s i d) k (pos 0)
      ≡ (if i == k then get_or s k (pos 0) +ℤ d else get_or s k (pos 0))
unfolding pass_at
get_or-pass_at s zero k d lo h = grind (arith, lo)
get_or-pass_at s (suc i) k d lo h = rw (ltb-suc i) (get_or-add_at s (suc i) k d h)

account-pass_at :
    (g : Geometry) (back forw : ℕ) (d : ℤ) (s : List ℤ)
    → account g back forw d s
      ≡ pass_at
          (pass_at (add_at s (min (back + forw + 1) g.contigsumsize) d) back (pos 0 -ℤ d))
          forw
          (pos 0 -ℤ d)
unfolding account pass_at
account-pass_at g back forw d s = refl

pub length-account :
    (g : Geometry) (back forw : ℕ) (d : ℤ) (s : List ℤ)
    → length (account g back forw d s) ≡ length s
length-account g back forw d s = rw (account-pass_at g back forw d s) (
    length-pass_at (pass_at (add_at s _ d) back _) forw _
    ∙ length-pass_at (add_at s _ d) back _
    ∙ length-add_at s _ d)

abbrev pub unit_of : Bool → ℕ
unit_of a = if a then 1 else 0

shift : Bool → ℤ → ℤ → ℤ
shift a d v = if a then v +ℤ d else v

-- Three steps of one, as one difference.
free_lem :
    (a b c : Bool) (x : ℕ)
    → shift c (pos 0 -ℤ pos 1) (shift b (pos 0 -ℤ pos 1) (shift a (pos 1) (pos x)))
      ≡ sub_ℕ (x + unit_of a) (unit_of b + unit_of c)
unfolding shift ◌+ℤ◌ ◌-ℤ◌
free_lem true true true x = ground arith
free_lem true true false x = ground arith
free_lem true false true x = ground arith
free_lem true false false x = ground arith
free_lem false true true x = ground arith
free_lem false true false x = ground arith
free_lem false false true x = ground arith
free_lem false false false x = ground arith

take_lem :
    (a b c : Bool) (x : ℕ)
    → shift c (pos 0 -ℤ negsuc 0) (shift b (pos 0 -ℤ negsuc 0) (shift a (negsuc 0) (pos x)))
      ≡ sub_ℕ (x + unit_of b + unit_of c) (unit_of a)
unfolding shift ◌+ℤ◌ ◌-ℤ◌
take_lem true true true x = ground arith
take_lem true true false x = ground arith
take_lem true false true x = ground arith
take_lem true false false x = ground arith
take_lem false true true x = ground arith
take_lem false true false x = ground arith
take_lem false false true x = ground arith
take_lem false false false x = ground arith

-- Equal differences.
sub_ℕ-eq : (a b c d : ℕ) → a + d ≡ c + b → sub_ℕ a b ≡ sub_ℕ c d
sub_ℕ-eq a b c d e = ground (arith, e)

-- What a free block that joins two runs changes of the counts, up to `size`.
module _ (g : Geometry) (back forw : ℕ) (s : List ℤ) (k : ℕ) (lo : 0 < k)
    (room : k < length s) where
  abbrev joined : ℕ
  joined = min (back + forw + 1) g.contigsumsize

  get_or-account :
      (d : ℤ)
      → get_or (account g back forw d s) k (pos 0)
        ≡ shift
            (forw == k)
            (pos 0 -ℤ d)
            (shift (back == k) (pos 0 -ℤ d) (shift (joined == k) d (get_or s k (pos 0))))
  unfolding shift
  get_or-account d =
      let b = add_at s joined d in
      let c = pass_at b back (pos 0 -ℤ d) in
      let n = length-add_at s joined d in
      let m = length-pass_at b back (pos 0 -ℤ d) in
      rw
        (
          account-pass_at g back forw d s,
          get_or-pass_at c forw k (pos 0 -ℤ d) lo (omega (arith, n, m, room)),
          get_or-pass_at b back k (pos 0 -ℤ d) lo (omega (arith, n, room)),
          get_or-add_at s joined k d room,
        )
        refl

  -- Where the counts before and after are `x` and `y`, the change adds `y - x` to any count `n`.
  module _ (n x y : ℕ) (here : get_or s k (pos 0) ≡ pos n) where
    pub account-free :
        x + unit_of (joined == k) ≡ y + unit_of (back == k) + unit_of (forw == k)
        → get_or (account g back forw (pos 1) s) k (pos 0) ≡ sub_ℕ (n + y) x
    account-free e =
        get_or-account (pos 1)
        ∙ rw here (
            free_lem (joined == k) (back == k) (forw == k) n
            ∙ sub_ℕ-eq _ _ (n + y) x (omega (arith, e)))

    pub account-take :
        y + unit_of (joined == k) ≡ x + unit_of (back == k) + unit_of (forw == k)
        → get_or (account g back forw (negsuc 0) s) k (pos 0) ≡ sub_ℕ (n + y) x
    account-take e =
        get_or-account (negsuc 0)
        ∙ rw here (
            take_lem (joined == k) (back == k) (forw == k) n
            ∙ sub_ℕ-eq _ _ (n + y) x (omega (arith, e)))

pub sub_ℕ-self : (x y : ℕ) → sub_ℕ (x + y) x ≡ pos y
sub_ℕ-self x y = ground arith
