-- ===== src/Dir/Content.antt =====
-- What a directory holds, as the list of its entries in use, and how a change of a block shows in it.
-- The operations of kext/ext2_lookup.c are stated on this list.
use ext2fs.Base.{
  ℕ, zero, suc, ◌≤◌, ◌<◌, ◌≡◌, ◌≢◌, inl, inr, refl, sym, subst, ◌∙◌, true, false, Option, none,
  some, List, [], ◌∷◌, ◌++◌, eq-cases, ◌==◌, All, arith,
}
use mathlib.Core.List.{append_assoc, append-nil}
use mathlib.Core.Option.{some-injective}
use ext2fs.Dir.{Entry, Blocks, put_block}
use ext2fs.Dir.Chain.{span, live, Holds, live-append, span-append, All-append, All-left, All-right}

abbrev pub Item : Type 0
Item = ℕ × ℕ × List ℕ

abbrev pub held : Option (List Entry) → List Item
held none = []
held (some es) = live es

-- The entries in use of the first `n` blocks.
abbrev pub content : Blocks → ℕ → List Item
content blocks zero = []
content blocks (suc n) = content blocks n ++ held (blocks n)

-- Each of the first `n` blocks can be read and is filled by a chain of entries with room for their names.
abbrev pub Formed : ℕ → Blocks → ℕ → Type 0
Formed bsize blocks n =
    (i : ℕ)
    → i < n
    → (chain : List Entry) × (blocks i ≡ some chain) × (span chain ≡ bsize) × All Holds chain

put_block_self : (i : ℕ) (es : List Entry) (blocks : Blocks) → put_block i es blocks i ≡ some es
put_block_self i es blocks = let t : (i == i) ≡ true = ground arith in rw t refl

put_block_other :
    (i j : ℕ) (es : List Entry) (blocks : Blocks) → j ≢ i → put_block i es blocks j ≡ blocks j
put_block_other i j es blocks ne = let f : (j == i) ≡ false = ground arith in rw f refl

content-put_above :
    (n i : ℕ) (es : List Entry) (blocks : Blocks)
    → n ≤ i
    → content (put_block i es blocks) n ≡ content blocks n
content-put_above zero i es blocks le = refl
content-put_above (suc n) i es blocks le =
    rw (content-put_above n i es blocks (omega arith), put_block_other i n es blocks (omega arith))
      refl

-- A change of block `i` shows in one place of the content.
abbrev pub Within : List Item → List Item → List Item → List Item → Type 0
Within all part all' part' =
    (before : List Item) × (after : List Item) × (all ≡ before ++ (part ++ after))
    × (all' ≡ before ++ (part' ++ after))

pub content-put_block :
    (n i : ℕ) (chain es : List Entry) (blocks : Blocks)
    → i < n
    → blocks i ≡ some chain
    → Within (content blocks n) (live chain) (content (put_block i es blocks) n) (live es)
content-put_block zero i chain es blocks lt r = elim lt [ ]
content-put_block (suc n) i chain es blocks lt r = elim (eq-cases n i) [
  | inl same ↦ (
    content blocks n,
    [],
    rw (same, r, append-nil (live chain)) refl,
    rw
        (
          content-put_above n i es blocks (omega arith),
          same,
          put_block_self i es blocks,
          append-nil (live es),
        )
        refl,
  )
  | inr differs ↦
      let (before, after, a, b) = content-put_block n i chain es blocks (omega arith) r in
      (
        before,
        after ++ held (blocks n),
        rw
            (
              a,
              append_assoc before (live chain ++ after) (held (blocks n)),
              append_assoc (live chain) after (held (blocks n)),
            )
            refl,
        rw
            (
              b,
              put_block_other i n es blocks differs,
              append_assoc before (live es ++ after) (held (blocks n)),
              append_assoc (live es) after (held (blocks n)),
            )
            refl,
      )
]

pub Formed-put_block :
    (bsize n i : ℕ) (es : List Entry) (blocks : Blocks)
    → Formed bsize blocks n
    → span es ≡ bsize
    → All Holds es
    → Formed bsize (put_block i es blocks) n
Formed-put_block bsize n i es blocks formed size holds j lt = elim (eq-cases j i) [
  | inl same ↦ (es, rw same (put_block_self i es blocks), size, holds)
  | inr differs ↦
      let (chain, r, s, h) = formed j lt in (chain, put_block_other i j es blocks differs ∙ r, s, h)
]

-- `all'` is `all` with `x` put in somewhere.
abbrev pub Inserted : Item → List Item → List Item → Type 0
Inserted x all all' =
    (before : List Item) × (after : List Item) × (all ≡ before ++ after)
    × (all' ≡ before ++ (x ∷ after))

-- `all'` is `all` with one `x` in it exchanged for `y`.
abbrev pub Exchanged : Item → Item → List Item → List Item → Type 0
Exchanged x y all all' =
    (before : List Item) × (after : List Item) × (all ≡ before ++ (x ∷ after))
    × (all' ≡ before ++ (y ∷ after))

pub Within-Inserted :
    (x : Item) (a b all part all' part' : List Item)
    → Within all part all' part'
    → part ≡ a ++ b
    → part' ≡ a ++ (x ∷ b)
    → Inserted x all all'
Within-Inserted x a b all part all' part' (before, after, e, e') p p' = (
  before ++ a,
  b ++ after,
  rw (e, p, append_assoc a b after, append_assoc before a (b ++ after)) refl,
  rw (e', p', append_assoc a (x ∷ b) after, append_assoc before a (x ∷ (b ++ after))) refl,
)

pub Within-Exchanged :
    (x y : Item) (a b all part all' part' : List Item)
    → Within all part all' part'
    → part ≡ a ++ (x ∷ b)
    → part' ≡ a ++ (y ∷ b)
    → Exchanged x y all all'
Within-Exchanged x y a b all part all' part' (before, after, e, e') p p' = (
  before ++ a,
  b ++ after,
  rw (e, p, append_assoc a (x ∷ b) after, append_assoc before a (x ∷ (b ++ after))) refl,
  rw (e', p', append_assoc a (y ∷ b) after, append_assoc before a (y ∷ (b ++ after))) refl,
)

pub Formed-chain :
    (bsize n i : ℕ) (chain : List Entry) (blocks : Blocks)
    → Formed bsize blocks n
    → i < n
    → blocks i ≡ some chain
    → (span chain ≡ bsize) × All Holds chain
Formed-chain bsize n i chain blocks formed lt r =
    let (chain', r', size, holds) = formed i lt in
    subst (λ c. (span c ≡ bsize) × All Holds c) (some-injective _ _ (sym r' ∙ r)) (size, holds)

-- The entries `old` of block `i` give way to `new`.
module _ (bsize n i : ℕ) (pre old post new : List Entry) (blocks : Blocks) (lt : i < n)
    (here : blocks i ≡ some (pre ++ (old ++ post))) where
  abbrev pub replaced : Blocks
  replaced = put_block i (pre ++ (new ++ post)) blocks

  pub replaced-Formed :
      Formed bsize blocks n → span new ≡ span old → All Holds new → Formed bsize replaced n
  replaced-Formed formed same holds =
      let (size, h) = Formed-chain bsize n i (pre ++ (old ++ post)) blocks formed lt here in
      let hp = All-left Holds pre (old ++ post) h in
      let hq = All-right Holds old post (All-right Holds pre (old ++ post) h) in
      let size' : span (pre ++ (new ++ post)) ≡ bsize =
        let a = span-append pre (old ++ post) in
        let b = span-append old post in
        let c = span-append pre (new ++ post) in let d = span-append new post in omega arith in
      Formed-put_block bsize n i (pre ++ (new ++ post)) blocks formed size'
        (All-append Holds pre (new ++ post) hp (All-append Holds new post holds hq))

  live-split :
      (es a b : List Item) (mid : List Entry)
      → live mid ≡ a ++ (es ++ b)
      → live (pre ++ (mid ++ post)) ≡ (live pre ++ a) ++ (es ++ (b ++ live post))
  live-split es a b mid e =
      rw
        (
          live-append pre (mid ++ post),
          live-append mid post,
          e,
          append_assoc a (es ++ b) (live post),
          append_assoc es b (live post),
          append_assoc (live pre) a (es ++ (b ++ live post)),
        )
        refl

  pub replaced-Inserted :
      (x : Item) (a b : List Item)
      → live old ≡ a ++ b
      → live new ≡ a ++ (x ∷ b)
      → Inserted x (content blocks n) (content replaced n)
  replaced-Inserted x a b e e' =
      Within-Inserted x (live pre ++ a) (b ++ live post) _ _ _ _
        (content-put_block n i _ (pre ++ (new ++ post)) blocks lt here) (live-split [] a b old e)
        (live-split (x ∷ []) a b new e')

  pub replaced-Exchanged :
      (x y : Item) (a b : List Item)
      → live old ≡ a ++ (x ∷ b)
      → live new ≡ a ++ (y ∷ b)
      → Exchanged x y (content blocks n) (content replaced n)
  replaced-Exchanged x y a b e e' =
      Within-Exchanged x y (live pre ++ a) (b ++ live post) _ _ _ _
        (content-put_block n i _ (pre ++ (new ++ post)) blocks lt here)
        (live-split (x ∷ []) a b old e) (live-split (y ∷ []) a b new e')

-- A block more.
pub content-fresh :
    (n : ℕ) (es : List Entry) (blocks : Blocks)
    → content (put_block n es blocks) (suc n) ≡ content blocks n ++ live es
content-fresh n es blocks =
    rw (content-put_above n n es blocks (omega arith), put_block_self n es blocks) refl

pub Formed-fresh :
    (bsize n : ℕ) (es : List Entry) (blocks : Blocks)
    → Formed bsize blocks n
    → span es ≡ bsize
    → All Holds es
    → Formed bsize (put_block n es blocks) (suc n)
Formed-fresh bsize n es blocks formed size holds j lt = elim (eq-cases j n) [
  | inl same ↦ (es, rw same (put_block_self n es blocks), size, holds)
  | inr differs ↦
      let (chain, r, s, h) = formed j (omega arith) in
      (chain, put_block_other n j es blocks differs ∙ r, s, h)
]

swap-Within :
    (all part all' part' : List Item) → Within all part all' part' → Within all' part' all part
swap-Within all part all' part' (before, after, e, e') = (before, after, e', e)

module _ (bsize n i : ℕ) (pre old post new : List Entry) (blocks : Blocks) (lt : i < n)
    (here : blocks i ≡ some (pre ++ (old ++ post))) where
  pub replaced-Removed :
      (x : Item) (a b : List Item)
      → live old ≡ a ++ (x ∷ b)
      → live new ≡ a ++ b
      → Inserted x
          (content (replaced bsize n i pre old post new blocks lt here) n)
          (content blocks n)
  replaced-Removed x a b e e' =
      Within-Inserted x (live pre ++ a) (b ++ live post) _ _ _ _
        (swap-Within _ _ _ _ (content-put_block n i _ (pre ++ (new ++ post)) blocks lt here))
        (live-split bsize n i pre old post new blocks lt here [] a b new e')
        (live-split bsize n i pre old post new blocks lt here (x ∷ []) a b old e)
