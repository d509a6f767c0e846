-- ===== src/Dir/Remove/Checked.antt =====
-- `ext2_dirempty` and `ext2_checkpath` against what they decide.
use ext2fs.Base.{
  ℕ, zero, suc, ◌≤◌, ◌≡◌, ◌≢◌, ◌↔◌, ◌⊎◌, inl, inr, refl, sym, Bool, true, false, ◌||◌, Option, none,
  some, List, [], ◌∷◌, Bool-cases, ◌==◌, if◌then◌else◌, All, arith,
}
use mathlib.Core.Bool.{true≢false}
use ext2fs.Dir.{Entry, einval}
use ext2fs.Dir.Chain.{live, Holds, Holds-pos}
use ext2fs.Dir.Content.{Item}
use ext2fs.Dir.Remove.{accepts, dirempty, Tree, climb, checkpath}

-- The entries that an empty directory has.
abbrev pub IsDots : ℕ → Item → Type 0
IsDots parent (ino, ftype, name) = (name ≡ 46 ∷ []) ⊎ ((name ≡ 46 ∷ 46 ∷ []) × (ino ≡ parent))

abbrev pub all_read : List Entry → List (Option Entry)
all_read [] = []
all_read (e ∷ es) = some e ∷ all_read es

abbrev pub Named : Item → Type 0
Named (ino, ftype, name) = name ≢ []

accepts-IsDots :
    (parent ino reclen ftype : ℕ) (name : List ℕ)
    → (ino == 0) ≡ false
    → name ≢ []
    → (accepts parent (record { ino = ino; reclen = reclen; ftype = ftype; name = name }) ≡ true)
      ↔ IsDots parent (ino, ftype, name)
unfolding accepts
accepts-IsDots parent ino reclen ftype [] used named = absurd (named refl)
accepts-IsDots parent ino reclen ftype (c ∷ []) used named = ground arith
accepts-IsDots parent ino reclen ftype (c ∷ c' ∷ []) used named = ground arith
accepts-IsDots parent ino reclen ftype (c ∷ c' ∷ c'' ∷ cs) used named = ground arith

dirempty-step :
    (parent : ℕ) (e : Entry) (rest : List (Option Entry))
    → (e.reclen == 0) ≡ false
    → dirempty parent (some e ∷ rest) ≡ (if accepts parent e then dirempty parent rest else false)
unfolding dirempty
dirempty-step parent e rest nz = rw nz refl

accepts-free : (parent : ℕ) (e : Entry) → (e.ino == 0) ≡ true → accepts parent e ≡ true
unfolding accepts
accepts-free parent e f = rw f refl

dirempty-nil : (parent : ℕ) → dirempty parent [] ≡ true
unfolding dirempty
dirempty-nil parent = refl

if_iff :
    (a b : Bool) (P Q : Type 0)
    → (a ≡ true) ↔ P
    → (b ≡ true) ↔ Q
    → ((if a then b else false) ≡ true) ↔ (P × Q)
if_iff true b P Q p q = (λ h. (p.0 refl, q.0 h), λ h. q.1 h.1)
if_iff false b P Q p q = (λ h. absurd (true≢false (sym h)), λ h. p.1 h.0)

-- On entries with room for their names, in which those in use have names, `ext2_dirempty` answers
-- that the directory is empty exactly when every entry in use is `.`, or `..` with the parent's
-- inode.
pub dirempty-IsDots :
    (parent : ℕ) (es : List Entry)
    → All Holds es
    → All Named (live es)
    → (dirempty parent (all_read es) ≡ true) ↔ All (IsDots parent) (live es)
dirempty-IsDots parent [] holds named = (λ x. tt, λ x. dirempty-nil parent)
dirempty-IsDots parent (e ∷ es) holds named =
    let pos = Holds-pos e holds.0 in
    let nz : (e.reclen == 0) ≡ false = ground arith in
    elim (Bool-cases (e.ino == 0)) [
      | inl f ↦
          let ih = dirempty-IsDots parent es holds.1 (rw f at named) in
          rw (dirempty-step parent e (all_read es) nz, accepts-free parent e f, f) ih
      | inr u ↦
          let named' : Named (e.ino, e.ftype, e.name) × All Named (live es) = rw u at named in
          let ih = dirempty-IsDots parent es holds.1 named'.1 in
          let own = accepts-IsDots parent e.ino e.reclen e.ftype e.name u named'.0 in
          rw (dirempty-step parent e (all_read es) nz, u)
            (if_iff (accepts parent e) (dirempty parent (all_read es)) _ _ own ih)
    ]

-- `par` gives the directory of each directory, and `Deep k x` says that the root is `k` steps up.
abbrev pub Deep : (ℕ → ℕ) → ℕ → ℕ → Type 0
Deep par zero x = x ≡ 2
Deep par (suc k) x = (x ≢ 2) × Deep par k (par x)

abbrev pub is_above : (ℕ → ℕ) → ℕ → ℕ → ℕ → Bool
is_above par source zero x = false
is_above par source (suc k) x = (par x == source) || is_above par source k (par x)

module _ (t : Tree) (par : ℕ → ℕ) (source : ℕ)
    (dirs : (x : ℕ)
      → (t.is_dir x ≡ true)
        × (t.vget x ≡ none)
        × (t.dotdot x ≡ some (record { ino = par x; ftype = 2; name0 = 46; name1 = 46 }))) where
  climb-is_above :
      (k fuel x : ℕ)
      → k ≤ fuel
      → Deep par (suc k) x
      → climb t source (suc fuel) x
        ≡ some (if is_above par source (suc k) x then some einval else none)
  unfolding climb
  climb-is_above zero fuel x le (ne, deep) =
      let (d, g, up) = dirs x in
      let r : (par x == 2) ≡ true = ground arith in
      elim (Bool-cases (par x == source)) [
        | inl s ↦ rw (d, up, s) refl
        | inr s ↦ rw (d, up, s, r) refl
      ]
  climb-is_above (suc k) zero x le deep = absurd (omega arith)
  climb-is_above (suc k) (suc fuel) x le (ne, deep) =
      let (d, g, up) = dirs x in
      let g' = (dirs (par x)).1 in
      let h = deep.0 in
      let r : (par x == 2) ≡ false = ground arith in
      let ih = climb-is_above k fuel (par x) (omega arith) deep in
      elim (Bool-cases (par x == source)) [
        | inl s ↦ rw (d, up, s) refl
        | inr s ↦ rw (d, up, s, r, g') ih
      ]

  -- From a target `k + 1` steps below the root, which is not the source, where every inode is a
  -- directory that can be got and whose `..` has the type of a directory: `ext2_checkpath` ends
  -- within `k + 1` rounds, with EINVAL if the source is among the directories above the target and
  -- with no error otherwise.
  pub checkpath-is_above :
      (k fuel target : ℕ)
      → k ≤ fuel
      → Deep par (suc k) target
      → (target == source) ≡ false
      → checkpath t source (suc fuel) target
        ≡ some (if is_above par source (suc k) target then some einval else none)
  unfolding checkpath
  checkpath-is_above k fuel target le deep differs =
      let root : (target == 2) ≡ false = let h = deep.0 in ground arith in
      rw (differs, root) (climb-is_above k fuel target le deep)
