-- ===== src/Vnops/Attributes/Secure.antt =====
-- A change of owner or group takes the set-id bits.
use ext2fs.Base.{
  ℕ, ◌/◌, ◌%◌, ◌^◌, ◌≡◌, ◌⊎◌, refl, sym, subst, inl, inr, Bool, true, false, not, ◌&&◌, ◌||◌,
  Option, none, some, ◌==◌, arith, Bool-cases, Option-cases,
}
use ext2fs.Vnops.{
  Node, World, Errno, Calls, Run, done, panicked, Op, call, after, pure, and_then, fixed, is_dir,
}
use ext2fs.Alloc.State.{update}
use ext2fs.Vnops.Ledger.{modify_lem}
use ext2fs.Vnops.Attributes.{
  Attr, Flags, chown, or_old, set_id, without_set_id, set_mode, set_times, set_size, set_owner,
  set_rest, setattr, regular, asks,
}

-- From `n` to `n'` the owner and the group stayed, or no set-id bit is left; or nothing is said.
abbrev Secure : Node → Node → Type 0
Secure n n' = ((n'.uid ≡ n.uid) × (n'.gid ≡ n.gid) × (n'.mode ≡ n.mode)) ⊎ (set_id n'.mode ≡ false)

cleared : (mode : ℕ) → set_id (without_set_id mode) ≡ false
cleared mode = let e : without_set_id mode / 2 ^ 10 % 2 ^ 2 ≡ 0 = omega arith in ground (arith, e)

chown-Secure : (u g : Option ℕ) (n : Node) → Secure n (chown u g n)
chown-Secure u g n = elim (Bool-cases (set_id n.mode)) [
  | inr plain ↦ inr (rw plain plain)
  | inl special ↦
      elim (Bool-cases (not (or_old u n.uid == n.uid) || not (or_old g n.gid == n.gid))) [
        | inl moved ↦ inr (rw (special, moved) (cleared n.mode))
        | inr stayed ↦
            inl (ground (arith, stayed), ground (arith, stayed), rw (special, stayed) refl)
      ]
]

update_self : (i : ℕ) (n : Node) (nodes : ℕ → Node) → update nodes i n i ≡ n
update_self i n nodes = elim (Bool-cases (i == i)) [
  | inl same ↦ rw same refl
  | inr differs ↦ absurd (ground (arith, differs))
]

module _ {D : Type 0} (calls : Calls D) (readonly : Bool) (vp : ℕ) where
  -- However a run that began with the node `n` ends.
  abbrev pub EndsSecure : Node → Run D (Option Errno) → Type 0
  EndsSecure n (done e w) = Secure n (w.nodes vp)
  EndsSecure n panicked = ⊥

  -- A step that leaves the nodes alone, and what follows it.
  abbrev Leaves : World D → Run D (Option Errno) → Type 0
  Leaves w (done e w') = w'.nodes ≡ w.nodes
  Leaves w panicked = ⊥

  set_size-Leaves : (size : Option ℕ) (w : World D) → Leaves w (set_size calls readonly vp size w)
  unfolding set_size call
  set_size-Leaves none w = refl
  set_size-Leaves (some size) w = elim (Bool-cases (is_dir (w.nodes vp))) [
    | inl dir ↦ rw dir refl
    | inr file ↦ elim (Bool-cases (readonly && regular (w.nodes vp))) [
      | inl stop ↦ rw (file, stop) refl
      | inr go ↦ rw (file, go) refl
    ]
  ]

  set_times-Leaves : (times : Bool) (w : World D) → Leaves w (set_times calls readonly vp times w)
  unfolding set_times call
  set_times-Leaves false w = refl
  set_times-Leaves true w = elim (Bool-cases readonly) [
    | inl stop ↦ rw stop refl
    | inr go ↦ rw go refl
  ]

  set_owner-Secure :
      (u g : Option ℕ) (w : World D) → EndsSecure (w.nodes vp) (set_owner calls readonly vp u g w)
  unfolding set_owner
  set_owner-Secure u g w = elim (Bool-cases (asks u || asks g)) [
    | inr nothing ↦ rw nothing (inl (refl, refl, refl))
    | inl asked ↦ elim (Bool-cases readonly) [
      | inl stop ↦ rw (asked, stop) (inl (refl, refl, refl))
      | inr go ↦
          rw (asked, go, modify_lem)
            (subst (Secure (w.nodes vp)) (sym (update_self vp (chown u g (w.nodes vp)) w.nodes))
              (chown-Secure u g (w.nodes vp)))
    ]
  ]

  -- A run goes on by one that leaves the nodes alone.
  passes :
      (n : Node) (w : World D) (run : Run D (Option Errno)) (rest : Op D)
      → Secure n (w.nodes vp)
      → Leaves w run
      → ((v : World D) → Secure n (v.nodes vp) → EndsSecure n (rest v))
      → EndsSecure n (and_then run (λ e. after e (pure tt) rest))
  passes n w (done none v) rest s l k = k v (subst (λ f. Secure n (f vp)) (sym l) s)
  passes n w (done (some e) v) rest s l k = subst (λ f. Secure n (f vp)) (sym l) s
  passes n w panicked rest s l k = l

  abbrev flagged : Flags → Node → Node
  flagged f n = record n { immutable = f.immutable; append = f.append; changed = true }

  ends-flagged :
      (f : Flags) (n : Node) (run : Run D (Option Errno))
      → EndsSecure (flagged f n) run
      → EndsSecure n run
  ends-flagged f n (done e w) s = s
  ends-flagged f n panicked s = s

  goes_on :
      (n : Node) (run : Run D (Option Errno)) (rest : Op D)
      → EndsSecure n run
      → ((v : World D) → Secure n (v.nodes vp) → EndsSecure n (rest v))
      → EndsSecure n (and_then run (λ e. after e (pure tt) rest))
  goes_on n (done none v) rest s k = k v s
  goes_on n (done (some e) v) rest s k = s
  goes_on n panicked rest s k = s

  module _ (a : Attr) (no_mode : a.mode ≡ none) where
    set_rest-Secure : (w : World D) → EndsSecure (w.nodes vp) (set_rest calls readonly vp a w)
    unfolding set_rest set_mode
    set_rest-Secure w = elim (Bool-cases (fixed (w.nodes vp))) [
      | inl kept ↦ rw kept (inl (refl, refl, refl))
      | inr free ↦
          let n = w.nodes vp in
          rw free (
            goes_on n (set_owner calls readonly vp a.uid a.gid w) _ (set_owner-Secure a.uid a.gid w)
              (λ v s.
                passes n v (set_size calls readonly vp a.size v) _ s (set_size-Leaves a.size v)
                  (λ v' s'.
                    passes n v' (set_times calls readonly vp a.times v') _ s'
                      (set_times-Leaves a.times v')
                      (λ v'' s''.
                        subst (λ m. EndsSecure n (set_mode calls readonly vp m v'')) (sym no_mode)
                          s''))))
    ]

    -- What follows new flags.
    with_flags :
        (f : Flags) (w : World D)
        → EndsSecure (w.nodes vp) (
            set_rest calls readonly vp a
              (record w { nodes = update w.nodes vp (flagged f (w.nodes vp)) }))
    with_flags f w =
        let v : World D = record w { nodes = update w.nodes vp (flagged f (w.nodes vp)) } in
        ends-flagged f (w.nodes vp) _ (
          subst (λ m. EndsSecure m (set_rest calls readonly vp a v))
            (update_self vp (flagged f (w.nodes vp)) w.nodes) (set_rest-Secure v))

    -- `ext2_setattr` that is not asked for a mode does not panic, and however it ends the owner,
    -- the group and the mode of the file are as they were, or the file has neither ISUID nor
    -- ISGID.
    pub setattr-Secure : (w : World D) → EndsSecure (w.nodes vp) (setattr calls readonly vp a w)
    unfolding setattr
    setattr-Secure w = elim (Option-cases a.flags) [
      | inl unasked ↦ rw (unasked, setattr) (set_rest-Secure w)
      | inr (f, asked) ↦ elim (Bool-cases f.others) [
        | inl unknown ↦ rw (asked, setattr, unknown) (inl (refl, refl, refl))
        | inr known ↦ elim (Bool-cases readonly) [
          | inl stop ↦ rw (asked, setattr, known, stop) (inl (refl, refl, refl))
          | inr go ↦ elim (Bool-cases (f.immutable || f.append)) [
            | inl kept ↦
                rw (asked, setattr, known, go, modify_lem, kept)
                  (subst (Secure (w.nodes vp))
                    (sym (update_self vp (flagged f (w.nodes vp)) w.nodes))
                    (inl (refl, refl, refl)))
            | inr free ↦
                rw (asked, setattr, known, go, modify_lem, free) (rw go at (with_flags f w))
          ]
        ]
      ]
    ]
