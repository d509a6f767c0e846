-- ===== src/Vnops/Attributes.antt =====
-- `ext2_setattr`, `ext2_chmod` and `ext2_chown` of kext/ext2_vnops.c.
pub mod Secure
use ext2fs.Base.{
  ℕ, ◌+◌, ◌-◌, ◌*◌, ◌/◌, ◌%◌, ◌^◌, Bool, true, false, not, ◌&&◌, ◌||◌, Option, none, some, ◌==◌,
  if◌then◌else◌,
}
use ext2fs.Vnops.{
  Node, World, Errno, eperm, eisdir, erofs, eopnotsupp, Calls, Run, done, Cmd, Op, pure, and_then,
  ◌>>=◌, ◌>>◌, after, call, modify, node, is_dir, fixed,
}

-- The flags asked for: those of the three that ext2 keeps, and whether there are others.
pub record Flags : Type 0 where
  pub append : Bool
  pub immutable : Bool
  pub others : Bool

-- struct vnode_attr: the attributes that are to change. The times are in the calls, but for whether
-- one of them is active.
pub record Attr : Type 0 where
  pub flags : Option Flags
  pub uid : Option ℕ
  pub gid : Option ℕ
  pub size : Option ℕ
  pub times : Bool
  pub mode : Option ℕ

abbrev pub or_old : Option ℕ → ℕ → ℕ
or_old none old = old
or_old (some new) old = new

-- `ext2_chmod`: ALLPERMS are the low 12 bits.
abbrev pub chmod : ℕ → Node → Node
chmod mode n = record n { mode = n.mode / 2 ^ 12 * 2 ^ 12 + mode % 2 ^ 12; changed = true }

-- ISUID and ISGID, bits 11 and 10.
abbrev pub set_id : ℕ → Bool
set_id mode = not (mode / 2 ^ 10 % 2 ^ 2 == 0)

abbrev pub without_set_id : ℕ → ℕ
without_set_id mode = mode / 2 ^ 12 * 2 ^ 12 + mode % 2 ^ 10

-- `ext2_chown`, where VNOVAL for an owner or a group is `none`.
abbrev pub chown : Option ℕ → Option ℕ → Node → Node
chown u g n =
    let uid' = or_old u n.uid in
    let gid' = or_old g n.gid in
    record n {
      uid = uid';
      gid = gid';
      changed = true;
      mode =
          if set_id n.mode && (not (uid' == n.uid) || not (gid' == n.gid))
          then without_set_id n.mode
          else n.mode;
    }

abbrev pub asks : Option ℕ → Bool
asks none = false
asks (some x) = true

-- VLNK or VREG
abbrev pub regular : Node → Bool
regular n = (n.mode / 2 ^ 12 % 2 ^ 4 == 8) || (n.mode / 2 ^ 12 % 2 ^ 4 == 10)

module _ {D : Type 0} (calls : Calls D) (readonly : Bool) where
  unfoldable pub set_mode : ℕ → Option ℕ → Op D
  set_mode vp none = pure none
  set_mode vp (some mode) =
      if readonly then pure (some erofs) else do modify vp (chmod mode); pure none

  -- `ext2_update` writes the times out.
  unfoldable pub set_times : ℕ → Bool → Op D
  set_times vp false = pure none
  set_times vp true = if readonly then pure (some erofs) else call (calls.update vp)

  unfoldable pub set_size : ℕ → Option ℕ → Op D
  set_size vp none w = done none w
  set_size vp (some size) w =
      if is_dir (node vp w)
      then done (some eisdir) w
      else if readonly && regular (node vp w)
      then done (some erofs) w
      else call (calls.truncate vp) w

  unfoldable pub set_owner : ℕ → Option ℕ → Option ℕ → Op D
  set_owner vp u g =
      if asks u || asks g
      then if readonly then pure (some erofs) else (do modify vp (chown u g); pure none)
      else pure none

  -- What follows the flags.
  unfoldable pub set_rest : ℕ → Attr → Op D
  set_rest vp a w =
      if fixed (node vp w)
      then done (some eperm) w
      else (do
        e ← set_owner vp a.uid a.gid
        after e (pure tt) (do
          e' ← set_size vp a.size
          after e' (pure tt)
              (do e'' ← set_times vp a.times; after e'' (pure tt) (set_mode vp a.mode))))
          w

  -- `ext2_setattr`. A file that the new flags fix has nothing else changed.
  unfoldable pub setattr : ℕ → Attr → Op D
  setattr vp a w = elim a.flags [
    | none ↦ set_rest vp a w
    | some f ↦
        if f.others
        then done (some eopnotsupp) w
        else if readonly
        then done (some erofs) w
        else (do
          modify vp (λ n. record n { immutable = f.immutable; append = f.append; changed = true })
          if f.immutable || f.append then pure none else set_rest vp a)
            w
  ]
