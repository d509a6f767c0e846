-- ===== src/Vnops/Rename.antt =====
-- `ext2_rename` of kext/ext2_vnops.c.
use ext2fs.Base.{
  ℕ, ◌/◌, ◌%◌, ◌^◌, Bool, true, false, not, ◌&&◌, ◌||◌, Option, none, some, ltb, leb, ◌==◌,
  if◌then◌else◌,
}
use ext2fs.Vnops.{
  Node, World, Errno, eperm, exdev, enotdir, eisdir, einval, emlink, enotempty, Name, Dotdot, Calls,
  panicked, Cmd, Op, pure, ◌>>=◌, ◌>>◌, after, call, modify, bump, drop, vnode_put, node, link_max,
  is_dir, fixed,
}

-- The arguments: the source and its directory, the target's directory and the target, if there is
-- one, the two names, whether the source's name is `.` and whether one of the two is `..`, whether
-- all vnodes are on one volume, and the user.
pub record Args : Type 0 where
  pub fvp : ℕ
  pub fdvp : ℕ
  pub tdvp : ℕ
  pub tvp : Option ℕ
  pub fname : Name
  pub tname : Name
  pub dot : Bool
  pub dotdot : Bool
  pub one_volume : Bool
  pub user : ℕ

-- The signed comparison of `i_nlink` with a number.
abbrev pub above : ℕ → ℕ → Bool
above bound nlink = ltb nlink (2 ^ 15) && ltb bound nlink

abbrev pub sticky : Node → Bool
sticky n = n.mode / 2 ^ 9 % 2 == 1

module _ {D : Type 0} (calls : Calls D) (r : Args) where
  -- `doingdirectory`, and `doingdirectory && newparent`.
  abbrev pub doing : World D → Bool
  doing w = is_dir (node r.fvp w)

  abbrev pub moves : Bool → Bool
  moves dir = dir && not (r.fdvp == r.tdvp)

  abbrev pub target_fixed : World D → Option ℕ → Bool
  target_fixed w none = false
  target_fixed w (some x) = fixed (node x w) || (node r.tdvp w).append

  abbrev pub is_target : ℕ → Option ℕ → Bool
  is_target i none = false
  is_target i (some x) = i == x

  -- The tests before anything changes, with the error that each aborts with; a rename to itself
  -- aborts with none.
  unfoldable pub refused : World D → Option (Option Errno)
  refused w =
      if not r.one_volume
      then some (some exdev)
      else if target_fixed w r.tvp
      then some (some eperm)
      else if is_target r.fvp r.tvp
      then some none
      else if above 31999 (node r.fvp w).nlink
      then some (some emlink)
      else if fixed (node r.fvp w) || (node r.fdvp w).append
      then some (some eperm)
      else if doing w && (r.dot || r.fdvp == r.fvp || r.dotdot || (node r.fvp w).renaming)
      then some (some einval)
      else none

  unfoldable pub put_target : Option ℕ → Cmd D (Unit {0})
  put_target none = pure tt
  put_target (some x) = vnode_put x

  -- The label `abortit`.
  unfoldable pub abort : Cmd D (Unit {0})
  unfolding put_target
  abort = do vnode_put r.tdvp; put_target r.tvp; vnode_put r.fdvp; vnode_put r.fvp

  abbrev pub mark : Bool → Cmd D (Unit {0})
  mark b = modify r.fvp (λ n. record n { renaming = b })

  -- The labels `out` and `bad`, with the link of the source taken back.
  unfoldable pub out : Cmd D (Unit {0})
  out = do drop r.fvp; mark false; vnode_put r.fvp

  unfoldable pub bad : Cmd D (Unit {0})
  unfolding put_target out
  bad = do put_target r.tvp; vnode_put r.tdvp; out

  -- A new entry in the target's directory, which has one more link if it is the new parent of a
  -- directory.
  unfoldable pub enter_new : Bool → Op D
  enter_new moved w =
      if moved
      then if leb link_max (node r.tdvp w).nlink
        then (bad >> pure (some emlink)) w
        else (do
          bump r.tdvp
          e ← call (calls.update r.tdvp)
          after e bad (do
            e' ← call (calls.direnter r.fvp r.tdvp r.tname)
            after e' (do drop r.tdvp; call (calls.update r.tdvp) >>= λ _. bad)
                (do vnode_put r.tdvp; pure none)))
            w
      else (do
        e ← call (calls.direnter r.fvp r.tdvp r.tname)
        after e bad (do vnode_put r.tdvp; pure none))
          w

  -- Why the target `x` cannot be replaced.
  unfoldable pub unfit : Bool → ℕ → World D → Option Errno
  unfit dir x w =
      if sticky (node r.tdvp w)
        && not (r.user == 0)
        && not (r.user == (node r.tdvp w).uid)
        && not ((node x w).uid == r.user)
      then some eperm
      else if is_dir (node x w)
      then if not (calls.dirempty x r.tdvp w.dirs) || above 2 (node x w).nlink
        then some enotempty
        else if not dir
        then some enotdir
        else none
      else if dir
      then some eisdir
      else none

  -- The links of a target that is a directory: the last one goes, and its blocks.
  unfoldable pub squash : ℕ → Op D
  squash x = do
    drop x
    λ w.
        if not ((node x w).nlink == 0)
        then panicked
        else (do call (calls.truncate x) >>= λ _. vnode_put x; pure none) w

  unfoldable pub lose : Bool → ℕ → Op D
  lose true x = squash x
  lose false x = vnode_put x >> pure none

  -- The target's directory has one link less where it stays the parent of the source.
  unfoldable pub leave_parent : Bool → Cmd D (Unit {0})
  leave_parent true = drop r.tdvp
  leave_parent false = pure tt

  -- The entry of the target `x` becomes one of the source.
  unfoldable pub replace : Bool → Bool → ℕ → Op D
  replace dir moved x w =
      if x == r.fvp
      then panicked
      else after (unfit dir x w) bad
          (do
            e ← call (calls.dirrewrite r.tdvp r.fvp r.tname)
            after e bad (do leave_parent (dir && not moved); vnode_put r.tdvp; drop x; lose dir x))
          w

  unfoldable pub install : Bool → Bool → Option ℕ → Op D
  install dir moved none = enter_new moved
  install dir moved (some x) = replace dir moved x

  -- The `..` of a directory with a new parent. `dotdot_type` is taken for the length of the name; on
  -- a volume mounted for writing `ext2_dirbad` is a panic.
  unfoldable pub repoint : Option Dotdot → Cmd D (Unit {0})
  repoint none = pure tt
  repoint (some t) =
      if not (t.ftype == 2) || not t.dots
      then (λ w. panicked)
      else do call (calls.write_dotdot r.fvp r.tdvp) >>= λ _. pure tt

  unfoldable pub new_parent : Bool → Cmd D (Unit {0})
  new_parent true = do drop r.fdvp; λ w. repoint (calls.read_dotdot r.fvp w.dirs) w
  new_parent false = pure tt

  -- The source's entry goes. The branch for another source is not reached, for the vnode is the same.
  unfoldable pub unlink : Bool → Op D
  unlink moved = do
    new_parent moved
    e ← call (calls.dirremove r.fdvp r.fname)
    after e (pure tt) (do drop r.fvp; pure none)
    mark false
    vnode_put r.fdvp
    vnode_put r.fvp
    vnode_put r.fvp
    pure e

  unfoldable pub check_above : Bool → Op D
  check_above moved = if moved then call (calls.checkpath r.fvp r.tdvp) else pure none

  -- From the first change on.
  unfoldable pub proceed : Bool → Bool → Op D
  proceed dir moved = do
    vnode_put r.fdvp
    bump r.fvp
    e ← call (calls.update r.fvp)
    after e bad (do
      e' ← check_above moved
      after e' out (do e'' ← install dir moved r.tvp; after e'' (pure tt) (unlink moved)))

  abbrev pub mark_if : Bool → Cmd D (Unit {0})
  mark_if dir = if dir then mark true else pure tt

  unfoldable pub rename : Op D
  rename w = elim (refused w) [
    | some e ↦ (abort >> pure e) w
    | none ↦ (mark_if (doing w) >> proceed (doing w) (moves (doing w))) w
  ]
