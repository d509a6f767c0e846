-- ===== src/Vnops/Create.antt =====
-- The operations of kext/ext2_vnops.c that make an inode: `ext2_makeinode`, `ext2_symlink` and
-- `ext2_mkdir`. They end with the vnode that they hand out.
use Prim.Native.Nat.{bit_or}
use ext2fs.Base.{
  ℕ, ◌+◌, ◌*◌, ◌/◌, ◌%◌, ◌^◌, Bool, true, Option, none, some, ltb, leb, ◌==◌, if◌then◌else◌, length,
}
use ext2fs.Vnops.{
  Node, Errno, emlink, failed, Name, Calls, done, Cmd, Op, pure, ◌>>=◌, ◌>>◌, after, call, modify,
  bump, drop, vnode_put, node, link_max,
}

-- Whose call it is: `kauth_cred_getuid` and `kauth_cred_ismember_gid`.
pub record Cred : Type 0 where
  pub user : ℕ
  pub member : ℕ → Bool

-- The modes of a regular file, of a directory and of a symbolic link; ISGID is bit 10.
abbrev pub with_type : ℕ → ℕ
with_type mode = if mode / 2 ^ 12 % 2 ^ 4 == 0 then mode + 8 * 2 ^ 12 else mode

abbrev pub dir_mode : ℕ → ℕ
dir_mode mode = mode % 2 ^ 9 + 4 * 2 ^ 12

abbrev pub link_mode : ℕ → ℕ
link_mode mode = bit_or (10 * 2 ^ 12) mode

abbrev pub setgid : ℕ → Bool
setgid mode = mode / 2 ^ 10 % 2 == 1

abbrev pub without_setgid : ℕ → ℕ
without_setgid mode = if setgid mode then mode / 2 ^ 11 * 2 ^ 11 + mode % 2 ^ 10 else mode

-- What an operation that makes an inode ends with: the inode, or an error.
pub data Made : Type 0 where
  made : ℕ → Made
  refused : Errno → Made

module _ {D : Type 0} (calls : Calls D) (cred : Cred) where
  -- The new inode's owner, group, mode and links.
  abbrev pub fill : ℕ → ℕ → ℕ → Node → Node
  fill gid mode nlink n = record n {
    uid = cred.user;
    gid = gid;
    mode = mode;
    nlink = nlink;
    changed = true;
  }

  -- The label `bad`: the inode goes when its vnode does.
  unfoldable pub discard : ℕ → Cmd D (Unit {0})
  discard i = do modify i (λ n. record n { nlink = 0; changed = true }); vnode_put i

  abbrev pub or_made : ℕ → Option Errno → Made
  or_made i none = made i
  or_made i (some e) = refused e

  unfoldable pub allocated : (ℕ → Cmd D Made) → ℕ → ℕ → Cmd D Made
  allocated rest dvp mode w =
      let (found, d) = calls.valloc dvp mode w.dirs in
      elim found [
        | none ↦ done (refused failed) (record w { dirs = d })
        | some i ↦ rest i (record w { dirs = d })
      ]

  -- The mode of a new file: without ISGID if its creator is not in the group that it inherits.
  abbrev pub granted : ℕ → ℕ → ℕ
  granted gid mode = if cred.member gid then mode else without_setgid mode

  unfoldable pub makeinode : ℕ → ℕ → Name → Cmd D Made
  makeinode mode dvp cnp =
      allocated
        (λ i w.
          (do
            modify i (fill (node dvp w).gid (granted (node dvp w).gid (with_type mode)) 1)
            e ← call (calls.update i)
            e' ←
                after e (discard i)
                  (do e'' ← call (calls.direnter i dvp cnp); after e'' (discard i) (pure none))
            pure (or_made i e'))
            w)
        dvp (with_type mode)

  -- A target of fewer than 60 bytes stands in the inode, where the model does not keep it.
  unfoldable pub symlink : ℕ → ℕ → Name → Name → Cmd D Made
  symlink mode dvp cnp target = do
    m ← makeinode (link_mode mode) dvp cnp
    elim m [
      | refused e ↦ pure (refused e)
      | made i ↦ if ltb (length target) 60 then pure (made i) else do
        e ← call (calls.write_link i target)
        e' ← after e (vnode_put i) (pure none)
        pure (or_made i e')
    ]

  -- The first block of a new directory, and its entry in the parent.
  unfoldable pub furnish : ℕ → ℕ → Name → Op D
  furnish i dvp cnp = do
    e ← call (calls.balloc i)
    after e (drop dvp) (do
      e' ← call (calls.write_template i dvp)
      after e' (drop dvp)
          (do e'' ← call (calls.direnter i dvp cnp); after e'' (drop dvp) (pure none)))

  -- `ext2_mkdir`. The result of the first `ext2_update` is not looked at.
  unfoldable pub mkdir : ℕ → ℕ → Name → Cmd D Made
  mkdir mode dvp cnp w =
      if leb link_max (node dvp w).nlink
      then done (refused emlink) w
      else allocated
          (λ i w'.
            (do
              modify i (fill (node dvp w').gid (dir_mode mode) 2)
              call (calls.update i) >>= λ _. bump dvp
              e ← call (calls.update dvp)
              e' ← after e (pure tt) (furnish i dvp cnp)
              e'' ← after e' (discard i) (pure none)
              pure (or_made i e''))
              w')
          dvp (dir_mode mode) w
