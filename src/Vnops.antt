-- ===== src/Vnops.antt =====
-- The vnode operations of kext/ext2_vnops.c that change links. Inodes are named by their numbers, and
-- so are their vnodes. An operation runs on the inodes and on the directories, and ends with an error
-- or with none, or in a panic.
pub mod Attributes
pub mod Create
pub mod Rename
pub mod Ledger
pub mod Links
pub mod Made
use ext2fs.Base.{
  ℕ, ◌+◌, ◌-◌, ◌/◌, ◌%◌, ◌^◌, Bool, true, false, not, ◌&&◌, ◌||◌, Option, none, some, List, [], ◌∷◌,
  ltb, leb, ◌==◌, if◌then◌else◌,
}
use ext2fs.Alloc.State.{update, inc16, dec16}

-- struct inode. `nlink` is an int16_t, as the number of its 16 bits; `immutable` and `append` are the
-- flags of `i_flags`, `renaming` and `changed` are IN_RENAME and IN_CHANGE.
pub record Node : Type 0 where
  pub mode : ℕ
  pub nlink : ℕ
  pub uid : ℕ
  pub gid : ℕ
  pub immutable : Bool
  pub append : Bool
  pub renaming : Bool
  pub changed : Bool

-- The inodes, what the directories and the device hold, and the calls of `vnode_put`, the last one
-- first.
pub record World (D : Type 0) : Type 0 where
  pub nodes : ℕ → Node
  pub dirs : D
  pub puts : List ℕ

pub data Errno : Type 0 where
  eperm : Errno
  exdev : Errno
  enotdir : Errno
  eisdir : Errno
  einval : Errno
  erofs : Errno
  emlink : Errno
  enotempty : Errno
  eopnotsupp : Errno
  failed : Errno

abbrev pub Name : Type 0
Name = List ℕ

-- `dotdot_ino`, `dotdot_type` and whether `dotdot_name` is `..` of struct ext2fs_dirtemplate.
pub record Dotdot : Type 0 where
  pub ino : ℕ
  pub ftype : ℕ
  pub dots : Bool

-- What the operations call: the rest of the driver, and `vn_rdwr`. Each call ends with an error or
-- none. The directory operations act at the place that the lookup of the name left.
pub record Calls (D : Type 0) : Type 0 where
  pub valloc : ℕ → ℕ → D → Option ℕ × D
  pub update : ℕ → D → Option Errno × D
  pub direnter : ℕ → ℕ → Name → D → Option Errno × D
  pub dirremove : ℕ → Name → D → Option Errno × D
  pub dirrewrite : ℕ → ℕ → Name → D → Option Errno × D
  pub dirempty : ℕ → ℕ → D → Bool
  pub checkpath : ℕ → ℕ → D → Option Errno × D
  pub truncate : ℕ → D → Option Errno × D
  pub balloc : ℕ → D → Option Errno × D
  pub write_template : ℕ → ℕ → D → Option Errno × D
  pub read_dotdot : ℕ → D → Option Dotdot
  pub write_dotdot : ℕ → ℕ → D → Option Errno × D
  pub write_link : ℕ → Name → D → Option Errno × D

module _ (D : Type 0) where
  pub data Run (A : Type 0) : Type 0 where
    done : A → World D → Run A
    panicked : Run A

  -- A command, and one that ends with an error or none.
  abbrev pub Cmd : Type 0 → Type 0
  Cmd A = World D → Run A

  abbrev pub Op : Type 0
  Op = Cmd (Option Errno)

module _ {D : Type 0} where
  abbrev pub pure : {A : Type 0} → A → Cmd D A
  pure a w = done a w

  abbrev pub and_then : {A B : Type 0} → Run D A → (A → Cmd D B) → Run D B
  and_then (done a w) k = k a w
  and_then panicked k = panicked

  infixl 5 ◌>>=◌ ◌>>◌
  abbrev pub ◌>>=◌ : {A B : Type 0} → Cmd D A → (A → Cmd D B) → Cmd D B
  m >>= k = λ w. and_then (m w) k

  abbrev pub ◌>>◌ : {A B : Type 0} → Cmd D A → Cmd D B → Cmd D B
  m >> n = m >>= λ _. n

  -- `error = m; if (error) goto label`, with what follows and what stands at the label.
  abbrev pub after : Option Errno → Cmd D (Unit {0}) → Op D → Op D
  after (some e) label rest = label >> pure (some e)
  after none label rest = rest

  -- A call of what is not modelled here.
  unfoldable pub call : (D → Option Errno × D) → Op D
  call f w = done (f w.dirs).0 (record w { dirs = (f w.dirs).1 })

  unfoldable pub modify : ℕ → (Node → Node) → Cmd D (Unit {0})
  modify i f w = done tt (record w { nodes = update w.nodes i (f (w.nodes i)) })

  -- `i_nlink++` and `i_nlink--`, with IN_CHANGE.
  unfoldable pub bump : ℕ → Cmd D (Unit {0})
  unfolding modify
  bump i = modify i (λ n. record n { nlink = inc16 n.nlink; changed = true })

  unfoldable pub drop : ℕ → Cmd D (Unit {0})
  unfolding modify
  drop i = modify i (λ n. record n { nlink = dec16 n.nlink; changed = true })

  unfoldable pub vnode_put : ℕ → Cmd D (Unit {0})
  vnode_put i w = done tt (record w { puts = i ∷ w.puts })

  abbrev pub node : ℕ → World D → Node
  node i w = w.nodes i

abbrev pub link_max : ℕ
link_max = 32000

-- IFMT and the types of files.
abbrev pub is_dir : Node → Bool
is_dir n = n.mode / 2 ^ 12 % 2 ^ 4 == 4

abbrev pub fixed : Node → Bool
fixed n = n.immutable || n.append

abbrev pub two_less : Node → Node
two_less n = record n { nlink = (n.nlink + 2 ^ 16 - 2) % 2 ^ 16 }

module _ {D : Type 0} (calls : Calls D) where
  -- `ext2_remove` of the vnode `vp` by a name in the directory `dvp`.
  unfoldable pub remove : ℕ → ℕ → Name → Op D
  remove vp dvp cnp w =
      if fixed (node vp w) || (node dvp w).append
      then done (some eperm) w
      else (do e ← call (calls.dirremove dvp cnp); after e (pure tt) (do drop vp; pure none)) w

  -- `ext2_link`: the comparison is one of unsigned numbers.
  unfoldable pub link : ℕ → ℕ → Name → Op D
  link vp tdvp cnp w =
      if leb link_max (node vp w).nlink
      then done (some emlink) w
      else if fixed (node vp w)
      then done (some eperm) w
      else (do
        bump vp
        e ← call (calls.update vp)
        after e (drop vp)
            (do e' ← call (calls.direnter vp tdvp cnp); after e' (drop vp) (pure none)))
          w

  -- `ext2_rmdir`. The truncation's error is the result.
  unfoldable pub rmdir : ℕ → ℕ → Name → Op D
  rmdir vp dvp cnp w =
      if not ((node vp w).nlink == 2) || not (calls.dirempty vp dvp w.dirs)
      then done (some enotempty) w
      else if (node dvp w).append || fixed (node vp w)
      then done (some eperm) w
      else (do
        e ← call (calls.dirremove dvp cnp)
        after e (pure tt) (do drop dvp; modify vp two_less; call (calls.truncate vp)))
          w
