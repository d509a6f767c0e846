-- ===== src/Vnops/Ledger.antt =====
-- What the small steps of the vnode operations do to the inodes.
use ext2fs.Base.{ℕ, ◌+◌, ◌-◌, ◌^◌, ◌<◌, ◌≡◌, ◌≢◌, refl, true, Option, ◌∷◌, arith}
use ext2fs.Alloc.State.{update, inc16, dec16}
use ext2fs.Vnops.{Node, World, Errno, done, modify, bump, drop, call, vnode_put}

-- The inodes with one link more.
unfoldable pub more : ℕ → (ℕ → Node) → ℕ → Node
more a nodes = update nodes a (record (nodes a) { nlink = inc16 (nodes a).nlink; changed = true })

-- The inodes with one link less.
unfoldable pub less : ℕ → (ℕ → Node) → ℕ → Node
less a nodes = update nodes a (record (nodes a) { nlink = dec16 (nodes a).nlink; changed = true })

-- A link that is taken back.
pub nlink-less :
    (a : ℕ) (nodes : ℕ → Node) (i : ℕ)
    → (nodes a).nlink < 2 ^ 16 - 1
    → (less a (more a nodes) i).nlink ≡ (nodes i).nlink
unfolding more less
nlink-less a nodes i h = ground arith

pub nlink-other :
    (a : ℕ) (nodes : ℕ → Node) (i : ℕ) → i ≢ a → (more a nodes i).nlink ≡ (nodes i).nlink
unfolding more
nlink-other a nodes i h = ground arith

pub nlink-more :
    (a : ℕ) (nodes : ℕ → Node)
    → (nodes a).nlink < 2 ^ 16 - 1
    → (more a nodes a).nlink ≡ (nodes a).nlink + 1
unfolding more
nlink-more a nodes h = ground arith

module _ {D : Type 0} where
  pub bump_lem : (a : ℕ) (w : World D) → bump a w ≡ done tt (record w { nodes = more a w.nodes })
  unfolding bump more
  bump_lem a w = refl

  pub modify_lem :
      (a : ℕ) (f : Node → Node) (w : World D)
      → modify a f w ≡ done tt (record w { nodes = update w.nodes a (f (w.nodes a)) })
  unfolding modify
  modify_lem a f w = refl

  pub put_lem : (a : ℕ) (w : World D) → vnode_put a w ≡ done tt (record w { puts = a ∷ w.puts })
  unfolding vnode_put
  put_lem a w = refl

  pub call_lem :
      (f : D → Option Errno × D) (w : World D)
      → call f w ≡ done (f w.dirs).0 (record w { dirs = (f w.dirs).1 })
  unfolding call
  call_lem f w = refl

  pub drop_lem : (a : ℕ) (w : World D) → drop a w ≡ done tt (record w { nodes = less a w.nodes })
  unfolding drop less
  drop_lem a w = refl
