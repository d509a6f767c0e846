-- ===== src/Vnops/Made.antt =====
-- A directory that is made while its parent cannot be written.
use ext2fs.Base.{ℕ, ◌+◌, ◌<◌, ◌≡◌, ◌≢◌, ◌∙◌, refl, sym, true, false, some, ◌∷◌, leb, arith}
use ext2fs.Alloc.State.{update}
use ext2fs.Vnops.{Node, World, Errno, Name, Calls, done, modify, link_max}
use ext2fs.Vnops.Create.{Cred, refused, fill, discard, allocated, dir_mode, mkdir}
use ext2fs.Vnops.Ledger.{more, bump_lem, put_lem, call_lem, nlink-more}

-- The inodes with one of them replaced.
unfoldable pub with_node : ℕ → Node → (ℕ → Node) → ℕ → Node
with_node a n nodes = update nodes a n

module _ (a : ℕ) (n : Node) (nodes : ℕ → Node) where
  pub with_node_self : (with_node a n nodes a).nlink ≡ n.nlink
  unfolding with_node
  with_node_self = ground arith

  pub with_node-other : (j : ℕ) → j ≢ a → (with_node a n nodes j).nlink ≡ (nodes j).nlink
  unfolding with_node
  with_node-other j h = ground arith

pub set_lem :
    {D : Type 0} (a : ℕ) (f : Node → Node) (w : World D)
    → modify a f w ≡ done tt (record w { nodes = with_node a (f (w.nodes a)) w.nodes })
unfolding modify with_node
set_lem a f w = refl

module _ {D : Type 0} (calls : Calls D) (cred : Cred) where
  discard_lem :
      (i : ℕ) (v : World D)
      → discard calls cred i v
        ≡ done tt (record v {
          nodes = with_node i (record (v.nodes i) { nlink = 0; changed = true }) v.nodes;
          puts = i ∷ v.puts;
        })
  unfolding discard
  discard_lem i v = rw (set_lem i _ v, put_lem) refl

-- `refs` is the number of entries that name an inode, which neither `ext2_valloc` nor the writing of
-- an inode changes.
module _ {D : Type 0} (calls : Calls D) (cred : Cred) (refs : D → ℕ → ℕ)
    (valloc_keeps : (dvp mode : ℕ) (d : D) (i : ℕ) → refs (calls.valloc dvp mode d).1 i ≡ refs d i)
    (update_keeps : (j : ℕ) (d : D) (i : ℕ) → refs (calls.update j d).1 i ≡ refs d i) (w : World D)
    (dvp : ℕ) where
  -- Where neither `ext2_valloc` nor the writing of an inode changes the entries of a directory,
  -- the parent cannot be written and has fewer than EXT2_LINK_MAX links, and `ext2_valloc` gives
  -- another inode, `ext2_mkdir` ends with that error, the new inode has no link, and the parent
  -- keeps a link that no entry stands for.
  pub mkdir-leaks :
      (mode : ℕ) (cnp : Name) (i : ℕ) (x : Errno)
      → (calls.valloc dvp (dir_mode mode) w.dirs).0 ≡ some i
      → i ≢ dvp
      → (w.nodes dvp).nlink < 32000
      → ((d : D) → (calls.update dvp d).0 ≡ some x)
      → (w' : World D) × (mkdir calls cred mode dvp cnp w ≡ done (refused x) w')
        × ((w'.nodes i).nlink ≡ 0)
        × ((w'.nodes dvp).nlink ≡ (w.nodes dvp).nlink + 1)
        × ((j : ℕ) → refs w'.dirs j ≡ refs w.dirs j)
  unfolding mkdir allocated
  mkdir-leaks mode cnp i x found apart few failure =
      let d = (calls.valloc dvp (dir_mode mode) w.dirs).1 in
      let n = fill calls cred (w.nodes dvp).gid (dir_mode mode) 2 (w.nodes i) in
      let nodes = more dvp (with_node i n w.nodes) in
      let other : dvp ≢ i = λ e. apart (sym e) in
      let n' : Node = record (nodes i) { nlink = 0; changed = true } in
      (
        record {
          nodes = with_node i n' nodes;
          dirs = (calls.update dvp (calls.update i d).1).1;
          puts = i ∷ w.puts;
        },
        rw
            (
              room,
              found,
              allocated,
              set_lem,
              call_lem,
              bump_lem,
              call_lem,
              failure (calls.update i d).1,
              discard_lem calls cred,
            )
            refl,
        with_node_self i n' nodes,
        with_node-other i n' nodes dvp other
            ∙ nlink-more dvp (with_node i n w.nodes)
                (omega (arith, few, with_node-other i n w.nodes dvp other))
            ∙ omega (arith, with_node-other i n w.nodes dvp other),
        λ j.
            update_keeps dvp (calls.update i d).1 j
            ∙ update_keeps i d j
            ∙ valloc_keeps dvp (dir_mode mode) w.dirs j,
      )
    where
      room : leb link_max (w.nodes dvp).nlink ≡ false
      room = ground (arith, few)
