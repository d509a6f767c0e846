-- ===== src/Dir/Create.antt =====
-- `ext2_direnter` behind the lookup that finds room for it.
use ext2fs.Base.{ℕ, ◌+◌, ◌*◌, ◌^◌, ◌≤◌, ◌<◌, ◌≡◌, ◌⊎◌, true, false, some, List, [], ◌==◌, length}
use ext2fs.Dir.{Entry, Dirnode, Blocks, ejustreturn, dir_rec_len}
use ext2fs.Dir.Chain.{room, live}
use ext2fs.Dir.Content.{Formed}
use ext2fs.Dir.Search.{Slot}
use ext2fs.Dir.Search.Places.{Reported}
use ext2fs.Dir.Lookup.{Wanted, Volume, block_count, op_create, refused, lookup_ino, sought}
use ext2fs.Dir.Lookup.Names.{Names}
use ext2fs.Dir.Enter.{Calls}
use ext2fs.Dir.Enter.Slot.{Enters, Extends}

-- `enduseful` is behind every entry in use of the first `b` blocks.
abbrev pub Covers : ℕ → Blocks → ℕ → ℕ → Type 0
Covers bsize blocks b useful =
    (i : ℕ)
    → i < b
    → useful ≤ i * bsize
    → (chain : List Entry) → blocks i ≡ some chain
    → live chain ≡ []

module _ (v : Volume) (w : Wanted) (dp : Dirnode) (blocks : Blocks) (pos : 0 < v.bsize)
    (small : v.bsize < 2 ^ 16) (quick : v.dirchk ≡ false)
    (formed : Formed v.bsize blocks (block_count v dp)) (last : w.islastcn ≡ true)
    (op : w.nameiop ≡ op_create) where
  abbrev Kept : ℕ → ℕ → Slot → Type 0
  Kept b useful s =
      Reported (sought v w).needed v.bsize (block_count v dp) blocks b s
      × (useful ≤ b * v.bsize)
      × Covers v.bsize blocks b useful

  module _ (calls : Calls) (ino mode : ℕ) (used : (ino == 0) ≡ false) where
    -- The new entry goes into a block, or into a new block if every block has less room.
    abbrev pub Goes : Dirnode → Type 0
    Goes dp' =
        Enters v.bsize (block_count v dp) calls ino mode w.name dp' blocks
        ⊎ (Extends v.bsize (block_count v dp) calls ino mode w.name dp' blocks small used formed
            × ((i : ℕ)
                → i < block_count v dp
                → (chain : List Entry) → blocks i ≡ some chain
                → room chain < dir_rec_len (length w.name)))

    abbrev pub Creates : Type 0
    Creates =
        (dp' : Dirnode) × (lookup_ino v w dp blocks ≡ refused ejustreturn dp')
        × Covers v.bsize blocks (block_count v dp) dp'.endoff
        × (dp'.offset + dp'.count ≤ dp'.endoff)
        × Goes dp'
