-- ===== src/Ihash.antt =====
-- The in-core inode hash of kext/ext2_ihash.c. An inode is a number into a table of inodes, and a
-- chain is the list of those on it, from its head.
pub mod Found
use Prim.Native.Nat.{bit_and, bit_xor}
use ext2fs.Base.{
  ℕ, zero, suc, ◌+◌, ◌-◌, ◌*◌, ◌/◌, ◌^◌, Bool, true, false, Option, none, some, List, [], ◌∷◌, ltb,
  leb, ◌==◌, if◌then◌else◌, ◌&&◌,
}
use ext2fs.Alloc.State.{update}

-- The fields of struct inode that the hash reads; `linked` is whether `i_hash.le_prev` is set.
pub record Hashed : Type 0 where
  pub i_number : ℕ
  pub i_ump : ℕ
  pub i_vnode : Option ℕ
  pub i_vid : ℕ
  pub linked : Bool

-- `ext2_ihashtbl`, which is NULL while there is none, and `ext2_ihashmask`.
pub record Ihash : Type 0 where
  pub there : Bool
  pub mask : ℕ
  pub inodes : ℕ → Hashed
  pub chain : ℕ → List ℕ

-- EXT2_IHASH
unfoldable pub hash_of : Ihash → ℕ → ℕ → ℕ
hash_of t ump ino = bit_and (bit_xor (ump / 2 ^ 8) ino) t.mask

-- The loop of `ext2_ihashinit`, on fuel: the first power of two above `nelem`, by doubling.
unfoldable pub double : ℕ → ℕ → ℕ → ℕ
double zero nelem hashsize = hashsize
double (suc k) nelem hashsize =
    let rest = double k nelem (hashsize * 2) in if leb hashsize nelem then rest else hashsize

-- The number of chains for `desiredvnodes`.
unfoldable pub hash_size : ℕ → ℕ
hash_size desired =
    let nelem : ℕ = if ltb desired 64 then 64 else desired in double (nelem + 1) nelem 1 / 2

-- LIST_FOREACH of `ext2_ihashget`: the vnode and the vid that the walk stops at.
unfoldable pub walk : (ℕ → Hashed) → ℕ → ℕ → List ℕ → Option (ℕ × ℕ)
walk inodes ump ino [] = none
walk inodes ump ino (ip ∷ rest) =
    let after = walk inodes ump ino rest in
    if ((inodes ip).i_number == ino) && ((inodes ip).i_ump == ump)
    then (elim ((inodes ip).i_vnode) [ none ↦ after | some vp ↦ some (vp, (inodes ip).i_vid) ])
    else after

-- The walk of the chain of a key.
unfoldable pub resident : Ihash → ℕ → ℕ → Option (ℕ × ℕ)
resident t ump ino = walk t.inodes ump ino (t.chain (hash_of t ump ino))

-- `world n` is the hash when the walk begins for the time `n`, and `gets n vp vid` whether
-- `vnode_getwithvid` then takes its reference.
module _ (world : ℕ → Ihash) (gets : ℕ → ℕ → ℕ → Bool) (ump ino : ℕ) where
  -- `ext2_ihashget` from its label `restart` on, on fuel: `none` when that runs out, or `*vpp`.
  unfoldable pub attempt : ℕ → ℕ → Option (Option ℕ)
  attempt zero n = none
  attempt (suc k) n =
      let again = attempt k (suc n) in
      elim (resident (world n) ump ino) [
        | none ↦ some none
        | some (vp, vid) ↦ if gets n vp vid then some (some vp) else again
      ]

  unfoldable pub ihashget : ℕ → Option (Option ℕ)
  ihashget fuel = if (world 0).there then attempt fuel 0 else some none

-- `ext2_ihashins`
unfoldable pub ihashins : ℕ → Ihash → Ihash
ihashins ip t =
    let h : ℕ = hash_of t (t.inodes ip).i_ump (t.inodes ip).i_number in
    record t {
      chain = update t.chain h (ip ∷ t.chain h);
      inodes = update t.inodes ip (record (t.inodes ip) { linked = true });
    }

-- A chain less the link of `ip`.
unfoldable pub without : ℕ → List ℕ → List ℕ
without ip [] = []
without ip (x ∷ rest) = let after = without ip rest in if x == ip then rest else x ∷ after

-- `ext2_ihashrem`: LIST_REMOVE takes the inode out of the chain that it was put on.
unfoldable pub ihashrem : ℕ → Ihash → Ihash
ihashrem ip t =
    let h : ℕ = hash_of t (t.inodes ip).i_ump (t.inodes ip).i_number in
    if t.there && (t.inodes ip).linked
    then record t {
      chain = update t.chain h (without ip (t.chain h));
      inodes = update t.inodes ip (record (t.inodes ip) { linked = false });
    }
    else t
