-- ===== src/Extents/Tree.antt =====
-- `ext4_ext_find_extent` and `ext4_bmapext` on a tree whose nodes are in order.
use ext2fs.Base.{
  ℕ, zero, suc, ◌+◌, ◌-◌, ◌*◌, ◌%◌, ◌^◌, ◌≡◌, ◌<◌, ◌≤◌, refl, ap, true, false, Option, some, leb,
  ◌==◌, arith,
}
use ext2fs.Geometry.{Geometry}
use ext2fs.Geometry.Laws.{product_pos}
use ext2fs.Bmap.Array.{mapped}
use ext2fs.Extents.{
  Slot, Table, at, eh_magic, eh_depth, eh_ecount, magic, ei_leaf, e_blk, e_start_hi, e_start_lo,
  found, descend, find_extent,
}
use ext2fs.Extents.Search.{IsSorted, IsLast, binsearch_lem}
use ext2fs.Extents.Map.{device_block, mapped_bits, bmapext}

abbrev pub entries : Table → ℕ
entries t = eh_ecount (at t 0)

wrap_rest : (a m : ℕ) → a < 2 ^ 64 → (a + m * 2 ^ 64) % 2 ^ 64 ≡ a
wrap_rest a m small = omega arith

wrap_mul : (x m : ℕ) → x * m < 2 ^ 64 → (x + 2 ^ 64) * m % 2 ^ 64 ≡ x * m
wrap_mul x m small =
    let split : (x + 2 ^ 64) * m ≡ x * m + m * 2 ^ 64 = grind arith in
    rw split (wrap_rest (x * m) m small)

module _ (g : Geometry) where
  mapped_at : (bits a : ℕ) → bits ≡ a → 0 < a → a < 2 ^ 63 → mapped_bits g bits ≡ mapped (some a) 0
  unfolding mapped_bits
  mapped_at bits a e pos small =
      let t1 : (a == 0) ≡ false = ground arith in
      let t2 : leb (2 ^ 63) a ≡ false = ground arith in rw e (rw (t1, t2) refl)

pow_pos : (s : ℕ) → 0 < 2 ^ s
pow_pos zero = omega arith
pow_pos (suc s) = omega (arith, pow_pos s)

device_block-eq :
    (g : Geometry) (ep : Slot) (lbn start : ℕ)
    → e_blk ep ≤ lbn
    → start ≡ e_start_hi ep * 2 ^ 32 + e_start_lo ep
    → (start + (lbn - e_blk ep)) * 2 ^ g.fsbtodb_shift < 2 ^ 64
    → device_block g ep lbn ≡ (start + (lbn - e_blk ep)) * 2 ^ g.fsbtodb_shift
unfolding device_block
device_block-eq g ep lbn start after is small =
    let place : lbn + (e_start_hi ep * 2 ^ 32 + e_start_lo ep) + 2 ^ 64 - e_blk ep
        ≡ (start + (lbn - e_blk ep)) + 2 ^ 64 =
      omega arith in
    rw place (wrap_mul (start + (lbn - e_blk ep)) (2 ^ g.fsbtodb_shift) small)

module _ (read : ℕ → Option Table) (lbn : ℕ) where
  -- From a node of depth `i` the indices that are the last to begin at `lbn` or before lead to `leaf`,
  -- through nodes that can be read and are in order.
  unfoldable pub LeadsTo : ℕ → Table → Table → Type 0
  LeadsTo zero t leaf = t ≡ leaf
  LeadsTo (suc i) t leaf =
      IsSorted t (entries t)
      × ((p : ℕ) × (1 ≤ p)
          × IsLast t lbn (entries t) p
          × ((below : Table) × (read (ei_leaf (at t p)) ≡ some below) × LeadsTo i below leaf))

  descend_lem :
      (i : ℕ) (t leaf : Table) (q : ℕ)
      → LeadsTo i t leaf
      → IsSorted leaf (entries leaf)
      → 1 ≤ q
      → IsLast leaf lbn (entries leaf) q
      → descend read lbn i t ≡ some (found (record { header = leaf; ext = some q; depth = 0 }))
  unfolding descend LeadsTo
  descend_lem zero t leaf q path sorted one last =
      let (e, _) = binsearch_lem leaf lbn q sorted one last in rw path (rw (e, descend) refl)
  descend_lem (suc i) t leaf q (in_order, (p, first, here, (below, read_ok, path))) sorted one
        last =
      let (_, e) = binsearch_lem t lbn p in_order first here in
      rw (e, read_ok, descend) (descend_lem i below leaf q path sorted one last)

  -- In a tree with the right magic number whose nodes on the way to a leaf can be read and are in
  -- order, `ext4_ext_find_extent` ends at the extent of that leaf that is the last to begin at the
  -- block or before.
  pub find_extent_lem :
      (root leaf : Table) (q : ℕ)
      → eh_magic (at root 0) ≡ magic
      → LeadsTo (eh_depth (at root 0)) root leaf
      → IsSorted leaf (entries leaf)
      → 1 ≤ q
      → IsLast leaf lbn (entries leaf) q
      → find_extent read lbn root ≡ some (found (record { header = leaf; ext = some q; depth = 0 }))
  unfolding find_extent
  find_extent_lem root leaf q good path sorted one last =
      let t : (eh_magic (at root 0) == magic) ≡ true = ground arith in
      rw (t, find_extent) (descend_lem (eh_depth (at root 0)) root leaf q path sorted one last)

  -- For a block whose extent, the last of its leaf to begin at the block or before, is reached
  -- through a tree whose nodes can be read and are in order, with a physical start that is not 0
  -- and a device block below 2^63, `ext4_bmapext` gives the device block as far behind the
  -- extent's start as the block is behind its first.
  pub bmapext_lem :
      (g : Geometry) (root leaf : Table) (q : ℕ)
      → eh_magic (at root 0) ≡ magic
      → LeadsTo (eh_depth (at root 0)) root leaf
      → IsSorted leaf (entries leaf)
      → 1 ≤ q
      → IsLast leaf lbn (entries leaf) q
      → (start : ℕ) → start ≡ e_start_hi (at leaf q) * 2 ^ 32 + e_start_lo (at leaf q)
      → 0 < start
      → (start + (lbn - e_blk (at leaf q))) * 2 ^ g.fsbtodb_shift < 2 ^ 63
      → bmapext g read root lbn
        ≡ some (mapped (some ((start + (lbn - e_blk (at leaf q))) * 2 ^ g.fsbtodb_shift)) 0)
  unfolding bmapext mapped_bits device_block
  bmapext_lem g root leaf q good path sorted one last start is pos small =
      let e = find_extent_lem root leaf q good path sorted one last in
      let after : e_blk (at leaf q) ≤ lbn = last.1 q one (omega arith) in
      rw (e, bmapext)
        (ap some (
          mapped_at g (device_block g (at leaf q) lbn)
            ((start + (lbn - e_blk (at leaf q))) * 2 ^ g.fsbtodb_shift)
            (device_block-eq g (at leaf q) lbn start after is (omega arith))
            (product_pos (start + (lbn - e_blk (at leaf q))) (2 ^ g.fsbtodb_shift) (omega arith)
              (pow_pos g.fsbtodb_shift))
            small))
