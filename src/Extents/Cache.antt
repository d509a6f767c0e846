-- ===== src/Extents/Cache.antt =====
-- The cache of one extent in struct inode (`i_ext_cache`) of kext/ext2_extents.c.
use ext2fs.Base.{
  ℕ, ◌+◌, ◌*◌, ◌/◌, ◌%◌, ◌^◌, ◌≡◌, ◌<◌, ◌≤◌, refl, true, false, Option, none, some, ltb, leb, ◌==◌,
  if◌then◌else◌, ◌&&◌, ◌⊎◌, ap, sym, arith, Bool-cases, inl, inr,
}
use ext2fs.Extents.{Slot, e_blk, e_len, e_start_hi, e_start_lo}

-- struct ext4_extent_cache
pub record Cache : Type 0 where
  pub ec_start : ℕ
  pub ec_blk : ℕ
  pub ec_len : ℕ
  pub ec_type : ℕ

-- `ext4_ext_put_cache`
unfoldable pub put_cache : Slot → ℕ → Cache
put_cache ep type = record {
  ec_start = e_start_hi ep * 2 ^ 32 + e_start_lo ep;
  ec_blk = e_blk ep;
  ec_len = e_len ep;
  ec_type = type;
}

-- `ext4_ext_in_cache`: the result, and `*ep` when it was written.
unfoldable pub in_cache : Cache → ℕ → ℕ × Option Slot
in_cache ecp lbn =
    if ecp.ec_type == 0
    then (0, none)
    else if leb ecp.ec_blk lbn && ltb lbn ((ecp.ec_blk + ecp.ec_len) % 2 ^ 32)
    then (
      ecp.ec_type,
      some (record {
        w0 = ecp.ec_blk;
        w1 = ecp.ec_len % 2 ^ 16 + ecp.ec_start / 2 ^ 32 % 2 ^ 16 * 2 ^ 16;
        w2 = ecp.ec_start % 2 ^ 32;
      }),
    )
    else (0, none)

slot_eq : (ep : Slot) (b c : ℕ) → b ≡ ep.w1 → c ≡ ep.w2 → ep ≡ record { w0 = ep.w0; w1 = b; w2 = c }
slot_eq ep b c p q = rw (p, q) refl

-- An extent of words below 2^32 that ends below block 2^32, put into the cache with a type that is
-- not EXT4_EXT_CACHE_NO: `ext4_ext_in_cache` of each block that it covers gives that type and the
-- extent, every field of it.
pub in_cache-put_cache :
    (ep : Slot) (type lbn : ℕ)
    → ep.w1 < 2 ^ 32
    → ep.w2 < 2 ^ 32
    → ep.w0 + e_len ep < 2 ^ 32
    → ep.w0 ≤ lbn
    → lbn < ep.w0 + e_len ep
    → 0 < type
    → in_cache (put_cache ep type) lbn ≡ (type, some ep)
unfolding in_cache put_cache
in_cache-put_cache ep type lbn small1 small2 ends from to there =
    let t0 : (type == 0) ≡ false = ground arith in
    let t1 : leb (e_blk ep) lbn ≡ true = ground arith in
    let t2 : ltb lbn ((e_blk ep + e_len ep) % 2 ^ 32) ≡ true = ground arith in
    rw (t0, t1, t2)
      (ap (λ (s : Slot). (type, some s))
        (sym (
          slot_eq ep
            (e_len ep % 2 ^ 16
              + (e_start_hi ep * 2 ^ 32 + e_start_lo ep) / 2 ^ 32 % 2 ^ 16 * 2 ^ 16)
            ((e_start_hi ep * 2 ^ 32 + e_start_lo ep) % 2 ^ 32) (omega arith) (omega arith))))

-- After an extent that ends below block 2^32 was put into the cache, `ext4_ext_in_cache` finds
-- nothing for a block before it or behind it, or for any block if the type put was
-- EXT4_EXT_CACHE_NO.
pub in_cache_outside :
    (ep : Slot) (type lbn : ℕ)
    → ep.w0 + e_len ep < 2 ^ 32
    → (lbn < ep.w0) ⊎ (ep.w0 + e_len ep ≤ lbn) ⊎ (type ≡ 0)
    → in_cache (put_cache ep type) lbn ≡ (0, none)
unfolding in_cache put_cache
in_cache_outside ep type lbn ends out = elim (Bool-cases (type == 0)) [
  | inl t ↦ rw t refl
  | inr f ↦ elim (Bool-cases (leb (e_blk ep) lbn && ltb lbn ((e_blk ep + e_len ep) % 2 ^ 32))) [
    | inl t ↦ absurd (ground arith)
    | inr g ↦ rw (f, g) refl
  ]
]
