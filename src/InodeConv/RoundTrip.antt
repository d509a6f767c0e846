-- ===== src/InodeConv/RoundTrip.antt =====
-- An inode that was read from the disk and is written back.
use ext2fs.Base.{
  ℕ, zero, suc, ◌+◌, ◌*◌, ◌/◌, ◌%◌, ◌^◌, ◌<◌, ◌≤◌, ◌≡◌, ◌≢◌, refl, ap, ◌∙◌, sym, Bool, true, false,
  List, [], ◌∷◌, ◌++◌, ◌==◌, if◌then◌else◌, take, drop, arith, Bool-cases, inl, inr,
}
use ext2fs.InodeConv.{
  Dinode, Incore, Features, bit_at, or_bit, bit_if, s_isreg, xtime_to_nsec, nsec_to_xtime,
  blocks_of, flag_of, flags_of, ei2i, i2ei,
}

-- The five flags that the conversion knows.
abbrev known_flags : ℕ → ℕ
known_flags x =
    bit_if (bit_at 5 x) 32
    + bit_if (bit_at 4 x) 16
    + bit_if (bit_at 6 x) 64
    + bit_if (bit_at 12 x) 4096
    + bit_if (bit_at 19 x) 524288

-- An inode in use, with each field in its width, the low two bits of the times' extra words clear, and
-- no count of blocks above 32 bits where the file system has no such counts.
pub record IsPlain (c : Features) (ei : Dinode) : Type 0 where
  pub links : ei.nlink ≢ 0
  pub dtime_zero : ei.dtime ≡ 0
  pub uid_small : ei.uid < 2 ^ 16
  pub gid_small : ei.gid < 2 ^ 16
  pub size_small : ei.size < 2 ^ 32
  pub size_high_small : ei.size_high < 2 ^ 32
  pub nblock_small : ei.nblock < 2 ^ 32
  pub nblock_high_small : ei.nblock_high < 2 ^ 16
  pub no_high : c.has_huge_file ≡ false → ei.nblock_high ≡ 0
  pub known : ei.flags ≡ known_flags ei.flags
  pub ctime_extra_ok : ei.ctime_extra < 2 ^ 32
  pub ctime_extra_ns : ei.ctime_extra % 4 ≡ 0
  pub mtime_extra_ok : ei.mtime_extra < 2 ^ 32
  pub mtime_extra_ns : ei.mtime_extra % 4 ≡ 0
  pub atime_extra_ok : ei.atime_extra < 2 ^ 32
  pub atime_extra_ns : ei.atime_extra % 4 ≡ 0
  pub crtime_extra_ok : ei.crtime_extra < 2 ^ 32
  pub crtime_extra_ns : ei.crtime_extra % 4 ≡ 0

take-drop : (n : ℕ) (l : List ℕ) → take n l ++ drop n l ≡ l
take-drop zero l = refl
take-drop (suc n) [] = refl
take-drop (suc n) (x ∷ l) = ap (λ r. x ∷ r) (take-drop n l)

-- The words of the times survive.
nsec_lem : (x : ℕ) → x < 2 ^ 32 → x % 4 ≡ 0 → nsec_to_xtime (xtime_to_nsec x) ≡ x
nsec_lem x small even = omega arith

time_lem :
    (h : Bool) (x old : ℕ)
    → x < 2 ^ 32
    → x % 4 ≡ 0
    → (if h then nsec_to_xtime (if h then xtime_to_nsec x else old) else x) ≡ x
time_lem true x old small even = nsec_lem x small even
time_lem false x old small even = refl

birth_lem : (h : Bool) (x old : ℕ) → (if h then (if h then x else old) else x) ≡ x
birth_lem true x old = refl
birth_lem false x old = refl

-- The size is split as it was joined.
size_lem :
    (r : Bool) (low high : ℕ)
    → low < 2 ^ 32
    → high < 2 ^ 32
    → ((if r then low + high * 2 ^ 32 else low) % 2 ^ 32 ≡ low)
      × ((if r then (if r then low + high * 2 ^ 32 else low) / 2 ^ 32 % 2 ^ 32 else high) ≡ high)
size_lem true low high p q = (omega arith, omega arith)
size_lem false low high p q = (omega arith, refl)

bit_if-le : (b : Bool) (x : ℕ) → bit_if b x ≤ x
bit_if-le true x = omega arith
bit_if-le false x = omega arith

bit_18 : (low : ℕ) (e : Bool) → low < 2 ^ 18 → bit_at 18 (low + bit_if e 524288) ≡ false
bit_18 low true small = ground arith
bit_18 low false small = ground arith

known_18 : (x : ℕ) → bit_at 18 (known_flags x) ≡ false
known_18 x = bit_18 _ (bit_at 19 x) (
    omega (
      arith,
      bit_if-le (bit_at 5 x) 32,
      bit_if-le (bit_at 4 x) 16,
      bit_if-le (bit_at 6 x) 64,
      bit_if-le (bit_at 12 x) 4096,
    ))

or_16 :
    (x : ℕ)
    → bit_at 16 x ≡ false
    → (bit_at 16 (or_bit 16 x) ≡ true) × (bit_at 17 (or_bit 16 x) ≡ bit_at 17 x)
or_16 x h = rw h (ground arith, ap (λ n. n == 1) (ground arith))

or_17 :
    (x : ℕ)
    → bit_at 17 x ≡ false
    → (bit_at 17 (or_bit 17 x) ≡ true) × (bit_at 16 (or_bit 17 x) ≡ bit_at 16 x)
or_17 x h = rw h (ground arith, ap (λ n. n == 1) (ground arith))

set_both :
    (a b : Bool) (x : ℕ)
    → bit_at 16 x ≡ false
    → bit_at 17 x ≡ false
    → (bit_at 16
          (if b then or_bit 17 (if a then or_bit 16 x else x) else (if a then or_bit 16 x else x))
        ≡ a)
      × (bit_at 17
            (if b then or_bit 17 (if a then or_bit 16 x else x) else (if a then or_bit 16 x else x))
          ≡ b)
set_both false false x p q = (p, q)
set_both true false x p q = let (r, t) = or_16 x p in (r, t ∙ q)
set_both false true x p q = let (r, t) = or_17 x q in (t ∙ p, r)
set_both true true x p q =
    let (r, t) = or_16 x p in let (r', t') = or_17 (or_bit 16 x) (t ∙ q) in (t' ∙ r, r')

module _ (c : Features) (ei : Dinode) (ok : IsPlain c ei) where
  -- No plain inode has EXT4_HUGE_FILE.
  not_huge : bit_at 18 ei.flags ≡ false
  not_huge = ap (bit_at 18) ok.known ∙ known_18 ei.flags

  blocks_lem :
      (blocks_of c ei % 2 ^ 32 ≡ ei.nblock) × (blocks_of c ei / 2 ^ 32 % 2 ^ 16 ≡ ei.nblock_high)
  unfolding blocks_of
  blocks_lem = elim (Bool-cases c.has_huge_file) [
    | inl t ↦
        rw (t, not_huge)
          (
            omega (arith, ok.nblock_small, ok.nblock_high_small),
            omega (arith, ok.nblock_small, ok.nblock_high_small),
          )
    | inr f ↦ rw f (omega (arith, ok.nblock_small), omega (arith, ok.nblock_small, ok.no_high f))
  ]

  flags_lem :
      (flag : ℕ)
      → bit_at 16 flag ≡ false
      → bit_at 17 flag ≡ false
      → (bit_at 16 (flag_of c ei flag) ≡ bit_at 12 ei.flags)
        × (bit_at 17 (flag_of c ei flag) ≡ bit_at 19 ei.flags)
  unfolding flag_of
  flags_lem flag f16 f17 = set_both (bit_at 12 ei.flags) (bit_at 19 ei.flags) flag f16 f17

  -- An inode in use with every field in its width, no flag but the five that are converted, the
  -- low two bits of the extra words of its times clear and a high count of blocks only where the
  -- file system has such counts: read into an in-core inode with IN_E4INDEX and IN_E4EXTENTS clear
  -- and written back, it is the same, every field of it.
  pub i2ei-ei2i :
      (ip : Incore)
      → bit_at 16 ip.i_flag ≡ false
      → bit_at 17 ip.i_flag ≡ false
      → i2ei c (ei2i c ei ip) ei ≡ ei
  unfolding i2ei ei2i flags_of
  i2ei-ei2i ip f16 f17 =
      let links : (ei.nlink == 0) ≡ false = ground (arith, ok.links) in
      let (fi, fe) = flags_lem ip.i_flag f16 f17 in
      let (sl, sh) =
        size_lem (s_isreg ei.mode) ei.size ei.size_high ok.size_small ok.size_high_small in
      let (bl, bh) = blocks_lem in
      let uid : ei.uid % 2 ^ 16 ≡ ei.uid = omega (arith, ok.uid_small) in
      let gid : ei.gid % 2 ^ 16 ≡ ei.gid = omega (arith, ok.gid_small) in
      let mode : (if ei.nlink == 0 then 0 else ei.mode) ≡ ei.mode = rw links refl in
      let dtime : (if ei.nlink == 0 then ei.mtime else 0) ≡ ei.dtime =
        rw links (sym ok.dtime_zero) in
      let flags = sym ok.known in
      simp (
        mode,
        dtime,
        flags,
        fi,
        fe,
        sl,
        sh,
        bl,
        bh,
        uid,
        gid,
        take-drop 12 ei.blocks,
        time_lem c.has_xtime ei.ctime_extra ip.i_ctimensec ok.ctime_extra_ok ok.ctime_extra_ns,
        time_lem c.has_xtime ei.mtime_extra ip.i_mtimensec ok.mtime_extra_ok ok.mtime_extra_ns,
        time_lem c.has_xtime ei.atime_extra ip.i_atimensec ok.atime_extra_ok ok.atime_extra_ns,
        time_lem c.has_xtime ei.crtime_extra ip.i_birthnsec ok.crtime_extra_ok ok.crtime_extra_ns,
        birth_lem c.has_xtime ei.crtime ip.i_birthtime,
      )
