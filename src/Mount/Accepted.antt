-- ===== src/Mount/Accepted.antt =====
-- What a mount that succeeds went through, and the journal that it never replays.
use ext2fs.Base.{
  ℕ, ◌/◌, ◌%◌, ◌≤◌, ◌<◌, ◌≡◌, ◌≢◌, refl, Bool, true, false, not, ◌&&◌, ◌||◌, Option, some, List,
  ltb, arith,
}
use ext2fs.Base.Bits.{bit_and_third, bit_and-four}
use ext2fs.Mount.Feature
use ext2fs.Mount.{
  Superblock, Sizes, Mounted, Kernel, Outcome, fine, error, eperm, enomem, ◌>>=◌, unless, compat,
  unclean, mounted, mountfs, check_sb_compat, inode_size, desc_size, read_table, block_size,
  table_block, table_blocks, sizes_of, compute_sb_data, geometry_of, without, has,
}

pub >>=-eq-fine :
    {A B : Type 0} (first : Outcome A) (next : A → Outcome B) {result : B}
    → (first >>= next) ≡ fine result
    → (value : A) × (first ≡ fine value) × (next value ≡ fine result)
>>=-eq-fine (error why) next both = cc
>>=-eq-fine (fine value) next both = (value, refl, both)

pub unless-eq-fine :
    {B : Type 0} (stop : Bool) (why : _) (next : Outcome B) {result : B}
    → (unless stop why >>= λ _. next) ≡ fine result
    → (stop ≡ false) × (next ≡ fine result)
unless-eq-fine true why next both = cc
unless-eq-fine false why next both = (refl, both)

compat-eq-fine :
    (answer : ℕ) {m : Outcome Mounted} {r : Mounted}
    → (compat answer >>= λ _. m) ≡ fine r
    → (answer ≡ 0) × (m ≡ fine r)
compat-eq-fine answer h = ground arith

module _ (k : Kernel) (ronly : Bool) (es : Superblock) (m : Mounted)
    (found : k.superblock ≡ some es) (success : mountfs k ronly ≡ fine m) where
  -- A mount that succeeds is the result of its steps.
  pub mountfs-steps :
      (check_sb_compat es ronly ≡ 0)
      × ((unclean es && not (ronly || k.force)) ≡ false)
      × (not k.memory ≡ false)
      × (not k.summaries ≡ false)
      × ((s : Sizes) × (compute_sb_data k.bread es ≡ fine s) × (m ≡ mounted k ronly es s))
  unfolding mountfs
  mountfs-steps =
      let (sound, a) = compat-eq-fine (check_sb_compat es ronly) opened in
      let (clean, b) = unless-eq-fine (unclean es && not (ronly || k.force)) _ _ a in
      let (memory, c) = unless-eq-fine (not k.memory) _ _ b in
      let (s, computed, d) = >>=-eq-fine (compute_sb_data k.bread es) _ c in
      let (summaries, e) = unless-eq-fine (not k.summaries) _ _ d in
      (sound, clean, memory, summaries, (s, computed, cc))
    where
      opened :
          (compat (check_sb_compat es ronly) >>= λ _.
          unless (unclean es && not (ronly || k.force)) eperm >>= λ _.
          unless (not k.memory) enomem >>= λ _. compute_sb_data k.bread es >>= λ s.
          unless (not k.summaries) enomem >>= λ _. fine (mounted k ronly es s))
          ≡ fine m
      opened = rw found at success

mountfs_build :
    (k : Kernel) (ronly : Bool) (es : Superblock) (s : Sizes)
    → k.superblock ≡ some es
    → check_sb_compat es ronly ≡ 0
    → (unclean es && not (ronly || k.force)) ≡ false
    → not k.memory ≡ false
    → not k.summaries ≡ false
    → compute_sb_data k.bread es ≡ fine s
    → mountfs k ronly ≡ fine (mounted k ronly es s)
unfolding mountfs
mountfs_build k ronly es s found sound clean memory summaries computed =
    rw (found, sound, clean, memory, computed, ◌>>=◌, summaries) refl

-- What the superblock of a volume that can be mounted satisfies.
pub check_sb_compat-sizes :
    (es : Superblock) (ronly : Bool)
    → check_sb_compat es ronly ≡ 0
    → (es.log_bsize ≤ 2) × (0 < es.bpg) × (es.rev ≤ 1)
unfolding check_sb_compat
check_sb_compat-sizes es ronly h = ground arith

supported :
    (es : Superblock)
    → es.rev ≢ 0
    → check_sb_compat es false ≡ 0
    → without es.features_incompat Feature.incompat_supp ≡ 0
unfolding check_sb_compat
supported es rev h = ground arith

no_recover :
    (features : ℕ)
    → without features Feature.incompat_supp ≡ 0
    → has features Feature.recover ≡ false
no_recover features h =
    let digit : features / 4 % 2 ≡ 0 = omega (arith, bit_and_third features 4294966701, h) in
    ground (arith, bit_and-four features, digit)

-- `ext2_mountfs` of a volume of a revision other than 0 for writing, if it succeeds, does not call
-- `ext2_journal_replay`.
pub mountfs-replays :
    (k : Kernel) (es : Superblock) (m : Mounted)
    → k.superblock ≡ some es
    → es.rev ≢ 0
    → mountfs k false ≡ fine m
    → m.replays ≡ false
mountfs-replays k es m found rev success =
    let (sound, _, _, _, (s, _, e)) = mountfs-steps k false es m found success in
    rw e (no_recover es.features_incompat (supported es rev sound))

-- The steps put together again.
compute_sb_data_build :
    (bread : ℕ → Option (List ℕ)) (es : Superblock) (isize gdsize : ℕ) (gd : List ℕ)
    → inode_size es (block_size es) ≡ fine isize
    → (has es.features_rocompat Feature.extra_isize && ltb isize 156) ≡ false
    → desc_size es (block_size es) ≡ fine gdsize
    → read_table bread (table_block es) (table_blocks es gdsize) 0 ≡ fine gd
    → compute_sb_data bread es ≡ fine (sizes_of es isize gdsize gd)
unfolding compute_sb_data
compute_sb_data_build bread es isize gdsize gd sized extra described table =
    rw (sized, ◌>>=◌, extra, described, table) refl

module _ (bread : ℕ → Option (List ℕ)) (es : Superblock) (s : Sizes)
    (success : compute_sb_data bread es ≡ fine s) where
  -- The steps of `compute_sb_data` that succeeds.
  pub compute_sb_data-steps :
      (isize gdsize : ℕ) × (gd : List ℕ) × (inode_size es (block_size es) ≡ fine isize)
      × ((has es.features_rocompat Feature.extra_isize && ltb isize 156) ≡ false)
      × (desc_size es (block_size es) ≡ fine gdsize)
      × (read_table bread (table_block es) (table_blocks es gdsize) 0 ≡ fine gd)
      × (s ≡ sizes_of es isize gdsize gd)
  unfolding compute_sb_data
  compute_sb_data-steps =
      let (isize, sized, a) = >>=-eq-fine (inode_size es (block_size es)) _ success in
      let (extra, b) =
        unless-eq-fine (has es.features_rocompat Feature.extra_isize && ltb isize 156) _ _ a in
      let (gdsize, described, c) = >>=-eq-fine (desc_size es (block_size es)) _ b in
      let (gd, table, d) =
        >>=-eq-fine (read_table bread (table_block es) (table_blocks es gdsize) 0) _ c in
      (isize, gdsize, gd, sized, extra, described, table, cc)

  -- It does not look at the inodes per group.
  compute_sb_data-ipg :
      (s' : Sizes) × (compute_sb_data bread (record es { ipg = 0 }) ≡ fine s') × (s'.ipg ≡ 0)
  unfolding inode_size desc_size
  compute_sb_data-ipg =
      let (isize, gdsize, gd, sized, extra, described, table, _) = compute_sb_data-steps in
      (
        sizes_of (record es { ipg = 0 }) isize gdsize gd,
        compute_sb_data_build bread (record es { ipg = 0 }) isize gdsize gd sized extra described
            table,
        refl,
      )

-- If `ext2_mountfs` accepts a superblock, it accepts the same one with no inodes in a group, and
-- the divisor of `ino_to_cg` is then 0.
pub mountfs-ipg :
    (k : Kernel) (ronly : Bool) (es : Superblock) (m : Mounted)
    → k.superblock ≡ some es
    → mountfs k ronly ≡ fine m
    → (m' : Mounted) × (mountfs (record k { superblock = some (record es { ipg = 0 }) }) ronly
        ≡ fine m')
      × ((geometry_of m').ipg ≡ 0)
unfolding check_sb_compat
mountfs-ipg k ronly es m found success =
    let (sound, clean, memory, summaries, (s, computed, _)) =
      mountfs-steps k ronly es m found success in
    let es' = record es { ipg = 0 } in
    let (s', computed', none_left) = compute_sb_data-ipg k.bread es s computed in
    (
      mounted k ronly es' s',
      mountfs_build (record k { superblock = some es' }) ronly es' s' refl sound clean memory
          summaries computed',
      none_left,
    )
