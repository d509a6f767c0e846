-- ===== src/Tests/Mounts.antt =====
-- The mount of a volume of three groups with blocks of 1024 bytes.
use ext2fs.Base.{
  Bool, sym, ◌∙◌, ℕ, zero, suc, ◌+◌, ◌<◌, ◌≤◌, ◌⊎◌, ◌↔◌, inl, inr, not, ◌==◌, ◌≡◌, refl, true,
  false, some, replicate, arith,
}
use ext2fs.Geometry.{IsSound}
use ext2fs.Mount.{
  Superblock, Mounted, Kernel, fine, error, erofs, eperm, mountfs, mounted, check_sb_compat,
  compute_sb_data, inode_size, desc_size, read_table, sizes_of, geometry_of,
}
use ext2fs.Mount.Sized.{Fits, mountfs-Fits}
use ext2fs.Alloc.Policy.{cg_has_sb, powers}
use ext2fs.Alloc.Policy.Sparse.{IsSparse, cg_has_sb-IsSparse}
use ext2fs.Mount.Written.{Disk, Device, marked_clean, unmount}
use ext2fs.Mount.Written.Again.{unmount-read_table}
use ext2fs.Base.{[], none}
use ext2fs.Mount.{table_block}
use ext2fs.Mount.Statfs.{Statfs, statfs, HasCopy, metadata, statfs-metadata}
use ext2fs.Mount.Sound.{mountfs-IsSound}

abbrev volume : Superblock
volume = record {
  icount = 3072;
  bcount = 20000;
  rbcount = 1000;
  fbcount = 15000;
  ficount = 3000;
  first_dblock = 1;
  log_bsize = 0;
  log_fsize = 0;
  bpg = 8192;
  fpg = 8192;
  ipg = 1024;
  magic = 0xef53;
  state = 1;
  rev = 1;
  first_ino = 11;
  inode_size = 128;
  features_compat = 0x10;
  features_incompat = 0x2;
  features_rocompat = 0x3;
  desc_size = 0;
  reserved_ngdb = 4;
}

abbrev kernel : Superblock → Kernel
kernel es = record {
  force = false;
  maxphys = 131072;
  memory = true;
  summaries = true;
  superblock = some es;
  bread = λ b. some (replicate 128 2);
}

abbrev result : Mounted
result = mounted (kernel volume) false volume (sizes_of volume 128 32 (replicate 128 2))

mounts : mountfs (kernel volume) false ≡ fine result
unfolding mountfs check_sb_compat compute_sb_data inode_size desc_size read_table
mounts = refl

-- A journal to recover is a mount for reading only.
journal_refused : mountfs (kernel (record volume { features_incompat = 0x6 })) false ≡ error erofs
unfolding mountfs check_sb_compat
journal_refused = refl

unclean_refused : mountfs (kernel (record volume { state = 0 })) false ≡ error eperm
unfolding mountfs check_sb_compat
unclean_refused = refl

mountfs-Fits_example : Fits result
mountfs-Fits_example =
    mountfs-Fits (kernel volume) false volume result refl (omega arith, omega arith) mounts

mountfs-IsSound_example : IsSound (geometry_of result)
mountfs-IsSound_example =
    mountfs-IsSound (kernel volume) false volume result refl (omega arith, omega arith)
      (record {
        same_group_size = refl;
        whole_bytes = refl;
        bpg_small = omega arith;
        ipg_bytes = refl;
        ipg_pos = omega arith;
        ipg_small = omega arith;
        inodes_fit = omega arith;
      })
      mounts

-- Of the three groups the first two have a copy of the superblock.
abbrev copy : ℕ → Bool
copy cg = not (cg == 2)

no_copy : cg_has_sb 2 ≡ false
unfolding cg_has_sb powers
no_copy = refl

tells : (cg : ℕ) → cg < 3 → (copy cg ≡ true) ↔ HasCopy result.sizes volume cg
unfolding HasCopy IsSparse
tells zero h = ((λ t. inr (inl refl)), λ c. refl)
tells (suc zero) h = ((λ t. inr (inr (0, inl refl))), λ c. refl)
tells (suc (suc zero)) h = (
  (λ t. absurd (grind (arith, t))),
  λ c. elim c [
    | inl f ↦ absurd (grind (arith, f))
    | inr is ↦
        let p : true ≡ false = sym ((cg_has_sb-IsSparse 2 (omega arith)).1 is) ∙ no_copy in
        absurd (grind (arith, p))
  ],
)
tells (suc (suc (suc cg))) h = absurd (omega (arith, h))

statfs-metadata_example :
    (s : Statfs) × (statfs result.sizes volume ≡ fine s)
    × (s.f_blocks + 1 + 402 ≡ 20000)
    × ((s.f_bavail + 1000 ≡ s.f_bfree) ⊎ ((s.f_bavail ≡ 0) × (s.f_bfree ≤ 1000)))
unfolding metadata
statfs-metadata_example =
    statfs-metadata result.sizes volume copy tells (omega arith) refl (omega arith) (omega arith)

-- The volume with a whole block of descriptors, and a device that takes every write.
abbrev full : Mounted
full = mounted (kernel volume) false volume (sizes_of volume 128 32 (replicate 1024 2))

abbrev device : Device
device = record { buffer = λ a. true; lands = λ a. true }

abbrev empty_disk : Disk
empty_disk = record { sb = volume; block = λ a. [] }

unmount-read_table_example :
    let d' = (unmount device none full empty_disk).1 in
    (d'.sb ≡ marked_clean device full)
    × (read_table (λ a. some (d'.block a)) (table_block full.es) full.sizes.gdbcount 0
        ≡ fine full.sizes.gd)
unmount-read_table_example =
    unmount-read_table device (λ a. refl) (λ a. refl) full refl refl refl refl empty_disk refl
