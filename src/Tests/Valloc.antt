-- ===== src/Tests/Valloc.antt =====
-- Inodes taken and given back on the small volume, and a request that must find a block.
use ext2fs.Base.{
  ℕ, zero, suc, ◌<◌, ◌≡◌, ◌≢◌, refl, inl, true, false, [], ◌∷◌, arith, ◌==◌, if◌then◌else◌,
}
use ext2fs.Base.Bits.{isset, setbit, count_clear}
use ext2fs.Geometry.{fsbtodb, ino_to_cg}
use ext2fs.Alloc.State.{Fs, update, done, Cmd}
use ext2fs.Alloc.Node.{node_of, vfree}
use ext2fs.Alloc.Node.Consistent.{HasInodes, IsNodes, i_addr, i_map}
use ext2fs.Alloc.Node.Outcome.{TookNode, locked-IsNodes}
use ext2fs.Alloc.Node.Free.{vfree-nodealloccg}
use ext2fs.Alloc.Request.{alloc}
use ext2fs.Alloc.Request.Full.{Finds, alloc-Finds}
use ext2fs.Alloc.Valloc.{valloc}
use ext2fs.Alloc.Valloc.Served.{IsGetter, VallocServed, begun, valloc-Served}
use ext2fs.InodeConv.{Incore}
use ext2fs.Tests.Volume.{
  volume, volume_sound, mounted, held, quiet, fair, boot, ready, file, nodes, fair_nodes, keeping,
  steady,
}

home : ino_to_cg volume file.number < volume.gcount
unfolding ino_to_cg
home = omega arith

alloc-Finds_example :
    Finds volume volume_sound quiet fair boot steady 0 held
      (alloc volume quiet file 7 5 1024 0 held)
alloc-Finds_example =
    alloc-Finds volume volume_sound quiet fair boot steady (omega arith) file home (omega arith) 7 5
      1024 0 held (inl (omega arith)) ready

-- Inode 3 of the first group, bit 2 of its bitmap, was taken for a directory.
abbrev later : Fs
later = record (mounted false) {
  ficount = 13;
  gd = update held.gd 0 (record (held.gd 0) { nifree = 5; ndirs = 2 });
  disk = update held.disk 8 (7 ∷ []);
}

later_inodes : (cg : ℕ) → cg < 2 → HasInodes volume later cg
unfolding fsbtodb count_clear isset
later_inodes zero c = record { bytes = (omega arith, tt); room = omega arith; count = refl }
later_inodes (suc zero) c = record { bytes = (omega arith, tt); room = omega arith; count = refl }
later_inodes (suc (suc cg)) c = absurd (omega arith)

later_apart : (a b : ℕ) → a < 2 → b < 2 → a ≢ b → i_addr volume later a ≢ i_addr volume later b
unfolding fsbtodb
later_apart a b p q ne e = ground (arith, ne)

later_nodes : IsNodes volume later
later_nodes = record {
  groups = later_inodes;
  total = refl;
  small = omega arith;
  apart = later_apart;
}

took : TookNode volume true (mounted false) later 0 2
unfolding isset fsbtodb setbit
took = record {
  place = omega arith;
  was_free = refl;
  map = refl;
  group = refl;
  total = refl;
  dirs = refl;
  alone = record {
    others = λ a ne. ground (arith, ne);
    place = refl;
    disk = λ blk ne. ground (arith, ne);
  };
  blocks = refl;
}

vfree-nodealloccg_example :
    (fs'' : Fs) × (vfree volume quiet false (node_of volume 0 2) true later ≡ done 0 fs'')
    × IsNodes volume fs''
    × (i_map volume fs'' 0 ≡ i_map volume (mounted false) 0)
    × ((fs''.gd 0).nifree ≡ ((mounted false).gd 0).nifree)
    × ((fs''.gd 0).ndirs ≡ ((mounted false).gd 0).ndirs)
    × (fs''.ficount ≡ (mounted false).ficount)
vfree-nodealloccg_example =
    vfree-nodealloccg volume volume_sound quiet fair_nodes false true (mounted false) later
      (locked-IsNodes volume held false nodes) later_nodes 0 2 (omega arith) took (omega arith) refl
      refl

abbrev stale : Incore
stale = record {
  i_flag = 0;
  i_mode = 33188;
  i_nlink = 0;
  i_uid = 0;
  i_gid = 0;
  i_size = 4096;
  i_blocks = 8;
  i_atime = 0;
  i_mtime = 0;
  i_ctime = 0;
  i_birthtime = 0;
  i_mtimensec = 0;
  i_atimensec = 0;
  i_ctimensec = 0;
  i_birthnsec = 0;
  i_gen = 5;
  append_flag = false;
  immutable_flag = false;
  nodump_flag = false;
  i_db = [];
  i_ib = [];
}

-- There is no vnode for inode 4 to be had.
abbrev vget : ℕ → Cmd (ℕ × Incore)
vget ino = done (if ino == 4 then 12 else 0, stale)

getter : IsGetter volume vget
getter = record {
  got = λ ino fs. (if ino == 4 then 12 else 0, stale);
  later = λ ino fs. fs;
  runs = λ ino fs. refl;
  unlocks = λ ino fs h. h;
  keeps = λ ino fs v. v;
  marks = λ ino fs cg i h. h;
}

valloc-Served_example :
    VallocServed volume volume_sound quiet keeping true
      (begun volume volume_sound quiet keeping true false vget getter file home false 1
        (mounted false))
      false
      vget
      getter
      9
      100
      0
      (valloc volume false quiet vget file true false 1 9 100 0 (mounted false))
valloc-Served_example =
    valloc-Served volume volume_sound quiet keeping true false vget getter file home false 1 9 100 0
      (mounted false) (locked-IsNodes volume held false nodes) refl
