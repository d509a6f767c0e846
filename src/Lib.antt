-- ===== src/Lib.antt =====
-- A model of ext2fs, an ext2/3/4 file system for XNU, and theorems on it. The part modelled is the
-- core of the kernel extension in kext/, and the last pass of fsck: the allocation of blocks and
-- inodes and the cluster summaries, the mapping of a file's blocks to the device, the extent trees,
-- directories, the allocation for files and their truncation, the conversion of inodes, the inode
-- hash, the mount and what an unmount writes back, and the operations on vnodes that change links and
-- attributes.
--
-- How the parts interact. A file that grows asks `ext2_blkpref` for a wish and `ext2_alloc` for a
-- block; that calls `ext2_hashalloc`, which tries the groups in turn with `ext2_alloccg`; this one
-- searches the group's bitmap and keeps the counters and the cluster summary. `ext2_blkfree` goes
-- back. Inodes take the same way through `ext2_nodealloccg` and `ext2_vfree`. The block map reads
-- what was allocated: through the pointers of the inode (`ext2_bmaparray`, on the path that
-- `ext2_getlbns` gives) or through its extent tree (`ext4_bmapext`). The mount computes the sizes that
-- all of them use, and the vnode operations change link counts and directories. The last
-- pass of fsck writes the bitmaps and the counts that the allocation relies on.
--
-- Files:
--   Base            shared names; lists over the native numbers, integers, bits and bitmaps
--   Geometry        include/fs/ext2fs/fs.h and the sizes of include/fs/ext2fs/ext2fs.h
--   Alloc.Since     the states of a run in which a bit of a bitmap may be chosen
--   Alloc.State     the state under `um_lock`, commands on it, the mutex, reads and writes of buffers
--   Alloc.Scan      memcchr, ext2_fls, ext2_mapsearch and the searches in a bitmap
--   Alloc.Cluster   ext2_clusteracct of kext/ext2_subr.c; Alloc.Cluster.Runs: the runs of free blocks
--   Alloc.Block     ext2_alloccg and ext2_blkfree of kext/ext2_alloc.c
--   Alloc.Node      ext2_nodealloccg and ext2_vfree
--   Alloc.Hash      ext2_hashalloc
--   Alloc.Request   ext2_blkpref and ext2_alloc
--   Alloc.Policy    ext2_dirpref and cg_has_sb
--   Alloc.Valloc    ext2_valloc, with ext2_vget_typed of kext/ext2_vfsops.c as a parameter
--   Bmap            ext2_getlbns of kext/ext2_bmap.c; Bmap.Array: ext2_bmaparray, ext2_blockmap,
--                   ext2_blktooff and ext2_offtoblk
--   Extents         the searches of kext/ext2_extents.c and the cache of one extent; Extents.Map:
--                   ext4_bmapext and the call of ext2_alloc in ext4_ext_new_block; Extents.Remove:
--                   ext4_ext_rm_extent; Extents.Offset: ext2_blkatoff of kext/ext2_subr.c
--   Balloc          ext2_balloc of kext/ext2_balloc.c for files without extents
--   Dir             struct ext2fs_direct_2 and ext2_dirbadentry; Dir.Search and Dir.Lookup: ext2_lookup_ino
--                   of kext/ext2_lookup.c; Dir.Enter: ext2_direnter; Dir.Remove: ext2_dirremove,
--                   ext2_dirrewrite, ext2_dirempty and ext2_checkpath; Dir.Content: what a directory holds;
--                   Dir.Create and Dir.Changes: an operation behind the lookup that prepares it
--   Truncate        ext2_indirtrunc and the release of blocks by ext2_truncate of kext/ext2_inode.c;
--                   Truncate.Call: ext2_truncate as a whole; Truncate.Extent: ext2_ext_truncate
--   InodeConv       ext2_ei2i and ext2_i2ei of kext/ext2_inode_cnv.c
--   Ihash           kext/ext2_ihash.c
--   Mount           ext2_check_sb_compat, compute_sb_data and ext2_mountfs of kext/ext2_vfsops.c;
--                   Mount.Statfs: ext2_statfs_internal; Mount.Written: ext2_sbupdate, ext2_cgupdate and
--                   what ext2_unmount writes back
--   Vnops           ext2_remove, ext2_link and ext2_rmdir of kext/ext2_vnops.c; Vnops.Rename: ext2_rename;
--                   Vnops.Create: ext2_makeinode, ext2_symlink and ext2_mkdir; Vnops.Attributes:
--                   ext2_setattr, ext2_chmod and ext2_chown; Vnops.Ledger: what their
--                   steps do to the inodes; Vnops.Links: ext2_link; Vnops.Made: a failed ext2_mkdir
--   Fsck            pass5 of fs/fsck_ext2fs/pass5.c and dofix of fs/fsck_ext2fs/utilities.c
--   Tests           runs on small inputs, and the theorems applied to them
--
-- State. struct m_ext2fs and its superblock are a record of what is fixed at mount (Geometry) and one
-- of what changes (Alloc.State.Fs), in which the buffer cache is a function from device blocks to
-- bytes. A command takes a state to a result and a state, to a panic, or to an error of the mutex,
-- which is taken twice or released while it is free. Counters wrap as their C types do.
--
-- A block of a directory is the list of its entries, each `e2d_reclen` bytes behind the one before, and a
-- directory a function from its blocks to these lists; a lookup leaves its findings in the directory's
-- inode (Dir.Dirnode), where `ext2_direnter`, `ext2_dirremove` and `ext2_dirrewrite` take them up. A
-- truncation keeps the calls of `ext2_blkfree` as a list (Truncate.Cut).
--
-- The vnode operations stand on inodes (Vnops.Node) and on a directory tree of any type, which the calls
-- of the directory operations change (Vnops.Calls). A run keeps the `vnode_put`s in their order and ends
-- with a result or in a panic.
--
-- An access before the start of a bitmap, which C does not define, ends the model's run like a panic
-- (Alloc.Scan, Alloc.Block). Where C keeps a block in 32 signed bits, the model writes this out: the block
-- that `ext2_alloc` gives (Alloc.Request.alloc_done), the pointers of the inode in `ext2_truncate`
-- (Truncate.sign32) and the device blocks of fsck (Fsck.device).
--
-- The kernel is a parameter: whether a read fails, what other threads do to the shared state while a
-- read blocks (Alloc.State.Env), what a read of a block of pointers or of a node of a tree gives,
-- when `vnode_getwithvid` takes its reference, and at a mount what memory and which flags there are
-- (Mount.Kernel). The theorems ask of other threads that they release the mutex and keep bitmaps,
-- counters and cluster summaries in agreement.
--
-- Bounds and fuel. The rehash of `ext2_hashalloc` runs on `gcount` rounds, for its step doubles from 1
-- up to `gcount`. The binary searches run on one round more than there are entries, each of which
-- halves what is left. The lookup in the inode hash restarts as long as `vnode_getwithvid` fails, and
-- has as many rounds as it is given. `ext2_checkpath` runs on one round more than there are directories
-- between the target and the root. The size of the hash is found within as many doublings as
-- there are vnodes. Every other loop is a structural recursion on its counter.
--
-- Not modelled: printing, the assertions under INVARIANTS, `ext2_clusteralloc`, which nothing calls,
-- the insertion into extent trees, the vnodes that `ext2_lookup_ino` gets and `ext2_readdir`, the bytes of
-- files and those of a directory block outside its chain, `ext2_ext_balloc`, `ext2_journal_replay`,
-- which is a mark that it is called, the rest of kext/ext2_vfsops.c (what unmount frees, sync and the vnodes
-- that it makes), the vnode operations that read fields or pass a call on, the passes of
-- fs/fsck_ext2fs/ before pass5, which fill `blockmap` and `statemap`, and the other programs under fs/ and
-- tools/.
pub mod Base
pub mod Geometry
pub mod Alloc
pub mod Balloc
pub mod Bmap
pub mod Dir
pub mod Extents
pub mod Truncate
pub mod Ihash
pub mod Mount
pub mod InodeConv
pub mod Tests
pub mod Vnops
pub mod Fsck
