-- ===== src/Alloc.antt =====
-- kext/ext2_alloc.c, the block and inode allocators, with `ext2_clusteracct` of kext/ext2_subr.c.
pub mod Scan
pub mod Since
pub mod State
pub mod Cluster
pub mod Block
pub mod Node
pub mod Hash
pub mod Request
pub mod Policy
pub mod Valloc
