-- ===== src/Tests.antt =====
-- Runs of the models on small inputs, and the theorems applied to them.
mod Volume
mod Alloc
mod Requests
mod Valloc
mod Bmap
mod Dirs
mod Extents
mod Inodes
mod Links
mod Mounts
mod Checked
mod Clusters
mod Truncated
mod Grown
