-- ===== src/PrefixDisk.antt =====
-- `DiskPrefixStore` of python/maxtoken/mlx_backend/prefix_disk.py: block snapshots on the SSD.
-- Each method that the lock guards is one step. A tensor dictionary is its number of bytes, the
-- directory the sizes of its `.kv` and `.rec` files by block hash, and a hash a number.
pub mod Chain
pub mod Store
pub mod Room
pub mod Resume
pub mod Observe
pub mod Writer
pub mod Steps
