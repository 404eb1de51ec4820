-- ===== src/Digest.antt =====
-- The block loop and the padding that pt_sha256 (agent/lib/sha256.c) and pt_md5 (agent/lib/md5.c)
-- share, over the block function and the order of the length's bytes.
pub mod Word
pub mod Padding
pub mod Sha256
pub mod Md5
pub mod Hmac
pub mod Lengths
mod Runs
