-- ===== src/Digest/Hmac.antt =====
-- agent/lib/sha256.c: pt_hmac_sha256.
use Prim.Native.Nat.{bit_xor}
use packter.Base.{ℕ, ◌-◌, List, ◌++◌, map, ltb, if◌then◌else◌, length, take, replicate}
use packter.Digest.Sha256.{pt_sha256}

-- the buffer `kblock`
unfoldable pub key_block : List ℕ → List ℕ
key_block key =
    if ltb 64 (length key)
    then pt_sha256 key ++ replicate 32 0
    else key ++ replicate (64 - length key) 0

-- `cat` has room for 2048 bytes of the message; the rest is not signed.
unfoldable pub hmac_capacity : ℕ
hmac_capacity = 2048

unfoldable pub pt_hmac_sha256 : List ℕ → List ℕ → List ℕ
unfolding key_block hmac_capacity
pt_hmac_sha256 key msg =
    let k = key_block key in
    let inner = pt_sha256 (map (λ b. bit_xor b 0x36) k ++ take hmac_capacity msg) in
    pt_sha256 (map (λ b. bit_xor b 0x5c) k ++ inner)
