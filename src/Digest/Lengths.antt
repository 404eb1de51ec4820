-- ===== src/Digest/Lengths.antt =====
-- A digest has a fixed number of bytes.
use packter.Base.{ℕ, List, ◌≡◌, refl, length}
use packter.Digest.Sha256.{Regs, output, pt_sha256}
use packter.Digest.Hmac.{pt_hmac_sha256}

length-output : (r : Regs) → length (output r) ≡ 32
unfolding output
length-output r = refl

pub length-pt_sha256 : (d : List ℕ) → length (pt_sha256 d) ≡ 32
unfolding pt_sha256
length-pt_sha256 d = refl

pub length-pt_hmac_sha256 : (key msg : List ℕ) → length (pt_hmac_sha256 key msg) ≡ 32
unfolding pt_hmac_sha256
length-pt_hmac_sha256 key msg = length-pt_sha256 _
