-- ===== src/Digest/Sha256.antt =====
-- agent/lib/sha256.c: the block function and pt_sha256.
use Prim.Native.Nat.{bit_and, bit_xor}
use packter.Base.{ℕ, zero, suc, ◌+◌, ◌-◌, ◌*◌, ◌/◌, ◌%◌, ◌^◌, List, [], ◌∷◌, ◌++◌, get_or}
use packter.Digest.Word.{add32, not32, ror, digest_state}

-- h[8], and the working variables a to hh
pub record Regs : Type 0 where
  pub a : ℕ
  pub b : ℕ
  pub c : ℕ
  pub d : ℕ
  pub e : ℕ
  pub f : ℕ
  pub g : ℕ
  pub h : ℕ

unfoldable pub k_table : List ℕ
k_table =
    0x428a2f98 ∷ 0x71374491 ∷ 0xb5c0fbcf ∷ 0xe9b5dba5 ∷ 0x3956c25b ∷ 0x59f111f1 ∷ 0x923f82a4
    ∷ 0xab1c5ed5 ∷ 0xd807aa98 ∷ 0x12835b01 ∷ 0x243185be ∷ 0x550c7dc3 ∷ 0x72be5d74 ∷ 0x80deb1fe
    ∷ 0x9bdc06a7 ∷ 0xc19bf174 ∷ 0xe49b69c1 ∷ 0xefbe4786 ∷ 0x0fc19dc6 ∷ 0x240ca1cc ∷ 0x2de92c6f
    ∷ 0x4a7484aa ∷ 0x5cb0a9dc ∷ 0x76f988da ∷ 0x983e5152 ∷ 0xa831c66d ∷ 0xb00327c8 ∷ 0xbf597fc7
    ∷ 0xc6e00bf3 ∷ 0xd5a79147 ∷ 0x06ca6351 ∷ 0x14292967 ∷ 0x27b70a85 ∷ 0x2e1b2138 ∷ 0x4d2c6dfc
    ∷ 0x53380d13 ∷ 0x650a7354 ∷ 0x766a0abb ∷ 0x81c2c92e ∷ 0x92722c85 ∷ 0xa2bfe8a1 ∷ 0xa81a664b
    ∷ 0xc24b8b70 ∷ 0xc76c51a3 ∷ 0xd192e819 ∷ 0xd6990624 ∷ 0xf40e3585 ∷ 0x106aa070 ∷ 0x19a4c116
    ∷ 0x1e376c08 ∷ 0x2748774c ∷ 0x34b0bcb5 ∷ 0x391c0cb3 ∷ 0x4ed8aa4a ∷ 0x5b9cca4f ∷ 0x682e6ff3
    ∷ 0x748f82ee ∷ 0x78a5636f ∷ 0x84c87814 ∷ 0x8cc70208 ∷ 0x90befffa ∷ 0xa4506ceb ∷ 0xbef9a3f7
    ∷ 0xc67178f2 ∷ []

-- four bytes as a big-endian word
unfoldable pub word_at : List ℕ → ℕ → ℕ
word_at p i =
    get_or p i 0 * 2 ^ 24
    + get_or p (i + 1) 0 * 2 ^ 16
    + get_or p (i + 2) 0 * 2 ^ 8
    + get_or p (i + 3) 0

-- w[0..15], from n words at offset i
unfoldable pub load_words : ℕ → ℕ → List ℕ → List ℕ
unfolding word_at
load_words zero i p = []
load_words (suc n) i p = word_at p i ∷ load_words n (i + 4) p

-- w[i] for the next n values of i
unfoldable pub extend : ℕ → ℕ → List ℕ → List ℕ
extend zero i w = w
extend (suc n) i w =
    let w15 = get_or w (i - 15) 0 in
    let w2 = get_or w (i - 2) 0 in
    let s0 = bit_xor (bit_xor (ror w15 7) (ror w15 18)) (w15 / 2 ^ 3) in
    let s1 = bit_xor (bit_xor (ror w2 17) (ror w2 19)) (w2 / 2 ^ 10) in
    extend n (i + 1)
      (w ++ (add32 (add32 (add32 (get_or w (i - 16) 0) s0) (get_or w (i - 7) 0)) s1 ∷ []))

-- one round, with K[i] and w[i]
unfoldable pub round : ℕ → ℕ → Regs → Regs
round k w r =
    let s1 = bit_xor (bit_xor (ror r.e 6) (ror r.e 11)) (ror r.e 25) in
    let ch = bit_xor (bit_and r.e r.f) (bit_and (not32 r.e) r.g) in
    let t1 = add32 (add32 (add32 (add32 r.h s1) ch) k) w in
    let s0 = bit_xor (bit_xor (ror r.a 2) (ror r.a 13)) (ror r.a 22) in
    let maj = bit_xor (bit_xor (bit_and r.a r.b) (bit_and r.a r.c)) (bit_and r.b r.c) in
    let t2 = add32 s0 maj in
    record {
      a = add32 t1 t2;
      b = r.a;
      c = r.b;
      d = r.c;
      e = add32 r.d t1;
      f = r.e;
      g = r.f;
      h = r.g;
    }

unfoldable pub rounds : List ℕ → List ℕ → Regs → Regs
unfolding round
rounds [] ws r = r
rounds (k ∷ ks) [] r = r
rounds (k ∷ ks) (w ∷ ws) r = rounds ks ws (round k w r)

-- sha256_block
unfoldable pub block : Regs → List ℕ → Regs
unfolding rounds extend load_words k_table
block r p =
    let s = rounds k_table (extend 48 16 (load_words 16 0 p)) r in
    record {
      a = add32 r.a s.a;
      b = add32 r.b s.b;
      c = add32 r.c s.c;
      d = add32 r.d s.d;
      e = add32 r.e s.e;
      f = add32 r.f s.f;
      g = add32 r.g s.g;
      h = add32 r.h s.h;
    }

-- the four bytes of a word, highest first
unfoldable pub be_bytes : ℕ → List ℕ → List ℕ
be_bytes x rest = x / 2 ^ 24 % 256 ∷ x / 2 ^ 16 % 256 ∷ x / 2 ^ 8 % 256 ∷ x % 256 ∷ rest

-- tail[taillen - 1 - i] for i = 7 down to 0
unfoldable pub be_len : ℕ → List ℕ
be_len bits =
    bits / 2 ^ 56 % 256
    ∷ bits / 2 ^ 48 % 256
    ∷ bits / 2 ^ 40 % 256
    ∷ bits / 2 ^ 32 % 256
    ∷ bits / 2 ^ 24 % 256
    ∷ bits / 2 ^ 16 % 256
    ∷ bits / 2 ^ 8 % 256
    ∷ bits % 256
    ∷ []

unfoldable pub initial : Regs
initial = record {
  a = 0x6a09e667;
  b = 0xbb67ae85;
  c = 0x3c6ef372;
  d = 0xa54ff53a;
  e = 0x510e527f;
  f = 0x9b05688c;
  g = 0x1f83d9ab;
  h = 0x5be0cd19;
}

unfoldable pub output : Regs → List ℕ
unfolding be_bytes
output r = be_bytes r.a (
    be_bytes r.b
      (be_bytes r.c (be_bytes r.d (be_bytes r.e (be_bytes r.f (be_bytes r.g (be_bytes r.h [])))))))

unfoldable pub pt_sha256 : List ℕ → List ℕ
unfolding digest_state block be_len initial output
pt_sha256 d = output (digest_state block be_len initial d)
