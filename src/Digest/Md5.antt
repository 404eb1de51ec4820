-- ===== src/Digest/Md5.antt =====
-- agent/lib/md5.c: the block function and pt_md5.
use Prim.Native.Nat.{bit_and, bit_or, bit_xor}
use packter.Base.{ℕ, ◌+◌, ◌*◌, ◌/◌, ◌%◌, ◌^◌, List, [], ◌∷◌, get_or, ltb, if◌then◌else◌}
use packter.Digest.Word.{add32, not32, rol, digest_state}

-- h[4], and the working variables a to d
pub record Regs : Type 0 where
  pub a : ℕ
  pub b : ℕ
  pub c : ℕ
  pub d : ℕ

unfoldable pub k_table : List ℕ
k_table =
    0xd76aa478 ∷ 0xe8c7b756 ∷ 0x242070db ∷ 0xc1bdceee ∷ 0xf57c0faf ∷ 0x4787c62a ∷ 0xa8304613
    ∷ 0xfd469501 ∷ 0x698098d8 ∷ 0x8b44f7af ∷ 0xffff5bb1 ∷ 0x895cd7be ∷ 0x6b901122 ∷ 0xfd987193
    ∷ 0xa679438e ∷ 0x49b40821 ∷ 0xf61e2562 ∷ 0xc040b340 ∷ 0x265e5a51 ∷ 0xe9b6c7aa ∷ 0xd62f105d
    ∷ 0x02441453 ∷ 0xd8a1e681 ∷ 0xe7d3fbc8 ∷ 0x21e1cde6 ∷ 0xc33707d6 ∷ 0xf4d50d87 ∷ 0x455a14ed
    ∷ 0xa9e3e905 ∷ 0xfcefa3f8 ∷ 0x676f02d9 ∷ 0x8d2a4c8a ∷ 0xfffa3942 ∷ 0x8771f681 ∷ 0x6d9d6122
    ∷ 0xfde5380c ∷ 0xa4beea44 ∷ 0x4bdecfa9 ∷ 0xf6bb4b60 ∷ 0xbebfbc70 ∷ 0x289b7ec6 ∷ 0xeaa127fa
    ∷ 0xd4ef3085 ∷ 0x04881d05 ∷ 0xd9d4d039 ∷ 0xe6db99e5 ∷ 0x1fa27cf8 ∷ 0xc4ac5665 ∷ 0xf4292244
    ∷ 0x432aff97 ∷ 0xab9423a7 ∷ 0xfc93a039 ∷ 0x655b59c3 ∷ 0x8f0ccc92 ∷ 0xffeff47d ∷ 0x85845dd1
    ∷ 0x6fa87e4f ∷ 0xfe2ce6e0 ∷ 0xa3014314 ∷ 0x4e0811a1 ∷ 0xf7537e82 ∷ 0xbd3af235 ∷ 0x2ad7d2bb
    ∷ 0xeb86d391 ∷ []

unfoldable pub r_table : List ℕ
r_table =
    7 ∷ 12 ∷ 17 ∷ 22 ∷ 7 ∷ 12 ∷ 17 ∷ 22 ∷ 7 ∷ 12 ∷ 17 ∷ 22 ∷ 7 ∷ 12 ∷ 17 ∷ 22 ∷ 5 ∷ 9 ∷ 14 ∷ 20 ∷ 5
    ∷ 9 ∷ 14 ∷ 20 ∷ 5 ∷ 9 ∷ 14 ∷ 20 ∷ 5 ∷ 9 ∷ 14 ∷ 20 ∷ 4 ∷ 11 ∷ 16 ∷ 23 ∷ 4 ∷ 11 ∷ 16 ∷ 23 ∷ 4 ∷ 11
    ∷ 16 ∷ 23 ∷ 4 ∷ 11 ∷ 16 ∷ 23 ∷ 6 ∷ 10 ∷ 15 ∷ 21 ∷ 6 ∷ 10 ∷ 15 ∷ 21 ∷ 6 ∷ 10 ∷ 15 ∷ 21 ∷ 6 ∷ 10
    ∷ 15 ∷ 21 ∷ []

-- four bytes as a little-endian word
unfoldable pub word_at : List ℕ → ℕ → ℕ
word_at p i =
    get_or p i 0
    + get_or p (i + 1) 0 * 2 ^ 8
    + get_or p (i + 2) 0 * 2 ^ 16
    + get_or p (i + 3) 0 * 2 ^ 24

-- `f` of round i
unfoldable pub mix : ℕ → Regs → ℕ
mix i r =
    if ltb i 16
    then bit_or (bit_and r.b r.c) (bit_and (not32 r.b) r.d)
    else if ltb i 32
    then bit_or (bit_and r.d r.b) (bit_and (not32 r.d) r.c)
    else if ltb i 48
    then bit_xor (bit_xor r.b r.c) r.d
    else bit_xor r.c (bit_or r.b (not32 r.d))

-- `g` of round i
unfoldable pub pick : ℕ → ℕ
pick i =
    if ltb i 16
    then i
    else if ltb i 32
    then (5 * i + 1) % 16
    else if ltb i 48
    then (3 * i + 5) % 16
    else 7 * i % 16

-- one round, with K[i] and R[i]
unfoldable pub round : List ℕ → ℕ → ℕ → ℕ → Regs → Regs
unfolding mix pick word_at
round p i k c r =
    let m = word_at p (pick i * 4) in
    let x = add32 (add32 (add32 r.a (mix i r)) k) m in
    record { a = r.d; b = add32 r.b (rol x c); c = r.b; d = r.c }

unfoldable pub rounds : List ℕ → ℕ → List ℕ → List ℕ → Regs → Regs
unfolding round
rounds p i [] cs r = r
rounds p i (k ∷ ks) [] r = r
rounds p i (k ∷ ks) (c ∷ cs) r = rounds p (i + 1) ks cs (round p i k c r)

-- md5_block
unfoldable pub block : Regs → List ℕ → Regs
unfolding rounds k_table r_table
block r p =
    let s = rounds p 0 k_table r_table r in
    record { a = add32 r.a s.a; b = add32 r.b s.b; c = add32 r.c s.c; d = add32 r.d s.d }

-- the four bytes of a word, lowest first
unfoldable pub le_bytes : ℕ → List ℕ → List ℕ
le_bytes x rest = x % 256 ∷ x / 2 ^ 8 % 256 ∷ x / 2 ^ 16 % 256 ∷ x / 2 ^ 24 % 256 ∷ rest

-- tail[taillen - 8 + i] for i = 0 to 7
unfoldable pub le_len : ℕ → List ℕ
le_len bits =
    bits % 256
    ∷ bits / 2 ^ 8 % 256
    ∷ bits / 2 ^ 16 % 256
    ∷ bits / 2 ^ 24 % 256
    ∷ bits / 2 ^ 32 % 256
    ∷ bits / 2 ^ 40 % 256
    ∷ bits / 2 ^ 48 % 256
    ∷ bits / 2 ^ 56 % 256
    ∷ []

unfoldable pub initial : Regs
initial = record { a = 0x67452301; b = 0xefcdab89; c = 0x98badcfe; d = 0x10325476 }

unfoldable pub output : Regs → List ℕ
unfolding le_bytes
output r = le_bytes r.a (le_bytes r.b (le_bytes r.c (le_bytes r.d [])))

unfoldable pub pt_md5 : List ℕ → List ℕ
unfolding digest_state block le_len initial output
pt_md5 d = output (digest_state block le_len initial d)
