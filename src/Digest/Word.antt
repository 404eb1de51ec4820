-- ===== src/Digest/Word.antt =====
-- uint32_t operations, and the block loop with its padded tail.
use Prim.Native.Nat.{bit_or}
use packter.Base.{
  ℕ, zero, suc, ◌+◌, ◌-◌, ◌*◌, ◌/◌, ◌%◌, ◌^◌, List, ◌∷◌, ◌++◌, true, false, leb, ltb, ◌==◌,
  if◌then◌else◌, length, take, drop, replicate,
}

-- Sum of uint32_t.
abbrev pub add32 : ℕ → ℕ → ℕ
add32 a b = (a + b) % 2 ^ 32

-- `~x`
abbrev pub not32 : ℕ → ℕ
not32 x = 2 ^ 32 - 1 - x

-- LEFTROTATE(x, c) and ROR(x, n), for 0 < n < 32
abbrev pub rol : ℕ → ℕ → ℕ
rol x c = bit_or (x * 2 ^ c % 2 ^ 32) (x / 2 ^ (32 - c))

abbrev pub ror : ℕ → ℕ → ℕ
ror x n = bit_or (x / 2 ^ n) (x * 2 ^ (32 - n) % 2 ^ 32)

-- The loop over whole blocks: the state after them, and the bytes that are left.
unfoldable pub absorb : {H : Type 0} → (H → List ℕ → H) → ℕ → H → List ℕ → H × List ℕ
absorb block zero h d = (h, d)
absorb block (suc fuel) h d = elim (leb 64 (length d)) [
  | true ↦ absorb block fuel (block h (take 64 d)) (drop 64 d)
  | false ↦ (h, d)
]

-- `taillen`, from the number of bytes left
unfoldable pub tail_len : ℕ → ℕ
tail_len rest = if ltb rest 56 then 64 else 128

-- The buffer `tail`: the bytes left, 0x80, zeros, and the eight bytes of the length.
unfoldable pub tail : List ℕ → List ℕ → List ℕ
unfolding tail_len
tail rest len_bytes =
    rest ++ (0x80 ∷ (replicate (tail_len (length rest) - length rest - 9) 0 ++ len_bytes))

-- The state after the last one or two blocks; `len_bytes` writes the 64-bit length in bits.
unfoldable pub finish : {H : Type 0} → (H → List ℕ → H) → (ℕ → List ℕ) → ℕ → H × List ℕ → H
unfolding tail
finish block len_bytes len (h, rest) =
    let t = tail rest (len_bytes (len * 8 % 2 ^ 64)) in
    let once = block h (take 64 t) in
    if tail_len (length rest) == 128 then block once (drop 64 t) else once

-- All of pt_sha256 and pt_md5 between the initial state and the output.
unfoldable pub digest_state : {H : Type 0} → (H → List ℕ → H) → (ℕ → List ℕ) → H → List ℕ → H
unfolding absorb finish
digest_state block len_bytes h d = finish block len_bytes (length d) (absorb block (length d) h d)
