-- ===== src/Wire.antt =====
-- pt_be16 and pt_be32 of agent/include/packter.h: big-endian reads. A pointer is the list of the
-- bytes from its address to the end of the object it points into; a read past them is `none`.
pub mod Bounds
use packter.Base.{ℕ, zero, suc, ◌+◌, ◌*◌, List, [], ◌∷◌, Option, none, some, get_elem?, drop}

-- one byte, `p[i]`
unfoldable pub byte : List ℕ → ℕ → Option ℕ
byte p i = get_elem? p i

unfoldable pub be16 : List ℕ → ℕ → Option ℕ
be16 p i = elim (byte p i) [
  | none ↦ none
  | some hi ↦ elim (byte p (i + 1)) [ none ↦ none | some lo ↦ some (hi * 256 + lo) ]
]

unfoldable pub be32 : List ℕ → ℕ → Option ℕ
be32 p i = elim (be16 p i) [
  | none ↦ none
  | some hi ↦ elim (be16 p (i + 2)) [ none ↦ none | some lo ↦ some (hi * 65536 + lo) ]
]

-- The first n bytes at a pointer.
unfoldable pub prefix : ℕ → List ℕ → Option (List ℕ)
prefix zero p = some []
prefix (suc n) [] = none
prefix (suc n) (b ∷ p) = elim (prefix n p) [ none ↦ none | some bs ↦ some (b ∷ bs) ]

-- n bytes at p + i that are copied or read whole
unfoldable pub span : List ℕ → ℕ → ℕ → Option (List ℕ)
unfolding prefix
span p i n = prefix n (drop i p)
