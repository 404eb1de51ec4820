-- ===== src/Wire/Bounds.antt =====
-- Reads inside an object are served, and what they answer fits the type that is read.
use packter.Base.{ℕ, zero, suc, ◌+◌, ◌*◌, ◌≤◌, ◌<◌, ◌≡◌, refl, arith}
use packter.Base.{List, [], ◌∷◌, some, get_elem?-total, length, drop}
use packter.Base.{take, length-drop, All, ◌^◌, inl, inr, Option-cases}
use packter.Wire.{byte, be16, be32, prefix, span}

abbrev pub IsByte : ℕ → Type 0
IsByte b = b < 256

pub byte-total : (p : List ℕ) (i : ℕ) → i < length p → (b : ℕ) × (byte p i ≡ some b)
unfolding byte
byte-total p i h = get_elem?-total p i h

pub be16-total : (p : List ℕ) (i : ℕ) → i + 1 < length p → (v : ℕ) × (be16 p i ≡ some v)
unfolding be16
be16-total p i h =
    let (hi, e) = byte-total p i (omega arith) in
    let (lo, f) = byte-total p (i + 1) h in (hi * 256 + lo, ground (arith, e, f))

pub be32-total : (p : List ℕ) (i : ℕ) → i + 3 < length p → (v : ℕ) × (be32 p i ≡ some v)
unfolding be32
be32-total p i h =
    let (hi, e) = be16-total p i (omega arith) in
    let (lo, f) = be16-total p (i + 2) (omega arith) in (hi * 65536 + lo, ground (arith, e, f))

prefix-total : (n : ℕ) (p : List ℕ) → n ≤ length p → prefix n p ≡ some (take n p)
unfolding prefix
prefix-total zero p h = refl
prefix-total (suc n) [] h = absurd (omega arith)
prefix-total (suc n) (b ∷ p) h = rw (prefix-total n p (omega arith)) refl

pub span-eq-take : (p : List ℕ) (i n : ℕ) → i + n ≤ length p → span p i n ≡ some (take n (drop i p))
unfolding span
span-eq-take p i n h = prefix-total n (drop i p) (omega (arith, length-drop i p))

pub span-total : (p : List ℕ) (i n : ℕ) → i + n ≤ length p → (bs : List ℕ) × (span p i n ≡ some bs)
span-total p i n h = (take n (drop i p), span-eq-take p i n h)

-- In an object of bytes each byte is below 256.
pub byte-lt : (p : List ℕ) (i : ℕ) {b : ℕ} → All IsByte p → byte p i ≡ some b → b < 256
unfolding byte
byte-lt [] i h e = cc
byte-lt (x ∷ p) zero h e = ground arith
byte-lt (x ∷ p) (suc i) h e = byte-lt p i h.1 e

pub be16-lt : (p : List ℕ) (i : ℕ) {v : ℕ} → All IsByte p → be16 p i ≡ some v → v < 2 ^ 16
unfolding be16
be16-lt p i h e = elim (Option-cases (byte p i)) [
  | inl x ↦ ground (arith, x)
  | inr (hi, x) ↦ elim (Option-cases (byte p (i + 1))) [
    | inl y ↦ ground (arith, x, y)
    | inr (lo, y) ↦ ground (arith, x, y, byte-lt p i h x, byte-lt p (i + 1) h y)
  ]
]

pub be32-lt : (p : List ℕ) (i : ℕ) {v : ℕ} → All IsByte p → be32 p i ≡ some v → v < 2 ^ 32
unfolding be32
be32-lt p i h e = elim (Option-cases (be16 p i)) [
  | inl x ↦ ground (arith, x)
  | inr (hi, x) ↦ elim (Option-cases (be16 p (i + 2))) [
    | inl y ↦ ground (arith, x, y)
    | inr (lo, y) ↦ ground (arith, x, y, be16-lt p i h x, be16-lt p (i + 2) h y)
  ]
]

pub All-drop : (n : ℕ) (p : List ℕ) → All IsByte p → All IsByte (drop n p)
All-drop zero p h = h
All-drop (suc n) [] h = h
All-drop (suc n) (x ∷ p) h = All-drop n p h.1
