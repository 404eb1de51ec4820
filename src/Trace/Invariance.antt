-- ===== src/Trace/Invariance.antt =====
-- What the traceback hash does not see: the fields that routers change on the way.
use packter.Base.{
  ℕ, zero, suc, ◌+◌, ◌≤◌, ◌<◌, ◌≡◌, refl, sym, ap, ◌∙◌, List, [], ◌∷◌, some, Bool, true, false,
  ◌&&◌, ◌||◌, ◌==◌, leb, arith, length, take, get_or, ltb, ltb→lt, ltb→le, inl, inr, Bool-cases,
}
use packter.Base.Hex.{hex}
use packter.Digest.Md5.{pt_md5}
use packter.Trace.{rewrite, is_mutable4, scrub4, ip4_hdrlen, digest4, hash_ip4}
use packter.Wire.Bounds.{span-eq-take}

-- Lists that `change` makes equal up to index n.
take-rewrite :
    (change : ℕ → ℕ → ℕ) (n i : ℕ) (xs ys : List ℕ)
    → n ≤ length xs
    → n ≤ length ys
    → ((j : ℕ) → j < n → change (i + j) (get_or xs j 0) ≡ change (i + j) (get_or ys j 0))
    → take n (rewrite change i xs) ≡ take n (rewrite change i ys)
unfolding rewrite
take-rewrite change zero i xs ys hx hy same = refl
take-rewrite change (suc n) i [] ys hx hy same = absurd (omega arith)
take-rewrite change (suc n) i (x ∷ xs) [] hx hy same = absurd (omega arith)
take-rewrite change (suc n) i (x ∷ xs) (y ∷ ys) hx hy same =
    let here : change i x ≡ change i y =
      let e : i + 0 ≡ i = omega arith in rw e at (same 0 (omega arith)) in
    let there : take n (rewrite change (i + 1) xs) ≡ take n (rewrite change (i + 1) ys) =
      take-rewrite change n (i + 1) xs ys (omega arith) (omega arith) (λ j lt.
        let e : i + suc j ≡ i + 1 + j = omega arith in rw e at (same (suc j) (omega arith))) in
    rw (here, there) refl

get_or-take : (n : ℕ) (xs : List ℕ) (j : ℕ) → j < n → get_or (take n xs) j 0 ≡ get_or xs j 0
get_or-take zero xs j h = elim h [ ]
get_or-take (suc n) [] j h = refl
get_or-take (suc n) (x ∷ xs) zero h = refl
get_or-take (suc n) (x ∷ xs) (suc j) h = get_or-take n xs j (omega arith)

get_or-take_past : (n : ℕ) (xs : List ℕ) (j : ℕ) → n ≤ j → get_or (take n xs) j 0 ≡ 0
get_or-take_past zero xs j h = refl
get_or-take_past (suc n) [] j h = refl
get_or-take_past (suc n) (x ∷ xs) zero h = absurd (omega arith)
get_or-take_past (suc n) (x ∷ xs) (suc j) h = get_or-take_past n xs j (omega arith)

-- What agrees in two packets agrees in their first bytes.
taken_same :
    (n : ℕ) (xs ys : List ℕ) (j : ℕ)
    → get_or xs j 0 ≡ get_or ys j 0
    → get_or (take n xs) j 0 ≡ get_or (take n ys) j 0
taken_same n xs ys j same = elim (Bool-cases (ltb j n)) [
  | inl lt ↦ get_or-take n xs j (ltb→lt _ _ lt) ∙ same ∙ sym (get_or-take n ys j (ltb→lt _ _ lt))
  | inr past ↦
      get_or-take_past n xs j (ltb→le _ _ past) ∙ sym (get_or-take_past n ys j (ltb→le _ _ past))
]

take-length : (n : ℕ) (xs : List ℕ) → n ≤ length xs → n ≤ length (take n xs)
take-length zero xs h = omega arith
take-length (suc n) [] h = absurd (omega arith)
take-length (suc n) (x ∷ xs) h = omega (arith, take-length n xs (omega arith))

-- Bytes that scrubbing makes equal, where the packets agree on what is not mutable.
scrubbed :
    (hdrlen i x y : ℕ)
    → (is_mutable4 hdrlen i ≡ false → x ≡ y)
    → scrub4 hdrlen i x ≡ scrub4 hdrlen i y
unfolding scrub4
scrubbed hdrlen i x y same = elim (Bool-cases (is_mutable4 hdrlen i)) [
  | inl m ↦ rw m refl
  | inr f ↦ rw f (same f)
]

-- What no router changes on the way: version and header length, identification, protocol, the two
-- addresses, and all that stands behind the header.
unfoldable pub is_kept : ℕ → ℕ → Bool
is_kept hdrlen i = i == 0 || i == 4 || i == 5 || i == 9 || (leb 12 i && ltb i 20) || leb hdrlen i

fixed-is_kept : (hdrlen i : ℕ) → is_mutable4 hdrlen i ≡ false → is_kept hdrlen i ≡ true
unfolding is_mutable4 is_kept
fixed-is_kept hdrlen i f = ground (arith, f)

first-is_kept : (hdrlen : ℕ) → is_kept hdrlen 0 ≡ true
unfolding is_kept
first-is_kept hdrlen = refl

module _ (len v : ℕ) (xs ys : List ℕ) (hx : len ≤ length xs) (hy : len ≤ length ys) where
  digest4_same :
      get_or xs 0 0 ≡ v
      → get_or ys 0 0 ≡ v
      → ((i : ℕ)
          → i < ip4_hdrlen v + 8
          → is_kept (ip4_hdrlen v) i ≡ true
          → get_or xs i 0 ≡ get_or ys i 0)
      → digest4 len xs ≡ digest4 len ys
  unfolding digest4
  digest4_same ex ey same =
      let hdrlen = ip4_hdrlen v in
      rw (ex, ey)
        (elim (Bool-cases (ltb len (hdrlen + 8) || ltb hdrlen 20)) [
          | inl out ↦ rw out refl
          | inr held ↦ rw held (
              ap (λ (t : List ℕ). hex (pt_md5 t))
                (take-rewrite (scrub4 hdrlen) (hdrlen + 8) 0 xs ys (ground arith) (ground arith)
                  (λ j lt. scrubbed hdrlen (0 + j) _ _ (λ f.
                    let e : 0 + j ≡ j = omega arith in
                    same j lt (fixed-is_kept hdrlen j (rw e at f))))))
        ])

-- Two packets of one length that agree on version and header length, identification, protocol and addresses, and on the eight bytes behind the header, have the same IPv4 traceback hash: it sees no service type, no total length, no fragment offset, no time to live, no header checksum and no option.
pub hash_ip4_mutable :
    (p q : List ℕ) (len : ℕ)
    → len ≤ length p
    → len ≤ length q
    → ((i : ℕ)
        → i < ip4_hdrlen (get_or p 0 0) + 8
        → is_kept (ip4_hdrlen (get_or p 0 0)) i ≡ true
        → get_or p i 0 ≡ get_or q i 0)
    → hash_ip4 p len ≡ hash_ip4 q len
unfolding hash_ip4
hash_ip4_mutable p q len hp hq same = elim (Bool-cases (ltb len 20 || ltb 1024 len)) [
  | inl out ↦ rw out refl
  | inr held ↦
      let v = get_or p 0 0 in
      let long : 20 ≤ len = ground arith in
      rw (held, span-eq-take p 0 len (omega arith), span-eq-take q 0 len (omega arith))
        (ap some (
          digest4_same len v (take len p) (take len q) (take-length len p hp) (take-length len q hq)
            (get_or-take len p 0 (omega arith))
            (get_or-take len q 0 (omega arith)
              ∙ sym (same 0 (omega arith) (first-is_kept (ip4_hdrlen v))))
            (λ i lt fixed. taken_same len p q i (same i lt fixed))))
]
