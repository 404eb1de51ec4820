-- ===== src/Digest/Padding.antt =====
-- The one-pass loop with its hand-made tail computes the standard's digest: pad the whole message,
-- then fold the block function over it.
use packter.Base.{
  ℕ, zero, suc, ◌+◌, ◌-◌, ◌*◌, ◌%◌, ◌^◌, ◌≤◌, ◌<◌, ◌≡◌, refl, sym, ap, ◌∙◌, List, [], ◌∷◌, ◌++◌,
  arith, length, length-append, length-replicate, length-drop, take, drop, replicate, ltb, leb,
  leb→le, leb→lt, le→leb, ltb→lt, inl, inr, Bool-cases, ◌==◌, if◌then◌else◌,
}
use packter.Digest.Word.{absorb, finish, tail, tail_len, digest_state}

-- FIPS 180-4, 5.1.1 and RFC 1321, 3.1: a 1 bit, the fewest zeros that leave 8 bytes of a whole number of blocks, and the length.
unfoldable pub padding : ℕ → List ℕ → List ℕ
padding len len_bytes = 0x80 ∷ (replicate ((119 - len % 64) % 64) 0 ++ len_bytes)

take-append_left : (n : ℕ) (xs ys : List ℕ) → n ≤ length xs → take n (xs ++ ys) ≡ take n xs
take-append_left zero xs ys h = refl
take-append_left (suc n) [] ys h = absurd (omega arith)
take-append_left (suc n) (x ∷ xs) ys h = rw (take-append_left n xs ys (omega arith)) refl

drop-append_left : (n : ℕ) (xs ys : List ℕ) → n ≤ length xs → drop n (xs ++ ys) ≡ drop n xs ++ ys
drop-append_left zero xs ys h = refl
drop-append_left (suc n) [] ys h = absurd (omega arith)
drop-append_left (suc n) (x ∷ xs) ys h = drop-append_left n xs ys (omega arith)

module _ {H : Type 0} (block : H → List ℕ → H) (len_bytes : List ℕ)
    (eight : length len_bytes ≡ 8) where
  -- The tail of a remainder is the remainder, padded.
  tail-padding :
      (rest : List ℕ)
      → length rest < 64
      → tail rest len_bytes ≡ rest ++ padding (length rest) len_bytes
  unfolding tail padding tail_len
  tail-padding rest short =
      ap (λ (n : ℕ). rest ++ (0x80 ∷ (replicate n 0 ++ len_bytes))) (ground arith)

  length-tail :
      (rest : List ℕ) → length rest < 64 → length (tail rest len_bytes) ≡ tail_len (length rest)
  unfolding tail tail_len
  length-tail rest short = elim (Bool-cases (ltb (length rest) 56)) [
    | inl small ↦ rw small (tail_sum rest 64 (omega (arith, ltb→lt _ _ small)))
    | inr large ↦ rw large (tail_sum rest 128 (omega arith))
  ]
    where
      tail_sum :
          (rest : List ℕ) (n : ℕ)
          → length rest + 9 ≤ n
          → length (rest ++ (0x80 ∷ (replicate (n - length rest - 9) 0 ++ len_bytes))) ≡ n
      tail_sum rest n room = omega (
        arith,
        eight,
        length-append rest (0x80 ∷ (replicate (n - length rest - 9) 0 ++ len_bytes)),
        length-append (replicate {A = ℕ} (n - length rest - 9) 0) len_bytes,
        length-replicate {A = ℕ} (n - length rest - 9) 0,
      )

  -- What `finish` does to the state and the bytes that are left.
  abbrev last : H → List ℕ → H
  last h rest =
      let t = tail rest len_bytes in
      let once = block h (take 64 t) in
      if tail_len (length rest) == 128 then block once (drop 64 t) else once

  absorb_stops : (f : ℕ) (h : H) (d : List ℕ) → length d < 64 → absorb block f h d ≡ (h, d)
  unfolding absorb
  absorb_stops zero h d short = refl
  absorb_stops (suc f) h d short = ground arith

  absorb_step :
      (f : ℕ) (h : H) (d : List ℕ)
      → 64 ≤ length d
      → absorb block (suc f) h d ≡ absorb block f (block h (take 64 d)) (drop 64 d)
  unfolding absorb
  absorb_step f h d long = rw (le→leb 64 (length d) long, absorb) refl

  take_all : (n : ℕ) (xs : List ℕ) → length xs ≤ n → take n xs ≡ xs
  take_all zero [] h = refl
  take_all zero (x ∷ xs) h = absurd (omega arith)
  take_all (suc n) [] h = refl
  take_all (suc n) (x ∷ xs) h = rw (take_all n xs (omega arith)) refl

  -- The loop over the padded remainder does what `finish` does, and uses it up.
  absorb-tail :
      (f : ℕ) (h : H) (rest : List ℕ)
      → length rest < 64
      → ((absorb block (suc (suc f)) h (tail rest len_bytes)).0 ≡ last h rest)
        × (length (absorb block (suc (suc f)) h (tail rest len_bytes)).1 ≡ 0)
  absorb-tail f h rest short =
      let t = tail rest len_bytes in
      let whole = length-tail rest short in
      elim (Bool-cases (ltb (length rest) 56)) [
        | inl small ↦
            let one : tail_len (length rest) ≡ 64 = unfold tail_len in rw small refl in
            let len : length t ≡ 64 = whole ∙ one in
            let bare : length (drop 64 t) ≡ 0 = omega (arith, length-drop 64 t) in
            rw
              (
                absorb_step (suc f) h t (omega arith),
                absorb_stops (suc f) (block h (take 64 t)) (drop 64 t) (omega arith),
                one,
              )
              (refl, bare)
        | inr large ↦
            let two : tail_len (length rest) ≡ 128 = unfold tail_len in rw large refl in
            let len : length t ≡ 128 = whole ∙ two in
            let left : length (drop 64 t) ≡ 64 = omega (arith, length-drop 64 t) in
            let bare : length (drop 64 (drop 64 t)) ≡ 0 =
              omega (arith, length-drop 64 (drop 64 t)) in
            rw
              (
                absorb_step (suc f) h t (omega arith),
                absorb_step f (block h (take 64 t)) (drop 64 t) (omega arith),
                absorb_stops f _ (drop 64 (drop 64 t)) (omega arith),
                two,
                take_all 64 (drop 64 t) (omega arith),
              )
              (refl, bare)
      ]

  absorb-padded :
      (f : ℕ) (h : H) (d p : List ℕ)
      → length d ≤ f
      → p ≡ padding (length d) len_bytes
      → ((absorb block (suc (suc f)) h (d ++ p)).0
          ≡ last (absorb block f h d).0 (absorb block f h d).1)
        × (length (absorb block (suc (suc f)) h (d ++ p)).1 ≡ 0)
  absorb-padded zero h d p enough e =
      let small : length d < 64 = omega arith in
      rw e (rw (sym (tail-padding d small), absorb_stops 0 h d small) (absorb-tail 0 h d small))
  absorb-padded (suc f) h d p enough e = elim (Bool-cases (leb 64 (length d))) [
    | inr short ↦
        let small = leb→lt 64 (length d) short in
        rw e (
          rw (sym (tail-padding d small), absorb_stops (suc f) h d small)
            (absorb-tail (suc f) h d small))
    | inl is ↦
        let long = leb→le 64 (length d) is in
        let same : p ≡ padding (length (drop 64 d)) len_bytes =
          e
          ∙ (unfold padding in
              ap (λ (n : ℕ). 0x80 ∷ (replicate ((119 - n) % 64) 0 ++ len_bytes))
                (omega (arith, length-drop 64 d))) in
        rw
          (
            absorb_step (suc (suc f)) h (d ++ p) (omega (arith, length-append d p)),
            take-append_left 64 d p long,
            drop-append_left 64 d p long,
            absorb_step f h d long,
          )
          (absorb-padded f (block h (take 64 d)) (drop 64 d) p (omega (arith, length-drop 64 d))
            same)
  ]

-- With a length of eight bytes, the digest's state is the block function folded over the padded message, from its first block to its last: nothing is left over.
pub digest_state-padded :
    {H : Type 0} (block : H → List ℕ → H) (len_bytes : ℕ → List ℕ) (h : H) (d : List ℕ)
    → ((n : ℕ) → length (len_bytes n) ≡ 8)
    → let p = d ++ padding (length d) (len_bytes (length d * 8 % 2 ^ 64)) in
      (digest_state block len_bytes h d ≡ (absorb block (length d + 2) h p).0)
      × (length (absorb block (length d + 2) h p).1 ≡ 0)
unfolding digest_state finish
digest_state-padded block len_bytes h d eight =
    let bits = length d * 8 % 2 ^ 64 in
    let (state, bare) =
      absorb-padded block (len_bytes bits) (eight bits) (length d) h d _ (omega arith) refl in
    let e : length d + 2 ≡ suc (suc (length d)) = omega arith in rw e (sym state, bare)
