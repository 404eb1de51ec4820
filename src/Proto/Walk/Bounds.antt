-- ===== src/Proto/Walk/Bounds.antt =====
-- The walk over the extension headers stays inside the packet and ends.
use packter.Base.{
  ℕ, zero, suc, ◌+◌, ◌-◌, ◌*◌, ◌≤◌, ◌<◌, ◌≡◌, refl, List, Option, none, some, false, arith, length,
  inl, inr, Bool-cases, ltb, leb, ltb→le,
}
use packter.Proto.Walk.{is_option_header, is_fragment, walk, ip6_upper_layer}
use packter.Wire.Bounds.{byte-total}

-- An answer of the walk: an upper-layer protocol, at an offset that the packet reaches.
abbrev pub IsInside : ℕ → Option (ℕ × ℕ) → Type 0
IsInside len none = Unit
IsInside len (some (proto, at)) =
    (at ≤ len) × (is_option_header proto ≡ false) × (is_fragment proto ≡ false)

walk-total :
    (fuel : ℕ) (p : List ℕ) (len nxt at : ℕ)
    → len ≤ length p
    → at ≤ len
    → len - at < fuel
    → (r : Option (ℕ × ℕ)) × (walk fuel p len nxt at ≡ some r) × IsInside len r
unfolding walk
walk-total zero p len nxt at fits inside enough = absurd (omega arith)
walk-total (suc fuel) p len nxt at fits inside enough = elim (Bool-cases (is_option_header nxt)) [
  | inl option_header ↦ elim (Bool-cases (ltb len (at + 8))) [
    | inl short ↦ (none, rw (option_header, short) refl, tt)
    | inr room ↦
        let (nxt', e) = byte-total p at (omega (arith, ltb→le _ _ room)) in
        let (units, f) = byte-total p (at + 1) (omega (arith, ltb→le _ _ room)) in
        elim (Bool-cases (leb len (at + (units + 1) * 8))) [
          | inl over ↦ (none, rw (option_header, room, e, f, over) refl, tt)
          | inr goes ↦
              let (r, run, is) =
                walk-total fuel p len nxt' (at + (units + 1) * 8) fits (ground arith)
                  (ground arith) in
              (r, rw (option_header, room, e, f, goes) run, is)
        ]
  ]
  | inr other ↦ elim (Bool-cases (is_fragment nxt)) [
    | inr upper ↦ (some (nxt, at), rw (other, upper) refl, (inside, other, upper))
    | inl fragment ↦ elim (Bool-cases (ltb len (at + 8))) [
      | inl short ↦ (none, rw (other, fragment, short) refl, tt)
      | inr room ↦
          let (nxt', e) = byte-total p at (omega (arith, ltb→le _ _ room)) in
          elim (Bool-cases (leb len (at + 8))) [
            | inl over ↦ (none, rw (other, fragment, room, e, over) refl, tt)
            | inr goes ↦
                let (r, run, is) =
                  walk-total fuel p len nxt' (at + 8) fits (ground arith) (ground arith) in
                (r, rw (other, fragment, room, e, goes) run, is)
          ]
    ]
  ]
]

-- The walk reads only inside a packet of at least the length it goes by, ends, and answers -1 or an upper-layer protocol, which is no extension header, with an offset that does not pass the packet's end.
pub ip6_upper_layer-total :
    (p : List ℕ) (len : ℕ)
    → len ≤ length p
    → (r : Option (ℕ × ℕ)) × (ip6_upper_layer p len ≡ some r) × IsInside len r
unfolding ip6_upper_layer
ip6_upper_layer-total p len fits = elim (Bool-cases (ltb len 40)) [
  | inl short ↦ (none, rw short refl, tt)
  | inr long ↦
      let (nxt, e) = byte-total p 6 (omega (arith, ltb→le _ _ long)) in
      let (r, run, is) =
        walk-total len p len nxt 40 fits (ltb→le _ _ long) (omega (arith, ltb→le _ _ long)) in
      (r, rw (long, e) run, is)
]
