-- ===== src/Proto/Walk.antt =====
-- ip6_upper_layer of agent/lib/proto.c: the walk over the IPv6 extension headers.
pub mod Bounds
use packter.Base.{
  ℕ, zero, suc, ◌+◌, ◌*◌, List, Option, none, some, Bool, ◌||◌, ltb, leb, ◌==◌, if◌then◌else◌,
}
use packter.Wire.{byte}

-- hop-by-hop, routing, and destination options; a fragment header
unfoldable pub is_option_header : ℕ → Bool
is_option_header nxt = nxt == 0 || nxt == 43 || nxt == 60

unfoldable pub is_fragment : ℕ → Bool
is_fragment nxt = nxt == 44

-- The `for (;;)` from next header `nxt` at offset `at`. The outer `none` is a read outside the
-- packet, or fuel that ran out; the inner one is the answer -1.
unfoldable pub walk : ℕ → List ℕ → ℕ → ℕ → ℕ → Option (Option (ℕ × ℕ))
walk zero p len nxt at = none
walk (suc fuel) p len nxt at =
    let option_header : Option (Option (ℕ × ℕ)) = elim (byte p at) [
      | none ↦ none
      | some nxt' ↦ elim (byte p (at + 1)) [
        | none ↦ none
        | some units ↦
            let rest = walk fuel p len nxt' (at + (units + 1) * 8) in
            if leb len (at + (units + 1) * 8) then some none else rest
      ]
    ] in
    let fragment : Option (Option (ℕ × ℕ)) = elim (byte p at) [
      | none ↦ none
      | some nxt' ↦
          let rest = walk fuel p len nxt' (at + 8) in if leb len (at + 8) then some none else rest
    ] in
    if is_option_header nxt
    then if ltb len (at + 8) then some none else option_header
    else if is_fragment nxt
    then if ltb len (at + 8) then some none else fragment
    else some (some (nxt, at))

-- Each round moves the offset by 8 bytes at least, so `len` rounds are enough.
unfoldable pub ip6_upper_layer : List ℕ → ℕ → Option (Option (ℕ × ℕ))
unfolding walk
ip6_upper_layer p len =
    if ltb len 40
    then some none
    else elim (byte p 6) [ none ↦ none | some nxt ↦ walk len p len nxt 40 ]
