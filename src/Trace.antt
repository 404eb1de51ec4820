-- ===== src/Trace.antt =====
-- agent/lib/hash.c: the traceback hash of a packet.
pub mod Invariance
use packter.Base.{
  ℕ, zero, suc, ◌+◌, ◌*◌, ◌/◌, ◌%◌, List, [], ◌∷◌, Option, none, some, Text, Bool, ◌&&◌, ◌||◌, ltb,
  leb, ◌==◌, if◌then◌else◌, get_or, take,
}
use packter.Base.Hex.{hex}
use packter.Digest.Md5.{pt_md5}
use packter.Wire.{span}

-- The bytes of `work` with `change i` made of the one at index i, counted from `i`.
unfoldable pub rewrite : (ℕ → ℕ → ℕ) → ℕ → List ℕ → List ℕ
rewrite change i [] = []
rewrite change i (b ∷ bs) = change i b ∷ rewrite change (i + 1) bs

-- The mutable IPv4 fields: tos, len, off, ttl, sum, and the options.
unfoldable pub is_mutable4 : ℕ → ℕ → Bool
is_mutable4 hdrlen i =
    i == 1
    || i == 2
    || i == 3
    || i == 6
    || i == 7
    || i == 8
    || i == 10
    || i == 11
    || (leb 20 i && ltb i hdrlen)

unfoldable pub scrub4 : ℕ → ℕ → ℕ → ℕ
unfolding is_mutable4
scrub4 hdrlen i b = if is_mutable4 hdrlen i then 0 else b

-- `hdrlen` of an IPv4 packet, from its first byte
unfoldable pub ip4_hdrlen : ℕ → ℕ
ip4_hdrlen vhl = vhl % 16 * 4

-- packter_hash_ip4, from what it copied
unfoldable pub digest4 : ℕ → List ℕ → Text
unfolding rewrite scrub4 ip4_hdrlen
digest4 len work =
    let hdrlen = ip4_hdrlen (get_or work 0 0) in
    if ltb len (hdrlen + 8) || ltb hdrlen 20
    then []
    else hex (pt_md5 (take (hdrlen + 8) (rewrite (scrub4 hdrlen) 0 work)))

unfoldable pub hash_ip4 : List ℕ → ℕ → Option Text
unfolding digest4
hash_ip4 packet len =
    if ltb len 20 || ltb 1024 len
    then some []
    else elim (span packet 0 len) [ none ↦ none | some work ↦ some (digest4 len work) ]

-- `work[0] & 0xf0`, and a hop limit of 0
unfoldable pub scrub6 : ℕ → ℕ → ℕ
scrub6 i b = if i == 0 then b / 16 * 16 else if i == 7 then 0 else b

-- packter_hash_ip6
unfoldable pub hash_ip6 : List ℕ → ℕ → Option Text
unfolding rewrite scrub6
hash_ip6 packet len = if ltb len 48 || ltb 1024 len then some [] else elim (span packet 0 len) [
  | none ↦ none
  | some work ↦ some (hex (pt_md5 (take 48 (rewrite scrub6 0 work))))
]
