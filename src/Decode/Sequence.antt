-- ===== src/Decode/Sequence.antt =====
-- NetFlow v9 and IPFIX messages against the sets that they hold.
use packter.Base.{
  ℕ, zero, suc, ◌+◌, ◌-◌, ◌/◌, ◌%◌, ◌<◌, ◌≤◌, ◌≡◌, refl, ltb→lt, ltb→le, leb→lt, leb→le, Bool-cases,
  inl, inr, leb, arith, List, [], ◌∷◌, ◌++◌, append_assoc, some, Bool, true, false, not, ◌||◌, ltb,
  drop, drop-append, length, length-append,
}
use packter.Agent.{Env}
use packter.Agent.Exec.{bind-lift, ◌>>◌, skip}
use packter.Decode.Sets.{read_set, read_sets, netflow_read, ipfix_read, message_len}
use packter.Flow.Layout.{be16-drop}
use packter.Send.{Action}
use packter.Wire.{be16, be32}

-- A set: its id, and its bytes behind the header.
pub record SetOf : Type 0 where
  pub id : ℕ
  pub body : List ℕ

unfoldable pub size : SetOf → ℕ
size s = length s.body + 4

-- The sets on the wire.
unfoldable pub wire : List SetOf → List ℕ
wire [] = []
wire (s ∷ ss) = s.id / 256 ∷ s.id % 256 ∷ size s / 256 ∷ size s % 256 ∷ (s.body ++ wire ss)

-- What becomes of each set in turn, with `after` behind the last.
unfoldable pub each_set : Env → Bool → ℕ → List SetOf → List ℕ → Action
each_set env is_ipfix domain [] after = skip
each_set env is_ipfix domain (s ∷ ss) after =
    read_set env is_ipfix (wire (s ∷ ss) ++ after) (size s) s.id domain
    >> each_set env is_ipfix domain ss after

length-wire : (s : SetOf) (ss : List SetOf) → length (wire (s ∷ ss)) ≡ size s + length (wire ss)
unfolding wire size
length-wire s ss = omega (arith, length-append s.body (wire ss))

drop-wire :
    (s : SetOf) (ss : List SetOf) (after : List ℕ)
    → drop (size s) (wire (s ∷ ss) ++ after) ≡ wire ss ++ after
unfolding wire size
drop-wire s ss after =
    let four : length s.body + 4 ≡ suc (suc (suc (suc (length s.body)))) = omega arith in
    rw (four, append_assoc s.body (wire ss) after) (drop-append s.body (wire ss ++ after))

-- What the header of the first set answers.
wire-id :
    (s : SetOf) (ss : List SetOf) (after : List ℕ) → be16 (wire (s ∷ ss) ++ after) 0 ≡ some s.id
unfolding wire
wire-id s ss after = be16-drop (wire (s ∷ ss) ++ after) 0 s.id _ refl

wire-size :
    (s : SetOf) (ss : List SetOf) (after : List ℕ) → be16 (wire (s ∷ ss) ++ after) 2 ≡ some (size s)
unfolding wire
wire-size s ss after = be16-drop (wire (s ∷ ss) ++ after) 2 (size s) _ refl

read_sets-each :
    (env : Env) (is_ipfix : Bool) (domain : ℕ) (after : List ℕ) (ss : List SetOf) (fuel : ℕ)
    → length ss ≤ fuel
    → read_sets fuel env is_ipfix (wire ss ++ after) (length (wire ss)) domain
      ≡ each_set env is_ipfix domain ss after
unfolding read_sets each_set size ◌>>◌
read_sets-each env is_ipfix domain after [] zero enough = unfold wire in refl
read_sets-each env is_ipfix domain after [] (suc fuel) enough = unfold wire in refl
read_sets-each env is_ipfix domain after (s ∷ ss) zero enough = absurd (omega (arith, enough))
read_sets-each env is_ipfix domain after (s ∷ ss) (suc fuel) enough =
    let open_len : (not (ltb 0 (length (wire (s ∷ ss)))) || ltb (length (wire (s ∷ ss))) 4)
        ≡ false =
      ground (arith, length-wire s ss, size) in
    let named : be16 (wire (s ∷ ss) ++ after) 0 ≡ some s.id = wire-id s ss after in
    let sized : be16 (wire (s ∷ ss) ++ after) 2 ≡ some (size s) = wire-size s ss after in
    let whole : (ltb (size s) 4 || ltb (length (wire (s ∷ ss))) (size s)) ≡ false =
      ground (arith, length-wire s ss, size) in
    let left : length (wire (s ∷ ss)) - size s ≡ length (wire ss) =
      omega (arith, length-wire s ss) in
    let then_rest = read_sets-each env is_ipfix domain after ss fuel (omega (arith, enough)) in
    rw
      (
        read_sets,
        open_len,
        sized,
        bind-lift,
        whole,
        named,
        bind-lift,
        drop-wire s ss after,
        left,
        then_rest,
      )
      refl

sets_fit : (ss : List SetOf) → length ss ≤ length (wire ss)
unfolding wire
sets_fit [] = omega arith
sets_fit (s ∷ ss) = omega (arith, length-append s.body (wire ss), sets_fit ss)

-- A NetFlow v9 datagram that holds sets behind its header, and nothing else up to its length, is handled as these sets in turn, each whole and under the source id of the header.
pub netflow_read-each :
    (env : Env) (buf after : List ℕ) (len srcid : ℕ) (ss : List SetOf)
    → be16 buf 0 ≡ some 9
    → be32 buf 16 ≡ some srcid
    → drop 20 buf ≡ wire ss ++ after
    → len ≡ 20 + length (wire ss)
    → netflow_read env buf len ≡ each_set env false srcid ss after
unfolding netflow_read
netflow_read-each env buf after len srcid ss version source held whole =
    let long : ltb len 20 ≡ false = ground (arith, whole) in
    let left : len - 20 ≡ length (wire ss) = omega (arith, whole) in
    rw
      (
        netflow_read,
        long,
        version,
        bind-lift,
        source,
        bind-lift,
        held,
        left,
        read_sets-each env false srcid after ss len (omega (arith, whole, sets_fit ss)),
      )
      refl

message_len_bound : (msglen len : ℕ) → message_len msglen len ≤ len
unfolding message_len
message_len_bound msglen len = ground arith

-- The length that counts, from what it is in each case.
message_len-is :
    (msglen len n : ℕ)
    → (16 ≤ msglen → msglen < len → msglen ≡ n)
    → (len ≤ msglen → len ≡ n)
    → (msglen < 16 → len ≡ n)
    → message_len msglen len ≡ n
unfolding message_len
message_len-is msglen len n inner outer short = elim (Bool-cases (leb 16 msglen)) [
  | inr low ↦ rw low (short (leb→lt _ _ low))
  | inl header ↦ elim (Bool-cases (ltb msglen len)) [
    | inl cut ↦ rw (header, cut) (inner (leb→le _ _ header) (ltb→lt _ _ cut))
    | inr whole ↦ rw (header, whole) (outer (ltb→le _ _ whole))
  ]
]

-- An IPFIX message whose sets fill the length that its header declares is handled as these sets in turn, each whole and under the observation domain of the header, whatever bytes were received behind that length; where the header declares no less than what was received, or less than the header itself has, the sets fill what was received instead.
pub ipfix_read-each :
    (env : Env) (buf after : List ℕ) (len msglen domain : ℕ) (ss : List SetOf)
    → 16 ≤ len
    → be16 buf 0 ≡ some 10
    → be16 buf 2 ≡ some msglen
    → be32 buf 12 ≡ some domain
    → drop 16 buf ≡ wire ss ++ after
    → (16 ≤ msglen → msglen < len → msglen ≡ 16 + length (wire ss))
    → (len ≤ msglen → len ≡ 16 + length (wire ss))
    → (msglen < 16 → len ≡ 16 + length (wire ss))
    → ipfix_read env buf len ≡ each_set env true domain ss after
unfolding ipfix_read
ipfix_read-each env buf after len msglen domain ss room version declared source held inner outer
      short =
    let whole = message_len-is msglen len (16 + length (wire ss)) inner outer short in
    let long : ltb len 16 ≡ false = ground (arith, room) in
    let left : message_len msglen len - 16 ≡ length (wire ss) = omega (arith, whole) in
    rw
      (
        ipfix_read,
        long,
        version,
        bind-lift,
        source,
        bind-lift,
        declared,
        bind-lift,
        held,
        left,
        read_sets-each env true domain after ss len
            (omega (arith, whole, sets_fit ss, message_len_bound msglen len)),
      )
      refl
