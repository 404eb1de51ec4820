-- ===== src/Send/Signed.antt =====
-- What a receiver of a datagram can check: the authentication line of agent_line in agent/lib/send.c.
use Prim.Native.Nat.{bit_xor}
use packter.Base.{
  map, refl, ◌∙◌, subst, ℕ, ◌+◌, ◌-◌, ◌≤◌, ◌<◌, ◌≡◌, ap, List, [], ◌∷◌, ◌++◌, Text, some, Bool,
  true, false, arith, length, length-append, length-take, take, take-eq_self, inl, inr, Bool-cases,
  is_filled, newline, decimal, All,
}
use packter.Base.Hex.{hex}
use packter.Agent.{Trans, off, sflow, netflow, ipfix, Ctx, Output, sent, printed, slept}
use packter.Digest.Hmac.{pt_hmac_sha256, key_block, hmac_capacity}
use packter.Digest.Sha256.{pt_sha256}
use packter.Send.{framed_size, fitting, agent_header, id_and_time, agent_line}
use packter.Send.View.{datagrams}

-- HMAC-SHA256 of RFC 2104, over the whole message.
unfoldable pub hmac_sha256 : List ℕ → List ℕ → List ℕ
hmac_sha256 key msg =
    let k = key_block key in
    let inner = pt_sha256 (map (λ b. bit_xor b 0x36) k ++ msg) in
    pt_sha256 (map (λ b. bit_xor b 0x5c) k ++ inner)

-- pt_hmac_sha256 is that on messages which its buffer holds.
pt_hmac_sha256-whole :
    (key msg : List ℕ) → length msg ≤ 2048 → pt_hmac_sha256 key msg ≡ hmac_sha256 key msg
unfolding pt_hmac_sha256 hmac_capacity hmac_sha256
pt_hmac_sha256-whole key msg fits = rw (take-eq_self 2048 msg fits) refl

-- "<id>,<time>"
abbrev stamp : Text → ℕ → Text
stamp id ts = id ++ (b',' ∷ decimal ts)

-- The line with an HMAC.
abbrev pub keyed_line : Text → ℕ → List ℕ → Text
keyed_line id ts digest = agent_header ++ (stamp id ts ++ (b',' ∷ (hex digest ++ (newline ∷ []))))

-- What the HMAC covers.
abbrev pub covered : Text → ℕ → Text → Text
covered id ts body = (stamp id ts ++ (newline ∷ [])) ++ body

-- An authentication line in front of a body: with a key, the HMAC under it covers the id, the time and
-- the whole body; without one there is the id alone; without an id there is no line.
unfoldable pub Bears : Bool → Bool → Text → List ℕ → Text → Type 0
Bears false keyed id psk d = Unit {0}
Bears true false id psk d = (body : Text) × (d ≡ (agent_header ++ (id ++ (newline ∷ []))) ++ body)
Bears true true id psk d =
    (ts : ℕ) × (body : Text) × (d ≡ keyed_line id ts (hmac_sha256 psk (covered id ts body)) ++ body)

-- Who sends: the agent id and the key of the context, and whether there is a template map.
pub record Owner : Type 0 where
  pub id : Text
  pub psk : List ℕ
  pub cached : Bool

-- A collector, which has a map of its own.
abbrev pub owner : Ctx → Owner
owner ctx = record { id = ctx.agent_id; psk = ctx.psk; cached = true }

-- A tool that has none.
abbrev pub sender : Ctx → Owner
sender ctx = record (owner ctx) { cached = false }

-- The decoders that look templates up.
unfoldable pub needs_cache : Trans → Bool
needs_cache off = false
needs_cache sflow = false
needs_cache netflow = true
needs_cache ipfix = true

-- pt_agent, which has a map where its translation needs one.
abbrev pub translator : Ctx → Owner
translator ctx = record (owner ctx) { cached = needs_cache ctx.translate }

-- A datagram whose signed text fits the buffer of pt_hmac_sha256.
abbrev pub IsSigned : Text → List ℕ → Text → Type 0
IsSigned id psk d = length d < 2048 → Bears (is_filled id) (is_filled psk) id psk d

fitting-same : (n : ℕ) (t u : Text) → fitting n t ≡ some u → (u ≡ t) × (length t < n)
unfolding fitting
fitting-same n t u e = ground (arith, e)

take_short : (n : ℕ) (l : Text) → length (take n l) < n → (take n l ≡ l) × (length l < n)
take_short n l h =
    let fits : length l < n = omega (arith, length-take n l, h) in
    (take-eq_self n l (omega arith), fits)

agent_line-keyed :
    (ctx : Ctx) (ts : ℕ) (payload line : Text)
    → is_filled ctx.psk ≡ true
    → length payload ≤ 65536
    → agent_line ctx ts payload ≡ some line
    → line ≡ keyed_line ctx.agent_id ts (pt_hmac_sha256 ctx.psk (covered ctx.agent_id ts payload))
unfolding agent_line fitting id_and_time
agent_line-keyed ctx ts payload line keyed short e =
    let whole =
      take-eq_self (128 + 65536 - length (stamp ctx.agent_id ts ++ (newline ∷ []))) payload in
    ground (arith, e, keyed, whole, short)

-- What the HMAC covers is shorter than the datagram.
length-covered :
    (id : Text) (ts : ℕ) (digest : List ℕ) (body : Text)
    → length (covered id ts body) ≤ length (keyed_line id ts digest ++ body)
length-covered id ts digest body =
    let behind = b',' ∷ (hex digest ++ (newline ∷ [])) in
    omega (
      arith,
      length-append (stamp id ts ++ (newline ∷ [])) body,
      length-append (stamp id ts) (newline ∷ []),
      length-append (keyed_line id ts digest) body,
      length-append agent_header (stamp id ts ++ behind),
      length-append (stamp id ts) behind,
    )

-- The datagram under a key, with the digest of RFC 2104.
keyed-Bears :
    (ctx : Ctx) (ts : ℕ) (mesg line : Text)
    → is_filled ctx.psk ≡ true
    → agent_line ctx ts mesg ≡ some line
    → length (line ++ mesg) < 2048
    → line ++ mesg
      ≡ keyed_line ctx.agent_id ts (hmac_sha256 ctx.psk (covered ctx.agent_id ts mesg)) ++ mesg
keyed-Bears ctx ts mesg line keyed e short =
    let same =
      agent_line-keyed ctx ts mesg line keyed (omega (arith, short, length-append line mesg)) e in
    let text = covered ctx.agent_id ts mesg in
    let whole = pt_hmac_sha256-whole ctx.psk text (
      omega (
        arith,
        length-covered ctx.agent_id ts (pt_hmac_sha256 ctx.psk text) mesg,
        subst (λ (l : Text). length (l ++ mesg) < 2048) same short,
      )) in
    ap (λ (l : Text). l ++ mesg) (same ∙ ap (λ d. keyed_line ctx.agent_id ts d) whole)

agent_line-bare :
    (ctx : Ctx) (ts : ℕ) (payload line : Text)
    → is_filled ctx.psk ≡ false
    → agent_line ctx ts payload ≡ some line
    → line ≡ agent_header ++ (ctx.agent_id ++ (newline ∷ []))
unfolding agent_line fitting
agent_line-bare ctx ts payload line bare e = ground (arith, e, bare)

pub framed-IsSigned :
    (ctx : Ctx) (ts : ℕ) (mesg line : Text)
    → is_filled ctx.agent_id ≡ true
    → agent_line ctx ts mesg ≡ some line
    → IsSigned ctx.agent_id ctx.psk (line ++ take (framed_size - length line) mesg)
unfolding Bears
framed-IsSigned ctx ts mesg line named e short =
    let (whole, fits) =
      take_short (framed_size - length line) mesg
        (omega (arith, short, length-append line (take (framed_size - length line) mesg))) in
    elim (Bool-cases (is_filled ctx.psk)) [
      | inl keyed ↦
          rw (named, keyed, whole)
            (
              ts,
              mesg,
              keyed-Bears ctx ts mesg line keyed e
                  (subst (λ (b : Text). length (line ++ b) < 2048) whole short),
            )
      | inr bare ↦
          rw (named, bare, whole)
            (mesg, ap (λ (l : Text). l ++ mesg) (agent_line-bare ctx ts mesg line bare e))
    ]

pub bare-IsSigned :
    (ctx : Ctx) (mesg : Text) → is_filled ctx.agent_id ≡ false → IsSigned ctx.agent_id ctx.psk mesg
unfolding Bears
bare-IsSigned ctx mesg nameless short = rw nameless tt

-- What a context signs is signed by the owner that it has.
pub own-IsSigned :
    (own : Owner) (ctx : Ctx) (d : Text)
    → ctx.agent_id ≡ own.id
    → ctx.psk ≡ own.psk
    → IsSigned ctx.agent_id ctx.psk d
    → IsSigned own.id own.psk d
own-IsSigned own ctx d same_id same_psk is =
    subst (λ k. IsSigned own.id k d) same_psk (subst (λ i. IsSigned i ctx.psk d) same_id is)

-- Every datagram among the outputs.
abbrev pub AllSigned : Text → List ℕ → List Output → Type 0
AllSigned id psk out = All (IsSigned id psk) (datagrams out)

pub printed-AllSigned :
    (id : Text) (psk : List ℕ) (out : List Output) (t : Text)
    → AllSigned id psk out
    → AllSigned id psk (out ++ (printed t ∷ []))
unfolding datagrams
printed-AllSigned id psk [] t h = tt
printed-AllSigned id psk (sent m ∷ out) t h = (h.0, printed-AllSigned id psk out t h.1)
printed-AllSigned id psk (printed u ∷ out) t h = printed-AllSigned id psk out t h
printed-AllSigned id psk (slept n ∷ out) t h = printed-AllSigned id psk out t h

pub sent-AllSigned :
    (id : Text) (psk : List ℕ) (out : List Output) (d : Text)
    → IsSigned id psk d
    → AllSigned id psk out
    → AllSigned id psk (out ++ (sent d ∷ []))
unfolding datagrams
sent-AllSigned id psk [] d is h = (is, tt)
sent-AllSigned id psk (sent m ∷ out) d is h = (h.0, sent-AllSigned id psk out d is h.1)
sent-AllSigned id psk (printed u ∷ out) d is h = sent-AllSigned id psk out d is h
sent-AllSigned id psk (slept n ∷ out) d is h = sent-AllSigned id psk out d is h
