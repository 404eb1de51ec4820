-- ===== src/Send/Emission.antt =====
-- The invariant of the send path, and that framing and emission keep it without a fault.
use packter.Base.{
  Option, ℕ, ◌+◌, ◌-◌, ◌≤◌, ◌<◌, ◌^◌, ◌≡◌, refl, List, [], ◌∷◌, ◌++◌, Text, some, Bool, arith,
  length, length-append, take, inl, inr, Bool-cases, is_filled, newline, decimal, true, false,
  if◌then◌else◌,
}
use packter.Base.Decimal.{length-decimal}
use packter.Base.Hex.{hex, length-hex}
use packter.Agent.{Template, Ctx, Env, World, Timeval, sent, printed}
use packter.Agent.Exec.{Exec, ◌>>=◌, ◌>>◌, pure, lift, modify}
use packter.Agent.Keeps.{Keeps, Keeps-then, Keeps-modify, Keeps-of_runs, Runs, Runs-bind, Runs-ask}
use packter.Digest.Lengths.{length-pt_hmac_sha256}
use packter.Digest.Hmac.{pt_hmac_sha256}
use packter.Send.{
  bulk_payload, copies, fitting, agent_header, id_and_time, agent_line, ask_clock, push, frame,
  emit, framed_size, time_line,
}
use packter.Send.Signed.{
  own-IsSigned, needs_cache, Owner, AllSigned, IsSigned, framed-IsSigned, bare-IsSigned,
  printed-AllSigned, sent-AllSigned,
}

-- A pointer to a template map.
abbrev pub HasMap : Option (List (Text × Template)) → Type 0
HasMap templates = (map : List (Text × Template)) × (templates ≡ some map)

-- The bulk buffer and the agent id fit theirs, the translation guard stands at `suspended`, and what was
-- sent bears the authentication line of the owner, whose id and key the
-- context holds. There is a template map where the owner has one, which a translation may need.
pub record IsSound ⦃own : Owner⦄ (suspended : Bool) (w : World) : Type 0 where
  pub bulk_fits : length w.ctx.bulk_buf ≤ bulk_payload
  pub id_fits : length w.ctx.agent_id ≤ 63
  pub guard : w.ctx.translate_suspend ≡ suspended
  pub cached : own.cached ≡ true → HasMap w.templates
  pub needed : needs_cache w.ctx.translate ≡ true → own.cached ≡ true
  pub own_id : w.ctx.agent_id ≡ own.id
  pub own_psk : w.ctx.psk ≡ own.psk
  pub signed : AllSigned own.id own.psk w.out

fitting-total : (n : ℕ) (t : Text) → length t < n → fitting n t ≡ some t
unfolding fitting
fitting-total n t h = ground arith

length-agent_header : length agent_header ≡ 13
unfolding agent_header
length-agent_header = refl

length-id_and_time :
    (ctx : Ctx) (ts : ℕ) → length ctx.agent_id ≤ 63 → ts < 2 ^ 63 → length (id_and_time ctx ts) ≤ 83
unfolding id_and_time
length-id_and_time ctx ts h g =
    omega
      (arith, length-append ctx.agent_id (b',' ∷ decimal ts), length-decimal 18 ts (omega arith))

-- The authentication line fits its buffer for every key and payload, when the agent's id has at most 63 bytes and the time is below 2 ^ 63.
pub agent_line-total :
    (ctx : Ctx) (ts : ℕ) (payload : List ℕ)
    → length ctx.agent_id ≤ 63
    → ts < 2 ^ 63
    → (line : Text) × (agent_line ctx ts payload ≡ some line)
unfolding agent_line
agent_line-total ctx ts payload h g = elim (Bool-cases (is_filled ctx.psk)) [
  | inl keyed ↦
      let stamp = id_and_time ctx ts in
      let short = length-id_and_time ctx ts h g in
      let signed = stamp ++ (newline ∷ []) in
      let digest = pt_hmac_sha256 ctx.psk (signed ++ take (128 + 65536 - length signed) payload) in
      let line = stamp ++ (b',' ∷ (hex digest ++ (newline ∷ []))) in
      (
        agent_header ++ line,
        rw (keyed, fitting-total 128 signed (omega (arith, length-append stamp (newline ∷ []))))
            (fitting-total 256 (agent_header ++ line) (
              omega (
                arith,
                length-append agent_header line,
                length-agent_header,
                length-append stamp (b',' ∷ (hex digest ++ (newline ∷ []))),
                length-append (hex digest) (newline ∷ []),
                length-hex digest,
                length-pt_hmac_sha256 ctx.psk
                    (signed ++ take (128 + 65536 - length signed) payload),
              ))),
      )
  | inr plain ↦
      let line = agent_header ++ (ctx.agent_id ++ (newline ∷ [])) in
      (
        line,
        rw plain (
            fitting-total 256 line (
              omega (
                arith,
                length-append agent_header (ctx.agent_id ++ (newline ∷ [])),
                length-agent_header,
                length-append ctx.agent_id (newline ∷ []),
              ))),
      )
]

pub copies-total : (n room : ℕ) → n ≤ room → (u : Unit {0}) × (copies n room ≡ some u)
unfolding copies
copies-total n room h = (tt, ground arith)

module _ (env : Env) (b : Bool) ⦃own : Owner⦄ where
  -- The clock changes nothing but its count of reads, and answers a time that the line can hold.
  pub Keeps-clock :
      {A : Type 0} (k : Timeval → Exec World A)
      → ((t : Timeval) → t.sec < 2 ^ 63 → Keeps (IsSound b) (k t))
      → Keeps (IsSound b) (ask_clock env >>= k)
  unfolding ask_clock ◌>>=◌
  Keeps-clock k kk = record {
    at = λ w h.
        (kk (env.now w.clock_reads) (env.now_bound w.clock_reads)).at
          (record w { clock_reads = w.clock_reads + 1 })
          (record {
            bulk_fits = h.bulk_fits;
            id_fits = h.id_fits;
            guard = h.guard;
            cached = h.cached;
            needed = h.needed;
            own_id = h.own_id;
            own_psk = h.own_psk;
            signed = h.signed;
          });
  }

  pub push-IsSound : (t : Text) → Keeps (IsSound b) (push (printed t))
  unfolding push
  push-IsSound t = Keeps-modify _ (λ w h. record {
    bulk_fits = h.bulk_fits;
    id_fits = h.id_fits;
    guard = h.guard;
    cached = h.cached;
    needed = h.needed;
    own_id = h.own_id;
    own_psk = h.own_psk;
    signed = printed-AllSigned own.id own.psk w.out t h.signed;
  })

  -- The invariant, and a datagram that may leave.
  abbrev IsFramed : Text → World → Type 0
  IsFramed d w = IsSound b w × IsSigned own.id own.psk d

  sent-IsSound : (d : Text) → Runs (IsFramed d) (push (sent d)) (λ _. IsSound b)
  unfolding push modify
  sent-IsSound d = record {
    at = λ w (h, is). (
      (tt, record w { out = w.out ++ (sent d ∷ []) }),
      refl,
      record {
        bulk_fits = h.bulk_fits;
        id_fits = h.id_fits;
        guard = h.guard;
        cached = h.cached;
        needed = h.needed;
        own_id = h.own_id;
        own_psk = h.own_psk;
        signed = sent-AllSigned own.id own.psk w.out d is h.signed;
      },
    );
  }

  frame-IsFramed : (mesg : List ℕ) → Runs (IsSound b) (frame env mesg) IsFramed
  unfolding frame ask_clock lift pure ◌>>=◌
  frame-IsFramed mesg =
      Runs-ask (λ w. w.ctx) _
        λ w h. elim (Bool-cases (is_filled w.ctx.agent_id)) [
          | inr nameless ↦ (
            (mesg, w),
            rw nameless refl,
            (h, own-IsSigned own w.ctx _ h.own_id h.own_psk (bare-IsSigned w.ctx mesg nameless)),
          )
          | inl named ↦
              let ts = (env.now w.clock_reads).sec in
              let (line, e) =
                agent_line-total w.ctx ts mesg h.id_fits (env.now_bound w.clock_reads) in
              (
                (
                  line ++ take (framed_size - length line) mesg,
                  record w { clock_reads = w.clock_reads + 1 },
                ),
                rw (named, e) refl,
                (
                  record {
                    bulk_fits = h.bulk_fits;
                    id_fits = h.id_fits;
                    guard = h.guard;
                    cached = h.cached;
                    needed = h.needed;
                    own_id = h.own_id;
                    own_psk = h.own_psk;
                    signed = h.signed;
                  },
                  own-IsSigned own w.ctx _ h.own_id h.own_psk
                      (framed-IsSigned w.ctx ts mesg line named e),
                ),
              )
        ]

  pub emit-IsSound : (mesg : List ℕ) → Keeps (IsSound b) (emit env mesg)
  unfolding emit
  emit-IsSound mesg =
      Keeps-of_runs
        (Runs-bind IsFramed _ _ (frame-IsFramed mesg)
          (λ framed. Runs-ask (λ w. w.ctx.notsend) _ (λ w. (leave framed w.ctx.notsend).at w)))
        (λ _ _ h. h)
    where
      leave :
          (framed : Text) (notsend : Bool)
          → Runs
              (IsFramed framed)
              (if notsend
                then (do now ← ask_clock env; push (printed (time_line now)); push (printed framed))
                else push (sent framed))
              (λ _. IsSound b)
      leave framed true =
          let shown = Keeps-clock _ (λ t _. Keeps-then _ _ (push-IsSound _) (push-IsSound _)) in
          record { at = λ w (h, is). shown.at w h }
      leave framed false = sent-IsSound framed
