-- ===== src/Send/View.antt =====
-- The abstract view of the send path: the payloads of the datagrams, one behind the other.
use packter.Base.{
  ◌≤◌, ◌≡◌, refl, List, [], ◌∷◌, ◌++◌, Text, some, true, false, arith, length, is_filled, drop,
  append_assoc, take-append, drop-append, text_eq_refl, if◌then◌else◌,
}
use packter.Base.Int.{ℤ}
use packter.Agent.{Ctx, Env, World, Output, sent, printed, slept}
use packter.Agent.Exec.{◌>>=◌, ◌>>◌, pure, skip, lift, gets, modify, when}
use packter.Mesg.{header}
use packter.Send.{bulk_payload, copies, push, set_bulk, frame, emit, flush, is_fly}

-- A datagram without its PACKTER header, where it has one.
unfoldable pub payload : Text → Text
payload m = if is_fly m then drop (length header) m else m

-- The payloads of the datagrams that were sent, one behind the other.
unfoldable pub payloads : List Output → Text
payloads [] = []
payloads (sent m ∷ os) = payload m ++ payloads os
payloads (printed t ∷ os) = payloads os
payloads (slept n ∷ os) = payloads os

-- The datagrams among the outputs.
unfoldable pub datagrams : List Output → List Text
datagrams [] = []
datagrams (sent m ∷ os) = m ∷ datagrams os
datagrams (printed t ∷ os) = datagrams os
datagrams (slept n ∷ os) = datagrams os

pub datagrams-append : (os ps : List Output) → datagrams (os ++ ps) ≡ datagrams os ++ datagrams ps
unfolding datagrams
datagrams-append [] ps = refl
datagrams-append (sent m ∷ os) ps = simp (datagrams-append os ps)
datagrams-append (printed t ∷ os) ps = datagrams-append os ps
datagrams-append (slept n ∷ os) ps = datagrams-append os ps

-- What was sent, and what waits in the bulk buffer.
unfoldable pub stream : World → Text
stream w = payloads w.out ++ w.ctx.bulk_buf

-- The agent sends datagrams, with no authentication line, at the rate r under the limit l.
pub record IsSteady (r l : ℤ) (ctx : Ctx) : Type 0 where
  pub anonymous : ctx.agent_id ≡ []
  pub sending : ctx.notsend ≡ false
  pub rate_is : ctx.rate ≡ r
  pub limit_is : ctx.rate_limit ≡ l

-- So it does, and the bulk buffer fits.
pub record IsPlain (r l : ℤ) (w : World) : Type 0 where
  pub fits : length w.ctx.bulk_buf ≤ bulk_payload
  pub steady : IsSteady r l w.ctx

pub payloads-append : (os ps : List Output) → payloads (os ++ ps) ≡ payloads os ++ payloads ps
unfolding payloads
payloads-append [] ps = refl
payloads-append (sent m ∷ os) ps = simp (payloads-append os ps, append_assoc)
payloads-append (printed t ∷ os) ps = payloads-append os ps
payloads-append (slept n ∷ os) ps = payloads-append os ps

pub is_fly-header : (buf : Text) → is_fly (header ++ buf) ≡ true
unfolding is_fly
is_fly-header buf = rw (take-append header buf) (text_eq_refl header)

pub payload-header : (buf : Text) → payload (header ++ buf) ≡ buf
unfolding payload
payload-header buf = rw (is_fly-header buf) (drop-append header buf)

-- What a flush makes of the outputs.
abbrev pub flushed : World → World
flushed w =
    if is_filled w.ctx.bulk_buf
    then record w {
      ctx = record (w.ctx) { bulk_buf = [] };
      out = w.out ++ (sent (header ++ w.ctx.bulk_buf) ∷ []);
    }
    else w

module _ (env : Env) {r l : ℤ} where
  pub emit_plain :
      (m : Text) (w : World)
      → IsPlain r l w
      → emit env m w ≡ some (tt, record w { out = w.out ++ (sent m ∷ []) })
  unfolding emit frame push modify ◌>>=◌ gets pure
  emit_plain m w h = rw (h.steady.anonymous, h.steady.sending) refl

  pub flush_plain : (w : World) → IsPlain r l w → flush env w ≡ some (tt, flushed w)
  unfolding flush ◌>>=◌ ◌>>◌ gets when lift set_bulk modify copies skip pure
  flush_plain w h = ground (arith, emit_plain (header ++ w.ctx.bulk_buf) w h, h.fits, length-header)
    where
      length-header : length header ≡ 8
      length-header = unfold header in refl

pub not_filled : (t : Text) → is_filled t ≡ false → t ≡ []
not_filled [] h = refl
not_filled (c ∷ t) h = cc
