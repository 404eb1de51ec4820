-- ===== src/Send/Delivery.antt =====
-- packter_send with its rate limit, and a whole run of it, on the stream that the receiver gets.
use packter.Base.{
  ℕ, ◌≡◌, refl, sym, ap, subst, List, [], ◌∷◌, ◌++◌, Text, some, Bool, true, false, inl, inr,
  Bool-cases, append-nil, append_assoc, if◌then◌else◌,
}
use packter.Base.Int.{ℤ, is_one, pred, pos}
use packter.Agent.{Env, World, printed}
use packter.Agent.Exec.{◌>>◌, skip, modify, when}
use packter.Agent.Keeps.{
  Keeps, Keeps-modify, Keeps-when, Runs, Runs-bind, Runs-ask, Runs-then, Runs-of_keeps, Runs-weaken,
}
use packter.Send.{Action, push, set_rate, flush, next_rate, deliver, send}
use packter.Send.View.{payload, payloads, stream, IsPlain, payloads-append}
use packter.Clock.{rate}
use packter.Clock.Difference.{rate_one}
use packter.Send.Stream.{Streams, Holds, flush-Streams, deliver-Streams}

module _ (env : Env) (r l : ℤ) (s : Text) where
  -- The rate that is drawn is one that `packter_rate` answers on the limit.
  draw-Streams :
      Runs
        (Streams r l s)
        (next_rate env)
        (λ drawn w. Streams r l s w × ((x : ℕ) × (drawn ≡ rate l x)))
  unfolding next_rate stream
  draw-Streams = record {
    at = λ w (h, e). (
      _,
      refl,
      (
        (
          record {
            fits = h.fits;
            steady = record {
              anonymous = h.steady.anonymous;
              sending = h.steady.sending;
              rate_is = h.steady.rate_is;
              limit_is = h.steady.limit_is;
            };
          },
          e,
        ),
        (env.rand w.rand_calls, ap (λ (z : ℤ). rate z (env.rand w.rand_calls)) h.steady.limit_is),
      ),
    );
  }

  set_rate-Streams : (q : ℤ) → Runs (Streams r l s) (set_rate q) (λ _. Streams q l s)
  unfolding set_rate modify stream
  set_rate-Streams q = record {
    at = λ w (h, e). (
      _,
      refl,
      (
        record {
          fits = h.fits;
          steady = record {
            anonymous = h.steady.anonymous;
            sending = h.steady.sending;
            rate_is = refl;
            limit_is = h.steady.limit_is;
          };
        },
        e,
      ),
    );
  }

  print-Streams : (t : Text) → Keeps (Streams r l s) (push (printed t))
  unfolding push stream payloads
  print-Streams t = Keeps-modify _ (λ w (h, e). (
    record {
      fits = h.fits;
      steady = record {
        anonymous = h.steady.anonymous;
        sending = h.steady.sending;
        rate_is = h.steady.rate_is;
        limit_is = h.steady.limit_is;
      };
    },
    rw (payloads-append, append-nil) e,
  ))

-- What a send leaves: the rate that was drawn, and the message at the stream's end.
abbrev Sent : ℤ → Text → World → Type 0
Sent l s w = (x : ℕ) × Streams (pos (rate l x)) l s w

module _ (env : Env) (m : Text) (r l : ℤ) (s : Text) where
  -- From the rate that was drawn on.
  after_draw :
      (debug : Bool) (drawn : ℕ)
      → Runs
          (λ w. Streams r l s w × ((x : ℕ) × (drawn ≡ rate l x)))
          (set_rate (pos drawn) >> (when debug (push (printed m)) >> deliver env m))
          (λ _. Sent l (s ++ payload m))
  after_draw debug drawn = record {
    at = λ w (h, (x, e)).
        let q = pos drawn in
        let (end, run, p) =
          (Runs-then (Streams q l s) _ _ (set_rate-Streams env r l s q) (
              Runs-then (Streams q l s) _ _
                (Runs-of_keeps (Keeps-when debug _ (λ _. print-Streams env q l s m)))
                (deliver-Streams env q l s m))).at
            w h in
        (end, run, (x, subst (λ d. Streams (pos d) l (s ++ payload m) end.1) e p));
  }

  send_due : is_one r ≡ true → Runs (Streams r l s) (send env m) (λ _. Sent l (s ++ payload m))
  unfolding send
  send_due due = Runs-ask _ _ (λ w (h, e).
      let is : is_one w.ctx.rate ≡ true = rw h.steady.rate_is due in
      rw is ((Runs-bind _ _ _ (draw-Streams env r l s) (after_draw w.ctx.debug)).at w (h, e)))

  send_held : is_one r ≡ false → Runs (Streams r l s) (send env m) (λ _. Streams (pred r) l s)
  unfolding send
  send_held held = Runs-ask _ _ (λ w (h, e).
      let is : is_one w.ctx.rate ≡ false = rw h.steady.rate_is held in
      rw is (
        subst
          (λ (z : ℤ).
            (x : Unit {0} × World) × (set_rate (pred z) w ≡ some x) × Streams (pred r) l s x.1)
          (sym h.steady.rate_is) ((set_rate-Streams env r l s (pred r)).at w (h, e))))

-- From a state that sends, without an agent id and with a bulk buffer that fits, `packter_send` returns without a fault. Where the rate stands at 1 it appends the message's payload to the stream and draws a new rate under the limit; otherwise it leaves the stream as it is and counts the rate down. The state stays such a state.
pub send-stream :
    (env : Env) (m : Text) (w : World) (r l : ℤ)
    → IsPlain r l w
    → (w' : World) × (send env m w ≡ some (tt, w'))
      × (stream w' ≡ (if is_one r then stream w ++ payload m else stream w))
      × ((x : ℕ) × IsPlain (if is_one r then pos (rate l x) else pred r) l w')
send-stream env m w r l h = elim (Bool-cases (is_one r)) [
  | inr held ↦
      let (end, run, (plain, e)) = (send_held env m r l (stream w) held).at w (h, refl) in
      rw held (end.1, run, e, (0, plain))
  | inl due ↦
      let (end, run, (x, (plain, e))) = (send_due env m r l (stream w) due).at w (h, refl) in
      rw due (end.1, run, e, (x, plain))
]

-- The messages sent one behind the other.
unfoldable pub sends : Env → List Text → Action
sends env [] = skip
sends env (m ∷ ms) = send env m >> sends env ms

-- A run of sends, and the flush that ends a capture (pt_agent, packter_pcap).
unfoldable pub send_all : Env → List Text → Action
send_all env [] = flush env
send_all env (m ∷ ms) = send env m >> send_all env ms

-- The payloads of messages, one behind the other.
unfoldable pub joined : List Text → Text
joined [] = []
joined (m ∷ ms) = payload m ++ joined ms

send_one :
    (env : Env) (m s : Text)
    → Runs (Streams (pos 1) (pos 1) s) (send env m) (λ _. Streams (pos 1) (pos 1) (s ++ payload m))
send_one env m s =
    Runs-weaken (send_due env m (pos 1) (pos 1) s refl)
      (λ _ w (x, p). subst (λ d. Streams (pos d) (pos 1) (s ++ payload m) w) (rate_one x) p)

send_all-Holds :
    (env : Env) (ms : List Text) (s : Text)
    → Runs
        (Streams (pos 1) (pos 1) s)
        (send_all env ms)
        (λ _. Holds (pos 1) (pos 1) (s ++ joined ms) [])
unfolding send_all joined
send_all-Holds env [] s = rw append-nil (flush-Streams env (pos 1) (pos 1) s)
send_all-Holds env (m ∷ ms) s =
    Runs-then (Streams (pos 1) (pos 1) (s ++ payload m)) _ _ (send_one env m s)
      (rw (← append_assoc s (payload m) (joined ms)) (send_all-Holds env ms (s ++ payload m)))

-- From a state that sends, without an agent id and without a rate limit, any messages that are sent and then flushed reach the receiver complete and in order, whatever the bulk window: the payloads of all datagrams, one behind the other, are those of the messages behind what was in the stream before, and nothing is left in the buffer.
pub send_all-payloads :
    (env : Env) (ms : List Text) (w : World)
    → IsPlain (pos 1) (pos 1) w
    → (w' : World) × (send_all env ms w ≡ some (tt, w'))
      × (payloads w'.out ≡ stream w ++ joined ms)
      × (w'.ctx.bulk_buf ≡ [])
send_all-payloads env ms w h =
    let (end, run, (plain, e, bare)) = (send_all-Holds env ms (stream w)).at w (h, refl) in
    (end.1, run, e, bare)
