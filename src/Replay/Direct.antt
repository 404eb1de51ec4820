-- ===== src/Replay/Direct.antt =====
-- The datagrams of a tool that sends without bulk mode, agent id and rate limit, as agent/src/pt_replay.c does.
use packter.Base.{
  ℕ, ◌≡◌, refl, sym, subst, ltb, List, [], ◌∷◌, ◌++◌, append_assoc, append-nil, some, Text, Bool,
  true, false,
}
use packter.Base.Int.{pos, is_one}
use packter.Agent.{Env, World, sent, printed, slept}
use packter.Agent.Exec
use packter.Agent.Keeps.{
  Keeps, Keeps-modify, Keeps-when, Keeps-skip, Runs, Runs-bind, Runs-ask, Runs-then, Runs-of_keeps,
}
use packter.Agent.Exec.{Exec, ◌>>◌, pure, skip}
use packter.Clock.Difference.{rate_one}
use packter.Replay.Acts.{Act, says, pauses, perform, messages}
use packter.Send.{send, next_rate, set_rate, push, deliver, flush}
use packter.Send.View.{IsPlain, flush_plain, emit_plain, flushed, datagrams, datagrams-append}

-- The state of a tool without -A, -B, -R and -n: each message is a datagram of its own.
pub record IsDirect (w : World) : Type 0 where
  pub plain : IsPlain (pos 1) (pos 1) w
  pub unbuffered : w.ctx.bulk_buf ≡ []
  pub unwindowed : w.ctx.bulk_ms ≡ 0

-- The state is direct, and these datagrams were sent.
abbrev pub Has : List Text → World → Type 0
Has d w = IsDirect w × (datagrams w.out ≡ d)

module _ (env : Env) (d : List Text) where
  deliver-Has : (m : Text) → Runs (Has d) (deliver env m) (λ _. Has (d ++ (m ∷ [])))
  unfolding deliver Exec.◌>>=◌ ◌>>◌ Exec.gets datagrams
  deliver-Has m = record {
    at = λ w (h, e).
        let still : flush env w ≡ some (tt, w) =
          rw (flush_plain env w h.plain, flushed, h.unbuffered) refl in
        let off : ltb 0 w.ctx.bulk_ms ≡ false = rw h.unwindowed refl in
        (
          (tt, record w { out = w.out ++ (sent m ∷ []) }),
          rw (off, ◌>>◌, Exec.◌>>=◌, still) (emit_plain env m w h.plain),
          (
            record {
              plain = record { fits = h.plain.fits; steady = h.plain.steady };
              unbuffered = h.unbuffered;
              unwindowed = h.unwindowed;
            },
            rw (datagrams-append, e) refl,
          ),
        );
  }

  print-Has : (t : Text) → Keeps (Has d) (push (printed t))
  unfolding push datagrams
  print-Has t = Keeps-modify _ (λ w (h, e). (
    record {
      plain = record { fits = h.plain.fits; steady = h.plain.steady };
      unbuffered = h.unbuffered;
      unwindowed = h.unwindowed;
    },
    rw (datagrams-append, append-nil) e,
  ))

  draw-Has : Runs (Has d) (next_rate env) (λ drawn w. Has d w × (drawn ≡ 1))
  unfolding next_rate
  draw-Has = record {
    at = λ w (h, e). (
      _,
      refl,
      (
        (
          record {
            plain = record { fits = h.plain.fits; steady = h.plain.steady };
            unbuffered = h.unbuffered;
            unwindowed = h.unwindowed;
          },
          e,
        ),
        rw h.plain.steady.limit_is (rate_one (env.rand w.rand_calls)),
      ),
    );
  }

  set_rate-Has : Runs (Has d) (set_rate (pos 1)) (λ _. Has d)
  unfolding set_rate Exec.modify
  set_rate-Has = record {
    at = λ w (h, e). (
      _,
      refl,
      (
        record {
          plain = record {
            fits = h.plain.fits;
            steady = record {
              anonymous = h.plain.steady.anonymous;
              sending = h.plain.steady.sending;
              rate_is = refl;
              limit_is = h.plain.steady.limit_is;
            };
          };
          unbuffered = h.unbuffered;
          unwindowed = h.unwindowed;
        },
        e,
      ),
    );
  }

  -- From the rate that was drawn on.
  drawn-Has :
      (m : Text) (debug : Bool) (drawn : ℕ)
      → Runs
          (λ w. Has d w × (drawn ≡ 1))
          (set_rate (pos drawn) >> (Exec.when debug (push (printed m)) >> deliver env m))
          (λ _. Has (d ++ (m ∷ [])))
  drawn-Has m debug drawn = record {
    at = λ w (h, e).
        subst
          (λ k.
            (r : Unit {0} × World) × ((set_rate (pos k)
                  >> (Exec.when debug (push (printed m)) >> deliver env m))
                w
              ≡ some r)
            × Has (d ++ (m ∷ [])) r.1)
          (sym e)
          ((Runs-then (Has d) _ _ set_rate-Has (
              Runs-then (Has d) _ _ (Runs-of_keeps (Keeps-when debug _ (λ _. print-Has m)))
                (deliver-Has m))).at
            w h);
  }

  send-Has : (m : Text) → Runs (Has d) (send env m) (λ _. Has (d ++ (m ∷ [])))
  unfolding send
  send-Has m = Runs-ask _ _ (λ w (h, e).
      let due : is_one w.ctx.rate ≡ true = rw h.plain.steady.rate_is refl in
      rw due ((Runs-bind _ _ _ draw-Has (drawn-Has m w.ctx.debug)).at w (h, e)))

nap-Has : (d : List Text) (n : ℕ) → Keeps (Has d) (push (slept n))
unfolding push datagrams
nap-Has d n = Keeps-modify _ (λ w (h, e). (
  record {
    plain = record { fits = h.plain.fits; steady = h.plain.steady };
    unbuffered = h.unbuffered;
    unwindowed = h.unwindowed;
  },
  rw (datagrams-append, append-nil) e,
))

pub perform-Has :
    (env : Env) (acts : List Act) (d : List Text)
    → Runs (Has d) (perform env acts) (λ _. Has (d ++ messages acts))
unfolding perform messages
perform-Has env [] d = rw append-nil (Runs-of_keeps Keeps-skip)
perform-Has env (says m ∷ acts) d =
    Runs-then (Has (d ++ (m ∷ []))) _ _ (send-Has env d m)
      (rw (← append_assoc d (m ∷ []) (messages acts)) (perform-Has env acts (d ++ (m ∷ []))))
perform-Has env (pauses n ∷ acts) d =
    Runs-then (Has d) _ _ (Runs-of_keeps (nap-Has d n)) (perform-Has env acts d)
