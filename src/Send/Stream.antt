-- ===== src/Send/Stream.antt =====
-- What the receiver gets: bulk mode changes how records are packed into datagrams, and neither
-- their bytes nor their order.
use packter.Base.{
  ◌+◌, ◌≤◌, ◌≡◌, refl, sym, ap, ◌∙◌, [], ◌∷◌, ◌++◌, Text, Bool, true, false, not, ◌&&◌, arith,
  length, length-append, inl, inr, Bool-cases, is_filled, ltb, ltb→le, drop, append-nil,
  append_assoc,
}
use packter.Base.Int.{ℤ}
use packter.Agent.{Env, World, sent, Timeval}
use packter.Agent.Exec.{◌>>=◌, ◌>>◌, pure, skip, gets, modify, when}
use packter.Agent.Keeps.{
  Keeps, Keeps-bind, Keeps-gets, Keeps-if, Keeps-pure, Keeps-modify, Keeps-when, Runs, Runs-bind,
  Runs-know, Runs-read, Runs-then, Runs-if, Runs-of_keeps, Runs-weaken,
}
use packter.Mesg.{header}
use packter.Send.{
  bulk_payload, ask_clock, set_bulk, set_bulk_first, emit, flush, bulk_window_expired, make_room,
  store_record, append_record, is_fly, deliver,
}
use packter.Send.Emission.{copies-total}
use packter.Send.View.{
  payload, payloads, stream, IsPlain, flushed, emit_plain, flush_plain, payloads-append,
  payload-header, not_filled,
}

-- The state is plain, and `s` is what was sent with what waits.
abbrev pub Streams : ℤ → ℤ → Text → World → Type 0
Streams r l s w = IsPlain r l w × (stream w ≡ s)

-- The state is plain, `p` was sent, and `buf` waits.
abbrev pub Holds : ℤ → ℤ → Text → Text → World → Type 0
Holds r l p buf w = IsPlain r l w × (payloads w.out ≡ p) × (w.ctx.bulk_buf ≡ buf)

module _ (env : Env) (r l : ℤ) where
  flush-Holds :
      (w : World) → IsPlain r l w → Runs (λ v. v ≡ w) (flush env) (λ _. Holds r l (stream w) [])
  unfolding stream payloads
  flush-Holds w h = record {
    at = λ v e. elim (Bool-cases (is_filled w.ctx.bulk_buf)) [
      | inl held ↦ (
        (tt, flushed w),
        rw e (flush_plain env w h),
        rw held (
          record {
            fits = omega arith;
            steady = record {
              anonymous = h.steady.anonymous;
              sending = h.steady.sending;
              rate_is = h.steady.rate_is;
              limit_is = h.steady.limit_is;
            };
          },
          rw (payloads-append, payload-header, append-nil) refl,
          refl,
        ),
      )
      | inr bare ↦ (
        (tt, flushed w),
        rw e (flush_plain env w h),
        rw bare (h, rw (not_filled _ bare, append-nil) refl, not_filled _ bare),
      )
    ];
  }

  emit-Holds :
      (m p buf : Text) → Runs (Holds r l p buf) (emit env m) (λ _. Holds r l (p ++ payload m) buf)
  unfolding payloads
  emit-Holds m p buf = record {
    at = λ w (h, sentp, held). (
      (tt, record w { out = w.out ++ (sent m ∷ []) }),
      emit_plain env m w h,
      (
        record {
          fits = h.fits;
          steady = record {
            anonymous = h.steady.anonymous;
            sending = h.steady.sending;
            rate_is = h.steady.rate_is;
            limit_is = h.steady.limit_is;
          };
        },
        rw (payloads-append, sentp, append-nil) refl,
        held,
      ),
    );
  }

  pub flush-Streams : (s : Text) → Runs (Streams r l s) (flush env) (λ _. Holds r l s [])
  flush-Streams s = record {
    at = λ w (h, e).
        let (end, run, holds) = (flush-Holds w h).at w refl in
        (end, run, (holds.0, holds.1 ∙ e, holds.2));
  }

  Streams-of_Holds : (s : Text) (w : World) → Holds r l s [] w → Streams r l s w
  unfolding stream
  Streams-of_Holds s w (h, p, bare) = (h, rw (p, bare) (append-nil s))

  -- The clock, the window's start and the rate are no part of the stream.
  clock-Holds : (p buf : Text) → Keeps (Holds r l p buf) (ask_clock env)
  unfolding ask_clock
  clock-Holds p buf = record {
    at = λ w (h, e, f). (
      _,
      refl,
      (
        record {
          fits = h.fits;
          steady = record {
            anonymous = h.steady.anonymous;
            sending = h.steady.sending;
            rate_is = h.steady.rate_is;
            limit_is = h.steady.limit_is;
          };
        },
        e,
        f,
      ),
    );
  }

  first-Holds : (p buf : Text) (t : Timeval) → Keeps (Holds r l p buf) (set_bulk_first t)
  unfolding set_bulk_first
  first-Holds p buf t = Keeps-modify _ (λ w (h, e, f). (
    record {
      fits = h.fits;
      steady = record {
        anonymous = h.steady.anonymous;
        sending = h.steady.sending;
        rate_is = h.steady.rate_is;
        limit_is = h.steady.limit_is;
      };
    },
    e,
    f,
  ))

  expired-Holds : (p buf : Text) → Keeps (Holds r l p buf) (bulk_window_expired env)
  unfolding bulk_window_expired
  expired-Holds p buf = Keeps-bind _ _ (Keeps-gets _) λ ctx.
      Keeps-if (is_filled ctx.bulk_buf) _ _
        (λ _. Keeps-bind _ _ (clock-Holds p buf) (λ t. Keeps-pure _)) (λ _. Keeps-pure false)

  grow-Holds :
      (p buf rec : Text)
      → length buf + length rec ≤ bulk_payload
      → Runs (Holds r l p buf) (set_bulk (buf ++ rec)) (λ _. Holds r l p (buf ++ rec))
  unfolding set_bulk modify
  grow-Holds p buf rec room = record {
    at = λ w (h, e, f). (
      _,
      refl,
      (
        record {
          fits = omega (arith, length-append buf rec);
          steady = record {
            anonymous = h.steady.anonymous;
            sending = h.steady.sending;
            rate_is = h.steady.rate_is;
            limit_is = h.steady.limit_is;
          };
        },
        e,
        refl,
      ),
    );
  }

  expire-Streams :
      (p buf : Text) (expired : Bool)
      → Runs (Holds r l p buf) (when expired (flush env)) (λ _. Streams r l (p ++ buf))
  unfolding when skip pure stream
  expire-Streams p buf true = record {
    at = λ w (h, e, f).
        let (end, run, holds) = (flush-Streams (p ++ buf)).at w (h, rw (e, f) refl) in
        (end, run, Streams-of_Holds _ end.1 holds);
  }
  expire-Streams p buf false = record { at = λ w (h, e, f). (_, refl, (h, rw (e, f) refl)) }

  store_record-Streams :
      (p buf rec : Text)
      → length buf + length rec ≤ bulk_payload
      → Runs (Holds r l p buf) (store_record env rec) (λ _. Streams r l (p ++ (buf ++ rec)))
  unfolding store_record
  store_record-Streams p buf rec room =
      Runs-know buf _ _ (λ w h. h.2)
        (Runs-then (Holds r l p buf) _ _
          (Runs-of_keeps (
            Keeps-when (not (is_filled buf)) _
              (λ _. Keeps-bind _ _ (clock-Holds p buf) (first-Holds p buf))))
          (Runs-read _ _ (copies-total (length rec) _ (omega arith)) (λ _.
            Runs-then (Holds r l p (buf ++ rec)) _ _ (grow-Holds p buf rec room) (
              Runs-bind (λ _. Holds r l p (buf ++ rec)) _ _
                (Runs-of_keeps (expired-Holds p (buf ++ rec))) (expire-Streams p (buf ++ rec))))))

  make_room-Streams :
      (s rec : Text)
      → length rec ≤ bulk_payload
      → Runs
          (Streams r l s)
          (make_room env rec)
          (λ _ w. Streams r l s w × (length w.ctx.bulk_buf + length rec ≤ bulk_payload))
  unfolding make_room ◌>>=◌ gets when skip pure
  make_room-Streams s rec small = record {
    at = λ w (h, e). elim (Bool-cases (ltb bulk_payload (length w.ctx.bulk_buf + length rec))) [
      | inr fits ↦ ((tt, w), rw fits refl, ((h, e), ltb→le _ _ fits))
      | inl over ↦
          let (end, run, holds) = (flush-Streams s).at w (h, e) in
          (end, rw over run, (Streams-of_Holds s end.1 holds, rw (holds.2) (omega arith)))
    ];
  }

  append_record-Streams :
      (s rec : Text)
      → length rec ≤ bulk_payload
      → Runs (Streams r l s) (append_record env rec) (λ _. Streams r l (s ++ rec))
  unfolding append_record stream
  append_record-Streams s rec small =
      Runs-then (λ w. Streams r l s w × (length w.ctx.bulk_buf + length rec ≤ bulk_payload)) _ _
        (make_room-Streams s rec small)
        (record {
          at = λ w ((h, e), room).
              let buf = w.ctx.bulk_buf in
              let (end, run, q) =
                (store_record-Streams (payloads w.out) buf rec room).at w (h, refl, refl) in
              (end, run, (q.0, q.1 ∙ sym (append_assoc _ buf rec) ∙ ap (λ (t : Text). t ++ rec) e));
        })

  direct-Streams :
      (s m : Text)
      → Runs (Streams r l s) (flush env >> emit env m) (λ _. Streams r l (s ++ payload m))
  direct-Streams s m =
      Runs-then (Holds r l s []) _ _ (flush-Streams s)
        (Runs-weaken (emit-Holds m s []) (λ _ w. Streams-of_Holds (s ++ payload m) w))

  -- A message that the rate limit lets through joins the stream.
  pub deliver-Streams :
      (s m : Text) → Runs (Streams r l s) (deliver env m) (λ _. Streams r l (s ++ payload m))
  unfolding deliver payload
  deliver-Streams s m =
      Runs-bind (λ _. Streams r l s) _ _ (Runs-of_keeps (Keeps-gets _))
        λ bulk_ms.
          Runs-if (ltb 0 bulk_ms && is_fly m) _ _
            (λ fly.
              let is : is_fly m ≡ true = ground arith in
              Runs-if (ltb bulk_payload (length (drop (length header) m))) _ _
                (λ _. direct-Streams s m)
                (λ small. rw is (append_record-Streams s _ (ltb→le _ _ small))))
            (λ _. direct-Streams s m)
