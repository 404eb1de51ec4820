-- ===== src/Send/Safety.antt =====
-- No call of packter_send faults or writes past a buffer, from a state whose bulk buffer and agent
-- id fit theirs, and the state stays so.
use packter.Base.{
  ℕ, ◌+◌, ◌≤◌, ◌≡◌, refl, List, [], ◌∷◌, ◌++◌, Text, some, Bool, false, ◌&&◌, arith, length,
  length-append, inl, inr, Bool-cases, is_filled, ltb, ltb→le, drop,
}
use packter.Base.Int.{ℤ, is_one, pos}
use packter.Agent.{Env, World, Timeval}
use packter.Agent.Exec.{◌>>=◌, ◌>>◌, pure, skip, lift, gets, modify, when}
use packter.Agent.Keeps.{
  Keeps, Keeps-ask, Keeps-read, Keeps-pure, Keeps-bind, Keeps-then, Keeps-if, Keeps-modify,
  Keeps-gets, Keeps-when, Runs, Runs-bind, Keeps-of_runs, Runs-ask,
}
use packter.Mesg.{header}
use packter.Send.{
  bulk_payload, copies, set_bulk, set_bulk_first, set_rate, flush, next_rate, bulk_window_expired,
  make_room, store_record, append_record, is_fly, deliver, send, send_se,
}
use packter.Send.Signed.{Owner}
use packter.Send.Emission.{copies-total, IsSound, Keeps-clock, push-IsSound, emit-IsSound}

length-header : length header ≡ 8
unfolding header
length-header = refl

not_filled : (t : Text) → is_filled t ≡ false → t ≡ []
not_filled [] h = refl
not_filled (c ∷ t) h = cc

-- The invariant, and an empty buffer.
abbrev pub IsFlushed : ⦃own : Owner⦄ → Bool → World → Type 0
IsFlushed ⦃own⦄ b w = IsSound b w × (w.ctx.bulk_buf ≡ [])

module _ (env : Env) (b : Bool) ⦃own : Owner⦄ where
  set_bulk-IsSound : (buf : List ℕ) → length buf ≤ bulk_payload → Keeps (IsSound b) (set_bulk buf)
  unfolding set_bulk
  set_bulk-IsSound buf fits = Keeps-modify _ (λ w h. record {
    bulk_fits = fits;
    id_fits = h.id_fits;
    guard = h.guard;
    cached = h.cached;
    needed = h.needed;
    own_id = h.own_id;
    own_psk = h.own_psk;
    signed = h.signed;
  })

  set_bulk_first-IsSound : (t : Timeval) → Keeps (IsSound b) (set_bulk_first t)
  unfolding set_bulk_first
  set_bulk_first-IsSound t = Keeps-modify _ (λ w h. record {
    bulk_fits = h.bulk_fits;
    id_fits = h.id_fits;
    guard = h.guard;
    cached = h.cached;
    needed = h.needed;
    own_id = h.own_id;
    own_psk = h.own_psk;
    signed = h.signed;
  })

  set_rate-IsSound : (r : ℤ) → Keeps (IsSound b) (set_rate r)
  unfolding set_rate
  set_rate-IsSound r = Keeps-modify _ (λ w h. record {
    bulk_fits = h.bulk_fits;
    id_fits = h.id_fits;
    guard = h.guard;
    cached = h.cached;
    needed = h.needed;
    own_id = h.own_id;
    own_psk = h.own_psk;
    signed = h.signed;
  })

  next_rate-IsSound : Keeps (IsSound b) (next_rate env)
  unfolding next_rate
  next_rate-IsSound = record {
    at = λ w h. (
      _,
      refl,
      record {
        bulk_fits = h.bulk_fits;
        id_fits = h.id_fits;
        guard = h.guard;
        cached = h.cached;
        needed = h.needed;
        own_id = h.own_id;
        own_psk = h.own_psk;
        signed = h.signed;
      },
    );
  }

  pub flush-IsSound : Keeps (IsSound b) (flush env)
  unfolding flush
  flush-IsSound =
      Keeps-ask (λ (buf : List ℕ). length buf ≤ bulk_payload) (λ w. w.ctx.bulk_buf) _
        (λ w h. h.bulk_fits)
        λ buf fits. Keeps-when (is_filled buf) _ (λ _.
          Keeps-read _ _ (copies-total _ _ (omega (arith, length-header))) (λ _ _.
            Keeps-then _ _ (emit-IsSound env b (header ++ buf))
              (set_bulk-IsSound [] (omega arith))))

  bulk_window_expired-IsSound : Keeps (IsSound b) (bulk_window_expired env)
  unfolding bulk_window_expired
  bulk_window_expired-IsSound = Keeps-bind _ _ (Keeps-gets _) λ ctx.
      Keeps-if (is_filled ctx.bulk_buf) _ _ (λ _. Keeps-clock env b _ (λ t _. Keeps-pure _))
        (λ _. Keeps-pure false)

  pub flush-IsFlushed : Runs (IsSound b) (flush env) (λ _. IsFlushed b)
  unfolding flush ◌>>=◌ ◌>>◌ gets when lift set_bulk modify copies skip pure
  flush-IsFlushed = record {
    at = λ w h.
        let buf = w.ctx.bulk_buf in
        elim (Bool-cases (is_filled buf)) [
          | inr bare ↦ ((tt, w), rw bare refl, (h, not_filled buf bare))
          | inl held ↦
              let ((u, w'), e, h') = (emit-IsSound env b (header ++ buf)).at w h in
              (
                (tt, record w' { ctx = record (w'.ctx) { bulk_buf = [] } }),
                ground (arith, e, held, h.bulk_fits, length-header),
                (
                  record {
                    bulk_fits = omega arith;
                    id_fits = h'.id_fits;
                    guard = h'.guard;
                    cached = h'.cached;
                    needed = h'.needed;
                    own_id = h'.own_id;
                    own_psk = h'.own_psk;
                    signed = h'.signed;
                  },
                  refl,
                ),
              )
        ];
  }

  -- After `make_room` the record fits behind what the buffer holds.
  make_room_lem :
      (rec : Text)
      → length rec ≤ bulk_payload
      → Runs
          (IsSound b)
          (make_room env rec)
          (λ _ w. IsSound b w × (length w.ctx.bulk_buf + length rec ≤ bulk_payload))
  unfolding make_room ◌>>=◌ gets when skip pure
  make_room_lem rec small = record {
    at = λ w h. elim (Bool-cases (ltb bulk_payload (length w.ctx.bulk_buf + length rec))) [
      | inr fits ↦ ((tt, w), rw fits refl, (h, ltb→le _ _ fits))
      | inl over ↦
          let (r, e, (h', bare)) = flush-IsFlushed.at w h in
          (r, rw over e, (h', rw bare (omega arith)))
    ];
  }

  store_record_lem :
      (rec : Text)
      → Runs
          (λ w. IsSound b w × (length w.ctx.bulk_buf + length rec ≤ bulk_payload))
          (store_record env rec)
          (λ _. IsSound b)
  unfolding store_record
  store_record_lem rec =
      Runs-ask (λ w. w.ctx.bulk_buf) _
        (λ w (h, room).
          (Keeps-then _ _
              (Keeps-when _ _ (λ _. Keeps-clock env b _ (λ t _. set_bulk_first-IsSound t)))
              (Keeps-read _ _ (copies-total (length rec) _ (omega arith)) (λ _ _.
                Keeps-then _ _
                  (set_bulk-IsSound (w.ctx.bulk_buf ++ rec)
                    (omega (arith, length-append w.ctx.bulk_buf rec)))
                  (Keeps-bind _ _ bulk_window_expired-IsSound
                    (λ expired. Keeps-when expired _ (λ _. flush-IsSound)))))).at
            w h)

  append_record-IsSound :
      (rec : Text) → length rec ≤ bulk_payload → Keeps (IsSound b) (append_record env rec)
  unfolding append_record ◌>>◌
  append_record-IsSound rec small =
      Keeps-of_runs (Runs-bind _ _ _ (make_room_lem rec small) (λ _. store_record_lem rec))
        (λ _ _ h. h)

  deliver-IsSound : (mesg : Text) → Keeps (IsSound b) (deliver env mesg)
  unfolding deliver
  deliver-IsSound mesg =
      let direct = Keeps-then _ _ flush-IsSound (emit-IsSound env b mesg) in
      Keeps-bind _ _ (Keeps-gets _) λ bulk_ms.
        Keeps-if (ltb 0 bulk_ms && is_fly mesg) _ _
          (λ _.
            Keeps-if (ltb bulk_payload (length (drop (length header) mesg))) _ _ (λ _. direct)
              (λ small. append_record-IsSound _ (ltb→le _ _ small)))
          (λ _. direct)

  pub send-IsSound : (mesg : Text) → Keeps (IsSound b) (send env mesg)
  unfolding send
  send-IsSound mesg = Keeps-bind _ _ (Keeps-gets _) λ ctx.
      Keeps-if (is_one ctx.rate) _ _
        (λ _. Keeps-bind _ _ next_rate-IsSound λ r. Keeps-then _ _ (set_rate-IsSound (pos r)) (
          Keeps-then _ _ (Keeps-when ctx.debug _ (λ _. push-IsSound env b _))
            (deliver-IsSound mesg)))
        (λ _. set_rate-IsSound _)

  pub send_se-IsSound : (flag : ℕ) → Keeps (IsSound b) (send_se env flag)
  unfolding send_se
  send_se-IsSound flag = send-IsSound _

-- From every sound state `packter_send` handles any message without a fault: the authentication line fits its buffer, every copy stays inside the bulk buffer and the framed datagram, and the state that is left is sound, with the guard of the translation as it was.
pub send-total :
    ⦃own : Owner⦄ (env : Env) (b : Bool) (mesg : Text) (w : World)
    → IsSound b w
    → (end : Unit {0} × World) × (send env mesg w ≡ some end) × IsSound b end.1
send-total env b mesg w h = (send-IsSound env b mesg).at w h
