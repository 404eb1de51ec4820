-- ===== src/Proto/Handlers.antt =====
-- The transport handlers of the capture chain keep the state sound.
use packter.Base.{
  ℕ, ◌-◌, ◌≤◌, ◌≡◌, refl, List, Text, Bool, true, false, not, ◌&&◌, arith, length, length-drop, ltb,
  ltb→le, drop,
}
use packter.Agent.{Ctx, Env, Trans}
use packter.Agent.Exec.{modify}
use packter.Agent.Keeps.{
  Keeps, Keeps-ask, Keeps-read, Keeps-bind, Keeps-then, Keeps-if, Keeps-gets, Keeps-when,
  Keeps-skip, Runs, Runs-then, Keeps-of_runs, Runs-of_keeps,
}
use packter.Proto.{
  emit_record, handle_tcp, handle_udp, handle_icmp, translates, set_suspend, Decoder,
}
use packter.Send.Signed.{Owner, needs_cache}
use packter.Send.Emission.{IsSound}
use packter.Send.Safety.{send-IsSound, send_se-IsSound}
use packter.Wire.Bounds.{byte-total, be16-total}

-- A decoder that returns on every datagram that it may read, with a template map where it needs one,
-- and keeps the state sound.
abbrev pub IsSafe : ⦃own : Owner⦄ → Bool → Decoder → Type 0
IsSafe ⦃own⦄ b decode =
    (proto : Trans) (buf : List ℕ) (len : ℕ)
    → (needs_cache proto ≡ true → own.cached ≡ true)
    → len ≤ length buf
    → Keeps (IsSound b) (decode proto buf len)

module _ (env : Env) (b : Bool) ⦃own : Owner⦄ where
  pub emit_record-IsSound :
      (srcip dstip : Text) (data1 data2 flag : ℕ) (mesgbuf : Text)
      → Keeps (IsSound b) (emit_record env srcip dstip data1 data2 flag mesgbuf)
  unfolding emit_record
  emit_record-IsSound srcip dstip data1 data2 flag mesgbuf = Keeps-bind _ _ (Keeps-gets _) λ ctx.
      Keeps-then _ _ (Keeps-when _ _ (λ _. send-IsSound env b _)) (
        Keeps-bind _ _ (Keeps-gets _)
          (λ sound. Keeps-when sound _ (λ _. send_se-IsSound env b flag)))

  pub handle_tcp-IsSound :
      (p : List ℕ) (len : ℕ) (srcip dstip : Text) (flag : ℕ) (mesgbuf : Text)
      → len ≤ length p
      → Keeps (IsSound b) (handle_tcp env p len srcip dstip flag mesgbuf)
  unfolding handle_tcp
  handle_tcp-IsSound p len srcip dstip flag mesgbuf fits =
      Keeps-if (ltb len 20) _ _ (λ _. Keeps-skip)
        λ long. Keeps-read _ _ (byte-total p 13 (omega (arith, ltb→le len 20 long))) λ flags _.
          Keeps-read _ _ (be16-total p 0 (omega (arith, ltb→le len 20 long))) λ sport _.
            Keeps-read _ _ (be16-total p 2 (omega (arith, ltb→le len 20 long)))
              λ dport _. Keeps-bind _ _ (Keeps-gets _) (λ ctx. emit_record-IsSound _ _ _ _ _ _)

  pub handle_icmp-IsSound :
      (p : List ℕ) (len : ℕ) (srcip dstip : Text) (flag : ℕ) (mesgbuf : Text)
      → len ≤ length p
      → Keeps (IsSound b) (handle_icmp env p len srcip dstip flag mesgbuf)
  unfolding handle_icmp
  handle_icmp-IsSound p len srcip dstip flag mesgbuf fits =
      Keeps-if (ltb len 2) _ _ (λ _. Keeps-skip)
        λ long. Keeps-read _ _ (byte-total p 0 (omega (arith, ltb→le len 2 long))) λ type _.
          Keeps-read _ _ (byte-total p 1 (omega (arith, ltb→le len 2 long)))
            λ code _. Keeps-bind _ _ (Keeps-gets _) (λ ctx. emit_record-IsSound _ _ _ _ _ _)

-- What the invariant says of the context that a handler reads.
abbrev Sees : ⦃own : Owner⦄ → Bool → Ctx → Type 0
Sees ⦃own⦄ b ctx =
    (ctx.translate_suspend ≡ b) × (needs_cache ctx.translate ≡ true → own.cached ≡ true)

-- Setting the guard moves the state between the two invariants.
set_suspend-IsSound : ⦃own : Owner⦄ (b c : Bool) → Runs (IsSound b) (set_suspend c) (λ _. IsSound c)
unfolding set_suspend modify
set_suspend-IsSound b c = record {
  at = λ w h. (
    _,
    refl,
    record {
      bulk_fits = h.bulk_fits;
      id_fits = h.id_fits;
      guard = refl;
      cached = h.cached;
      needed = h.needed;
      own_id = h.own_id;
      own_psk = h.own_psk;
      signed = h.signed;
    },
  );
}

module _ (env : Env) (b : Bool) ⦃own : Owner⦄ (decode : Decoder)
    (inner : b ≡ false → IsSafe true decode) where
  -- The decoder runs under the guard, which is then taken back; under the guard it is not called.
  pub handle_udp-IsSound :
      (p : List ℕ) (len : ℕ) (srcip dstip : Text) (flag : ℕ) (mesgbuf : Text)
      → len ≤ length p
      → Keeps (IsSound b) (handle_udp env decode p len srcip dstip flag mesgbuf)
  unfolding handle_udp
  handle_udp-IsSound p len srcip dstip flag mesgbuf fits =
      Keeps-if (ltb len 8) _ _ (λ _. Keeps-skip)
        λ long.
          Keeps-ask (Sees b) (λ w. w.ctx) _ (λ w h. (h.guard, h.needed))
            λ ctx (is, needed).
              Keeps-if (translates ctx.translate && not ctx.translate_suspend) _ _
                (λ on.
                  let outer : b ≡ false = ground arith in
                  Keeps-when (ltb 0 (len - 8)) _ (λ _.
                    Keeps-of_runs
                      (Runs-then (IsSound true) _ _ (set_suspend-IsSound b true) (
                        Runs-then (IsSound true) _ _
                          (Runs-of_keeps (
                            inner outer ctx.translate (drop 8 p) (len - 8) needed
                              (omega (arith, length-drop 8 p))))
                          (set_suspend-IsSound true false)))
                      (λ _ w h. rw outer h)))
                (λ _. Keeps-read _ _ (be16-total p 0 (omega (arith, ltb→le len 8 long))) λ sport _.
                  Keeps-read _ _ (be16-total p 2 (omega (arith, ltb→le len 8 long)))
                    λ dport _. emit_record-IsSound env b _ _ _ _ _ _)
