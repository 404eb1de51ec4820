-- ===== src/Proto/Safety.antt =====
-- The capture chain reads inside the captured bytes only, returns, and keeps the state sound.
use packter.Base.{
  ℕ, ◌-◌, ◌/◌, ◌≤◌, ◌≡◌, refl, List, [], Text, Option, none, some, Bool, true, false, not, ◌||◌,
  arith, length, length-drop, inl, inr, Bool-cases, ltb, ltb→le, drop, ◌==◌,
}
use packter.Agent.{Env}
use packter.Agent.Keeps.{
  Keeps, Keeps-read, Keeps-pure, Keeps-bind, Keeps-if, Keeps-gets, Keeps-skip, Keeps-lift,
}
use packter.Proto.{Decoder, ip4_body, ip4, ip6_body, ip6, ether_payload, ether_frame, lback_frame}
use packter.Send.Signed.{Owner}
use packter.Send.Emission.{IsSound}
use packter.Trace.{hash_ip4, hash_ip6, ip4_hdrlen, digest4, rewrite, scrub6}
use packter.Base.{take}
use packter.Base.Hex.{hex}
use packter.Digest.Md5.{pt_md5}
use packter.Wire.Bounds.{byte-total, be16-total, span-total}
use packter.Proto.Handlers.{IsSafe, handle_tcp-IsSound, handle_udp-IsSound, handle_icmp-IsSound}
use packter.Proto.Walk.Bounds.{ip6_upper_layer-total}

hash_ip4-total : (p : List ℕ) (len : ℕ) → len ≤ length p → (t : Text) × (hash_ip4 p len ≡ some t)
unfolding hash_ip4
hash_ip4-total p len fits = elim (Bool-cases (ltb len 20 || ltb 1024 len)) [
  | inl out ↦ ([], rw out refl)
  | inr held ↦
      let (work, e) = span-total p 0 len (omega arith) in (digest4 len work, rw (held, e) refl)
]

hash_ip6-total : (p : List ℕ) (len : ℕ) → len ≤ length p → (t : Text) × (hash_ip6 p len ≡ some t)
unfolding hash_ip6
hash_ip6-total p len fits = elim (Bool-cases (ltb len 48 || ltb 1024 len)) [
  | inl out ↦ ([], rw out refl)
  | inr held ↦
      let (work, e) = span-total p 0 len (omega arith) in
      (hex (pt_md5 (take 48 (rewrite scrub6 0 work))), rw (held, e) refl)
]

module _ (env : Env) (b : Bool) ⦃own : Owner⦄ (decode : Decoder)
    (inner : b ≡ false → IsSafe true decode) where
  ip4_body-IsSound :
      (p : List ℕ) (len hdrlen : ℕ) (mesgbuf : Text)
      → 20 ≤ len
      → len ≤ length p
      → Keeps (IsSound b) (ip4_body env decode p len hdrlen mesgbuf)
  unfolding ip4_body
  ip4_body-IsSound p len hdrlen mesgbuf long fits =
      let rest : len - hdrlen ≤ length (drop hdrlen p) = omega (arith, length-drop hdrlen p) in
      Keeps-read _ _ (span-total p 12 4 (omega arith)) λ src _.
        Keeps-read _ _ (span-total p 16 4 (omega arith)) λ dst _.
          Keeps-bind _ _ (Keeps-gets _) λ trace.
            Keeps-bind _ _
              (Keeps-if trace _ _ (λ _. Keeps-lift _ (hash_ip4-total p len fits))
                (λ _. Keeps-pure _))
              λ desc. Keeps-read _ _ (byte-total p 9 (omega arith)) λ proto _.
                Keeps-if (proto == 6) _ _ (λ _. handle_tcp-IsSound env b _ _ _ _ _ _ rest)
                  (λ _.
                    Keeps-if (proto == 17) _ _
                      (λ _. handle_udp-IsSound env b decode inner _ _ _ _ _ _ rest)
                      (λ _.
                        Keeps-if (proto == 1) _ _ (λ _. handle_icmp-IsSound env b _ _ _ _ _ _ rest)
                          (λ _. Keeps-skip)))

  ip4-IsSound :
      (p : List ℕ) (len : ℕ) (mesgbuf : Text)
      → len ≤ length p
      → Keeps (IsSound b) (ip4 env decode p len mesgbuf)
  unfolding ip4
  ip4-IsSound p len mesgbuf fits =
      Keeps-if (ltb len 20) _ _ (λ _. Keeps-skip)
        λ long. Keeps-read _ _ (byte-total p 0 (omega (arith, ltb→le len 20 long))) λ vhl _.
          Keeps-if (not (vhl / 16 == 4)) _ _ (λ _. Keeps-skip)
            λ _.
              Keeps-if (ltb (ip4_hdrlen vhl) 20 || ltb len (ip4_hdrlen vhl)) _ _ (λ _. Keeps-skip)
                (λ _. ip4_body-IsSound p len _ mesgbuf (ltb→le len 20 long) fits)

  ip6_body-IsSound :
      (p : List ℕ) (len : ℕ) (srcip dstip desc : Text) (upper : Option (ℕ × ℕ))
      → len ≤ length p
      → Keeps (IsSound b) (ip6_body env decode p len srcip dstip desc upper)
  unfolding ip6_body
  ip6_body-IsSound p len srcip dstip desc none fits = Keeps-skip
  ip6_body-IsSound p len srcip dstip desc (some (proto, at)) fits =
      let rest : len - at ≤ length (drop at p) = omega (arith, length-drop at p) in
      Keeps-if (proto == 6) _ _ (λ _. handle_tcp-IsSound env b _ _ _ _ _ _ rest)
        (λ _.
          Keeps-if (proto == 17) _ _ (λ _. handle_udp-IsSound env b decode inner _ _ _ _ _ _ rest)
            (λ _.
              Keeps-if (proto == 58) _ _ (λ _. handle_icmp-IsSound env b _ _ _ _ _ _ rest)
                (λ _. Keeps-skip)))

  ip6-IsSound :
      (p : List ℕ) (len : ℕ) (mesgbuf : Text)
      → len ≤ length p
      → Keeps (IsSound b) (ip6 env decode p len mesgbuf)
  unfolding ip6
  ip6-IsSound p len mesgbuf fits =
      Keeps-if (ltb len 40) _ _ (λ _. Keeps-skip)
        λ long. Keeps-bind _ _ (Keeps-gets _) λ trace.
          Keeps-bind _ _
            (Keeps-if trace _ _ (λ _. Keeps-lift _ (hash_ip6-total p len fits)) (λ _. Keeps-pure _))
            λ desc. Keeps-read _ _ (span-total p 8 16 (omega (arith, ltb→le len 40 long))) λ src _.
              Keeps-read _ _ (span-total p 24 16 (omega (arith, ltb→le len 40 long))) λ dst _.
                Keeps-bind _ _
                  (Keeps-lift _ (let (r, e, _) = ip6_upper_layer-total p len fits in (r, e)))
                  (λ upper. ip6_body-IsSound p len _ _ desc upper fits)

  ether_payload-IsSound :
      (p : List ℕ) (caplen ether_type skiplen : ℕ) (mesgbuf : Text)
      → caplen ≤ length p
      → Keeps (IsSound b) (ether_payload env decode p caplen ether_type skiplen mesgbuf)
  unfolding ether_payload
  ether_payload-IsSound p caplen ether_type skiplen mesgbuf fits =
      let rest : caplen - skiplen ≤ length (drop skiplen p) =
        omega (arith, length-drop skiplen p) in
      Keeps-if (ltb caplen skiplen) _ _ (λ _. Keeps-skip)
        (λ _.
          Keeps-if (ether_type == 0x0800) _ _ (λ _. ip4-IsSound _ _ mesgbuf rest)
            (λ _.
              Keeps-if (ether_type == 0x86dd) _ _ (λ _. ip6-IsSound _ _ mesgbuf rest)
                (λ _. Keeps-skip)))

  -- A frame of any content and captured length, down to none, is handled without a read outside it.
  pub ether_frame-IsSound :
      (p : List ℕ) (caplen : ℕ) (mesgbuf : Text)
      → caplen ≤ length p
      → Keeps (IsSound b) (ether_frame env decode p caplen mesgbuf)
  unfolding ether_frame
  ether_frame-IsSound p caplen mesgbuf fits =
      Keeps-if (ltb caplen 14) _ _ (λ _. Keeps-skip)
        λ long.
          Keeps-read _ _ (be16-total p 12 (omega (arith, ltb→le caplen 14 long))) λ ether_type _.
            Keeps-if (ether_type == 0x8100) _ _
              (λ _.
                Keeps-if (ltb caplen 18) _ _ (λ _. Keeps-skip)
                  (λ tagged.
                    Keeps-read _ _ (be16-total p 16 (omega (arith, ltb→le caplen 18 tagged)))
                      (λ inner_type _. ether_payload-IsSound p caplen inner_type 18 mesgbuf fits)))
              (λ _. ether_payload-IsSound p caplen ether_type 14 mesgbuf fits)

  pub lback_frame-IsSound :
      (p : List ℕ) (caplen : ℕ) (mesgbuf : Text)
      → caplen ≤ length p
      → Keeps (IsSound b) (lback_frame env decode p caplen mesgbuf)
  unfolding lback_frame
  lback_frame-IsSound p caplen mesgbuf fits =
      Keeps-if (ltb caplen 4) _ _ (λ _. Keeps-skip)
        (λ _. ip4-IsSound (drop 4 p) (caplen - 4) mesgbuf (omega (arith, length-drop 4 p)))
