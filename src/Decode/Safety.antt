-- ===== src/Decode/Safety.antt =====
-- Every datagram and every frame is decoded without a read outside it, to the end, with at most two
-- decoders nested in one another.
use packter.Base.{
  ℕ, zero, suc, ◌+◌, ◌-◌, ◌^◌, ◌≤◌, ◌≡◌, refl, List, [], Text, Option, none, some, Bool, true,
  false, not, ◌||◌, arith, length, length-drop, ltb, leb, ltb→le, drop, ◌==◌,
}
use packter.Agent.{Env, World, Trans, off, sflow, netflow, ipfix}
use packter.Agent.Keeps.{
  Keeps, Keeps-read, Keeps-pure, Keeps-bind, Keeps-then, Keeps-if, Keeps-gets, Keeps-when,
  Keeps-skip,
}
use packter.Decode.{flow_decode, decode_datagram, capture_frame}
use packter.Decode.Sets.{
  template_id, options_id, read_set, read_sets, ignore_version, netflow_read, message_len,
  ipfix_read,
}
use packter.Decode.Samples.{
  FrameHandler, rounds_of, padding, extensions, resume, samples, debug_header, sflow_read,
}
use packter.Flow.Safety.{flow_set-IsSound, template_set-IsSound}
use packter.Proto.Handlers.{IsSafe}
use packter.Proto.Safety.{ether_frame-IsSound}
use packter.Send.{Action}
use packter.Send.Signed.{Owner, needs_cache}
use packter.Send.Emission.{IsSound, push-IsSound, Keeps-clock}
use packter.Wire.Bounds.{be16-total, be32-total}

module _ (env : Env) (b : Bool) ⦃own : Owner⦄ where
  read_set-IsSound :
      own.cached ≡ true
      → (is_ipfix : Bool) (buf : List ℕ) (setlen id domain : ℕ) → setlen ≤ length buf
      → Keeps (IsSound b) (read_set env is_ipfix buf setlen id domain)
  unfolding read_set
  read_set-IsSound mapped is_ipfix buf setlen id domain fits =
      Keeps-if (id == template_id is_ipfix) _ _
        (λ _. template_set-IsSound env b buf setlen domain is_ipfix mapped fits)
        (λ _.
          Keeps-if (id == options_id is_ipfix) _ _ (λ _. Keeps-skip)
            (λ _.
              Keeps-if (leb 256 id) _ _ (λ _. flow_set-IsSound env b buf setlen domain mapped fits)
                (λ _. Keeps-skip)))

  read_sets-IsSound :
      own.cached ≡ true
      → (fuel : ℕ) (is_ipfix : Bool) (buf : List ℕ) (len domain : ℕ) → len ≤ length buf
      → len ≤ fuel
      → Keeps (IsSound b) (read_sets fuel env is_ipfix buf len domain)
  unfolding read_sets
  read_sets-IsSound mapped zero is_ipfix buf len domain fits enough =
      Keeps-if (ltb 0 len) _ _ (λ more. absurd (ground arith)) (λ _. Keeps-skip)
  read_sets-IsSound mapped (suc fuel) is_ipfix buf len domain fits enough =
      Keeps-if (not (ltb 0 len) || ltb len 4) _ _ (λ _. Keeps-skip)
        λ more. Keeps-read _ _ (be16-total buf 2 (ground arith)) λ setlen _.
          Keeps-if (ltb setlen 4 || ltb len setlen) _ _ (λ _. Keeps-skip)
            λ whole. Keeps-read _ _ (be16-total buf 0 (ground arith)) λ id _.
              Keeps-bind _ _ (read_set-IsSound mapped is_ipfix buf setlen id domain (ground arith))
                (λ _.
                  read_sets-IsSound mapped fuel is_ipfix (drop setlen buf) (len - setlen) domain
                    (omega (arith, length-drop setlen buf)) (ground arith))

  ignore_version-IsSound :
      (kind : Text) (version : ℕ) (known : Text)
      → Keeps (IsSound b) (ignore_version kind version known)
  unfolding ignore_version
  ignore_version-IsSound kind version known =
      Keeps-bind _ _ (Keeps-gets _) (λ debug. Keeps-when debug _ (λ _. push-IsSound env b _))

  netflow_read-IsSound :
      own.cached ≡ true
      → (buf : List ℕ) (len : ℕ) → len ≤ length buf
      → Keeps (IsSound b) (netflow_read env buf len)
  unfolding netflow_read
  netflow_read-IsSound mapped buf len fits =
      Keeps-if (ltb len 20) _ _ (λ _. Keeps-skip)
        λ long. Keeps-read _ _ (be16-total buf 0 (omega (arith, ltb→le _ _ long))) λ version _.
          Keeps-if (not (version == 9)) _ _ (λ _. ignore_version-IsSound _ version _)
            λ _. Keeps-read _ _ (be32-total buf 16 (omega (arith, ltb→le _ _ long))) λ srcid _.
              read_sets-IsSound mapped len false (drop 20 buf) (len - 20) srcid
                (omega (arith, length-drop 20 buf)) (omega arith)

  message_len-le : (msglen len : ℕ) → message_len msglen len ≤ len
  unfolding message_len
  message_len-le msglen len = ground arith

  ipfix_read-IsSound :
      own.cached ≡ true
      → (buf : List ℕ) (len : ℕ) → len ≤ length buf
      → Keeps (IsSound b) (ipfix_read env buf len)
  unfolding ipfix_read
  ipfix_read-IsSound mapped buf len fits =
      Keeps-if (ltb len 16) _ _ (λ _. Keeps-skip)
        λ long. Keeps-read _ _ (be16-total buf 0 (omega (arith, ltb→le _ _ long))) λ version _.
          Keeps-if (not (version == 10)) _ _ (λ _. ignore_version-IsSound _ version _)
            λ _. Keeps-read _ _ (be32-total buf 12 (omega (arith, ltb→le _ _ long))) λ domain _.
              Keeps-read _ _ (be16-total buf 2 (omega (arith, ltb→le _ _ long))) λ msglen _.
                read_sets-IsSound mapped len true (drop 16 buf) (message_len msglen len - 16) domain
                  (omega (arith, length-drop 16 buf, message_len-le msglen len))
                  (omega (arith, message_len-le msglen len))

-- What an sFlow sample does with its frame, on frames that lie in the datagram.
abbrev HandlesFrames : ⦃own : Owner⦄ → Bool → FrameHandler → Type 0
HandlesFrames ⦃own⦄ b frame =
    (p : List ℕ) (caplen : ℕ) (mesgbuf : Text)
    → caplen ≤ length p
    → Keeps (IsSound b) (frame p caplen mesgbuf)

module _ (env : Env) (b : Bool) ⦃own : Owner⦄ (frame : FrameHandler)
    (handles : HandlesFrames b frame) where
  extensions-IsSound :
      (n : ℕ) (buf : List ℕ) (len at : ℕ)
      → len ≤ length buf
      → Keeps (IsSound b) (extensions n buf len at)
  unfolding extensions
  extensions-IsSound zero buf len at fits = Keeps-pure _
  extensions-IsSound (suc n) buf len at fits =
      Keeps-if (ltb len (at + 4)) _ _ (λ _. Keeps-pure _)
        λ room. Keeps-read _ _ (be32-total buf at (omega (arith, ltb→le _ _ room))) λ kind _.
          Keeps-if (kind == 1 || kind == 2 || kind == 3) _ _
            (λ _. extensions-IsSound n buf len (at + 20) fits) (λ _. Keeps-pure none)

  resume-IsSound :
      (rest : ℕ → Action) (next : Option ℕ)
      → ((at : ℕ) → Keeps (IsSound b) (rest at))
      → Keeps (IsSound b) (resume rest next)
  unfolding resume
  resume-IsSound rest none each = Keeps-skip
  resume-IsSound rest (some at) each = each at

  samples-IsSound :
      (n : ℕ) (buf : List ℕ) (len at : ℕ)
      → len ≤ length buf
      → Keeps (IsSound b) (samples n env frame buf len at)
  unfolding samples
  samples-IsSound zero buf len at fits = Keeps-skip
  samples-IsSound (suc n) buf len at fits =
      Keeps-if (ltb len (at + 48)) _ _ (λ _. Keeps-skip)
        λ room.
          Keeps-read _ _ (be32-total buf (at + 40) (omega (arith, ltb→le _ _ room))) λ samplelen _.
            Keeps-if (leb (2 ^ 31) samplelen || ltb (len - (at + 48)) samplelen) _ _
              (λ _. Keeps-skip)
              λ whole. Keeps-clock env b _ λ now _.
                Keeps-bind _ _
                  (handles (drop (at + 48) buf) samplelen []
                    (ground (arith, length-drop (at + 48) buf)))
                  λ _.
                    Keeps-if (ltb len (at + 48 + samplelen + padding samplelen + 4)) _ _
                      (λ _. Keeps-skip)
                      λ more.
                        Keeps-read _ _
                          (be32-total buf (at + 48 + samplelen + padding samplelen)
                            (omega (arith, ltb→le _ _ more)))
                          λ exnum _.
                            Keeps-bind _ _ (extensions-IsSound (rounds_of exnum) buf len _ fits)
                              (λ next.
                                resume-IsSound _ next (λ at'. samples-IsSound n buf len at' fits))

  debug_header-IsSound :
      (buf : List ℕ) (version : ℕ) → 24 ≤ length buf → Keeps (IsSound b) (debug_header buf version)
  unfolding debug_header
  debug_header-IsSound buf version fits =
      Keeps-read _ _ (be32-total buf 4 (omega arith)) λ counter _.
        Keeps-read _ _ (be32-total buf 12 (omega arith)) λ seq _.
          Keeps-read _ _ (be32-total buf 16 (omega arith)) λ uptime _.
            Keeps-read _ _ (be32-total buf 20 (omega arith)) (λ count _. push-IsSound env b _)

  sflow_read-IsSound :
      (buf : List ℕ) (len : ℕ) → len ≤ length buf → Keeps (IsSound b) (sflow_read env frame buf len)
  unfolding sflow_read
  sflow_read-IsSound buf len fits =
      Keeps-if (ltb len 24) _ _ (λ _. Keeps-skip)
        λ long. Keeps-read _ _ (be32-total buf 0 (omega (arith, ltb→le _ _ long))) λ version _.
          Keeps-bind _ _ (Keeps-gets _) λ debug.
            Keeps-then _ _
              (Keeps-when debug _
                (λ _. debug_header-IsSound buf version (omega (arith, ltb→le _ _ long))))
              (Keeps-if (not (version == 4)) _ _ (λ _. ignore_version-IsSound env b _ version _)
                (λ _.
                  Keeps-read _ _ (be32-total buf 20 (omega (arith, ltb→le _ _ long)))
                    (λ num _. samples-IsSound (rounds_of num) buf len 24 fits)))

module _ (env : Env) ⦃own : Owner⦄ where
  -- One decoder, where the frames that it samples are handled.
  flow_decode-IsSafe :
      (b : Bool) (depth : ℕ)
      → (b ≡ false → IsSafe true (flow_decode depth env))
      → IsSafe b (flow_decode (suc depth) env)
  unfolding flow_decode needs_cache
  flow_decode-IsSafe b depth inner off buf len needed fits = Keeps-skip
  flow_decode-IsSafe b depth inner sflow buf len needed fits =
      sflow_read-IsSound env b _ (ether_frame-IsSound env b (flow_decode depth env) inner) buf len
        fits
  flow_decode-IsSafe b depth inner netflow buf len needed fits =
      netflow_read-IsSound env b (needed refl) buf len fits
  flow_decode-IsSafe b depth inner ipfix buf len needed fits =
      ipfix_read-IsSound env b (needed refl) buf len fits

  pub nested-IsSafe : IsSafe true (flow_decode 1 env)
  nested-IsSafe = flow_decode-IsSafe true 0 (λ e. cc)

  -- A datagram is decoded, and a frame is handled, at two decoders nested in one another at most.
  pub decode_datagram-IsSound :
      (proto : Trans) (buf : List ℕ) (len : ℕ)
      → (needs_cache proto ≡ true → own.cached ≡ true)
      → len ≤ length buf
      → Keeps (IsSound false) (decode_datagram env proto buf len)
  unfolding decode_datagram
  decode_datagram-IsSound = flow_decode-IsSafe false 1 (λ _. nested-IsSafe)

  pub capture_frame-IsSound :
      (p : List ℕ) (caplen : ℕ) (mesgbuf : Text)
      → caplen ≤ length p
      → Keeps (IsSound false) (capture_frame env p caplen mesgbuf)
  unfolding capture_frame
  capture_frame-IsSound = ether_frame-IsSound env false (flow_decode 1 env) (λ _. nested-IsSafe)

-- A datagram of any content and length that a collector receives, in a sound state outside a translation that has a template map where the protocol looks templates up, is decoded to the end, whichever the protocol: nothing is read outside it or written past a buffer, every loop ends, and at most two decoders are nested in one another. The state that is left is sound, and outside a translation.
pub decode_datagram-total :
    ⦃own : Owner⦄ (env : Env) (proto : Trans) (buf : List ℕ) (len : ℕ) (w : World)
    → (needs_cache proto ≡ true → own.cached ≡ true)
    → len ≤ length buf
    → IsSound false w
    → (end : Unit {0} × World) × (decode_datagram env proto buf len w ≡ some end)
      × IsSound false end.1
decode_datagram-total env proto buf len w mapped fits h =
    (decode_datagram-IsSound env proto buf len mapped fits).at w h

-- A captured frame of any content and captured length, in a sound state outside a translation, is handled to the end, whatever its UDP payloads are translated as: nothing is read outside it or written past a buffer, every loop ends, and at most two decoders are nested in one another. The state that is left is sound, and outside a translation.
pub capture_frame-total :
    ⦃own : Owner⦄ (env : Env) (p : List ℕ) (caplen : ℕ) (mesgbuf : Text) (w : World)
    → caplen ≤ length p
    → IsSound false w
    → (end : Unit {0} × World) × (capture_frame env p caplen mesgbuf w ≡ some end)
      × IsSound false end.1
capture_frame-total env p caplen mesgbuf w fits h =
    (capture_frame-IsSound env p caplen mesgbuf fits).at w h
