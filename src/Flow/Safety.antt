-- ===== src/Flow/Safety.antt =====
-- Templates and data records of any content are handled inside the datagram.
use packter.Base.{
  ℕ, zero, suc, ◌+◌, ◌-◌, ◌≤◌, ◌<◌, ◌≡◌, refl, List, Text, Option, none, some, Bool, true, false,
  not, ◌||◌, arith, length, length-drop, inl, inr, Bool-cases, ltb, leb, ltb→le, leb→le,
  Option-cases, drop, ◌==◌,
}
use packter.Agent.{Env, Template}
use packter.Agent.Keeps.{
  Keeps, Keeps-ask, Keeps-read, Keeps-pure, Keeps-bind, Keeps-then, Keeps-if, Keeps-modify,
  Keeps-gets, Keeps-when, Keeps-skip, Keeps-lift,
}
use packter.Agent.Exec.{◌>>=◌, lift, gets}
use packter.Send.{Action}
use packter.Flow.Templates.{
  cache, Fields, take_field, take_fields, parse_template, close_template, start_fields,
  set_template, template_set,
}
use packter.Flow.Records.{
  fld_ok, at_field, ipsz, tcp_flow, udp_flow, icmp_flow, flow_by_proto, flow_record, flow_loop,
  is_usable, flow_found, flow_set,
}
use packter.Proto.Handlers.{emit_record-IsSound}
use packter.Send.Signed.{Owner}
use packter.Send.Emission.{HasMap, IsSound, push-IsSound}
use packter.Wire.{byte, be16, span}
use packter.Wire.Bounds.{byte-total, be16-total, span-total}

-- The loop over the field specifiers reads inside the set.
take_fields-total :
    (count : ℕ) (is_ipfix : Bool) (buf : List ℕ) (setlen : ℕ) (st : Fields)
    → setlen ≤ length buf
    → (st' : Fields) × (take_fields count is_ipfix buf setlen st ≡ some st')
unfolding take_fields
take_fields-total zero is_ipfix buf setlen st fits = (st, refl)
take_fields-total (suc count) is_ipfix buf setlen st fits =
    elim (Bool-cases (ltb (setlen - st.at) 4)) [
      | inl done ↦ (st, rw done refl)
      | inr room ↦
          let (ie, e) = be16-total buf st.at (omega (arith, ltb→le _ _ room)) in
          let (flen, f) = be16-total buf (st.at + 2) (omega (arith, ltb→le _ _ room)) in
          elim (Option-cases (take_field is_ipfix setlen ie flen st)) [
            | inl stop ↦ (st, rw (room, e, f, stop) refl)
            | inr (st', goes) ↦
                let (end, run) = take_fields-total count is_ipfix buf setlen st' fits in
                (end, rw (room, e, f, goes) run)
          ]
    ]

parse_template-total :
    (is_ipfix : Bool) (buf : List ℕ) (setlen fieldcount : ℕ)
    → setlen ≤ length buf
    → (np : Template) × (parse_template is_ipfix buf setlen fieldcount ≡ some np)
unfolding parse_template
parse_template-total is_ipfix buf setlen fieldcount fits =
    let (st, e) = take_fields-total fieldcount is_ipfix buf setlen start_fields fits in
    (close_template st, rw (e, parse_template) refl)

-- A field that FLD_OK lets through is read inside the record.
field-inside :
    (np : Template) (o : Option ℕ) (sz : ℕ)
    → fld_ok np o sz ≡ true
    → (i : ℕ) × (o ≡ some i) × (i + sz ≤ np.record_len)
unfolding fld_ok
field-inside np none sz h = cc
field-inside np (some i) sz h = (i, refl, leb→le _ _ h)

-- Records of a template are handled inside `np.record_len` bytes.
module _ (env : Env) (b : Bool) ⦃own : Owner⦄ (np : Template) (rec : List ℕ)
    (fits : np.record_len ≤ length rec) where
  word-served :
      (o : Option ℕ) → not (fld_ok np o 2) ≡ false → (v : ℕ) × (at_field o (be16 rec) ≡ some v)
  unfolding at_field
  word-served o h =
      let (i, e, room) = field-inside np o 2 (ground arith) in
      let (v, f) = be16-total rec i (omega arith) in (v, rw e f)

  byte-served : (o : Option ℕ) → fld_ok np o 1 ≡ true → (v : ℕ) × (at_field o (byte rec) ≡ some v)
  unfolding at_field
  byte-served o h =
      let (i, e, room) = field-inside np o 1 h in
      let (v, f) = byte-total rec i (omega arith) in (v, rw e f)

  span-served :
      (o : Option ℕ) (sz : ℕ)
      → fld_ok np o sz ≡ true
      → (v : List ℕ) × (at_field o (λ i. span rec i sz) ≡ some v)
  unfolding at_field
  span-served o sz h =
      let (i, e, room) = field-inside np o sz h in
      let (v, f) = span-total rec i sz (omega arith) in (v, rw e f)

  tcp_flow-IsSound : (srcip dstip : Text) → Keeps (IsSound b) (tcp_flow env np rec srcip dstip)
  unfolding tcp_flow
  tcp_flow-IsSound srcip dstip =
      Keeps-if (not (fld_ok np np.l4_src 2) || not (fld_ok np np.l4_dst 2)) _ _ (λ _. Keeps-skip)
        λ ok. Keeps-read _ _ (word-served np.l4_src (ground arith)) λ sport _.
          Keeps-read _ _ (word-served np.l4_dst (ground arith)) λ dport _.
            Keeps-bind _ _
              (Keeps-if (fld_ok np np.tcp_flags 1) _ _
                (λ flagged. Keeps-lift _ (byte-served np.tcp_flags flagged)) (λ _. Keeps-pure 0))
              (λ flags. emit_record-IsSound env b _ _ _ _ _ _)

  udp_flow-IsSound : (srcip dstip : Text) → Keeps (IsSound b) (udp_flow env np rec srcip dstip)
  unfolding udp_flow
  udp_flow-IsSound srcip dstip =
      Keeps-if (not (fld_ok np np.l4_src 2) || not (fld_ok np np.l4_dst 2)) _ _ (λ _. Keeps-skip)
        λ ok. Keeps-read _ _ (word-served np.l4_src (ground arith)) λ sport _.
          Keeps-read _ _ (word-served np.l4_dst (ground arith))
            λ dport _. emit_record-IsSound env b _ _ _ _ _ _

  icmp_flow-IsSound :
      (six : Bool) (srcip dstip : Text) → Keeps (IsSound b) (icmp_flow env np rec six srcip dstip)
  unfolding icmp_flow
  icmp_flow-IsSound six srcip dstip =
      Keeps-if (not (fld_ok np np.icmp 2)) _ _ (λ _. Keeps-skip)
        λ ok.
          Keeps-read _ _ (word-served np.icmp ok) (λ port _. emit_record-IsSound env b _ _ _ _ _ _)

  flow_by_proto-IsSound :
      (proto : ℕ) (srcip dstip : Text)
      → Keeps (IsSound b) (flow_by_proto env np rec proto srcip dstip)
  unfolding flow_by_proto
  flow_by_proto-IsSound proto srcip dstip =
      Keeps-if (proto == 6) _ _ (λ _. tcp_flow-IsSound srcip dstip)
        λ _.
          Keeps-if (proto == 17) _ _ (λ _. udp_flow-IsSound srcip dstip)
            λ _.
              Keeps-if (proto == 1) _ _ (λ _. icmp_flow-IsSound false srcip dstip)
                λ _.
                  Keeps-if (proto == 58) _ _ (λ _. icmp_flow-IsSound true srcip dstip)
                    (λ _.
                      Keeps-bind _ _ (Keeps-gets _)
                        (λ debug. Keeps-when debug _ (λ _. push-IsSound env b _)))

  flow_record-IsSound : Keeps (IsSound b) (flow_record env np rec)
  unfolding flow_record
  flow_record-IsSound =
      Keeps-if
        (not (fld_ok np np.l3_src (ipsz np))
          || not (fld_ok np np.l3_dst (ipsz np))
          || not (fld_ok np np.proto 1))
        _ _ (λ _. Keeps-skip)
        λ ok. Keeps-read _ _ (span-served np.l3_src (ipsz np) (ground arith)) λ src _.
          Keeps-read _ _ (span-served np.l3_dst (ipsz np) (ground arith)) λ dst _.
            Keeps-read _ _ (byte-served np.proto (ground arith))
              (λ proto _. flow_by_proto-IsSound proto _ _)

module _ (env : Env) (b : Bool) ⦃own : Owner⦄ where
  flow_loop-IsSound :
      (fuel : ℕ) (np : Template) (buf : List ℕ) (setlen at : ℕ)
      → setlen ≤ length buf
      → 0 < np.record_len
      → setlen < at + fuel
      → Keeps (IsSound b) (flow_loop fuel env np buf setlen at)
  unfolding flow_loop
  flow_loop-IsSound zero np buf setlen at fits some_len enough =
      Keeps-if (leb (at + np.record_len) setlen) _ _
        (λ room. absurd (omega (arith, leb→le _ _ room))) (λ _. Keeps-skip)
  flow_loop-IsSound (suc fuel) np buf setlen at fits some_len enough =
      Keeps-if (leb (at + np.record_len) setlen) _ _
        (λ room.
          Keeps-bind _ _
            (flow_record-IsSound env b np (drop at buf)
              (omega (arith, length-drop at buf, leb→le _ _ room)))
            (λ _.
              flow_loop-IsSound fuel np buf setlen (at + np.record_len) fits some_len
                (omega arith)))
        (λ _. Keeps-skip)

  usable_len : (np : Template) → is_usable np ≡ true → 0 < np.record_len
  unfolding is_usable
  usable_len np h = ground arith

  flow_found-IsSound :
      (buf : List ℕ) (setlen : ℕ) (key : Text) (found : Option Template)
      → setlen ≤ length buf
      → Keeps (IsSound b) (flow_found env buf setlen key found)
  unfolding flow_found
  flow_found-IsSound buf setlen key none fits = Keeps-skip
  flow_found-IsSound buf setlen key (some np) fits =
      Keeps-if (is_usable np) _ _
        (λ usable.
          flow_loop-IsSound setlen np buf setlen 4 fits (usable_len np usable) (omega arith))
        (λ _.
          Keeps-bind _ _ (Keeps-gets _) (λ debug. Keeps-when debug _ (λ _. push-IsSound env b _)))

  -- The template map is there.
  with_map :
      own.cached ≡ true
      → (k : List (Text × Template) → Action)
      → ((map : List (Text × Template)) → Keeps (IsSound b) (k map))
      → Keeps (IsSound b) (gets (λ w. w.templates) >>= λ templates. lift templates >>= k)
  with_map mapped k each =
      Keeps-ask HasMap (λ w. w.templates) _ (λ w h. h.cached mapped)
        (λ templates there. Keeps-read templates k there (λ map _. each map))

  pub flow_set-IsSound :
      (buf : List ℕ) (setlen key_id : ℕ)
      → own.cached ≡ true
      → setlen ≤ length buf
      → Keeps (IsSound b) (flow_set env buf setlen key_id)
  unfolding flow_set
  flow_set-IsSound buf setlen key_id mapped fits =
      Keeps-if (ltb setlen 4) _ _ (λ _. Keeps-skip)
        λ long.
          Keeps-read _ _ (be16-total buf 0 (omega (arith, ltb→le _ _ long)))
            λ id _. with_map mapped _ (λ map. flow_found-IsSound buf setlen _ _ fits)

  set_template-IsSound :
      (key : Text) (np : Template) → own.cached ≡ true → Keeps (IsSound b) (set_template key np)
  unfolding set_template
  set_template-IsSound key np mapped = with_map mapped _ λ map. Keeps-modify _ (λ w h. record {
    bulk_fits = h.bulk_fits;
    id_fits = h.id_fits;
    guard = h.guard;
    cached = λ _. (cache map key np, refl);
    needed = h.needed;
    own_id = h.own_id;
    own_psk = h.own_psk;
    signed = h.signed;
  })

  pub template_set-IsSound :
      (buf : List ℕ) (setlen key_id : ℕ) (is_ipfix : Bool)
      → own.cached ≡ true
      → setlen ≤ length buf
      → Keeps (IsSound b) (template_set buf setlen key_id is_ipfix)
  unfolding template_set
  template_set-IsSound buf setlen key_id is_ipfix mapped fits =
      Keeps-if (ltb (setlen - 4) 4) _ _ (λ _. Keeps-skip)
        λ long. Keeps-read _ _ (be16-total buf 4 (omega (arith, ltb→le _ _ long))) λ template_id _.
          Keeps-read _ _ (be16-total buf 6 (omega (arith, ltb→le _ _ long))) λ fieldcount _.
            Keeps-bind _ _ (Keeps-gets _) λ debug.
              Keeps-then _ _ (Keeps-when debug _ (λ _. push-IsSound env b _)) (
                Keeps-read _ _ (parse_template-total is_ipfix buf setlen fieldcount fits)
                  (λ np _. set_template-IsSound _ np mapped))
