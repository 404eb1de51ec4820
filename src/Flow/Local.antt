-- ===== src/Flow/Local.antt =====
-- A data set is its records, one behind the other: what nf_flow_set reads of each.
use packter.Base.{
  ℕ, zero, suc, ◌+◌, ◌≤◌, ◌<◌, ◌≡◌, refl, arith, List, [], ◌∷◌, ◌++◌, Option, none, some, Text,
  Bool, true, false, length, inl, inr, Bool-cases, Option-cases,
}
use packter.Agent.{Env, Template}
use packter.Flow.Records.{
  fld_ok, at_field, ipsz, tcp_flow, udp_flow, icmp_flow, flow_by_proto, flow_record,
}
use packter.Wire.{byte, be16, prefix, span}

-- Reads inside the front of an object do not see what stands behind it.
byte-append : (xs ys : List ℕ) (i : ℕ) → i < length xs → byte (xs ++ ys) i ≡ byte xs i
unfolding byte
byte-append [] ys i h = absurd (omega arith)
byte-append (x ∷ xs) ys zero h = refl
byte-append (x ∷ xs) ys (suc i) h = byte-append xs ys i (omega arith)

be16-append : (xs ys : List ℕ) (i : ℕ) → i + 2 ≤ length xs → be16 (xs ++ ys) i ≡ be16 xs i
unfolding be16
be16-append xs ys i h =
    let here = byte-append xs ys i (omega arith) in
    elim (Option-cases (byte xs i)) [
      | inl e ↦ rw (be16, here, e) refl
      | inr (b, e) ↦ rw (be16, here, e, byte-append xs ys (i + 1) (omega arith)) refl
    ]

prefix-append : (n : ℕ) (xs ys : List ℕ) → n ≤ length xs → prefix n (xs ++ ys) ≡ prefix n xs
unfolding prefix
prefix-append zero xs ys h = refl
prefix-append (suc n) [] ys h = absurd (omega arith)
prefix-append (suc n) (x ∷ xs) ys h = rw (prefix-append n xs ys (omega arith)) refl

span-append : (xs ys : List ℕ) (i n : ℕ) → i + n ≤ length xs → span (xs ++ ys) i n ≡ span xs i n
unfolding span
span-append xs ys zero n h = prefix-append n xs ys (omega arith)
span-append [] ys (suc i) n h = absurd (omega arith)
span-append (x ∷ xs) ys (suc i) n h = span-append xs ys i n (omega arith)

module _ (env : Env) (np : Template) (rec after : List ℕ) (sized : length rec ≡ np.record_len) where
  field-end :
      (o : Option ℕ) (sz : ℕ) → fld_ok np o sz ≡ true → (i : ℕ) → o ≡ some i → i + sz ≤ length rec
  unfolding fld_ok
  field-end none sz ok i e = cc
  field-end (some j) sz ok i e = ground (arith, sized, ok, e)

  word-local :
      (o : Option ℕ)
      → fld_ok np o 2 ≡ true
      → at_field o (be16 (rec ++ after)) ≡ at_field o (be16 rec)
  unfolding at_field
  word-local none ok = refl
  word-local (some i) ok = be16-append rec after i (field-end (some i) 2 ok i refl)

  byte-local :
      (o : Option ℕ)
      → fld_ok np o 1 ≡ true
      → at_field o (byte (rec ++ after)) ≡ at_field o (byte rec)
  unfolding at_field
  byte-local none ok = refl
  byte-local (some i) ok = byte-append rec after i (omega (arith, field-end (some i) 1 ok i refl))

  span-local :
      (o : Option ℕ) (n : ℕ)
      → fld_ok np o n ≡ true
      → at_field o (λ i. span (rec ++ after) i n) ≡ at_field o (λ i. span rec i n)
  unfolding at_field
  span-local none n ok = refl
  span-local (some i) n ok = span-append rec after i n (field-end (some i) n ok i refl)

  tcp_flow-local :
      (srcip dstip : Text)
      → tcp_flow env np (rec ++ after) srcip dstip ≡ tcp_flow env np rec srcip dstip
  unfolding tcp_flow
  tcp_flow-local srcip dstip = elim (Bool-cases (fld_ok np np.l4_src 2)) [
    | inr e ↦ rw (tcp_flow, e) refl
    | inl e ↦ elim (Bool-cases (fld_ok np np.l4_dst 2)) [
      | inr f ↦ rw (tcp_flow, e, f) refl
      | inl f ↦ elim (Bool-cases (fld_ok np np.tcp_flags 1)) [
        | inr g ↦ rw (tcp_flow, e, f, g, word-local np.l4_src e, word-local np.l4_dst f) refl
        | inl g ↦
            rw
              (
                tcp_flow,
                e,
                f,
                g,
                word-local np.l4_src e,
                word-local np.l4_dst f,
                byte-local np.tcp_flags g,
              )
              refl
      ]
    ]
  ]

  udp_flow-local :
      (srcip dstip : Text)
      → udp_flow env np (rec ++ after) srcip dstip ≡ udp_flow env np rec srcip dstip
  unfolding udp_flow
  udp_flow-local srcip dstip = elim (Bool-cases (fld_ok np np.l4_src 2)) [
    | inr e ↦ rw (udp_flow, e) refl
    | inl e ↦ elim (Bool-cases (fld_ok np np.l4_dst 2)) [
      | inr f ↦ rw (udp_flow, e, f) refl
      | inl f ↦ rw (udp_flow, e, f, word-local np.l4_src e, word-local np.l4_dst f) refl
    ]
  ]

  icmp_flow-local :
      (six : Bool) (srcip dstip : Text)
      → icmp_flow env np (rec ++ after) six srcip dstip ≡ icmp_flow env np rec six srcip dstip
  unfolding icmp_flow
  icmp_flow-local six srcip dstip = elim (Bool-cases (fld_ok np np.icmp 2)) [
    | inr e ↦ rw (icmp_flow, e) refl
    | inl e ↦ rw (icmp_flow, e, word-local np.icmp e) refl
  ]

  flow_by_proto-local :
      (proto : ℕ) (srcip dstip : Text)
      → flow_by_proto env np (rec ++ after) proto srcip dstip
        ≡ flow_by_proto env np rec proto srcip dstip
  unfolding flow_by_proto
  flow_by_proto-local proto srcip dstip =
      rw
        (
          flow_by_proto,
          tcp_flow-local srcip dstip,
          udp_flow-local srcip dstip,
          icmp_flow-local false srcip dstip,
          icmp_flow-local true srcip dstip,
        )
        refl

  -- A record is handled by its own bytes.
  pub flow_record-local : flow_record env np (rec ++ after) ≡ flow_record env np rec
  unfolding flow_record
  flow_record-local = elim (Bool-cases (fld_ok np np.l3_src (ipsz np))) [
    | inr e ↦ rw (flow_record, e) refl
    | inl e ↦ elim (Bool-cases (fld_ok np np.l3_dst (ipsz np))) [
      | inr f ↦ rw (flow_record, e, f) refl
      | inl f ↦ elim (Bool-cases (fld_ok np np.proto 1)) [
        | inr g ↦ rw (flow_record, e, f, g) refl
        | inl g ↦
            let same : flow_by_proto env np (rec ++ after) ≡ flow_by_proto env np rec =
              λ i proto srcip dstip. flow_by_proto-local proto srcip dstip i in
            rw
              (
                flow_record,
                e,
                f,
                g,
                span-local np.l3_src (ipsz np) e,
                span-local np.l3_dst (ipsz np) f,
                byte-local np.proto g,
                same,
              )
              refl
      ]
    ]
  ]
