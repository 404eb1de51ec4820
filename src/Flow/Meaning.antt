-- ===== src/Flow/Meaning.antt =====
-- The loop of nf_template_set against what the set means.
use packter.Base.{
  drop-past, ℕ, ◌+◌, ◌-◌, ◌≤◌, ◌≡◌, refl, ap, ◌∙◌, List, [], ◌∷◌, ◌++◌, Option, none, some, Bool,
  true, false, ◌||◌, ◌&&◌, arith, length, length-append, append-nil, append_assoc, All, drop, leb,
  ltb, ◌==◌, if◌then◌else◌, Bool-cases, Option-cases, inl, inr,
}
use packter.Agent.{Template}
use packter.Flow.Templates.{
  Fields, no_fields, varlen, take_field, take_fields, close_template, start_fields, parse_template,
}
use packter.Flow.Layout.{
  Field, standard, enterprise, IsField, encode, declared, element, width, total, has_varlen,
  is_one_of, last_offset, any, layout, fold_field, fold_fields, note_field-noted, noted, be16-drop,
  drop-two,
}
use packter.Wire.{be16}

-- An entry that is found in the rest of the list wins over the one that stands already.
or_else {ℓ} : {A : Type ℓ} → Option A → Option A → Option A
or_else none o = o
or_else (some a) o = some a

-- The three things that a fold over the fields adds up.
fold-fieldlen :
    (fs : List Field) (st : Fields) → (fold_fields fs st).fieldlen ≡ st.fieldlen + total fs
unfolding fold_fields fold_field total
fold-fieldlen [] st = ground arith
fold-fieldlen (f ∷ fs) st = ground (arith, fold-fieldlen fs (fold_field f st))

or_assoc : (a b c : Bool) → (a || (b || c)) ≡ ((b || a) || c)
or_assoc true true c = refl
or_assoc true false c = refl
or_assoc false true c = refl
or_assoc false false c = refl

fold-variable :
    (fs : List Field) (st : Fields) → (fold_fields fs st).variable ≡ (has_varlen fs || st.variable)
unfolding fold_fields fold_field has_varlen
fold-variable [] st = refl
fold-variable (f ∷ fs) st =
    fold-variable fs (fold_field f st) ∙ or_assoc (has_varlen fs) (declared f == varlen) st.variable

-- What one more field makes of the template.
named : Field → ℕ → Template → Template
named f o np = record {
  l3_src = if is_one_of 8 27 f then some o else np.l3_src;
  l3_dst = if is_one_of 12 28 f then some o else np.l3_dst;
  l4_src = if is_one_of 7 7 f then some o else np.l4_src;
  l4_dst = if is_one_of 11 11 f then some o else np.l4_dst;
  isv6 = is_one_of 27 28 f || np.isv6;
  proto = if is_one_of 4 4 f then some o else np.proto;
  icmp = if is_one_of 32 32 f then some o else np.icmp;
  tcp_flags = if is_one_of 6 6 f then some o else np.tcp_flags;
  record_len = np.record_len;
}

fold_field-named : (f : Field) (st : Fields) → (fold_field f st).np ≡ named f st.fieldlen st.np
unfolding fold_field named is_one_of noted
fold_field-named (standard ie len) st = note_field-noted ie st.fieldlen st.np
fold_field-named (enterprise ie len number) st = refl

fold-isv6 :
    (fs : List Field) (st : Fields)
    → (fold_fields fs st).np.isv6 ≡ (any (is_one_of 27 28) fs || st.np.isv6)
unfolding fold_fields any named is_one_of
fold-isv6 [] st = refl
fold-isv6 (f ∷ fs) st =
    rw (fold-isv6 fs (fold_field f st), ap (λ np. np.isv6) (fold_field-named f st))
      (or_assoc (any (is_one_of 27 28) fs) (is_one_of 27 28 f) st.np.isv6)

-- An entry of the template that a field sets when `p` names it.
module _ (π : Template → Option ℕ) (p : Field → Bool)
    (step : (f : Field) (st : Fields)
      → π ((fold_field f st).np) ≡ (if p f then some st.fieldlen else π st.np)) where
  fold-entry :
      (fs : List Field) (st : Fields)
      → π ((fold_fields fs st).np) ≡ or_else (last_offset p st.fieldlen fs) (π st.np)
  unfolding fold_fields fold_field last_offset or_else
  fold-entry [] st = refl
  fold-entry (f ∷ fs) st = elim (Option-cases (last_offset p (st.fieldlen + width f) fs)) [
    | inl e ↦ elim (Bool-cases (p f)) [
      | inl t ↦ rw (fold-entry fs (fold_field f st), step f st, e, t) refl
      | inr t ↦ rw (fold-entry fs (fold_field f st), step f st, e, t) refl
    ]
    | inr (o, e) ↦ rw (fold-entry fs (fold_field f st), e) refl
  ]

-- From the start the entries are what stands in the set.
or_else-none {ℓ} : {A : Type ℓ} (o : Option A) → or_else o none ≡ o
unfolding or_else
or_else-none none = refl
or_else-none (some a) = refl

or-false : (b : Bool) → (b || false) ≡ b
or-false true = refl
or-false false = refl

entry :
    (π : Template → Option ℕ) (p : Field → Bool) (fs : List Field)
    → ((f : Field) (o : ℕ) (np : Template) → π (named f o np) ≡ (if p f then some o else π np))
    → π no_fields ≡ none
    → π ((fold_fields fs start_fields).np) ≡ last_offset p 0 fs
unfolding start_fields parse_template layout
entry π p fs step e =
    fold-entry π p (λ f st. ap π (fold_field-named f st) ∙ step f st.fieldlen st.np) fs start_fields
    ∙ (ap (or_else (last_offset p 0 fs)) e ∙ or_else-none (last_offset p 0 fs))

total-start : (fs : List Field) → (fold_fields fs start_fields).fieldlen ≡ total fs
unfolding start_fields parse_template layout
total-start fs = ground (arith, fold-fieldlen fs start_fields)

-- The fold over a set from the start makes the template that the set means.
fold-layout : (fs : List Field) → close_template (fold_fields fs start_fields) ≡ layout fs
unfolding close_template layout start_fields no_fields named
fold-layout fs =
    rw
      (
        entry (λ np. np.l3_src) (is_one_of 8 27) fs (λ f o np. refl) refl,
        entry (λ np. np.l3_dst) (is_one_of 12 28) fs (λ f o np. refl) refl,
        entry (λ np. np.l4_src) (is_one_of 7 7) fs (λ f o np. refl) refl,
        entry (λ np. np.l4_dst) (is_one_of 11 11) fs (λ f o np. refl) refl,
        entry (λ np. np.proto) (is_one_of 4 4) fs (λ f o np. refl) refl,
        entry (λ np. np.icmp) (is_one_of 32 32) fs (λ f o np. refl) refl,
        entry (λ np. np.tcp_flags) (is_one_of 6 6) fs (λ f o np. refl) refl,
        fold-isv6 fs start_fields,
        or-false (any (is_one_of 27 28) fs),
        fold-variable fs start_fields,
        or-false (has_varlen fs),
        total-start fs,
      )
      refl

-- What the code adds for a field, and how it marks the set.
added :
    (len a : ℕ) → (if len == varlen then a else a + len) ≡ a + (if len == varlen then 0 else len)
added len a = ground arith

marked : (c v : Bool) → (if c then true else v) ≡ (c || v)
marked true v = refl
marked false v = refl

-- One specifier that the set holds whole.
is_marked :
    (is_ipfix : Bool) (ie len : ℕ)
    → IsField is_ipfix (standard ie len)
    → (is_ipfix && leb 0x8000 ie) ≡ false
is_marked true ie len h = ground (arith, h.2 refl)
is_marked false ie len h = refl

take_field-fold :
    (is_ipfix : Bool) (setlen : ℕ) (f : Field) (st : Fields)
    → IsField is_ipfix f
    → st.at + length (encode (f ∷ [])) ≤ setlen
    → take_field is_ipfix setlen (element f) (declared f) st ≡ some (fold_field f st)
unfolding take_field fold_field element width encode
take_field-fold is_ipfix setlen (standard ie len) st h room =
    rw (is_marked is_ipfix ie len h, added len st.fieldlen, marked (len == varlen) st.variable) refl
take_field-fold is_ipfix setlen (enterprise ie len number) st h room =
    let size : length (number ++ []) ≡ 4 = ground (length-append number [], h.3, arith) in
    let wide : leb 0x8000 (ie + 0x8000) ≡ true = ground arith in
    let long : ltb (setlen - (st.at + 4)) 4 ≡ false = ground (arith, size) in
    let step : st.at + 4 + 4 ≡ st.at + length (encode (enterprise ie len number ∷ [])) =
      ground (arith, size) in
    rw (h.0, wide, long, added len st.fieldlen, marked (len == varlen) st.variable, step) refl

-- What stands in the set at a specifier, and behind it.
encode-cons : (f : Field) (fs : List Field) → encode (f ∷ fs) ≡ encode (f ∷ []) ++ encode fs
unfolding encode
encode-cons (standard ie len) fs = refl
encode-cons (enterprise ie len number) fs = rw (append-nil number) refl

encode-head :
    (f : Field) (fs : List Field) (p rest : List ℕ) (i : ℕ)
    → drop i p ≡ encode (f ∷ fs) ++ rest
    → (be16 p i ≡ some (element f)) × (be16 p (i + 2) ≡ some (declared f))
unfolding encode element
encode-head (standard ie len) fs p rest i e =
    (be16-drop p i ie _ e, be16-drop p (i + 2) len _ (drop-two p i _ _ _ e))
encode-head (enterprise ie len number) fs p rest i e =
    (be16-drop p i (ie + 0x8000) _ e, be16-drop p (i + 2) len _ (drop-two p i _ _ _ e))

encode-tail :
    (f : Field) (fs : List Field) (p rest : List ℕ) (i : ℕ)
    → drop i p ≡ encode (f ∷ fs) ++ rest
    → drop (i + length (encode (f ∷ []))) p ≡ encode fs ++ rest
encode-tail f fs p rest i e =
    drop-past (encode (f ∷ [])) p (encode fs ++ rest) i (
      e
      ∙ (ap (λ s. s ++ rest) (encode-cons f fs) ∙ append_assoc (encode (f ∷ [])) (encode fs) rest))

encode-long : (f : Field) (fs : List Field) → 4 ≤ length (encode (f ∷ fs))
unfolding encode
encode-long (standard ie len) fs = omega arith
encode-long (enterprise ie len number) fs = omega arith

-- The loop over the specifiers of a set that holds them all.
take_fields-fold :
    (is_ipfix : Bool) (buf rest : List ℕ) (setlen : ℕ) (fs : List Field) (st : Fields)
    → All (IsField is_ipfix) fs
    → drop st.at buf ≡ encode fs ++ rest
    → st.at + length (encode fs) ≤ setlen
    → take_fields (length fs) is_ipfix buf setlen st ≡ some (fold_fields fs st)
unfolding take_fields fold_fields fold_field
take_fields-fold is_ipfix buf rest setlen [] st h e room = refl
take_fields-fold is_ipfix buf rest setlen (f ∷ fs) st h e room =
    let here = encode-head f fs buf rest st.at e in
    let size = ap length (encode-cons f fs) ∙ length-append (encode (f ∷ [])) (encode fs) in
    let long : ltb (setlen - st.at) 4 ≡ false = ground (arith, encode-long f fs, room) in
    let step = take_field-fold is_ipfix setlen f st h.0 (omega (arith, size, room)) in
    rw (long, here.0, here.1, step)
      (take_fields-fold is_ipfix buf rest setlen fs (fold_field f st) h.1
        (encode-tail f fs buf rest st.at e) (omega (arith, size, room)))

-- A template record whose fields the set holds whole, and the datagram too, is read to the template that the fields mean: each entry of the template is the offset of the last field of its kind, IPv6 is noted when an address field is of IPv6, and the length of a record is the sum of the fields' lengths, or 0 when one has no fixed length.
pub parse_template-layout :
    (is_ipfix : Bool) (buf rest : List ℕ) (setlen : ℕ) (fs : List Field)
    → All (IsField is_ipfix) fs
    → drop 8 buf ≡ encode fs ++ rest
    → 8 + length (encode fs) ≤ setlen
    → parse_template is_ipfix buf setlen (length fs) ≡ some (layout fs)
unfolding start_fields parse_template layout
parse_template-layout is_ipfix buf rest setlen fs h e room =
    rw (parse_template, take_fields-fold is_ipfix buf rest setlen fs start_fields h e room)
      (ap some (fold-layout fs))
