-- ===== src/Flow/Templates.antt =====
-- nf_template_set of agent/lib/nf_common.c: a template record becomes an entry of the cache.
use packter.Base.{
  ℕ, zero, suc, ◌+◌, ◌-◌, List, [], ◌∷◌, ◌++◌, Option, none, some, Text, codes, newline, snprintf,
  decimal, Bool, true, false, ◌&&◌, ltb, leb, ◌==◌, if◌then◌else◌,
}
use packter.Agent.{Template, printed}
use packter.Agent.Exec.{◌>>=◌, ◌>>◌, skip, lift, gets, modify, when}
use packter.Dict
use packter.Send.{Action, push}
use packter.Wire.{be16}

-- `"%u-%u"` of the domain and the template's id
unfoldable pub template_key : ℕ → ℕ → Text
template_key key_id template_id = snprintf 64 (decimal key_id ++ (b'-' ∷ decimal template_id))

-- The variables of the loop over the field specifiers: the offset in the set, the offset in a flow
-- record, whether a field has no fixed length, and the template so far.
pub record Fields : Type 0 where
  pub at : ℕ
  pub fieldlen : ℕ
  pub variable : Bool
  pub np : Template

-- A template before its first field; `record_len` is set behind the loop.
unfoldable pub no_fields : Template
no_fields = record {
  l3_src = none;
  l3_dst = none;
  l4_src = none;
  l4_dst = none;
  isv6 = false;
  proto = none;
  icmp = none;
  tcp_flags = none;
  record_len = 0;
}

-- The switch on the information element.
unfoldable pub note_field : ℕ → ℕ → Template → Template
note_field ie fieldlen np =
    if ie == 8
    then record np { l3_src = some fieldlen }
    else if ie == 12
    then record np { l3_dst = some fieldlen }
    else if ie == 27
    then record np { l3_src = some fieldlen; isv6 = true }
    else if ie == 28
    then record np { l3_dst = some fieldlen; isv6 = true }
    else if ie == 7
    then record np { l4_src = some fieldlen }
    else if ie == 11
    then record np { l4_dst = some fieldlen }
    else if ie == 32
    then record np { icmp = some fieldlen }
    else if ie == 4
    then record np { proto = some fieldlen }
    else if ie == 6
    then record np { tcp_flags = some fieldlen }
    else np

-- NF_VARLEN
abbrev pub varlen : ℕ
varlen = 0xffff

-- One field specifier that was read whole; `none` is a `break`. `ie & 0x8000` is `0x8000 <= ie` for
-- a uint16_t.
unfoldable pub take_field : Bool → ℕ → ℕ → ℕ → Fields → Option Fields
unfolding note_field
take_field is_ipfix setlen ie flen st =
    let at = st.at + 4 in
    let variable = if flen == varlen then true else st.variable in
    let fieldlen = if flen == varlen then st.fieldlen else st.fieldlen + flen in
    if is_ipfix && leb 0x8000 ie
    then if ltb (setlen - at) 4
      then none
      else some (record { at = at + 4; fieldlen = fieldlen; variable = variable; np = st.np })
    else some (record {
      at = at;
      fieldlen = fieldlen;
      variable = variable;
      np = note_field ie st.fieldlen st.np;
    })

-- The loop over `count` specifiers; the outer `none` is a read outside the datagram.
unfoldable pub take_fields : ℕ → Bool → List ℕ → ℕ → Fields → Option Fields
take_fields zero is_ipfix buf setlen st = some st
take_fields (suc count) is_ipfix buf setlen st =
    if ltb (setlen - st.at) 4 then some st else elim (be16 buf st.at) [
      | none ↦ none
      | some ie ↦ elim (be16 buf (st.at + 2)) [
        | none ↦ none
        | some flen ↦ elim (take_field is_ipfix setlen ie flen st) [
          | none ↦ some st
          | some st' ↦ take_fields count is_ipfix buf setlen st'
        ]
      ]
    ]

-- A template with a field of variable length has no fixed offsets, and is marked unusable.
unfoldable pub close_template : Fields → Template
close_template st = record (st.np) { record_len = if st.variable then 0 else st.fieldlen }

-- The variables before the first field, behind the two headers.
unfoldable pub start_fields : Fields
start_fields = record { at = 8; fieldlen = 0; variable = false; np = no_fields }

-- The template that the set's first record describes.
unfoldable pub parse_template : Bool → List ℕ → ℕ → ℕ → Option Template
parse_template is_ipfix buf setlen fieldcount =
    elim (take_fields fieldcount is_ipfix buf setlen start_fields) [
      | none ↦ none
      | some st ↦ some (close_template st)
    ]

-- The new template goes into the map, or over the one that its key already has.
unfoldable pub cache : List (Text × Template) → Text → Template → List (Text × Template)
cache m key np = elim (Dict.get m key) [
  | none ↦ Dict.put_once m key np
  | some old ↦ Dict.write m key np
]

unfoldable pub set_template : Text → Template → Action
set_template key np = do
  templates ← gets (λ w. w.templates)
  map ← lift templates
  modify (λ w. record w { templates = some (cache map key np) })

-- "<kind> SET templateid:<id>, id:<domain>"
unfoldable pub template_line : Bool → ℕ → ℕ → Text
template_line is_ipfix template_id key_id =
    (if is_ipfix then codes "ipfix" else codes "netflow")
    ++ (codes " SET templateid:"
        ++ (decimal template_id ++ (codes ", id:" ++ (decimal key_id ++ (newline ∷ [])))))

-- nf_template_set
unfoldable pub template_set : List ℕ → ℕ → ℕ → Bool → Action
template_set buf setlen key_id is_ipfix = if ltb (setlen - 4) 4 then skip else (do
  template_id ← lift (be16 buf 4)
  fieldcount ← lift (be16 buf 6)
  debug ← gets (λ w. w.ctx.debug)
  when debug (push (printed (template_line is_ipfix template_id key_id)))
  np ← lift (parse_template is_ipfix buf setlen fieldcount)
  set_template (template_key key_id template_id) np)
