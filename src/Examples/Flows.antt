-- ===== src/Examples/Flows.antt =====
-- Witnesses for flow export: sets, templates and records.
use packter.Flow.Records.{flow_set, is_usable, is_some}
use packter.Flow.Sequence.{each, glue, flow_set-each}
use packter.Base.{
  text_eq_refl, ℕ, ◌+◌, ◌≡◌, refl, List, [], ◌∷◌, codes, some, true, false, arith, drop, text_eq,
  if◌then◌else◌,
}
use packter.Agent.{World}
use packter.Examples.{env, start, datagram}
use packter.Decode.Sequence.{SetOf, wire, size, each_set, netflow_read-each, ipfix_read-each}
use packter.Decode.Sets.{netflow_read, ipfix_read}
use packter.Dict
use packter.Flow.Cache.{get-cache, template_key_injective}
use packter.Flow.Layout.{
  Field, standard, layout, encode, total, width, has_varlen, is_one_of, last_offset, any,
}
use packter.Flow.Meaning.{parse_template-layout}
use packter.Flow.Templates.{template_key, parse_template, cache, no_fields}
use packter.Wire.{byte, be16, be32}

-- The template set of the datagram.
abbrev fields : List Field
fields = standard 8 4 ∷ standard 12 4 ∷ standard 4 1 ∷ standard 7 2 ∷ standard 11 2 ∷ []

parse_template-layout_example : parse_template false (drop 20 datagram) 28 5 ≡ some (layout fields)
parse_template-layout_example =
    parse_template-layout false (drop 20 datagram) [] 28 fields
      (
        (omega arith, omega arith, λ e. omega arith),
        (
          (omega arith, omega arith, λ e. omega arith),
          (
            (omega arith, omega arith, λ e. omega arith),
            (
              (omega arith, omega arith, λ e. omega arith),
              ((omega arith, omega arith, λ e. omega arith), tt),
            ),
          ),
        ),
      )
      (unfold encode in refl) (unfold encode in omega arith)

get-cache_example :
    Dict.get
      (cache ((codes "7-256", no_fields) ∷ []) (codes "7-257") (layout fields))
      (codes "7-256")
    ≡ (if text_eq (codes "7-257") (codes "7-256")
        then some (layout fields)
        else Dict.get ((codes "7-256", no_fields) ∷ []) (codes "7-256"))
get-cache_example =
    get-cache ((codes "7-256", no_fields) ∷ []) (codes "7-257") (codes "7-256") (layout fields)

template_key_injective_example : (◌≡◌ {A = ℕ} (5 + 2) 7) × (◌≡◌ {A = ℕ} (255 + 1) 256)
template_key_injective_example =
    template_key_injective (5 + 2) (255 + 1) 7 256 (omega arith) (omega arith) (omega arith)
      (omega arith) refl

-- The set of the datagram, and an IPFIX message with the same fields.
abbrev field_set : SetOf
field_set = record {
  id = 0;
  body =
      1 ∷ 0 ∷ 0 ∷ 5 ∷ 0 ∷ 8 ∷ 0 ∷ 4 ∷ 0 ∷ 12 ∷ 0 ∷ 4 ∷ 0 ∷ 4 ∷ 0 ∷ 1 ∷ 0 ∷ 7 ∷ 0 ∷ 2 ∷ 0 ∷ 11 ∷ 0
      ∷ 2 ∷ [];
}

netflow_read-each_example : netflow_read env datagram 48 ≡ each_set env false 7 (field_set ∷ []) []
netflow_read-each_example =
    netflow_read-each env datagram [] 48 7 (field_set ∷ []) (unfold be16 byte in refl)
      (unfold be32 be16 byte in refl) (unfold wire size in refl) (unfold wire size in refl)

-- The declared length ends before the last four bytes that were received.
abbrev message : List ℕ
message =
    0 ∷ 10 ∷ 0 ∷ 28 ∷ 0 ∷ 0 ∷ 0 ∷ 0 ∷ 0 ∷ 0 ∷ 0 ∷ 0 ∷ 0 ∷ 0 ∷ 0 ∷ 7 ∷ 0 ∷ 2 ∷ 0 ∷ 12 ∷ 1 ∷ 0 ∷ 0 ∷ 1
    ∷ 0 ∷ 8 ∷ 0 ∷ 4 ∷ 0 ∷ 2 ∷ 0 ∷ 4 ∷ []

ipfix_read-each_example :
    ipfix_read env message 32
    ≡ each_set env true 7
        (record { id = 2; body = 1 ∷ 0 ∷ 0 ∷ 1 ∷ 0 ∷ 8 ∷ 0 ∷ 4 ∷ [] } ∷ [])
        (0 ∷ 2 ∷ 0 ∷ 4 ∷ [])
ipfix_read-each_example =
    ipfix_read-each env message (0 ∷ 2 ∷ 0 ∷ 4 ∷ []) 32 28 7
      (record { id = 2; body = 1 ∷ 0 ∷ 0 ∷ 1 ∷ 0 ∷ 8 ∷ 0 ∷ 4 ∷ [] } ∷ []) (omega arith)
      (unfold be16 byte in refl) (unfold be16 byte in refl) (unfold be32 be16 byte in refl)
      (unfold wire size in refl) (λ low high. unfold wire size in refl)
      (λ long. absurd (omega arith)) (λ short. absurd (omega arith))

-- A data set of the template with two records, and a byte of padding behind them.
abbrev records : List (List ℕ)
records =
    (10 ∷ 0 ∷ 0 ∷ 1 ∷ 10 ∷ 0 ∷ 0 ∷ 2 ∷ 6 ∷ 0 ∷ 80 ∷ 0x30 ∷ 0x39 ∷ [])
    ∷ (10 ∷ 0 ∷ 0 ∷ 3 ∷ 10 ∷ 0 ∷ 0 ∷ 4 ∷ 17 ∷ 0 ∷ 53 ∷ 0x30 ∷ 0x40 ∷ [])
    ∷ []

abbrev data_set : List ℕ
data_set =
    1 ∷ 0 ∷ 0 ∷ 31 ∷ 10 ∷ 0 ∷ 0 ∷ 1 ∷ 10 ∷ 0 ∷ 0 ∷ 2 ∷ 6 ∷ 0 ∷ 80 ∷ 0x30 ∷ 0x39 ∷ 10 ∷ 0 ∷ 0 ∷ 3
    ∷ 10 ∷ 0 ∷ 0 ∷ 4 ∷ 17 ∷ 0 ∷ 53 ∷ 0x30 ∷ 0x40 ∷ 0 ∷ []

unfoldable knowing : World
knowing = record start { templates = some ((template_key 7 256, layout fields) ∷ []) }

flow_set-each_example :
    flow_set env data_set 31 7 knowing ≡ each env (layout fields) records knowing
flow_set-each_example =
    flow_set-each env knowing ((template_key 7 256, layout fields) ∷ []) (layout fields) data_set
      (0 ∷ []) 31 1 7 256 records (unfold be16 byte in refl) (unfold knowing in refl)
      (unfold Dict.get in rw (text_eq_refl (template_key 7 256)) refl)
      (unfold is_usable is_some layout total width has_varlen is_one_of last_offset any in refl)
      (unfold layout total width has_varlen is_one_of last_offset any in omega arith)
      (unfold layout total width has_varlen is_one_of last_offset any in (refl, (refl, tt)))
      (unfold glue in refl) (unfold glue in refl)
