-- ===== src/Flow/Layout.antt =====
-- What a template set means: the fields that it lists, and where each stands in a flow record.
use packter.Base.{
  drop-suc, ℕ, zero, suc, ◌+◌, ◌/◌, ◌%◌, ◌^◌, ◌<◌, ◌≡◌, refl, ap, List, [], ◌∷◌, ◌++◌, Option, none,
  some, Bool, true, false, ◌||◌, arith, length, drop, ◌==◌, if◌then◌else◌, Bool-cases, inl, inr,
  ◌⊎◌,
}
use packter.Agent.{Template}
use packter.Flow.Templates.{Fields, note_field, varlen}
use packter.Wire.{byte, be16}

-- A field specifier: an information element and its length, or an enterprise's own one (IPFIX).
pub data Field : Type 0 where
  standard : ℕ → ℕ → Field
  enterprise : ℕ → ℕ → List ℕ → Field

-- A specifier that a set of the protocol can hold.
abbrev pub IsField : Bool → Field → Type 0
IsField is_ipfix (standard ie len) =
    (ie < 2 ^ 16) × (len < 2 ^ 16) × (is_ipfix ≡ true → ie < 0x8000)
IsField is_ipfix (enterprise ie len number) =
    (is_ipfix ≡ true) × (ie < 0x8000) × (len < 2 ^ 16) × (length number ≡ 4)

-- Its bytes in the set.
unfoldable pub encode : List Field → List ℕ
encode [] = []
encode (standard ie len ∷ fs) = ie / 256 ∷ ie % 256 ∷ len / 256 ∷ len % 256 ∷ encode fs
encode (enterprise ie len number ∷ fs) =
    (ie + 0x8000) / 256 ∷ (ie + 0x8000) % 256 ∷ len / 256 ∷ len % 256 ∷ (number ++ encode fs)

-- The length that a specifier declares, and the bytes that its field takes in a flow record as far as the code counts them.
abbrev pub declared : Field → ℕ
declared (standard ie len) = len
declared (enterprise ie len number) = len

-- The element as the set spells it: the top bit marks an enterprise's own one.
unfoldable pub element : Field → ℕ
element (standard ie len) = ie
element (enterprise ie len number) = ie + 0x8000

unfoldable pub width : Field → ℕ
width f = if declared f == varlen then 0 else declared f

unfoldable pub total : List Field → ℕ
total [] = 0
total (f ∷ fs) = width f + total fs

unfoldable pub has_varlen : List Field → Bool
has_varlen [] = false
has_varlen (f ∷ fs) = declared f == varlen || has_varlen fs

-- Whether a standard element is among `ids`.
unfoldable pub is_one_of : ℕ → ℕ → Field → Bool
is_one_of a b (standard ie len) = ie == a || ie == b
is_one_of a b (enterprise ie len number) = false

-- Where the last field that `p` names stands, behind `base` bytes.
unfoldable pub last_offset : (Field → Bool) → ℕ → List Field → Option ℕ
last_offset p base [] = none
last_offset p base (f ∷ fs) = elim (last_offset p (base + width f) fs) [
  | some o ↦ some o
  | none ↦ if p f then some base else none
]

unfoldable pub any : (Field → Bool) → List Field → Bool
any p [] = false
any p (f ∷ fs) = p f || any p fs

-- The template of a list of fields: each entry is where the last field of its kind stands.
unfoldable pub layout : List Field → Template
layout fs = record {
  l3_src = last_offset (is_one_of 8 27) 0 fs;
  l3_dst = last_offset (is_one_of 12 28) 0 fs;
  l4_src = last_offset (is_one_of 7 7) 0 fs;
  l4_dst = last_offset (is_one_of 11 11) 0 fs;
  isv6 = any (is_one_of 27 28) fs;
  proto = last_offset (is_one_of 4 4) 0 fs;
  icmp = last_offset (is_one_of 32 32) 0 fs;
  tcp_flags = last_offset (is_one_of 6 6) 0 fs;
  record_len = if has_varlen fs then 0 else total fs;
}

-- Where the fields stand once `ie` is noted at `o`.
unfoldable pub noted : ℕ → ℕ → Template → Template
noted ie o np = record {
  l3_src = if ie == 8 || ie == 27 then some o else np.l3_src;
  l3_dst = if ie == 12 || ie == 28 then some o else np.l3_dst;
  l4_src = if ie == 7 || ie == 7 then some o else np.l4_src;
  l4_dst = if ie == 11 || ie == 11 then some o else np.l4_dst;
  isv6 = (ie == 27 || ie == 28) || np.isv6;
  proto = if ie == 4 || ie == 4 then some o else np.proto;
  icmp = if ie == 32 || ie == 32 then some o else np.icmp;
  tcp_flags = if ie == 6 || ie == 6 then some o else np.tcp_flags;
  record_len = np.record_len;
}

==-cases : (a b : ℕ) → (a ≡ b) ⊎ ((a == b) ≡ false)
==-cases a b = elim (Bool-cases (a == b)) [ inl e ↦ inl (ground (arith, e)) | inr e ↦ inr e ]

pub note_field-noted : (ie o : ℕ) (np : Template) → note_field ie o np ≡ noted ie o np
unfolding note_field noted
note_field-noted ie o np = elim (==-cases ie 8) [
  | inl e ↦ rw e refl
  | inr f0 ↦ elim (==-cases ie 12) [
    | inl e ↦ rw e refl
    | inr f1 ↦ elim (==-cases ie 27) [
      | inl e ↦ rw e refl
      | inr f2 ↦ elim (==-cases ie 28) [
        | inl e ↦ rw e refl
        | inr f3 ↦ elim (==-cases ie 7) [
          | inl e ↦ rw e refl
          | inr f4 ↦ elim (==-cases ie 11) [
            | inl e ↦ rw e refl
            | inr f5 ↦ elim (==-cases ie 32) [
              | inl e ↦ rw e refl
              | inr f6 ↦ elim (==-cases ie 4) [
                | inl e ↦ rw e refl
                | inr f7 ↦ elim (==-cases ie 6) [
                  | inl e ↦ rw e refl
                  | inr f8 ↦ rw (f0, f1, f2, f3, f4, f5, f6, f7, f8) refl
                ]
              ]
            ]
          ]
        ]
      ]
    ]
  ]
]

-- One more field, as the loop takes it.
unfoldable pub fold_field : Field → Fields → Fields
fold_field f st = record {
  at = st.at + length (encode (f ∷ []));
  fieldlen = st.fieldlen + width f;
  variable = declared f == varlen || st.variable;
  np = elim f [
    | standard ie len ↦ note_field ie st.fieldlen st.np
    | enterprise ie len number ↦ st.np
  ];
}

unfoldable pub fold_fields : List Field → Fields → Fields
fold_fields [] st = st
fold_fields (f ∷ fs) st = fold_fields fs (fold_field f st)

-- Reading at an offset is reading at the front of what stands there.
byte-drop : (p : List ℕ) (i b : ℕ) (rest : List ℕ) → drop i p ≡ b ∷ rest → byte p i ≡ some b
unfolding byte
byte-drop p zero b rest e = rw e refl
byte-drop [] (suc i) b rest e = cc
byte-drop (x ∷ p) (suc i) b rest e = byte-drop p i b rest e

pub be16-drop :
    (p : List ℕ) (i v : ℕ) (rest : List ℕ) → drop i p ≡ v / 256 ∷ v % 256 ∷ rest → be16 p i ≡ some v
unfolding be16
be16-drop p i v rest e =
    rw (be16, byte-drop p i _ _ e, byte-drop p (i + 1) _ _ (drop-suc p i _ _ e))
      (ap some (omega arith))

pub drop-two :
    (p : List ℕ) (i a b : ℕ) (rest : List ℕ) → drop i p ≡ a ∷ b ∷ rest → drop (i + 2) p ≡ rest
drop-two p i a b rest e =
    let s : i + 2 ≡ i + 1 + 1 = omega arith in rw s (drop-suc p (i + 1) _ _ (drop-suc p i _ _ e))
