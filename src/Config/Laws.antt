-- ===== src/Config/Laws.antt =====
-- What a configuration answers: the first entry of a key.
use packter.Base.{
  ◌≡◌, refl, sym, ap, ◌∙◌, List, [], ◌∷◌, Option, none, some, Text, if◌then◌else◌, text_eq,
  text_eq_sound, inl, inr, Bool-cases, Option-cases,
}
use packter.Dict
use packter.Dict.Laws.{get-put_once}
use packter.Config.{config_line, add_entry, fgets, c_string, add_lines, config_parse}

-- The value of the first line of a file that has an entry of the key.
unfoldable pub first_value : Text → List Text → Option Text
first_value j [] = none
first_value j (line ∷ lines) = elim (config_line (c_string line)) [
  | none ↦ first_value j lines
  | some (k, v) ↦ if text_eq k j then some v else first_value j lines
]

unfoldable pub or_else {ℓ} : {A : Type ℓ} → Option A → Option A → Option A
or_else (some a) o = some a
or_else none o = o

or_else-none {ℓ} : {A : Type ℓ} (o : Option A) → or_else o none ≡ o
unfolding or_else
or_else-none (some a) = refl
or_else-none none = refl

-- The value that one line has for a key.
line_value : Text → Text → Option Text
line_value buf j = elim (config_line buf) [
  | none ↦ none
  | some (k, v) ↦ if text_eq k j then some v else none
]

add_entry-get :
    (config : List (Text × Text)) (buf j : Text)
    → Dict.get (add_entry config buf) j ≡ or_else (Dict.get config j) (line_value buf j)
unfolding add_entry or_else line_value
add_entry-get config buf j = elim (Option-cases (config_line buf)) [
  | inl e ↦ rw (add_entry, line_value, e) (sym (or_else-none (Dict.get config j)))
  | inr ((k, v), e) ↦ elim (Option-cases (Dict.get config k)) [
    | inl g ↦ elim (Bool-cases (text_eq k j)) [
      | inl t ↦
          let there : Dict.get config j ≡ none = rw (← text_eq_sound k j t) g in
          rw (add_entry, line_value, e, g, get-put_once config k j v, t, g, there) refl
      | inr t ↦
          rw (add_entry, line_value, e, g, get-put_once config k j v, t)
            (sym (or_else-none (Dict.get config j)))
    ]
    | inr (old, g) ↦ elim (Bool-cases (text_eq k j)) [
      | inl t ↦
          let there : Dict.get config j ≡ some old = rw (← text_eq_sound k j t) g in
          rw (add_entry, line_value, e, g, there) refl
      | inr t ↦ rw (add_entry, line_value, e, g, t) (sym (or_else-none (Dict.get config j)))
    ]
  ]
]

or_else-first :
    (o : Option Text) (buf j : Text) (rest : Option Text)
    → or_else (or_else o (line_value buf j)) rest
      ≡ or_else o (elim (config_line buf) [
        | none ↦ rest
        | some (k, v) ↦ if text_eq k j then some v else rest
      ])
unfolding or_else line_value
or_else-first (some a) buf j rest = refl
or_else-first none buf j rest = elim (Option-cases (config_line buf)) [
  | inl e ↦ rw (line_value, e) refl
  | inr ((k, v), e) ↦ elim (Bool-cases (text_eq k j)) [
    | inl t ↦ rw (line_value, e, t) refl
    | inr t ↦ rw (line_value, e, t) refl
  ]
]

add_lines-get :
    (config : List (Text × Text)) (lines : List Text) (j : Text)
    → Dict.get (add_lines config lines) j ≡ or_else (Dict.get config j) (first_value j lines)
unfolding add_lines first_value
add_lines-get config [] j = sym (or_else-none (Dict.get config j))
add_lines-get config (line ∷ lines) j =
    add_lines-get (add_entry config (c_string line)) lines j
    ∙ ap (λ o. or_else o (first_value j lines)) (add_entry-get config (c_string line) j)
    ∙ or_else-first (Dict.get config j) (c_string line) j (first_value j lines)

-- A key of a file that is read into an empty configuration has the value of the first line with an entry of that key, and a key without such a line has none.
pub config_parse-first :
    (file j : Text)
    → Dict.get (config_parse Dict.init file) j ≡ first_value j (fgets 1022 1022 file)
unfolding config_parse Dict.init or_else Dict.get
config_parse-first file j = add_lines-get [] (fgets 1022 1022 file) j
