-- ===== src/Dict/Laws.antt =====
-- What a lookup answers after each change of a map.
use packter.Base.{◌≡◌, List, [], ◌∷◌, none, some, Text, text_eq, arith}
use packter.Base.{if◌then◌else◌, inl, inr, Bool-cases}
use packter.Base.{text_eq_iff}
use packter.Dict.{get, put_once, write}

module _ {ℓ} {V : Type ℓ} where
  -- After `put_once` a lookup answers the new value at a key that was missing, and what it answered before at every other key and at a key that was there.
  pub get-put_once :
      (m : List (Text × V)) (k j : Text) (v : V)
      → get (put_once m k v) j
        ≡ (if text_eq k j then elim (get m k) [ some old ↦ some old | none ↦ some v ] else get m j)
  unfolding put_once get
  get-put_once m k j v = elim (Bool-cases (text_eq k j)) [
    | inl e ↦ ground (arith, text_eq_iff k j, e)
    | inr e ↦ ground (arith, text_eq_iff k j, e)
  ]

  -- After a store through a found pointer a lookup answers the new value at that key and what it answered before at every other key.
  pub get-write :
      (m : List (Text × V)) (k j : Text) (v : V)
      → get (write m k v) j
        ≡ (if text_eq k j then elim (get m k) [ some old ↦ some v | none ↦ none ] else get m j)
  unfolding get write
  get-write [] k j v = ground arith
  get-write ((i, w) ∷ m) k j v =
      ground (arith, text_eq_iff k j, text_eq_iff i k, text_eq_iff i j, get-write m k j v)
