-- ===== src/Dict.antt =====
-- agent/lib/map.c: the string-keyed linked list. The list of the entries, head first, stands for
-- the chain of `pt_kv`; a value that another pointer changes in place is written by `write`.
pub mod Laws
use packter.Base.{List, [], ◌∷◌, Option, none, some, Text, text_eq, if◌then◌else◌}

module _ {ℓ} {V : Type ℓ} where
  -- pt_map_init
  unfoldable pub init : List (Text × V)
  init = []

  -- pt_map_get
  unfoldable pub get : List (Text × V) → Text → Option V
  get [] key = none
  get ((k, v) ∷ m) key = if text_eq k key then some v else get m key

  -- pt_map_put_once: an entry that is there stays, a new one becomes the head.
  unfoldable pub put_once : List (Text × V) → Text → V → List (Text × V)
  unfolding get
  put_once m key v = elim (get m key) [ some old ↦ m | none ↦ (key, v) ∷ m ]

  -- A store through the pointer that `pt_map_get` returned: the entry's value changes in place.
  unfoldable pub write : List (Text × V) → Text → V → List (Text × V)
  write [] key v = []
  write ((k, w) ∷ m) key v = if text_eq k key then (k, v) ∷ m else (k, w) ∷ write m key v

  -- pt_map_clear
  unfoldable pub clear : List (Text × V) → List (Text × V)
  clear m = []
