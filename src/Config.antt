-- ===== src/Config.antt =====
-- agent/lib/config.c: the KEY=VALUE file. A file is the list of its bytes.
pub mod Laws
pub mod Print
use packter.Base.{
  ℕ, zero, suc, ◌-◌, List, [], ◌∷◌, ◌++◌, Option, none, some, Text, Bool, true, false, not, ◌&&◌,
  ◌||◌, ◌==◌, if◌then◌else◌, is_filled, newline, snprintf,
}
use packter.Dict
use packter.Mesg.{bufsiz}

-- ' ' and '\t', and with the two line ends
unfoldable pub is_blank : ℕ → Bool
is_blank c = c == 32 || c == 9

unfoldable pub is_space : ℕ → Bool
unfolding is_blank
is_space c = c == 10 || c == 13 || is_blank c

-- The loop that cuts the end.
unfoldable pub trim_end : Text → Text
unfolding is_space
trim_end [] = []
trim_end (c ∷ t) =
    let rest = trim_end t in if is_space c && not (is_filled rest) then [] else c ∷ rest

-- The loop that skips the front.
unfoldable pub trim_start : Text → Text
unfolding is_blank
trim_start [] = []
trim_start (c ∷ t) = let rest = trim_start t in if is_blank c then rest else c ∷ t

unfoldable pub untab : Text → Text
untab [] = []
untab (c ∷ t) = (if c == 9 then 32 else c) ∷ untab t

-- config_trim
unfoldable pub config_trim : Text → Text
config_trim buf = untab (trim_start (trim_end buf))

-- strchr(buf, '='): what stands before and behind the first one.
unfoldable pub split_at : ℕ → Text → Option (Text × Text)
split_at sep [] = none
split_at sep (c ∷ t) =
    if c == sep
    then some ([], t)
    else elim (split_at sep t) [ none ↦ none | some (k, v) ↦ some (c ∷ k, v) ]

unfoldable pub is_comment : Text → Bool
is_comment [] = false
is_comment (c ∷ t) = c == b'#'

-- The entry that a line of the file holds; `none` is a `continue`.
unfoldable pub config_line : Text → Option (Text × Text)
config_line buf =
    if is_comment buf
    then none
    else if not (is_filled (config_trim buf))
    then none
    else elim (split_at b'=' (config_trim buf)) [
      | none ↦ none
      | some (k, v) ↦ if not (is_filled k) || not (is_filled v) then none else some (k, v)
    ]

unfoldable pub add_entry : List (Text × Text) → Text → List (Text × Text)
add_entry config buf = elim (config_line buf) [
  | none ↦ config
  | some (k, v) ↦ elim (Dict.get config k) [ none ↦ Dict.put_once config k v | some old ↦ config ]
]

-- The lines that `fgets` answers: up to a line end, or `room + 1` bytes, and `size + 1` from the next on.
unfoldable pub fgets : ℕ → ℕ → Text → List Text
fgets size room [] = []
fgets size zero (c ∷ t) = (c ∷ []) ∷ fgets size size t
fgets size (suc room) (c ∷ t) = elim (c == newline) [
  | true ↦ (c ∷ []) ∷ fgets size size t
  | false ↦ elim (fgets size room t) [ [] ↦ (c ∷ []) ∷ [] | line ∷ lines ↦ (c ∷ line) ∷ lines ]
]

-- A buffer as a C string ends at its first NUL.
unfoldable pub c_string : Text → Text
c_string [] = []
c_string (c ∷ t) = if c == 0 then [] else c ∷ c_string t

unfoldable pub add_lines : List (Text × Text) → List Text → List (Text × Text)
add_lines config [] = config
add_lines config (line ∷ lines) = add_lines (add_entry config (c_string line)) lines

-- packter_config_parse, on the content of a file that opens
unfoldable pub config_parse : List (Text × Text) → Text → List (Text × Text)
config_parse config file = add_lines config (fgets (bufsiz - 2) (bufsiz - 2) file)

-- packter_config_exists
unfoldable pub config_exists : List (Text × Text) → Text → Bool
config_exists config key = elim (Dict.get config key) [ none ↦ false | some v ↦ is_filled v ]

-- packter_addstring
unfoldable pub addstring : Text → Text → Text
addstring buf val = snprintf bufsiz (buf ++ val)

-- packter_addstring_conf
unfoldable pub addstring_conf : List (Text × Text) → Text → Text → Text
addstring_conf config buf key = elim (Dict.get config key) [
  | none ↦ buf
  | some v ↦ if is_filled v then addstring buf v else buf
]
