-- ===== src/Send/Key.antt =====
-- packter_load_psk of agent/lib/send.c: the key of the authentication line.
use packter.Base.{
  ℕ, zero, suc, ◌≤◌, ◌≡◌, refl, ap, arith, List, [], ◌∷◌, ◌++◌, Option, none, some, Text, false,
  not, ◌&&◌, ◌||◌, ◌==◌, ltb, if◌then◌else◌, is_filled, newline, length, All,
}
use packter.Config.{fgets, c_string}

-- PACKTER_PSK_MAX
abbrev pub psk_max : ℕ
psk_max = 128

-- The loop that cuts line ends off the end.
unfoldable pub chomp : Text → Text
chomp [] = []
chomp (c ∷ t) =
    let rest = chomp t in if (c == 10 || c == 13) && not (is_filled rest) then [] else c ∷ rest

-- A key that is too short or too long ends the process.
unfoldable pub checked : Text → Option (List ℕ)
checked key = if not (is_filled key) || ltb psk_max (length key) then none else some key

-- packter_load_psk, on the content of a file that opens; `none` is an exit. The first line comes in 129 bytes.
unfoldable pub load_psk : Text → Option (List ℕ)
load_psk file = elim (fgets psk_max psk_max file) [
  | [] ↦ none
  | line ∷ lines ↦ checked (chomp (c_string line))
]

-- A byte of a key: no NUL and no line end.
abbrev pub IsKeyByte : ℕ → Type 0
IsKeyByte c = (c == 0 || (c == 10 || c == 13)) ≡ false

-- The line that `fgets` answers holds the key and the line end.
fgets-line :
    (size room : ℕ) (key rest : Text)
    → length key ≤ room
    → All IsKeyByte key
    → (lines : List Text) × (fgets size room (key ++ (newline ∷ rest))
        ≡ (key ++ (newline ∷ [])) ∷ lines)
unfolding fgets
fgets-line size zero [] rest h k = (fgets size size rest, refl)
fgets-line size (suc room) [] rest h k = (fgets size size rest, refl)
fgets-line size zero (c ∷ key) rest h k = absurd (omega arith)
fgets-line size (suc room) (c ∷ key) rest h k =
    let other : (c == newline) ≡ false = ground (arith, k.0) in
    let (lines, e) = fgets-line size room key rest (omega arith) k.1 in
    (lines, rw (fgets, other, e) refl)

c_string-line :
    (key : Text) → All IsKeyByte key → c_string (key ++ (newline ∷ [])) ≡ key ++ (newline ∷ [])
unfolding c_string
c_string-line [] k = refl
c_string-line (c ∷ key) k =
    let other : (c == 0) ≡ false = ground (arith, k.0) in
    rw (c_string, other) (ap (λ t. c ∷ t) (c_string-line key k.1))

chomp-line : (key : Text) → All IsKeyByte key → chomp (key ++ (newline ∷ [])) ≡ key
unfolding chomp
chomp-line [] k = refl
chomp-line (c ∷ key) k =
    let other : (c == 10 || c == 13) ≡ false = ground (arith, k.0) in
    rw (chomp, other) (ap (λ t. c ∷ t) (chomp-line key k.1))

-- A key of 1 to 128 bytes, without a NUL or a line end, that stands in the first line of the key file is loaded whole, whatever stands in the lines behind it.
pub load_psk-line :
    (c : ℕ) (key rest : Text)
    → length (c ∷ key) ≤ 128
    → All IsKeyByte (c ∷ key)
    → load_psk ((c ∷ key) ++ (newline ∷ rest)) ≡ some (c ∷ key)
unfolding load_psk checked
load_psk-line c key rest h k =
    let (lines, e) = fgets-line 128 128 (c ∷ key) rest h k in
    let fits : ltb psk_max (length (c ∷ key)) ≡ false = ground (arith, h) in
    rw (load_psk, e, c_string-line (c ∷ key) k, chomp-line (c ∷ key) k, checked, fits) refl
