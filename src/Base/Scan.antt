-- ===== src/Base/Scan.antt =====
-- Numbers read from texts: `%ld` of sscanf, for the numbers that a long holds, and atoi.
use Prim.Native.Nat.{ℕ, zero, suc, ◌+◌, ◌-◌, ◌*◌, ◌^◌, ◌%◌}
use mathlib.Core.Bool.{Bool, true, false, ◌&&◌, ◌||◌}
use mathlib.Core.Option.{Option, none, some}
use mathlib.Core.List.{[], ◌∷◌}
use packter.Base.Chars.{Text}
use packter.Base.Int.{ℤ, pos, negsuc}
use packter.Base.Tests.{leb, ltb, ◌==◌, if◌then◌else◌}

-- isspace, isdigit
unfoldable pub is_white : ℕ → Bool
is_white c = c == 32 || (leb 9 c && leb c 13)

unfoldable pub is_digit : ℕ → Bool
is_digit c = leb 48 c && leb c 57

unfoldable pub skip_white : Text → Text
unfolding is_white
skip_white [] = []
skip_white (c ∷ t) = let rest = skip_white t in if is_white c then rest else c ∷ t

-- The digits at the front, read on from `acc`, and what stands behind them.
unfoldable pub digits : ℕ → Text → ℕ × Text
unfolding is_digit
digits acc [] = (acc, [])
digits acc (c ∷ t) =
    let rest = digits (acc * 10 + (c - 48)) t in if is_digit c then rest else (acc, c ∷ t)

unfoldable pub starts_digit : Text → Bool
unfolding is_digit
starts_digit [] = false
starts_digit (c ∷ t) = is_digit c

unfoldable pub negate : ℕ → ℤ
negate zero = pos 0
negate (suc n) = negsuc n

unfoldable pub unsigned : Bool → Text → Option (ℤ × Text)
unfolding starts_digit negate
unsigned minus t =
    if starts_digit t
    then some (if minus then negate (digits 0 t).0 else pos (digits 0 t).0, (digits 0 t).1)
    else none

-- The sign that a number may have.
unfoldable pub signed : Text → Option (ℤ × Text)
unfolding unsigned
signed [] = none
signed (c ∷ t) =
    if c == b'-'
    then unsigned true t
    else if c == b'+'
    then unsigned false t
    else unsigned false (c ∷ t)

-- `%ld`
unfoldable pub scan_long : Text → Option (ℤ × Text)
unfolding signed
scan_long t = signed (skip_white t)

-- strtol: a number beyond the 64 bits of a long is cut to the nearest one that it holds.
unfoldable pub to_long : ℤ → ℤ
to_long (pos n) = if ltb n (2 ^ 63) then pos n else pos (2 ^ 63 - 1)
to_long (negsuc n) = if ltb n (2 ^ 63) then negsuc n else negsuc (2 ^ 63 - 1)

-- The 32 bits of an int, of a number in two's complement.
unfoldable pub to_int : ℤ → ℤ
to_int (pos n) =
    let low = n % 2 ^ 32 in if ltb low (2 ^ 31) then pos low else negsuc (2 ^ 32 - 1 - low)
to_int (negsuc n) =
    let low = n % 2 ^ 32 in if ltb low (2 ^ 31) then negsuc low else pos (2 ^ 32 - 1 - low)

-- atoi: the number at the front of the text as strtol reads it, cast to an int, or 0 where there is none.
unfoldable pub atoi : Text → ℤ
unfolding scan_long to_long to_int
atoi t = elim (scan_long t) [ none ↦ pos 0 | some (z, rest) ↦ to_int (to_long z) ]
