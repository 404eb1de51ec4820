-- ===== src/Base/Chars.antt =====
-- C strings as lists of byte codes without their terminating NUL, `snprintf`'s cut, and decimals.
use Prim.Native.Nat.{ℕ, zero, suc, ◌+◌, ◌-◌, ◌/◌, ◌%◌}
use Prim.Native.Char.{code}
use Prim.Native.String.{String}
use mathlib.Core.Bool.{Bool, true, false, ◌&&◌}
use mathlib.Core.List.{List, [], ◌∷◌}
use mathlib.Core.Path.{◌≡◌, refl}
use mathlib.Core.Logic.{◌↔◌}
use native.Mathlib.Omega.{arith}
use packter.Base.Tests.{ltb, ◌==◌}
use packter.Base.Lists.{take}
use packter.Base.Int.{ℤ, pos, negsuc}

abbrev pub Text : Type 0
Text = List ℕ

-- The byte codes of an ASCII literal.
abbrev pub codes : String → Text
codes String.[] = []
codes (String.◌∷◌ c s) = code c ∷ codes s

abbrev pub newline : ℕ
newline = 10

-- `snprintf(buf, n, …)`: what stands in `buf` when `t` is the whole formatted text, for n > 0.
unfoldable pub snprintf : ℕ → Text → Text
snprintf n t = take (n - 1) t

-- `t[0] != '\0'`
abbrev pub is_filled : Text → Bool
is_filled [] = false
is_filled (c ∷ t) = true

-- strcmp(s, t) == 0
unfoldable pub text_eq : Text → Text → Bool
text_eq [] [] = true
text_eq [] (d ∷ t) = false
text_eq (c ∷ s) [] = false
text_eq (c ∷ s) (d ∷ t) = c == d && text_eq s t

-- The digits of `n` in front of `acc`, most significant first, with as many rounds as needed.
unfoldable pub digits_onto : ℕ → ℕ → Text → Text
digits_onto zero n acc = (48 + n % 10) ∷ acc
digits_onto (suc fuel) n acc = elim (ltb n 10) [
  | true ↦ (48 + n) ∷ acc
  | false ↦ digits_onto fuel (n / 10) ((48 + n % 10) ∷ acc)
]

-- `%u` and `%ld` of a number that is not negative.
unfoldable pub decimal : ℕ → Text
unfolding digits_onto
decimal n = digits_onto n n []

-- `%d`
unfoldable pub decimal_int : ℤ → Text
unfolding decimal
decimal_int (pos n) = decimal n
decimal_int (negsuc n) = b'-' ∷ decimal (n + 1)

pub text_eq_sound : (s t : Text) → text_eq s t ≡ true → s ≡ t
unfolding text_eq
text_eq_sound [] [] h = refl
text_eq_sound [] (d ∷ t) h = cc
text_eq_sound (c ∷ s) [] h = cc
text_eq_sound (c ∷ s) (d ∷ t) h = ground (arith, text_eq_sound s t)

pub text_eq_refl : (t : Text) → text_eq t t ≡ true
unfolding text_eq
text_eq_refl [] = refl
text_eq_refl (c ∷ t) = ground (arith, text_eq_refl t)

-- `strcmp` answers 0 exactly on equal texts.
pub text_eq_iff : (s t : Text) → (text_eq s t ≡ true) ↔ (s ≡ t)
text_eq_iff s t = (text_eq_sound s t, λ e. rw e (text_eq_refl t))
