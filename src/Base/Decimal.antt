-- ===== src/Base/Decimal.antt =====
-- Decimal notation: its length, and that it determines the number.
use packter.Base.Chars.{digits_onto, decimal}
use Prim.Native.Nat.{ℕ, zero, suc, ◌+◌, ◌*◌, ◌/◌, ◌%◌, ◌^◌, ◌≤◌, ◌<◌, ◌-◌}
use mathlib.Core.Path.{◌≡◌, refl, ◌∙◌}
use mathlib.Core.List.{List, [], ◌∷◌}
use native.Mathlib.Omega.{arith}
use native.Mathlib.Nat.{pow-suc}
use packter.Base.Lists.{length}

length-digits_onto :
    (k fuel n : ℕ) (acc : List ℕ)
    → n < 10 ^ suc k
    → length (digits_onto fuel n acc) ≤ length acc + suc k
unfolding digits_onto
length-digits_onto k zero n acc h = omega arith
length-digits_onto zero (suc fuel) n acc h = ground arith
length-digits_onto (suc k) (suc fuel) n acc h =
    ground (arith, pow-suc 10 (suc k), length-digits_onto k fuel (n / 10) ((48 + n % 10) ∷ acc))

-- A number below 10 ^ (k + 1) has at most k + 1 digits.
pub length-decimal : (k n : ℕ) → n < 10 ^ suc k → length (decimal n) ≤ suc k
unfolding decimal
length-decimal k n h = omega (arith, length-digits_onto k n n [] h)

-- What a text of digits stands for, read on from `acc`.
unfoldable pub value : ℕ → List ℕ → ℕ
value acc [] = acc
value acc (c ∷ t) = value (acc * 10 + (c - 48)) t

value-digits_onto :
    (fuel n : ℕ) (acc : List ℕ) → n ≤ fuel → value 0 (digits_onto fuel n acc) ≡ value n acc
unfolding digits_onto value
value-digits_onto zero zero acc h = refl
value-digits_onto zero (suc n) acc h = absurd (omega arith)
value-digits_onto (suc fuel) n acc h =
    ground (arith, value-digits_onto fuel (n / 10) ((48 + n % 10) ∷ acc))

-- Reading the digits back gives the number.
pub value-decimal : (n : ℕ) → value 0 (decimal n) ≡ n
unfolding decimal
value-decimal n = value-digits_onto n n [] (omega arith) ∙ unfold value in refl
