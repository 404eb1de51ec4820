-- ===== src/Flow/Cache.antt =====
-- The template cache: which template a domain and a template's id lead to.
use packter.Base.{
  ℕ, zero, suc, ◌/◌, ◌^◌, ◌<◌, ◌≡◌, refl, sym, ap, ◌∙◌, List, [], ◌∷◌, ◌++◌, some, Text, false,
  arith, length-append, take-eq_self, All, snprintf, decimal, digits_onto, text_eq, ltb, ◌==◌,
  if◌then◌else◌, inl, inr, Bool-cases, Option-cases,
}
use packter.Base.Decimal.{value, value-decimal, length-decimal}
use packter.Agent.{Template}
use packter.Dict
use packter.Dict.Laws.{get-put_once, get-write}
use packter.Flow.Templates.{template_key, cache}

-- After a template is put into the cache, its key leads to it, whether or not the key was there, and every other key to what it led to before.
pub get-cache :
    (m : List (Text × Template)) (key other : Text) (np : Template)
    → Dict.get (cache m key np) other ≡ (if text_eq key other then some np else Dict.get m other)
unfolding cache
get-cache m key other np = elim (Option-cases (Dict.get m key)) [
  | inl e ↦ rw (cache, e, get-put_once m key other np, e) refl
  | inr (old, e) ↦ rw (cache, e, get-write m key other np, e) refl
]

-- What stands before and behind the first dash.
before : Text → Text
before [] = []
before (c ∷ t) = if c == b'-' then [] else c ∷ before t

behind : Text → Text
behind [] = []
behind (c ∷ t) = if c == b'-' then t else behind t

abbrev IsDashless : ℕ → Type 0
IsDashless c = (c == b'-') ≡ false

digits_onto-IsDashless :
    (fuel n : ℕ) (acc : List ℕ) → All IsDashless acc → All IsDashless (digits_onto fuel n acc)
unfolding digits_onto
digits_onto-IsDashless zero n acc h = (ground arith, h)
digits_onto-IsDashless (suc fuel) n acc h = elim (Bool-cases (ltb n 10)) [
  | inl e ↦ rw (digits_onto, e) (ground arith, h)
  | inr e ↦ rw (digits_onto, e) (digits_onto-IsDashless fuel (n / 10) _ (ground arith, h))
]

decimal-IsDashless : (n : ℕ) → All IsDashless (decimal n)
unfolding decimal
decimal-IsDashless n = digits_onto-IsDashless n n [] tt

before-dash : (s t : Text) → All IsDashless s → before (s ++ (b'-' ∷ t)) ≡ s
unfolding before
before-dash [] t h = refl
before-dash (c ∷ s) t h = rw (h.0, before-dash s t h.1) refl

behind-dash : (s t : Text) → All IsDashless s → behind (s ++ (b'-' ∷ t)) ≡ t
unfolding behind
behind-dash [] t h = refl
behind-dash (c ∷ s) t h = rw (h.0) (behind-dash s t h.1)

decimal_injective : (a b : ℕ) → decimal a ≡ decimal b → a ≡ b
decimal_injective a b e = sym (value-decimal a) ∙ (ap (value 0) e ∙ value-decimal b)

-- The key is not cut.
template_key-whole :
    (a b : ℕ) → a < 2 ^ 32 → b < 2 ^ 32 → template_key a b ≡ decimal a ++ (b'-' ∷ decimal b)
unfolding template_key snprintf
template_key-whole a b ha hb = take-eq_self 63 (decimal a ++ (b'-' ∷ decimal b)) (
    omega (
      arith,
      length-append (decimal a) (b'-' ∷ decimal b),
      length-decimal 9 a (omega arith),
      length-decimal 9 b (omega arith),
    ))

-- Two templates have the same key only when both their domains and their ids, which fit 32 bits, are the same.
pub template_key_injective :
    (a b c d : ℕ)
    → a < 2 ^ 32
    → b < 2 ^ 32
    → c < 2 ^ 32
    → d < 2 ^ 32
    → template_key a b ≡ template_key c d
    → (a ≡ c) × (b ≡ d)
template_key_injective a b c d ha hb hc hd e =
    let whole : decimal a ++ (b'-' ∷ decimal b) ≡ decimal c ++ (b'-' ∷ decimal d) =
      sym (template_key-whole a b ha hb) ∙ (e ∙ template_key-whole c d hc hd) in
    (
      decimal_injective a c (
          sym (before-dash (decimal a) _ (decimal-IsDashless a))
          ∙ (ap before whole ∙ before-dash (decimal c) _ (decimal-IsDashless c))),
      decimal_injective b d (
          sym (behind-dash (decimal a) _ (decimal-IsDashless a))
          ∙ (ap behind whole ∙ behind-dash (decimal c) _ (decimal-IsDashless c))),
    )
