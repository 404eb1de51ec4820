-- ===== src/Startup/Ensures.antt =====
-- What holds of the answer of a call, where the call returns: one rule for each way to build it.
use packter.Base.{
  ◌≡◌, refl, ap, subst, Option, none, some, Bool, true, false, if◌then◌else◌, if_branches,
}
use packter.Startup.{Outcome, runs, exits, Status, ◌>>=◌, require, >>=-eq-runs}

pub record Ensures {A : Type 0} (P : A → Type 0) (m : Outcome A) : Type 0 where
  pub returned : (a : A) → m ≡ runs a → P a

abbrev answer_or : {A : Type 0} → A → Outcome A → A
answer_or d (runs a) = a
answer_or d (exits status) = d

module _ {A : Type 0} {P : A → Type 0} where
  pub Ensures-runs : (a : A) → P a → Ensures P (runs a)
  Ensures-runs a h = record { returned = λ b e. subst P (ap (answer_or a) e) h }

  pub Ensures-exits : (status : Status) → Ensures P (exits status)
  Ensures-exits status = record { returned = λ b e. cc }

  -- Each branch may use that its test came out.
  pub Ensures-if :
      (test : Bool) (held missed : Outcome A)
      → (test ≡ true → Ensures P held)
      → (test ≡ false → Ensures P missed)
      → Ensures P (if test then held else missed)
  Ensures-if = if_branches (λ m. Ensures P m)

  pub Ensures-bind :
      {B : Type 0} {Q : B → Type 0} (m : Outcome B) (k : B → Outcome A)
      → Ensures Q m
      → ((b : B) → Q b → Ensures P (k b))
      → Ensures P (m >>= k)
  Ensures-bind m k em ek = record {
    returned = λ a e.
        let (b, now, then_on) = >>=-eq-runs m k e in (ek b (em.returned b now)).returned a then_on;
  }

  pub Ensures-require :
      {B : Type 0} (o : Option B) (k : B → Outcome A)
      → ((b : B) → o ≡ some b → Ensures P (k b))
      → Ensures P (require o >>= k)
  Ensures-require none k ek = record { returned = λ a e. cc }
  Ensures-require (some b) k ek = ek b refl

-- Every answer, where nothing is known of it.
pub Ensures-any : {A : Type 0} (m : Outcome A) → Ensures (λ (a : A). m ≡ runs a) m
Ensures-any m = record { returned = λ a e. e }

pub ruleset ensures_rules = (Ensures-runs, Ensures-exits, Ensures-if)
