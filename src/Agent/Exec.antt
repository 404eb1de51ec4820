-- ===== src/Agent/Exec.antt =====
-- Actions on a state that may fault: `none` is an access outside a buffer, or a call that does not
-- return.
use packter.Base.{◌≡◌, refl, Option, none, some, Bool, if◌then◌else◌}

abbrev pub Exec : Type 0 → Type 0 → Type 0
Exec S A = S → Option (A × S)

infixl 5 ◌>>=◌ ◌>>◌
unfoldable pub ◌>>=◌ : {S A B : Type 0} → Exec S A → (A → Exec S B) → Exec S B
◌>>=◌ m f s = elim (m s) [ none ↦ none | some (a, s') ↦ f a s' ]

unfoldable pub ◌>>◌ : {S B : Type 0} → Exec S (Unit {0}) → Exec S B → Exec S B
unfolding ◌>>=◌
m >> k = m >>= λ _. k

module _ {S : Type 0} where
  unfoldable pub pure : {A : Type 0} → A → Exec S A
  pure a s = some (a, s)

  unfoldable pub skip : Exec S (Unit {0})
  unfolding pure
  skip = pure tt

  -- A computation outside the state that may fault.
  unfoldable pub lift : {A : Type 0} → Option A → Exec S A
  lift none s = none
  lift (some a) s = some (a, s)

  unfoldable pub gets : {A : Type 0} → (S → A) → Exec S A
  gets f s = some (f s, s)

  unfoldable pub modify : (S → S) → Exec S (Unit {0})
  modify f s = some (tt, f s)

  -- `if (b) { m }`
  unfoldable pub when : Bool → Exec S (Unit {0}) → Exec S (Unit {0})
  unfolding skip
  when b m = if b then m else skip

module _ {S : Type 0} where
  -- A read that is served, and a value, in front of the rest.
  pub bind-lift : {A B : Type 0} (a : A) (f : A → Exec S B) → (lift (some a) >>= f) ≡ f a
  unfolding ◌>>=◌ lift
  bind-lift a f = refl

  pub bind-pure : {A B : Type 0} (a : A) (f : A → Exec S B) → (pure a >>= f) ≡ f a
  unfolding ◌>>=◌ pure
  bind-pure a f = refl
