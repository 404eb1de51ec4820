-- ===== src/Agent/Keeps.antt =====
-- Total correctness of actions: from every state that satisfies `P` the action returns, and its
-- final state satisfies `P`. One rule for each way to build an action.
use packter.Base.{◌≡◌, refl, Option, none, some, Bool, true, false, if◌then◌else◌, if_branches}
use packter.Agent.Exec.{Exec, ◌>>=◌, ◌>>◌, pure, skip, lift, gets, modify, when}

pub record Keeps {S A : Type 0} (P : S → Type 0) (m : Exec S A) : Type 0 where
  pub at : (s : S) → P s → (r : A × S) × (m s ≡ some r) × P r.1

module _ {S : Type 0} {P : S → Type 0} where
  pub Keeps-pure : {A : Type 0} (a : A) → Keeps P (pure {S = S} a)
  unfolding pure
  Keeps-pure a = record { at = λ s h. ((a, s), refl, h) }

  pub Keeps-skip : Keeps P (skip {S = S})
  unfolding skip
  Keeps-skip = Keeps-pure tt

  pub Keeps-gets : {A : Type 0} (f : S → A) → Keeps P (gets f)
  unfolding gets
  Keeps-gets f = record { at = λ s h. ((f s, s), refl, h) }

  pub Keeps-modify : (f : S → S) → ((s : S) → P s → P (f s)) → Keeps P (modify f)
  unfolding modify
  Keeps-modify f k = record { at = λ s h. ((tt, f s), refl, k s h) }

  -- Each branch may use that its test came out.
  pub Keeps-if :
      {A : Type 0} (test : Bool) (held missed : Exec S A)
      → (test ≡ true → Keeps P held)
      → (test ≡ false → Keeps P missed)
      → Keeps P (if test then held else missed)
  Keeps-if = if_branches (λ m. Keeps P m)

  pub Keeps-when : (b : Bool) (m : Exec S (Unit {0})) → (b ≡ true → Keeps P m) → Keeps P (when b m)
  unfolding when
  Keeps-when b m km = Keeps-if b m skip km (λ _. Keeps-skip)

  -- A read that is served, and what it answers.
  pub Keeps-read :
      {A B : Type 0} (o : Option A) (f : A → Exec S B)
      → (a : A) × (o ≡ some a)
      → ((a : A) → o ≡ some a → Keeps P (f a))
      → Keeps P (lift o >>= f)
  unfolding ◌>>=◌ lift
  Keeps-read none f (a, e) kf = cc
  Keeps-read (some a) f served kf = kf a refl

  pub Keeps-lift : {A : Type 0} (o : Option A) → (a : A) × (o ≡ some a) → Keeps P (lift {S = S} o)
  unfolding lift
  Keeps-lift none (a, e) = cc
  Keeps-lift (some a) served = record { at = λ s h. ((a, s), refl, h) }

  -- A read of the state, and what the state guarantees of it.
  pub Keeps-ask :
      {A B : Type 0} (Q : A → Type 0) (f : S → A) (k : A → Exec S B)
      → ((s : S) → P s → Q (f s))
      → ((a : A) → Q a → Keeps P (k a))
      → Keeps P (gets f >>= k)
  unfolding ◌>>=◌ gets
  Keeps-ask Q f k known kk = record { at = λ s h. (kk (f s) (known s h)).at s h }

-- From every state that satisfies `P` the action returns, and `Q` holds of its answer and final state.
pub record Runs {S A : Type 0} (P : S → Type 0) (m : Exec S A) (Q : A → S → Type 0) : Type 0 where
  pub at : (s : S) → P s → (r : A × S) × (m s ≡ some r) × Q r.0 r.1

module _ {S A : Type 0} where
  pub Runs-bind :
      {B : Type 0} {P : S → Type 0} (Q : A → S → Type 0) {R : B → S → Type 0} (m : Exec S A)
      (f : A → Exec S B)
      → Runs P m Q
      → ((a : A) → Runs (Q a) (f a) R)
      → Runs P (m >>= f) R
  unfolding ◌>>=◌
  Runs-bind Q m f rm rf = record {
    at = λ s h.
        let (r, e, q) = rm.at s h in
        let (r', e', q') = (rf r.0).at r.1 q in (r', rw (e, ◌>>=◌) e', q');
  }

  pub Keeps-of_runs :
      {P : S → Type 0} {Q : A → S → Type 0} {m : Exec S A}
      → Runs P m Q
      → ((a : A) (s : S) → Q a s → P s)
      → Keeps P m
  Keeps-of_runs rm weaken = record {
    at = λ s h. let (r, e, q) = rm.at s h in (r, e, weaken r.0 r.1 q);
  }

  pub Runs-weaken :
      {P : S → Type 0} {Q R : A → S → Type 0} {m : Exec S A}
      → Runs P m Q
      → ((a : A) (s : S) → Q a s → R a s)
      → Runs P m R
  Runs-weaken rm weaken = record {
    at = λ s h. let (r, e, q) = rm.at s h in (r, e, weaken r.0 r.1 q);
  }

  pub Runs-pure :
      {P : S → Type 0} {Q : A → S → Type 0} (a : A)
      → ((s : S) → P s → Q a s)
      → Runs P (pure {S = S} a) Q
  unfolding pure
  Runs-pure a k = record { at = λ s h. ((a, s), refl, k s h) }

  pub Runs-of_keeps : {P : S → Type 0} {m : Exec S A} → Keeps P m → Runs P m (λ _. P)
  Runs-of_keeps km = record { at = km.at }

  -- A read of the state whose answer the rest uses together with that state.
  pub Runs-ask :
      {B : Type 0} {P : S → Type 0} {R : B → S → Type 0} (f : S → A) (k : A → Exec S B)
      → ((s : S) → P s → (r : B × S) × (k (f s) s ≡ some r) × R r.0 r.1)
      → Runs P (gets f >>= k) R
  unfolding ◌>>=◌ gets
  Runs-ask f k run = record { at = run }

  -- A read of the state whose answer is known.
  pub Runs-know :
      {B : Type 0} {P : S → Type 0} {R : B → S → Type 0} (a : A) (f : S → A) (k : A → Exec S B)
      → ((s : S) → P s → f s ≡ a)
      → Runs P (k a) R
      → Runs P (gets f >>= k) R
  unfolding ◌>>=◌ gets
  Runs-know a f k known rk = record {
    at = λ s h. let (r, e, q) = rk.at s h in (r, rw (known s h) e, q);
  }

  pub Runs-read :
      {B : Type 0} {P : S → Type 0} {R : B → S → Type 0} (o : Option A) (k : A → Exec S B)
      → (a : A) × (o ≡ some a)
      → ((a : A) → Runs P (k a) R)
      → Runs P (lift o >>= k) R
  unfolding ◌>>=◌ lift
  Runs-read none k (a, e) rk = cc
  Runs-read (some a) k served rk = rk a

module _ {S : Type 0} where
  pub Runs-then :
      {B : Type 0} {P : S → Type 0} (Q : S → Type 0) {R : B → S → Type 0} (m : Exec S (Unit {0}))
      (k : Exec S B)
      → Runs P m (λ _. Q)
      → Runs Q k R
      → Runs P (m >> k) R
  unfolding ◌>>◌
  Runs-then Q m k rm rk = Runs-bind (λ _. Q) m (λ _. k) rm (λ _. rk)

  pub Runs-if :
      {A : Type 0} {P : S → Type 0} {Q : A → S → Type 0} (test : Bool) (held missed : Exec S A)
      → (test ≡ true → Runs P held Q)
      → (test ≡ false → Runs P missed Q)
      → Runs P (if test then held else missed) Q
  Runs-if {P = P} {Q = Q} = if_branches (λ m. Runs P m Q)

module _ {S : Type 0} {P : S → Type 0} where
  -- An action and what is done with its answer: `P` holds in between.
  pub Keeps-bind :
      {A B : Type 0} (first : Exec S A) (k : A → Exec S B)
      → Keeps P first
      → ((a : A) → Keeps P (k a))
      → Keeps P (first >>= k)
  Keeps-bind first k kept rest =
      Keeps-of_runs (Runs-bind (λ _. P) first k (Runs-of_keeps kept) (λ a. Runs-of_keeps (rest a)))
        (λ a s h. h)

  pub Keeps-then :
      {B : Type 0} (first : Exec S (Unit {0})) (k : Exec S B)
      → Keeps P first
      → Keeps P k
      → Keeps P (first >> k)
  unfolding ◌>>◌
  Keeps-then first k kept rest = Keeps-bind first (λ _. k) kept (λ _. rest)

pub ruleset keeps_rules =
    (Keeps-pure, Keeps-skip, Keeps-gets, Keeps-if, Keeps-when, Keeps-bind, Keeps-then)
