-- ===== src/Monitor/Ewma.antt =====
-- agent/src/pt_thmon.c: the control charts. Arithmetic on `float` is an interface, of which nothing is assumed.
use packter.Base.{ℕ, Text, Bool, true, not, if◌then◌else◌}
use packter.Base.Int.{ℤ}

-- `float`: conversions, arithmetic, comparison, printing with a number of decimals, atof, and
-- `(unsigned long)(int)`, which makes a huge number of a negative one.
pub record Floats : Type 1 where
  pub F : Type 0
  pub of_int : ℤ → F
  pub fraction : ℕ → ℕ → F
  pub add : F → F → F
  pub sub : F → F → F
  pub mul : F → F → F
  pub div : F → F → F
  pub sqrt : F → F
  pub is_less : F → F → Bool
  pub show : ℕ → F → Text
  pub parse : Text → F
  pub truncate : F → ℕ

-- struct ewma
pub record Ewma (fl : Floats) : Type 0 where
  pub mean : fl.F
  pub var : fl.F
  pub ready : Bool

module _ (fl : Floats) where
  unfoldable pub zero_f : fl.F
  zero_f = fl.fraction 0 1

  -- PT_RATIO_FLOOR
  unfoldable pub ratio_floor : fl.F
  ratio_floor = fl.fraction 2 100

  -- a * 100
  unfoldable pub percent : fl.F → fl.F
  percent a = fl.mul a (fl.fraction 100 1)

  unfoldable pub ew_sd : Ewma fl → fl.F
  unfolding zero_f
  ew_sd e = fl.sqrt (if fl.is_less zero_f e.var then e.var else zero_f)

  -- The deviation, or the floor where it is smaller.
  unfoldable pub floored : Ewma fl → fl.F → fl.F
  unfolding ew_sd
  floored e floor = if fl.is_less (ew_sd e) floor then floor else ew_sd e

  unfoldable pub ew_limit : Ewma fl → fl.F → fl.F → fl.F
  unfolding floored
  ew_limit e k floor = fl.add e.mean (fl.mul k (floored e floor))

  unfoldable pub ew_z : Ewma fl → fl.F → fl.F → fl.F
  unfolding floored
  ew_z e x floor = fl.div (fl.sub x e.mean) (floored e floor)

  unfoldable pub ew_update : Ewma fl → fl.F → fl.F → Ewma fl
  unfolding zero_f
  ew_update e x lambda =
      let dev = fl.sub x e.mean in
      if not e.ready then record { mean = x; var = zero_f; ready = true } else record {
        mean = fl.add e.mean (fl.mul lambda dev);
        var =
            fl.mul (fl.sub (fl.fraction 1 1) lambda)
              (fl.add e.var (fl.mul (fl.mul lambda dev) dev));
        ready = e.ready;
      }
