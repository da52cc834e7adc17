-- ===== src/Framegen/Floats.antt =====
-- Binary floating point, which the planners only carry and compare: the operations that the code
-- applies, as a parameter of the modules that need them.
use gamescope.Common.{Bool, ltb, ℕ, ◌*◌, ◌+◌, ◌/◌}

pub record Floats : Type 1 where
  pub Double : Type 0
  pub Float : Type 0
  pub double_of : ℕ → Double
  pub div_double : Double → Double → Double
  pub add_double : Double → Double → Double
  pub narrow : Double → Float
  pub float_of : ℕ → Float
  pub mul : Float → Float → Float
  pub div : Float → Float → Float
  pub less : Float → Float → Bool
  pub neutral_strength : Float

-- A value to run the planners with: numbers in thousandths, rounded down.
abbrev pub thousandths : Floats
thousandths = record {
  Double = ℕ;
  Float = ℕ;
  double_of = λ n. n * 1000;
  div_double = λ a b. a * 1000 / b;
  add_double = λ a b. a + b;
  narrow = λ a. a;
  float_of = λ n. n * 1000;
  mul = λ a b. a * b / 1000;
  div = λ a b. a * 1000 / b;
  less = λ a b. ltb a b;
  neutral_strength = 500;
}
