-- ===== src/Doubles.antt =====
-- Floating-point numbers are not modelled: `double`, its operations and the functions of <cmath>
-- and libosmium that the tile computations call are parameters.
use cerepso.Base.{ℕ, Bool}
use cerepso.Base.Int.{ℤ}

pub record Doubles : Type 1 where
  pub Double : Type 0
  pub add : Double → Double → Double
  pub sub : Double → Double → Double
  pub mul : Double → Double → Double
  pub div : Double → Double → Double
  pub lt : Double → Double → Bool
  pub le : Double → Double → Bool
  pub eq : Double → Double → Bool
  -- The conversion of an `int`, and `static_cast<int>`.
  pub of_int : ℤ → Double
  pub to_int : Double → ℤ
  -- `numeral m e` is m * 10 ^ -e.
  pub numeral : ℕ → ℕ → Double
  pub sin : Double → Double
  pub cos : Double → Double
  pub acos : Double → Double
  pub tan : Double → Double
  pub log : Double → Double
  pub abs : Double → Double
  pub pi : Double
  pub deg_to_rad : Double → Double
