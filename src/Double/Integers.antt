-- ===== src/Double/Integers.antt =====
-- Integers in place of doubles, for the tests: quotients are those of the positive parts.
use cryptobot.Common.{◌/◌, not}
use cryptobot.Common.Int.{ℤ, pos, pos_part, ◌+ℤ◌, ◌-ℤ◌, ◌*ℤ◌, ltb_ℤ}
use cryptobot.Double.{Double}

abbrev pub integers : Double
integers = record {
  D = ℤ;
  of_ℕ = pos;
  of_ℤ = λ a. a;
  half = pos 1;
  add = ◌+ℤ◌;
  sub = ◌-ℤ◌;
  mul = ◌*ℤ◌;
  div = λ a b. pos (pos_part a / pos_part b);
  geb = λ a b. not (ltb_ℤ a b);
}
