-- ===== src/Examples/Numbers.antt =====
-- Natural numbers in the place of floats, for runs.
use ashfall.Prelude.{ℕ, ◌+◌, ◌-◌, ◌*◌, ◌/◌, true, ltb, leb, max, min}
use ashfall.Float.{Float}

abbrev pub numbers : Float ℕ
numbers = record {
  zero = 0;
  one = 1;
  add = λ a b. a + b;
  sub = λ a b. a - b;
  mul = λ a b. a * b;
  sqrt = λ a. a;
  lt = ltb;
  le = leb;
  div = λ a b. a / b;
  max = λ a b. max a b;
  min = λ a b. min a b;
  of_nat = λ a. a;
  neg = λ a. 0;
  clamp = λ x low high. max low (min x high);
  literal = λ a b. a / b;
  as_secs = λ a. a / 1000000000;
  is_finite = λ a. true;
}
