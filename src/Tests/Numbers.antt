-- ===== src/Tests/Numbers.antt =====
-- A `double` that the tests can compute with: the integers, which it holds without rounding.
use memuncached.Double.{Double, RoundsNot}
use memuncached.Prelude.Int.{ℤ, pos, ◌+ℤ◌, ◌-ℤ◌}
use memuncached.Prelude.{[], refl}

instance abbrev pub whole_numbers : Double ℤ
whole_numbers = record {
  of_int = λ z. z;
  to_int = λ z. z;
  add = ◌+ℤ◌;
  sub = ◌-ℤ◌;
  print = λ z. [];
  parse = λ s. pos 0;
}

pub whole_numbers-RoundsNot : RoundsNot whole_numbers
whole_numbers-RoundsNot = record {
  to_int-of_int = λ z h. refl;
  add-of_int = λ a b ha hb hs. refl;
  sub-of_int = λ a b ha hb hs. refl;
}
