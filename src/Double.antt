-- ===== src/Double.antt =====
-- `double` and what the C library does with it: the type and its operations are an argument of the
-- model, and the few facts of IEEE 754 that a theorem needs are a record of hypotheses.
use memuncached.Prelude.{ℕ, ◌+◌, ◌^◌, ◌≤◌, ◌≡◌, List}
use memuncached.Prelude.Int.{ℤ, pos_part, neg_part, ◌+ℤ◌, ◌-ℤ◌}

pub record Double (R : Type 0) : Type 0 where
  -- the conversions from and to `int64_t`
  pub of_int : ℤ → R
  pub to_int : R → ℤ
  pub add : R → R → R
  pub sub : R → R → R
  -- `printf` with "%lf", and `atof`
  pub print : R → List ℕ
  pub parse : List ℕ → R

-- The integers that a double holds exactly.
abbrev pub IsExact : ℤ → Type 0
IsExact z = pos_part z + neg_part z ≤ 2 ^ 53

-- Between such integers no operation rounds.
pub record RoundsNot {R : Type 0} (d : Double R) : Type 0 where
  pub to_int-of_int : (z : ℤ) → IsExact z → d.to_int (d.of_int z) ≡ z
  pub add-of_int :
      (a b : ℤ)
      → IsExact a
      → IsExact b
      → IsExact (a +ℤ b)
      → d.add (d.of_int a) (d.of_int b) ≡ d.of_int (a +ℤ b)
  pub sub-of_int :
      (a b : ℤ)
      → IsExact a
      → IsExact b
      → IsExact (a -ℤ b)
      → d.sub (d.of_int a) (d.of_int b) ≡ d.of_int (a -ℤ b)
