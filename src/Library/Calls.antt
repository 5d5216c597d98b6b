-- ===== src/Library/Calls.antt =====
-- libmemuncached.h: the macros that call the functions for one type. The variable arguments of the
-- caller stand in front of two defaults.
use memuncached.Double.{Double}
use memuncached.Libc.{print_decimal}
use memuncached.Library.{Client, Realloc}
use memuncached.Library.Numbers.{client_inc, client_dec}
use memuncached.Library.Requests.{
  ValueResult, Vararg, int_arg, double_arg, as_decimal, as_real, as_string,
}
use memuncached.Library.Values.{client_set, client_add}
use memuncached.Prelude.Int.{ℤ, pos, negsuc}
use memuncached.Prelude.{ℕ, ◌-◌, ◌^◌, Bool, List, [], ◌∷◌, ◌++◌, length}
use memuncached.Run.{Run}

-- `INT_MIN`
abbrev pub default_int : ℤ
default_int = negsuc (2 ^ 31 - 1)

module _ {R : Type 0} ⦃d : Double R⦄ (is_default : R → Bool) (default_double : R) where
  unfoldable pub with_default_ints : List (Vararg R) → List (Vararg R)
  with_default_ints args = args ++ int_arg default_int ∷ int_arg default_int ∷ []

  unfoldable pub with_default_doubles : List (Vararg R) → List (Vararg R)
  with_default_doubles args = args ++ double_arg default_double ∷ double_arg default_double ∷ []

  unfoldable pub client_inc_d :
      ℕ → (ℕ → Realloc) → Client → List ℕ → List (Vararg R) → Run (Bool × ValueResult R × Client)
  client_inc_d fuel realloc c key args =
      client_inc is_default fuel realloc c key 0 (with_default_ints args)

  unfoldable pub client_inc_f :
      ℕ → (ℕ → Realloc) → Client → List ℕ → List (Vararg R) → Run (Bool × ValueResult R × Client)
  client_inc_f fuel realloc c key args =
      client_inc is_default fuel realloc c key 1 (with_default_doubles args)

  unfoldable pub client_dec_d :
      ℕ
      → (ℕ → Realloc)
      → Client
      → List ℕ
      → ValueResult R
      → List (Vararg R)
      → Run (Bool × ValueResult R × Client)
  client_dec_d fuel realloc c key result args =
      client_dec is_default fuel realloc c key 0 result (with_default_ints args)

  unfoldable pub client_dec_f :
      ℕ
      → (ℕ → Realloc)
      → Client
      → List ℕ
      → ValueResult R
      → List (Vararg R)
      → Run (Bool × ValueResult R × Client)
  client_dec_f fuel realloc c key result args =
      client_dec is_default fuel realloc c key 1 result (with_default_doubles args)

module _ {R : Type 0} ⦃d : Double R⦄ where
  -- The length is what `snprintf` counts.
  unfoldable pub client_set_f : ℕ → (ℕ → Realloc) → Client → List ℕ → R → Run (Bool × Client)
  client_set_f fuel realloc c key x =
      client_set fuel realloc c key 1 (as_real x) (pos (length (d.print x)))

  unfoldable pub client_add_f : ℕ → (ℕ → Realloc) → Client → List ℕ → R → Run (Bool × Client)
  client_add_f fuel realloc c key x =
      client_add fuel realloc c key 1 (as_real x) (pos (length (d.print x)))

-- The type of the real numbers is that of the functions called.
module _ (R : Type 0) ⦃d : Double R⦄ where
  -- The length is what `snprintf` counts.
  unfoldable pub client_set_d : ℕ → (ℕ → Realloc) → Client → List ℕ → ℤ → Run (Bool × Client)
  client_set_d fuel realloc c key z =
      client_set {R = R} fuel realloc c key 0 (as_decimal z) (pos (length (print_decimal z)))

  unfoldable pub client_set_s :
      ℕ → (ℕ → Realloc) → Client → List ℕ → List ℕ → ℤ → Run (Bool × Client)
  client_set_s fuel realloc c key s length' =
      client_set {R = R} fuel realloc c key 2 (as_string s) length'

  unfoldable pub client_add_d : ℕ → (ℕ → Realloc) → Client → List ℕ → ℤ → Run (Bool × Client)
  client_add_d fuel realloc c key z =
      client_add {R = R} fuel realloc c key 0 (as_decimal z) (pos (length (print_decimal z)))

  unfoldable pub client_add_s :
      ℕ → (ℕ → Realloc) → Client → List ℕ → List ℕ → ℤ → Run (Bool × Client)
  client_add_s fuel realloc c key s length' =
      client_add {R = R} fuel realloc c key 2 (as_string s) length'
