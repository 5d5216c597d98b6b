-- ===== src/Library/Numbers.antt =====
-- libmemuncached.c: `__memuncached_inc` and `__memuncached_dec`.
use memuncached.Double.{Double}
use memuncached.Libc.{atoll, print_decimal}
use memuncached.Library.{Client, Realloc}
use memuncached.Prelude.Int.{ℤ, pos, negsuc}
use memuncached.Prelude.{
  ℕ, ◌-◌, ◌^◌, Bool, true, false, List, [], ◌∷◌, ◌++◌, codes, crlf, ◌==◌, if◌then◌else◌,
}
use memuncached.Run.{Run, ok, fault, out_of_bounds, wrong_type, ◌>>=◌}
use memuncached.Library.Requests.{
  nothing, as_decimal, as_real, ValueResult, Vararg, int_arg, double_arg, send, receive_ok,
  body_string, end_body,
}

-- The numbers behind the key. The default of an `int` is INT_MIN.
unfoldable pub is_default_int : ℤ → Bool
is_default_int (pos n) = false
is_default_int (negsuc n) = n == 2 ^ 31 - 1

unfoldable pub int_request : List ℕ → List ℕ → ℤ → ℤ → List ℕ
int_request command key offset initial =
    if is_default_int offset
    then command ++ (key ++ crlf)
    else if is_default_int initial
    then command ++ (key ++ (b' ' ∷ (print_decimal offset ++ crlf)))
    else command
      ++ (key ++ (b' ' ∷ (print_decimal offset ++ (b' ' ∷ (print_decimal initial ++ crlf)))))

module _ {R : Type 0} ⦃d : Double R⦄ where
  -- `va_arg(opt_args, int)` and `va_arg(opt_args, double)`
  unfoldable pub int_of : List (Vararg R) → Run (ℤ × List (Vararg R))
  int_of [] = fault out_of_bounds
  int_of (int_arg z ∷ args) = ok (z, args)
  int_of (double_arg x ∷ args) = fault wrong_type

  unfoldable pub double_of : List (Vararg R) → Run (R × List (Vararg R))
  double_of [] = fault out_of_bounds
  double_of (int_arg z ∷ args) = fault wrong_type
  double_of (double_arg x ∷ args) = ok (x, args)

  -- `is_default` is the comparison with DBL_MIN.
  unfoldable pub double_request : (R → Bool) → List ℕ → List ℕ → R → R → List ℕ
  double_request is_default command key offset initial =
      if is_default offset
      then command ++ (key ++ crlf)
      else if is_default initial
      then command ++ (key ++ (b' ' ∷ (d.print offset ++ crlf)))
      else command ++ (key ++ (b' ' ∷ (d.print offset ++ (b' ' ∷ (d.print initial ++ crlf)))))

  abbrev pub no_result : ValueResult R
  no_result = record { type = 0; value = nothing; size = 0 }

  -- What is stored in the result when the call was a success.
  unfoldable pub store_number : Client → Run (Bool × ValueResult R × Client)
  store_number c = do
    ended ← end_body c
    let type = ended.response.body_type
    let result : ValueResult R = record { type = type; value = nothing; size = 0 }
    if type == 0
        then body_string ended
          >>= (λ s. ok (true, record result { value = as_decimal (atoll s) }, ended))
        else if type == 1
        then body_string ended
          >>= (λ s. ok (true, record result { value = as_real (d.parse s) }, ended))
        else ok (false, result, ended)

  -- What `__memuncached_inc` and `__memuncached_dec` do with the reply. A result that is NULL would
  -- already be the end of the `memset`.
  unfoldable pub receive_number : ℕ → (ℕ → Realloc) → Client → Run (Bool × ValueResult R × Client)
  receive_number fuel realloc c = do
    (is_success, c') ← receive_ok fuel realloc c
    if is_success then store_number c' else ok (false, no_result, c')

  -- The tests of `type` store 0 and 1 in it: the first fails and the second holds.
  unfoldable pub client_inc :
      (R → Bool)
      → ℕ
      → (ℕ → Realloc)
      → Client
      → List ℕ
      → ℕ
      → List (Vararg R)
      → Run (Bool × ValueResult R × Client)
  client_inc is_default fuel realloc c key type args = do
    (offset, args') ← double_of args
    (initial, _) ← double_of args'
    receive_number fuel realloc
        (send c (double_request is_default (codes "INC ") key offset initial))

  -- For another type the result is left as it is.
  unfoldable pub client_dec :
      (R → Bool)
      → ℕ
      → (ℕ → Realloc)
      → Client
      → List ℕ
      → ℕ
      → ValueResult R
      → List (Vararg R)
      → Run (Bool × ValueResult R × Client)
  client_dec is_default fuel realloc c key type result args =
      if type == 0
      then (do
        (offset, args') ← int_of args
        (initial, _) ← int_of args'
        receive_number fuel realloc (send c (int_request (codes "DEC ") key offset initial)))
      else if type == 1
      then (do
        (offset, args') ← double_of args
        (initial, _) ← double_of args'
        receive_number fuel realloc
            (send c (double_request is_default (codes "DEC ") key offset initial)))
      else ok (false, result, c)
