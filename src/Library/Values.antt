-- ===== src/Library/Values.antt =====
-- libmemuncached.c: `memuncached_get`, `memuncached_del`, `__memuncached_set`, `__memuncached_add` and
-- `memuncached_value_result_clean`. `memory` tells for which sizes `calloc` finds memory.
use memuncached.Double.{Double}
use memuncached.Libc.{atoll, print_decimal}
use memuncached.Library.{Client, Realloc}
use memuncached.Prelude.Int.{ℤ, pos, negsuc}
use memuncached.Prelude.{
  ℕ, Bool, true, false, not, List, ◌∷◌, ◌++◌, Option, none, some, codes, crlf, length, take, ltb,
  ◌==◌, if◌then◌else◌,
}
use memuncached.Run.{Run, ok, fault, out_of_bounds, wrong_type, null_pointer, released, ◌>>=◌}
use memuncached.Library.Requests.{
  ResultValue, nothing, as_decimal, as_real, as_string, freed, ValueResult, send, receive_ok,
  body_string, body_bytes,
}

-- `calloc` and `memcpy` for a string's bytes.
unfoldable pub copy_body : (ℕ → Bool) → Client → Run (List ℕ)
copy_body memory c = if memory c.response.body_size then body_bytes c else fault null_pointer

module _ {R : Type 0} ⦃d : Double R⦄ where
  -- What `memuncached_get` and `memuncached_del` store in the result. The array of a string is as
  -- long as the string, with no zero behind it.
  unfoldable pub store_value : (ℕ → Bool) → Client → ValueResult R → Run (Bool × ValueResult R)
  store_value memory c result =
      let type = c.response.body_type in
      let r : ValueResult R = record result { type = type } in
      if type == 0
      then body_string c >>= (λ s. ok (true, record r { value = as_decimal (atoll s) }))
      else if type == 1
      then body_string c >>= (λ s. ok (true, record r { value = as_real (d.parse s) }))
      else if type == 2
      then copy_body memory c
        >>= (λ s. ok (true, record r { value = as_string s; size = c.response.body_size }))
      else ok (false, r)

  -- The part behind the request; a result that is NULL stays so.
  unfoldable pub receive_value :
      (ℕ → Bool)
      → ℕ
      → (ℕ → Realloc)
      → Client
      → Option (ValueResult R)
      → Run (Bool × Option (ValueResult R) × Client)
  receive_value memory fuel realloc c result = do
    (is_success, c') ← receive_ok fuel realloc c
    elim result [
      | none ↦ ok (is_success, none, c')
      | some r ↦
          if is_success
          then store_value memory c' r >>= (λ p. ok (p.0, some p.1, c'))
          else ok (false, some r, c')
    ]

  unfoldable pub client_del :
      (ℕ → Bool)
      → ℕ
      → (ℕ → Realloc)
      → Client
      → List ℕ
      → Option (ValueResult R)
      → Run (Bool × Option (ValueResult R) × Client)
  client_del memory fuel realloc c key result =
      receive_value memory fuel realloc (send c (codes "DEL " ++ (key ++ crlf))) result

  unfoldable pub client_get :
      (ℕ → Bool)
      → ℕ
      → (ℕ → Realloc)
      → Client
      → List ℕ
      → Option (ValueResult R)
      → Run (Bool × Option (ValueResult R) × Client)
  client_get memory fuel realloc c key result =
      receive_value memory fuel realloc (send c (codes "GET " ++ (key ++ crlf))) result

  -- `*data` as the type says: a number, or `length` bytes. A negative length is a huge `size_t`.
  unfoldable pub payload_text : ℕ → ResultValue R → ℤ → Run (List ℕ)
  payload_text type (as_decimal z) length' =
      if type == 0 then ok (print_decimal z) else fault wrong_type
  payload_text type (as_real x) length' = if type == 1 then ok (d.print x) else fault wrong_type
  payload_text type (as_string s) (pos n) =
      if type == 2
      then (if ltb (length s) n then fault out_of_bounds else ok (take n s))
      else fault wrong_type
  payload_text type (as_string s) (negsuc n) = fault out_of_bounds
  payload_text type nothing length' = fault null_pointer
  payload_text type freed length' = fault released

  -- `__memuncached_set` and `__memuncached_add`, which differ in the first word.
  unfoldable pub client_store :
      List ℕ → ℕ → (ℕ → Realloc) → Client → List ℕ → ℕ → ResultValue R → ℤ → Run (Bool × Client)
  client_store command fuel realloc c key type value length' =
      if ltb 2 type then ok (false, c) else (do
        text ← payload_text type value length'
        let line =
            command
            ++ (key
                ++ (b' ' ∷ (print_decimal (pos type) ++ (b' ' ∷ (print_decimal length' ++ crlf)))))
        receive_ok fuel realloc (send c (line ++ (text ++ crlf))))

  unfoldable pub client_set :
      ℕ → (ℕ → Realloc) → Client → List ℕ → ℕ → ResultValue R → ℤ → Run (Bool × Client)
  client_set fuel realloc c key type value length' =
      client_store (codes "SET ") fuel realloc c key type value length'

  unfoldable pub client_add :
      ℕ → (ℕ → Realloc) → Client → List ℕ → ℕ → ResultValue R → ℤ → Run (Bool × Client)
  client_add fuel realloc c key type value length' =
      client_store (codes "ADD ") fuel realloc c key type value length'

  -- `result` is a NULL pointer for `none`; a string's is NULL for `nothing`.
  unfoldable pub value_result_clean : Option (ValueResult R) → Run (Bool × Option (ValueResult R))
  value_result_clean none = ok (false, none)
  value_result_clean (some r) = if not (r.type == 2) then ok (false, some r) else elim r.value [
    | nothing ↦ ok (false, some r)
    | as_decimal z ↦ fault wrong_type
    | as_real x ↦ fault wrong_type
    | as_string s ↦ ok (true, some (record r { value = freed }))
    | freed ↦ fault released
  ]
