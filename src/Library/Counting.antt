-- ===== src/Library/Counting.antt =====
-- About `__memuncached_dec` in libmemuncached.c, whose reply `__memuncached_inc` reads the same way.
use memuncached.Commands.Replies.{bucket_text}
use memuncached.Double.{Double}
use memuncached.HashTable.Invariant.{Matches, CellIsValid}
use memuncached.HashTable.{Value, null, gone, decimal, real, string, CacheValue}
use memuncached.Libc.Decimal.{atoll-print}
use memuncached.Libc.{atoll, print_decimal}
use memuncached.Library.Answers.{body_string-GotReply, end_body-GotReply, receive_ok-GotReply}
use memuncached.Library.Getting.{
  value_reply, value_write-text, value_reply-IsReply, not_found, not_found-text, not_found-IsReply,
  received, payload_of, CellIsPrintable, IsPrintable, cell_text, type_small,
}
use memuncached.Library.Numbers.{
  no_result, int_of, int_request, store_number, receive_number, client_dec,
}
use memuncached.Library.Receiving.{GotReply, IsClient}
use memuncached.Library.Reply.{print_decimal-IsText}
use memuncached.Library.Requests.{
  ResultValue, nothing, as_decimal, as_real, ValueResult, Vararg, int_arg, send,
}
use memuncached.Library.{Client, Realloc, in_place}
use memuncached.Network.{sent}
use memuncached.Prelude.Int.{ℤ}
use memuncached.Prelude.{
  ℕ, ◌^◌, ◌<◌, ◌≡◌, refl, sym, ap, ◌∙◌, Bool, true, false, List, [], ◌∷◌, ◌++◌, append-nil, Option,
  none, some, arith, codes, length, ◌==◌, if_true, if_false,
}
use memuncached.Run.{Run, ok, bind_ok, Returns}

module _ {R : Type 0} ⦃d : Double R⦄ where
  -- What a client's INC or DEC gives for a value: a string is no number.
  abbrev pub number_of : Value R → Bool × ValueResult R
  number_of (string s) = (false, record { type = 2; value = nothing; size = 0 })
  number_of v = (true, received v no_result)

  -- The same for a bucket.
  abbrev pub counted : Option (CacheValue R) → Bool × ValueResult R
  counted none = (false, no_result)
  counted (some cell) = number_of cell.value

  abbrev typed : Client → ResultValue R → ℕ → Run (Bool × ValueResult R × Client)
  typed c value t = ok (true, record { type = t; value = value; size = 0 }, c)

  store_number-cell :
      (v : Value R) (type n : ℕ) (out : List ℕ) (c : Client)
      → Matches type v n
      → IsPrintable v
      → GotReply (value_reply type (payload_of v)) [] out c
      → store_number c ≡ ok ((number_of v).0, (number_of v).1, c)
  unfolding store_number
  store_number-cell null type n out c m p got = absurd m
  store_number-cell gone type n out c m p got = absurd m
  store_number-cell (decimal z) type n out c m p got =
      let e : c.response.body_type ≡ 0 = got.body.type ∙ m in
      let value : atoll (print_decimal z) ≡ z =
        ap atoll (sym (append-nil (print_decimal z))) ∙ atoll-print z [] p tt in
      bind_ok _ (end_body-GotReply c got)
      ∙ if_true _ _ (ap (λ t. t == 0) e)
      ∙ bind_ok _ (body_string-GotReply c got (print_decimal-IsText z))
      ∙ ap (typed c (as_decimal (atoll (print_decimal z)))) e
      ∙ ap (λ y. typed c (as_decimal y) 0) value
  store_number-cell (real x) type n out c m p got =
      let e : c.response.body_type ≡ 1 = got.body.type ∙ m in
      bind_ok _ (end_body-GotReply c got)
      ∙ if_false _ _ (ap (λ t. t == 0) e)
      ∙ if_true _ _ (ap (λ t. t == 1) e)
      ∙ bind_ok _ (body_string-GotReply c got p)
      ∙ ap (typed c (as_real (d.parse (d.print x)))) e
  store_number-cell (string s) type n out c m p got =
      let e : c.response.body_type ≡ 2 = got.body.type ∙ m.0 in
      bind_ok _ (end_body-GotReply c got)
      ∙ if_false _ _ (ap (λ t. t == 0) e)
      ∙ if_false _ _ (ap (λ t. t == 1) e)
      ∙ ap (λ t. ok (false, record { type = t; value = nothing; size = 0 }, c)) e

  module _ (realloc : ℕ → Realloc) (memory : (n : ℕ) → realloc n ≡ in_place) where
    receive_number-counted :
        (b : Option (CacheValue R)) (fuel : ℕ) (c : Client)
        → CellIsValid b
        → CellIsPrintable b
        → IsClient c
        → sent c.input ≡ bucket_text b
        → length (sent c.input) < 2 ^ 30
        → length (sent c.input) < fuel
        → Returns
            (receive_number fuel realloc c)
            λ p. (p.0 ≡ (counted b).0) × (p.1 ≡ (counted b).1) × (p.2.out ≡ c.out)
    unfolding receive_number
    receive_number-counted none fuel c m p good e size lt =
        let t = e ∙ not_found-text in
        let (r, run, (failed', got)) =
          receive_ok-GotReply not_found not_found-IsReply realloc memory fuel c good t
            (omega (arith, ap length t)) in
        ((false, no_result, r.1), bind_ok _ run ∙ if_false _ _ failed', (refl, refl, got.written))
    receive_number-counted (some cell) fuel c m p good e size lt =
        let payload = payload_of cell.value in
        let text = e ∙ cell_text cell.value cell.type cell.length cell.key m in
        let t = text ∙ value_write-text cell.type payload in
        let is_reply =
          value_reply-IsReply cell.type payload (type_small cell.value cell.type cell.length m)
            (omega (arith, ap length text)) in
        let (r, run, (succeeded, got)) =
          receive_ok-GotReply (value_reply cell.type payload) is_reply realloc memory fuel c good t
            (omega (arith, ap length t)) in
        (
          ((counted (some cell)).0, (counted (some cell)).1, r.1),
          bind_ok _ run
              ∙ if_true _ _ succeeded
              ∙ store_number-cell cell.value cell.type cell.length c.out r.1 m p got,
          (refl, refl, got.written),
        )

    pub client_dec-counted :
        (is_default : R → Bool) (b : Option (CacheValue R)) (fuel : ℕ) (c : Client) (key : List ℕ)
        (result : ValueResult R) (offset initial : ℤ) (args : List (Vararg R))
        → CellIsValid b
        → CellIsPrintable b
        → IsClient c
        → sent c.input ≡ bucket_text b
        → length (sent c.input) < 2 ^ 30
        → length (sent c.input) < fuel
        → Returns
            (client_dec is_default fuel realloc c key 0 result
              (int_arg offset ∷ int_arg initial ∷ args))
            λ p.
              (p.0 ≡ (counted b).0)
              × (p.1 ≡ (counted b).1)
              × (p.2.out ≡ c.out ++ int_request (codes "DEC ") key offset initial)
    unfolding client_dec int_of send
    client_dec-counted is_default b fuel c key result offset initial args m p good e size lt =
        receive_number-counted b fuel
          (record c { out = c.out ++ int_request (codes "DEC ") key offset initial }) m p
          (record { size = good.size; some_room = good.some_room }) e size lt
