-- ===== src/Library/Getting.antt =====
-- GET from the client to the server and back: `memuncached_get` of libmemuncached.c and of connection.c.
use memuncached.Commands.Replies.{bucket_text}
use memuncached.Double.{Double}
use memuncached.HashTable.Invariant.{Matches, CellIsValid}
use memuncached.HashTable.{Value, null, gone, decimal, real, string, CacheValue}
use memuncached.Libc.Decimal.{IsInt64, atoll-print}
use memuncached.Libc.{atoll, print_decimal}
use memuncached.Library.Answers.{body_string-GotReply, body_bytes-GotReply, receive_ok-GotReply}
use memuncached.Dispatch.Lines.{IsText}
use memuncached.Library.Receiving.{GotReply, IsClient}
use memuncached.Library.Reply.{Reply, IsReply, reply_text, print_decimal-IsText}
use memuncached.Library.Requests.{as_decimal, as_real, as_string, ValueResult}
use memuncached.Library.Values.{copy_body, store_value, receive_value}
use memuncached.Library.{Client, Realloc, in_place}
use memuncached.Network.{sent}
use memuncached.Prelude.Int.{pos}
use memuncached.Prelude.{
  ℕ, ◌^◌, ◌<◌, ◌≡◌, refl, subst, sym, ap, ◌∙◌, Bool, true, false, List, [], ◌∷◌, ◌++◌, Option, none,
  some, arith, codes, crlf, length, append_assoc, append-nil, ◌==◌, if_true, if_false, ltb→lt,
}
use memuncached.Protocol.{response_404_not_found, response_write, value_write}
use memuncached.Run.{ok, bind_ok, Returns}

-- The replies of the server as replies that the client can read.
abbrev pub value_reply : ℕ → List ℕ → Reply
value_reply t payload = record {
  hundreds = 2;
  tens = 0;
  ones = 0;
  description = codes "OK";
  type = some t;
  body = payload;
}

abbrev pub not_found : Reply
not_found = record {
  hundreds = 4;
  tens = 0;
  ones = 4;
  description = codes "NOT FOUND";
  type = none;
  body = [];
}

pub value_write-text :
    (t : ℕ) (payload : List ℕ) → value_write t payload ≡ reply_text (value_reply t payload)
unfolding value_write
value_write-text t payload =
    rw
      (
        append_assoc (print_decimal (pos (length payload)))
            (b' ' ∷ (print_decimal (pos t) ++ 13 ∷ [])) (10 ∷ (payload ++ 0 ∷ crlf)),
        append_assoc (print_decimal (pos t)) (13 ∷ []) (10 ∷ (payload ++ 0 ∷ crlf)),
      )
      refl

pub not_found-text : response_write response_404_not_found [] ≡ reply_text not_found
unfolding response_write print_decimal memuncached.Libc.digits
not_found-text = refl

pub value_reply-IsReply :
    (t : ℕ) (payload : List ℕ)
    → t < 128
    → length (value_write t payload) < 2 ^ 30
    → IsReply (value_reply t payload)
value_reply-IsReply t payload small size = record {
  hundreds = omega arith;
  tens = omega arith;
  ones = omega arith;
  line = (refl, (refl, tt));
  text = (refl, (refl, tt));
  type = small;
  size = omega (arith, ap length (value_write-text t payload));
}

pub not_found-IsReply : IsReply not_found
unfolding print_decimal memuncached.Libc.digits
not_found-IsReply = record {
  hundreds = omega arith;
  tens = omega arith;
  ones = omega arith;
  line = (refl, (refl, (refl, (refl, (refl, (refl, (refl, (refl, (refl, tt)))))))));
  text = (refl, (refl, (refl, (refl, (refl, (refl, (refl, (refl, (refl, tt)))))))));
  type = omega arith;
  size = ltb→lt (length (reply_text not_found)) (2 ^ 30) refl;
}

module _ {R : Type 0} ⦃d : Double R⦄ where
  -- The value that the client makes of a cell's.
  abbrev pub received : Value R → ValueResult R → ValueResult R
  received (decimal z) result = record result { type = 0; value = as_decimal z }
  received (real x) result = record result { type = 1; value = as_real (d.parse (d.print x)) }
  received (string s) result = record result { type = 2; value = as_string s; size = length s }
  received v result = result

  -- A decimal is an `int64_t`, and a printed real number is a C string.
  abbrev pub IsPrintable : Value R → Type 0
  IsPrintable (decimal z) = IsInt64 z
  IsPrintable (real x) = IsText (d.print x)
  IsPrintable v = Unit

  abbrev pub payload_of : Value R → List ℕ
  payload_of (decimal z) = print_decimal z
  payload_of (real x) = d.print x
  payload_of (string s) = s
  payload_of v = []

  module _ (memory : ℕ → Bool) (all_memory : (n : ℕ) → memory n ≡ true) {out : List ℕ} (c : Client)
      (result : ValueResult R) where
    store_value-string :
        (s : List ℕ)
        → GotReply (value_reply 2 s) [] out c
        → store_value memory c result ≡ ok (true, received (string s) result)
    unfolding store_value copy_body
    store_value-string s got =
        let e = got.body.type in
        let first : (c.response.body_type == 0) ≡ false = ap (λ t. t == 0) e in
        let second : (c.response.body_type == 1) ≡ false = ap (λ t. t == 1) e in
        let third : (c.response.body_type == 2) ≡ true = ap (λ t. t == 2) e in
        if_false _ _ first
        ∙ if_false _ _ second
        ∙ if_true _ _ third
        ∙ bind_ok _ (if_true _ _ (all_memory c.response.body_size) ∙ body_bytes-GotReply c got)
        ∙ ap
            (λ t.
              ok (
                true,
                record result { type = t; value = as_string s; size = c.response.body_size },
              ))
            e
        ∙ ap (λ n. ok (true, record result { type = 2; value = as_string s; size = n }))
            got.body.size

    store_value-cell :
        (v : Value R) (type n : ℕ)
        → Matches type v n
        → IsPrintable v
        → GotReply (value_reply type (payload_of v)) [] out c
        → store_value memory c result ≡ ok (true, received v result)
    unfolding store_value
    store_value-cell null type n m p got = absurd m
    store_value-cell gone type n m p got = absurd m
    store_value-cell (decimal z) type n m p got =
        let e : c.response.body_type ≡ 0 = got.body.type ∙ m in
        let first : (c.response.body_type == 0) ≡ true = ap (λ t. t == 0) e in
        let value : atoll (print_decimal z) ≡ z =
          ap atoll (sym (append-nil (print_decimal z))) ∙ atoll-print z [] p tt in
        if_true _ _ first
        ∙ bind_ok _ (body_string-GotReply c got (print_decimal-IsText z))
        ∙ ap
            (λ t.
              ok (true, record result { type = t; value = as_decimal (atoll (print_decimal z)) }))
            e
        ∙ ap (λ y. ok (true, record result { type = 0; value = as_decimal y })) value
    store_value-cell (real x) type n m p got =
        let e : c.response.body_type ≡ 1 = got.body.type ∙ m in
        let first : (c.response.body_type == 0) ≡ false = ap (λ t. t == 0) e in
        let second : (c.response.body_type == 1) ≡ true = ap (λ t. t == 1) e in
        if_false _ _ first
        ∙ if_true _ _ second
        ∙ bind_ok _ (body_string-GotReply c got p)
        ∙ ap (λ t. ok (true, record result { type = t; value = as_real (d.parse (d.print x)) })) e
    store_value-cell (string s) type n m p got =
        store_value-string s (subst (λ t. GotReply (value_reply t s) [] out c) m.0 got)

  -- What a client's GET or DEL gives for a bucket.
  abbrev pub Outcome :
      Option (CacheValue R) → ValueResult R → Bool × Option (ValueResult R) × Client → Type 0
  Outcome none result p = (p.0 ≡ false) × (p.1 ≡ some result)
  Outcome (some cell) result p = (p.0 ≡ true) × (p.1 ≡ some (received cell.value result))

  abbrev pub CellIsPrintable : Option (CacheValue R) → Type 0
  CellIsPrintable none = Unit
  CellIsPrintable (some cell) = IsPrintable cell.value

  pub cell_text :
      (v : Value R) (type n : ℕ) (k : List ℕ)
      → Matches type v n
      → bucket_text (some (record { key = k; type = type; value = v; length = n }))
        ≡ value_write type (payload_of v)
  cell_text null type n k m = absurd m
  cell_text gone type n k m = absurd m
  cell_text (decimal z) type n k m = ap (λ t. value_write t (print_decimal z)) (sym m)
  cell_text (real x) type n k m = ap (λ t. value_write t (d.print x)) (sym m)
  cell_text (string s) type n k m = ap (λ t. value_write t s) (sym m.0)

  pub type_small : (v : Value R) (type n : ℕ) → Matches type v n → type < 128
  type_small null type n m = absurd m
  type_small gone type n m = absurd m
  type_small (decimal z) type n m = omega (arith, m)
  type_small (real x) type n m = omega (arith, m)
  type_small (string s) type n m = omega (arith, m.0)

  module _ (memory : ℕ → Bool) (all_memory : (n : ℕ) → memory n ≡ true) (realloc : ℕ → Realloc)
      (in_place_memory : (n : ℕ) → realloc n ≡ in_place) where
    pub receive_value-Outcome :
        (b : Option (CacheValue R)) (fuel : ℕ) (c : Client) (result : ValueResult R)
        → CellIsValid b
        → CellIsPrintable b
        → IsClient c
        → sent c.input ≡ bucket_text b
        → length (bucket_text b) < 2 ^ 30
        → length (bucket_text b) < fuel
        → Returns
            (receive_value memory fuel realloc c (some result))
            λ p. Outcome b result p × (p.2.out ≡ c.out)
    unfolding receive_value
    receive_value-Outcome none fuel c result valid p good e size lt =
        let (r, run, (ok', got)) =
          receive_ok-GotReply not_found not_found-IsReply realloc in_place_memory fuel c good
            (e ∙ not_found-text) (omega (arith, ap length not_found-text)) in
        ((false, some result, r.1), bind_ok _ run ∙ if_false _ _ ok', ((refl, refl), got.written))
    receive_value-Outcome (some cell) fuel c result valid p good e size lt =
        let text = cell_text cell.value cell.type cell.length cell.key valid in
        let t = text ∙ value_write-text cell.type (payload_of cell.value) in
        let is_reply =
          value_reply-IsReply cell.type (payload_of cell.value)
            (type_small cell.value cell.type cell.length valid) (omega (arith, ap length text)) in
        let (r, run, (ok', got)) =
          receive_ok-GotReply (value_reply cell.type (payload_of cell.value)) is_reply realloc
            in_place_memory fuel c good (e ∙ t) (omega (arith, ap length t)) in
        (
          (true, some (received cell.value result), r.1),
          bind_ok _ run
              ∙ if_true _ _ ok'
              ∙ bind_ok _ (
                  store_value-cell memory all_memory r.1 result cell.value cell.type cell.length
                    valid p got),
          ((refl, refl), got.written),
        )
