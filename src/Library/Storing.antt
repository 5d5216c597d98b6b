-- ===== src/Library/Storing.antt =====
-- A SET of a string by the client, and the handler of the server that it comes to.
use memuncached.Commands.Set.{Delivers, set-Stored, payload_bytes}
use memuncached.Commands.Store.{kept}
use memuncached.Commands.{World}
use memuncached.Dispatch.Branches.{spaced, line, set-line}
use memuncached.Dispatch.Lines.{IsArgument}
use memuncached.Dispatch.Words.{IsWord}
use memuncached.Dispatch.{is_delimiter, handle_command}
use memuncached.Double.{Double}
use memuncached.HashTable.Invariant.{IsValid}
use memuncached.HashTable.Write.{Replaced}
use memuncached.HashTable.{string}
use memuncached.Libc.Decimal.{digits-cons}
use memuncached.Libc.{atoi, print_decimal, same_case, tolower, digits}
use memuncached.Library.Answers.{receive_ok-GotReply}
use memuncached.Library.Labels.{ok_reply, ok_reply-text, ok_reply-IsReply}
use memuncached.Library.Receiving.{IsClient}
use memuncached.Library.Reply.{atoi-print}
use memuncached.Library.Requests.{as_string, send}
use memuncached.Library.Values.{client_set, client_store, payload_text}
use memuncached.Library.{Client, Realloc, in_place}
use memuncached.Network.{sent}
use memuncached.Payload.{first}
use memuncached.Prelude.Int.{pos}
use memuncached.Prelude.{
  ℕ, ◌+◌, ◌^◌, ◌<◌, ◌≡◌, refl, sym, ap, subst, ◌∙◌, true, false, not, ◌||◌, List, [], ◌∷◌, ◌++◌,
  arith, codes, crlf, length, length-append, take, take_all, drop_all, some, ◌-◌, drop, ltb, ◌==◌,
  append_assoc, append-nil, if_false,
}
use memuncached.Protocol.{response_200_ok, response_write}
use memuncached.Run.{ok, bind_ok, Returns}
use memuncached.Utils.Numeral.{Digits, unsigned, is_decimal_string_iff}
use memuncached.Utils.Escape.{AllAscii}
use memuncached.Utils.{is_decimal_string, isdigit, is_sign, decimal_from}

Digits-IsWord : (s : List ℕ) → Digits s → IsWord s
unfolding isdigit is_delimiter
Digits-IsWord [] h = tt
Digits-IsWord (c ∷ s) h = (let d = h.0 in ground arith, Digits-IsWord s h.1)

Digits-AllAscii : (s : List ℕ) → Digits s → AllAscii s
unfolding isdigit
Digits-AllAscii [] h = tt
Digits-AllAscii (c ∷ s) h = (let d = h.0 in ground arith, Digits-AllAscii s h.1)

number-IsArgument : (n : ℕ) → IsArgument (print_decimal (pos n))
unfolding print_decimal
number-IsArgument n =
    let (c, s, e, dc, ds) = digits-cons n n in
    let ascii = Digits-AllAscii (c ∷ s) (dc, ds) in
    subst IsArgument (sym e) (Digits-IsWord (c ∷ s) (dc, ds), ascii)

number_good :
    (n : ℕ)
    → ((first (print_decimal (pos n)) == b'-') || not (is_decimal_string (print_decimal (pos n))))
      ≡ false
unfolding print_decimal isdigit
number_good n =
    let (c, s, e, dc, ds) = digits-cons n n in
    let numeral : is_decimal_string (c ∷ s) ≡ true =
      (is_decimal_string_iff (c ∷ s)).1 (unsigned dc ds) in
    let plain : (c == b'-') ≡ false = ground (arith, dc) in
    let good : ((c == b'-') || not (is_decimal_string (c ∷ s))) ≡ false =
      rw (plain, numeral) refl in
    subst (λ l. ((first l == b'-') || not (is_decimal_string l)) ≡ false) (sym e) good

-- The words of the line for a string.
abbrev pub set_words : List ℕ → List ℕ → List (List ℕ)
set_words key s = key ∷ codes "2" ∷ print_decimal (pos (length s)) ∷ []

module _ {R : Type 0} ⦃d : Double R⦄ where
  string_stored :
      (fuel : ℕ) (w : World R) (key s rest : List ℕ)
      → IsValid w.table
      → IsArgument key
      → length s + 2 < 2 ^ 31
      → sent w.input ≡ s ++ crlf
      → length s + 2 < fuel
      → Returns (handle_command fuel w (line (codes "SET") (set_words key s) rest) 0) λ w'.
        Replaced w.table key
          (some (record { key = key; type = 2; value = string s; length = length s }))
          w'.table
        × (w'.out ≡ w.out ++ response_write response_200_ok [])
        × (sent w'.input ≡ [])
  unfolding is_delimiter is_decimal_string is_sign decimal_from isdigit same_case tolower
  string_stored fuel w key s rest v hk small come more =
      let n = length s in
      let delivers : Delivers fuel (print_decimal (pos n)) (0 ∷ rest) 0 n w.input = record {
        announced = unfold atoi in atoi-print n (omega (arith, small));
        in_range = small;
        no_more = omega arith;
        there = omega arith;
        comes = omega (arith, ap length come, length-append s crlf);
        rounds = omega (arith, more);
      } in
      let (w', run, (p, o, l)) =
        set-Stored fuel w key (codes "2") (print_decimal (pos n)) (0 ∷ rest) 0 n delivers v in
      let k = n + 2 - 0 in
      let all : sent w.input ≡ (s ++ crlf) ++ [] = come ∙ sym (append-nil (s ++ crlf)) in
      let width : k ≡ length (s ++ crlf) = omega (arith, length-append s crlf) in
      let whole : take k (sent w.input) ≡ s ++ crlf =
        ap (λ l. take k l) all ∙ take_all (s ++ crlf) [] k width in
      let body : take n (payload_bytes (0 ∷ rest) 0 k w.input) ≡ s =
        ap (λ l. take n l) whole ∙ take_all s crlf n refl in
      let left : drop k (sent w.input) ≡ [] =
        ap (λ l. drop k l) all ∙ drop_all (s ++ crlf) [] k width in
      (
        w',
        set-line fuel w (codes "SET") key rest 0
              ((refl, (refl, (refl, tt))), (omega arith, (omega arith, (omega arith, tt)))) hk
              (codes "2") (print_decimal (pos n)) refl ((refl, tt), (omega arith, tt))
              (number-IsArgument n) refl (number_good n)
            ∙ run,
        (subst (λ b. Replaced w.table key (kept key 2 b) w'.table) body p, o, l ∙ left),
      )

two : print_decimal (pos 2) ≡ codes "2"
unfolding print_decimal digits
two = refl

request_line :
    (key s : List ℕ)
    → codes "SET "
        ++ (key
            ++ (b' '
                ∷ (print_decimal (pos 2) ++ (b' ' ∷ (print_decimal (pos (length s)) ++ crlf)))))
      ≡ spaced (codes "SET") (set_words key s) ++ crlf
request_line key s =
    let n = print_decimal (pos (length s)) in
    ap (λ t. codes "SET " ++ (key ++ (b' ' ∷ (t ++ (b' ' ∷ (n ++ crlf)))))) two
    ∙ ap (λ l. codes "SET " ++ l) (sym (append_assoc key (b' ' ∷ (codes "2" ++ (b' ' ∷ n))) crlf))

module _ (R : Type 0) ⦃d : Double R⦄ (realloc : ℕ → Realloc)
    (memory : (n : ℕ) → realloc n ≡ in_place) where
  string_sent :
      (fuel : ℕ) (c : Client) (key s : List ℕ)
      → IsClient c
      → sent c.input ≡ response_write response_200_ok []
      → length (sent c.input) < fuel
      → Returns (client_set {R = R} fuel realloc c key 2 (as_string s) (pos (length s))) λ p.
        (p.0 ≡ true)
        × (p.1.out ≡ c.out ++ ((spaced (codes "SET") (set_words key s) ++ crlf) ++ (s ++ crlf)))
  unfolding client_set client_store payload_text send
  string_sent fuel c key s good e lt =
      let n = length s in
      let long : ltb n n ≡ false = ground arith in
      let short : length (response_write response_200_ok []) < 2 ^ 30 =
        unfold response_write print_decimal digits in omega arith in
      let whole : take n s ≡ s = ap (λ l. take n l) (sym (append-nil s)) ∙ take_all s [] n refl in
      let text =
        (codes "SET "
          ++ (key ++ (b' ' ∷ (print_decimal (pos 2) ++ (b' ' ∷ (print_decimal (pos n) ++ crlf))))))
        ++ (s ++ crlf) in
      let ready : IsClient (send c text) = record {
        size = good.size;
        some_room = good.some_room;
      } in
      let (x, run, (is_200, got)) =
        receive_ok-GotReply (ok_reply []) (ok_reply-IsReply [] short) realloc memory fuel
          (send c text) ready (e ∙ ok_reply-text [])
          (omega (arith, ap length e, ap length (ok_reply-text []), lt)) in
      (
        x,
        bind_ok _ (if_false _ _ long ∙ ap ok whole) ∙ run,
        (is_200, got.written ∙ ap (λ l. c.out ++ (l ++ (s ++ crlf))) (request_line key s)),
      )

  pub set_exchange :
      (fuel : ℕ) (w : World R) (c : Client) (key s rest : List ℕ)
      → IsValid w.table
      → IsArgument key
      → length s + 2 < 2 ^ 31
      → sent w.input ≡ s ++ crlf
      → length s + 2 < fuel
      → IsClient c
      → sent c.input ≡ response_write response_200_ok []
      → length (sent c.input) < fuel
      → Returns (handle_command fuel w (line (codes "SET") (set_words key s) rest) 0) (λ w'.
        Replaced w.table key
          (some (record { key = key; type = 2; value = string s; length = length s }))
          w'.table
        × (w'.out ≡ w.out ++ sent c.input)
        × (sent w'.input ≡ []))
        × Returns (client_set {R = R} fuel realloc c key 2 (as_string s) (pos (length s))) λ p.
          (p.0 ≡ true)
          × (p.1.out ≡ c.out ++ ((spaced (codes "SET") (set_words key s) ++ crlf) ++ sent w.input))
  set_exchange fuel w c key s rest v hk small come more good answer lt =
      let (w', run, (p, o, l)) = string_stored fuel w key s rest v hk small come more in
      let (x, sent_run, (t, out)) = string_sent fuel c key s good answer lt in
      let front = spaced (codes "SET") (set_words key s) ++ crlf in
      (
        (w', run, (p, o ∙ ap (λ l. w.out ++ l) (sym answer), l)),
        (x, sent_run, (t, out ∙ ap (λ l. c.out ++ (front ++ l)) (sym come))),
      )
