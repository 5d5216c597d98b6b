-- ===== src/Library/Statistics.antt =====
-- STT from the client to the server and back: `memuncached_stt` of libmemuncached.c and of connection.c.
use memuncached.Library.Labels.{
  NoK, NoK-append, labelled_number-text, ok_reply, ok_reply-IsReply, ok_reply-text, print-NoK,
  sstrstr_from-NoK,
}
use memuncached.Commands.{World, memuncached_stt}
use memuncached.Dispatch.Lines.{IsText, IsText-append}
use memuncached.Libc.Decimal.{IsInt64, NoDigit, atoll-print}
use memuncached.Libc.{to_int32, atoi, print_decimal}
use memuncached.Library.Answers.{receive_ok-GotReply}
use memuncached.Library.Receiving.{GotReply, IsClient}
use memuncached.Library.Reply.{print_decimal-IsText}
use memuncached.Library.Requests.{send, labelled_number, client_stt}
use memuncached.Library.{Client, Realloc, in_place}
use memuncached.Network.{sent}
use memuncached.Prelude.Int.{ℤ, pos, negsuc}
use memuncached.Prelude.{
  ℕ, ◌^◌, ◌<◌, ◌≡◌, refl, sym, ap, ◌∙◌, true, false, List, [], ◌∷◌, ◌++◌, some, arith, codes,
  length, length-append, append_assoc, append-nil, drop, ltb, if_true, if_false,
}
use memuncached.Protocol.{response_200_ok, response_write}
use memuncached.Run.{ok, bind_ok, Returns}
use memuncached.Utils.{isdigit, starts_with, sstrstr, sstrstr_from}

to_int32-IsInt64 : (z : ℤ) → IsInt64 (to_int32 z)
unfolding to_int32
to_int32-IsInt64 (pos n) = ground arith
to_int32-IsInt64 (negsuc n) = ground arith

to_int32_twice : (z : ℤ) → to_int32 (to_int32 z) ≡ to_int32 z
unfolding to_int32
to_int32_twice (pos n) = ground arith
to_int32_twice (negsuc n) = ground arith

-- `atoi` of a printed `int` that a line feed or the end follows.
atoi-printed :
    (n : ℕ) (rest : List ℕ)
    → NoDigit rest
    → atoi (print_decimal (to_int32 (pos n)) ++ rest) ≡ to_int32 (pos n)
unfolding atoi
atoi-printed n rest h =
    ap to_int32 (atoll-print (to_int32 (pos n)) rest (to_int32-IsInt64 (pos n)) h)
    ∙ to_int32_twice (pos n)

abbrev stt_text : ℕ → ℕ → List ℕ
stt_text clients keys =
    codes "Client-Count: "
    ++ (print_decimal (to_int32 (pos clients))
        ++ (codes "\nKey-Count: " ++ print_decimal (to_int32 (pos keys))))

key_label-IsText : IsText (codes "\nKey-Count: ")
key_label-IsText = (
  refl,
  (refl, (refl, (refl, (refl, (refl, (refl, (refl, (refl, (refl, (refl, (refl, tt))))))))))),
)

module _ {more out : List ℕ} (clients keys : ℕ) (c : Client)
    (got : GotReply (ok_reply (stt_text clients keys)) more out c) where
  client_count : labelled_number c (codes "Client-Count: ") ≡ ok (to_int32 (pos clients))
  unfolding sstrstr sstrstr_from starts_with isdigit
  client_count =
      let rest = codes "\nKey-Count: " ++ print_decimal (to_int32 (pos keys)) in
      let text = print_decimal (to_int32 (pos clients)) ++ rest in
      let long : ltb (length (stt_text clients keys)) 14 ≡ false = ground arith in
      let written : IsText text =
        IsText-append (print_decimal (to_int32 (pos clients))) rest (print_decimal-IsText _) (
          IsText-append (codes "\nKey-Count: ") (print_decimal (to_int32 (pos keys)))
            key_label-IsText (print_decimal-IsText _)) in
      labelled_number-text c got (codes "Client-Count: ") (codes "Client-Count: ") text 0
        (if_false _ _ long) refl refl written
      ∙ ap ok (atoi-printed clients rest refl)

  key_count : labelled_number c (codes "Key-Count: ") ≡ ok (to_int32 (pos keys))
  unfolding sstrstr starts_with
  key_count =
      let a = print_decimal (to_int32 (pos clients)) in
      let text = print_decimal (to_int32 (pos keys)) in
      let front = codes "Client-Count: " ++ (a ++ 10 ∷ []) in
      let label = codes "ey-Count: " in
      let no_k : NoK front = (
        refl,
        (
          refl,
          (
            refl,
            (
              refl,
              (
                refl,
                (
                  refl,
                  (
                    refl,
                    (
                      refl,
                      (
                        refl,
                        (
                          refl,
                          (
                            refl,
                            (refl, (refl, (refl, NoK-append a (10 ∷ []) (print-NoK _) (refl, tt)))),
                          ),
                        ),
                      ),
                    ),
                  ),
                ),
              ),
            ),
          ),
        ),
      ) in
      let parts : stt_text clients keys ≡ front ++ b'K' ∷ (label ++ text) =
        ap (λ l. codes "Client-Count: " ++ l)
          (sym (append_assoc a (10 ∷ []) (b'K' ∷ (label ++ text)))) in
      let place : sstrstr (stt_text clients keys) (codes "Key-Count: ") ≡ some (length front) =
        ap (λ s. sstrstr s (codes "Key-Count: ")) parts
        ∙ sstrstr_from-NoK 0 front (label ++ text) label no_k refl
            (omega (arith, length-append label text))
        ∙ ap some (omega arith) in
      let split : stt_text clients keys ≡ (front ++ codes "Key-Count: ") ++ text =
        parts ∙ sym (append_assoc front (codes "Key-Count: ") text) in
      labelled_number-text c got (codes "Key-Count: ") (front ++ codes "Key-Count: ") text
        (length front) place split (omega (arith, length-append front (codes "Key-Count: ")))
        (print_decimal-IsText _)
      ∙ ap ok (ap atoi (sym (append-nil text)) ∙ atoi-printed keys [] tt)

-- What stands behind a first part.
append_cancel : (s a b : List ℕ) → s ++ a ≡ s ++ b → a ≡ b
append_cancel [] a b e = e
append_cancel (x ∷ s) a b e = append_cancel s a b (ap (drop 1) e)

module _ {R : Type 0} (realloc : ℕ → Realloc) (memory : (n : ℕ) → realloc n ≡ in_place) where
  -- When realloc always grows the buffer in place, the client has room for a byte, the bytes that
  -- come to it are those that memuncached_stt of the server writes and fewer than 2^30, and the loop
  -- has more rounds than bytes come: memuncached_stt of the client sends STT, returns true, and its
  -- result has the counts of the clients and of the keys as 32-bit integers.
  pub stt_exchange :
      (fuel : ℕ) (w : World R) (c : Client)
      → IsClient c
      → (memuncached_stt w).out ≡ w.out ++ sent c.input
      → length (sent c.input) < 2 ^ 30
      → length (sent c.input) < fuel
      → Returns (client_stt fuel realloc c) λ p.
        (p.0 ≡ true)
        × (p.1.client_count ≡ to_int32 (pos w.clients.count))
        × (p.1.key_count ≡ to_int32 (pos w.table.count))
        × (p.2.out ≡ c.out ++ codes "STT\r\n")
  unfolding client_stt memuncached_stt send
  stt_exchange fuel w c good wrote size lt =
      let text = stt_text w.clients.count w.table.count in
      let answer : sent c.input ≡ response_write response_200_ok text =
        append_cancel w.out (sent c.input) (response_write response_200_ok text) (sym wrote) in
      let long = ap length answer in
      let all = ok_reply-text text in
      let c' : Client = record c { out = c.out ++ codes "STT\r\n" } in
      let (r, run, (yes', got)) =
        receive_ok-GotReply (ok_reply text) (ok_reply-IsReply text (omega (arith, long))) realloc
          memory fuel c' (record { size = good.size; some_room = good.some_room }) (answer ∙ all)
          (omega (arith, long, ap length all)) in
      (
        (
          true,
          record {
            client_count = to_int32 (pos w.clients.count);
            key_count = to_int32 (pos w.table.count);
          },
          r.1,
        ),
        bind_ok _ run
            ∙ if_true _ _ yes'
            ∙ bind_ok _ (client_count w.clients.count w.table.count r.1 got)
            ∙ bind_ok _ (key_count w.clients.count w.table.count r.1 got),
        (refl, refl, refl, got.written),
      )
