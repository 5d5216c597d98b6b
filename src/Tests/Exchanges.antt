-- ===== src/Tests/Exchanges.antt =====
-- Calls of the client library that the server answers.
use memuncached.HashTable.{string}
use memuncached.HashTable.Write.{Replaced}
use memuncached.Dispatch.Branches.{spaced, line}
use memuncached.Library.Storing.{set_words, set_exchange}
use memuncached.Commands.Replies.{bucket_text}
use memuncached.Commands.{World, memuncached_stt}
use memuncached.Connection.{serve}
use memuncached.Dispatch.Lines.{IsArgument}
use memuncached.Dispatch.{is_delimiter, handle_command}
use memuncached.HashTable.Invariant.{bucket}
use memuncached.Libc.{to_int32, print_decimal, digits}
use memuncached.Library.Connecting.{Steps, new_client, client_connect, connect-greeting}
use memuncached.Library.Counting.{counted, client_dec-counted}
use memuncached.Library.Exchange.{get_exchange}
use memuncached.Library.Getting.{Outcome}
use memuncached.Library.Numbers.{int_request, no_result, client_dec}
use memuncached.Library.Receiving.{IsClient}
use memuncached.Library.Requests.{int_arg, client_stt, as_string}
use memuncached.Library.Statistics.{stt_exchange}
use memuncached.Library.Values.{client_get, client_set}
use memuncached.Library.{Client}
use memuncached.Network.{Event, piece, sent}
use memuncached.Prelude.Int.{ℤ, pos, negsuc}
use memuncached.Prelude.{
  ℕ, ◌-◌, ◌^◌, ◌≡◌, refl, Bool, true, false, List, [], ◌∷◌, ◌++◌, some, arith, codes, drop, length,
  crlf, ◌<◌,
}
use memuncached.Protocol.{response_write, value_write, response_200_ok}
use memuncached.Run.{Returns}
use memuncached.Tests.Clients.{unmoved, waiting, waiting-IsClient}
use memuncached.Tests.Handlers.{before, taken}
use memuncached.Tests.Numbers.{whole_numbers}
use memuncached.Tests.Table.{key, counting-IsValid, counting-key, cell_41, empty-IsValid}

abbrev always : ℕ → Bool
always n = true

-- The thread of a client that asks for a key of the table, in two pieces.
abbrev asked : World ℤ
asked = record taken { input = piece b'G' (codes "ET ") ∷ piece b'k' (13 ∷ 10 ∷ []) ∷ [] }

abbrev answer : List Event
answer = piece b'2' (codes "00 OK\r\n2 0") ∷ piece 13 (10 ∷ b'4' ∷ b'1' ∷ 0 ∷ 13 ∷ 10 ∷ []) ∷ []

answered : sent (waiting answer).input ≡ bucket_text (bucket asked.table key)
unfolding new_client value_write print_decimal digits
answered = rw counting-key refl

one_letter : IsArgument key
unfolding is_delimiter
one_letter = ((refl, tt), (omega arith, tt))

get_exchange_example :
    ((w' : World ℤ) × (serve 61 always asked ≡ serve 60 always w')
      × (w'.table ≡ asked.table)
      × (w'.out ≡ asked.out ++ sent (waiting answer).input))
    × Returns (client_get always 60 unmoved (waiting answer) key (some no_result)) λ p.
      Outcome (bucket asked.table key) no_result p
      × (p.2.out ≡ (waiting answer).out ++ sent asked.input)
unfolding new_client
get_exchange_example =
    get_exchange always always unmoved (λ n. refl) (λ n. refl) (λ n. refl) 60 asked (waiting answer)
      key no_result refl counting-IsValid one_letter (rw counting-key tt)
      (rw counting-key (omega arith, omega arith)) (waiting-IsClient answer) refl answered
      (omega arith) (omega arith) (omega arith)

client_dec-counted_example :
    Returns
      (client_dec
        (λ x. false)
        60
        unmoved
        (waiting answer)
        key
        0
        no_result
        (int_arg (pos 3) ∷ int_arg (negsuc (2 ^ 31 - 1)) ∷ []))
      λ p.
        (p.0 ≡ (counted (some cell_41)).0)
        × (p.1 ≡ (counted (some cell_41)).1)
        × (p.2.out
            ≡ (waiting answer).out ++ int_request (codes "DEC ") key (pos 3) (negsuc (2 ^ 31 - 1)))
unfolding new_client value_write print_decimal digits
client_dec-counted_example =
    client_dec-counted unmoved (λ n. refl) (λ x. false) (some cell_41) 60 (waiting answer) key
      no_result (pos 3) (negsuc (2 ^ 31 - 1)) [] refl (omega arith, omega arith)
      (waiting-IsClient answer) refl (omega arith) (omega arith)

abbrev counts : List Event
counts =
    piece b'2' (codes "00 OK\r\n28\r\nClient-Count: 0\n")
    ∷ piece b'K' (codes "ey-Count: 0" ++ 0 ∷ 13 ∷ 10 ∷ [])
    ∷ []

counted_both : (memuncached_stt before).out ≡ before.out ++ sent (waiting counts).input
unfolding new_client memuncached_stt response_write print_decimal digits to_int32
counted_both = refl

stt_exchange_example : Returns (client_stt 60 unmoved (waiting counts)) λ p.
    (p.0 ≡ true)
    × (p.1.client_count ≡ to_int32 (pos before.clients.count))
    × (p.1.key_count ≡ to_int32 (pos before.table.count))
    × (p.2.out ≡ (waiting counts).out ++ codes "STT\r\n")
unfolding new_client
stt_exchange_example =
    stt_exchange unmoved (λ n. refl) 60 before (waiting counts) (waiting-IsClient counts)
      counted_both (omega arith) (omega arith)

abbrev all_steps : Steps
all_steps = record { client = true; buffer = true; socket = true; inet_addr = true; connect = true }

connect-greeting_example :
    Returns (client_connect all_steps (piece b'M' (b'e' ∷ codes "muncached\n") ∷ [])) λ o.
      (c : Client) × (o ≡ some c)
      × IsClient c
      × (sent c.input ≡ drop 98 (codes "muncached\n") ++ [])
connect-greeting_example =
    connect-greeting all_steps b'M' b'e' (codes "muncached\n") [] refl refl refl refl refl

-- The thread that waits for the payload of a SET, and the client that waits for the answer.
abbrev paying : World ℤ
paying = record before { input = piece b'h' (codes "ell") ∷ piece b'o' (13 ∷ 10 ∷ []) ∷ [] }

abbrev accepted : List Event
accepted = piece b'2' (codes "00 OK\r\n0\r") ∷ piece 10 (0 ∷ 13 ∷ 10 ∷ []) ∷ []

accepted_text : sent (waiting accepted).input ≡ response_write response_200_ok []
unfolding new_client response_write print_decimal digits
accepted_text = refl

accepted_short : length (sent (waiting accepted).input) < 40
unfolding new_client
accepted_short = omega arith

set_exchange_example :
    Returns
      (handle_command 40 paying (line (codes "SET") (set_words key (codes "hello")) []) 0)
      (λ w'.
        Replaced paying.table key
          (some (record { key = key; type = 2; value = string (codes "hello"); length = 5 }))
          w'.table
        × (w'.out ≡ paying.out ++ sent (waiting accepted).input)
        × (sent w'.input ≡ []))
    × Returns
        (client_set {R = ℤ} 40 unmoved (waiting accepted) key 2 (as_string (codes "hello")) (pos 5))
        λ p.
          (p.0 ≡ true)
          × (p.1.out
              ≡ (waiting accepted).out
                ++ ((spaced (codes "SET") (set_words key (codes "hello")) ++ crlf)
                    ++ sent paying.input))
set_exchange_example =
    set_exchange ℤ unmoved (λ n. refl) 40 paying (waiting accepted) key (codes "hello") []
      empty-IsValid one_letter (omega arith) refl (omega arith) (waiting-IsClient accepted)
      accepted_text accepted_short
