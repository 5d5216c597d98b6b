-- ===== src/Tests/Clients.antt =====
-- The client library, alone and with the server.
use memuncached.Libc.{print_decimal, digits, atoi, clamp_pos, digits_value}
use memuncached.Library.Bounds.{memuncached_recv-buffer_size}
use memuncached.Library.Connecting.{new_client}
use memuncached.Library.Cut.{recv-cut}
use memuncached.Library.Moved.{recv-moved}
use memuncached.Library.Receiving.{IsClient, GotReply, memuncached_recv-GotReply}
use memuncached.Library.Reply.{Reply, IsReply, reply_text}
use memuncached.Library.{
  Client, Realloc, in_place, moved, memuncached_recv, recv_loop, handle_received, store_read, parse,
  status_line, header_line, count_payload, is_complete, grow, fresh_scan, no_response, take_status,
  take_type, take_header, find_line_end, find_header_end, value_of, number_at, end_line, to_size,
  to_char,
}
use memuncached.Memory.{put, at, write}
use memuncached.Network.{Event, piece, sent, recv, rest_of}
use memuncached.Payload.{c_string}
use memuncached.Prelude.{
  ℕ, ◌+◌, ◌*◌, ◌^◌, ◌<◌, ◌≤◌, ◌≡◌, refl, true, false, List, [], ◌∷◌, ◌++◌, some, arith, codes,
  length, ltb→lt,
}
use memuncached.Run.{ok, fault, released, Returns}

abbrev pub unmoved : ℕ → Realloc
unmoved n = in_place

abbrev always_moved : ℕ → Realloc
always_moved n = moved

-- The reply to a GET of five bytes, in pieces.
abbrev hello : Reply
hello = record {
  hundreds = 2;
  tens = 0;
  ones = 0;
  description = codes "OK";
  type = some 2;
  body = codes "hello";
}

hello-IsReply : IsReply hello
unfolding print_decimal digits
hello-IsReply = record {
  hundreds = omega arith;
  tens = omega arith;
  ones = omega arith;
  line = (refl, (refl, tt));
  text = (refl, (refl, tt));
  type = omega arith;
  size = ltb→lt (length (reply_text hello)) (2 ^ 30) refl;
}

abbrev in_pieces : List Event
in_pieces =
    piece b'2' (codes "00 O")
    ∷ piece b'K' (13 ∷ 10 ∷ codes "5 ")
    ∷ piece b'2' (13 ∷ 10 ∷ codes "hel")
    ∷ piece b'l' (b'o' ∷ 0 ∷ 13 ∷ 10 ∷ [])
    ∷ []

abbrev pub waiting : List Event → Client
waiting events = new_client events

pub waiting-IsClient : (events : List Event) → IsClient (waiting events)
unfolding new_client
waiting-IsClient events = record { size = refl; some_room = omega arith }

all_sent : sent (waiting in_pieces).input ≡ reply_text hello ++ []
unfolding new_client print_decimal digits
all_sent = refl

enough : length (reply_text hello ++ []) < 40
unfolding print_decimal digits
enough = ltb→lt (length (reply_text hello ++ [])) 40 refl

memuncached_recv-GotReply_example :
    Returns
      (memuncached_recv 40 unmoved (waiting in_pieces))
      λ p. (p.0 ≡ true) × GotReply hello [] [] p.1
unfolding new_client
memuncached_recv-GotReply_example =
    memuncached_recv-GotReply hello hello-IsReply [] [] unmoved (λ n. refl) 40 (waiting in_pieces)
      (waiting-IsClient in_pieces) refl all_sent enough

-- The peer leaves behind the first byte of the body.
abbrev cut_off : List Event
cut_off = piece b'2' (codes "00 OK\r\n5 2\r\nh") ∷ []

missing : sent (waiting cut_off).input ++ (codes "ello" ++ 0 ∷ 13 ∷ 10 ∷ []) ≡ reply_text hello
unfolding new_client print_decimal digits
missing = refl

recv-cut_example : Returns (memuncached_recv 40 unmoved (waiting cut_off)) λ p. p.0 ≡ false
unfolding new_client
recv-cut_example =
    recv-cut hello hello-IsReply [] (codes "ello" ++ 0 ∷ 13 ∷ 10 ∷ []) (omega arith) unmoved
      (λ n. refl) 40 (waiting cut_off) (waiting-IsClient cut_off) refl missing (omega arith)

-- The whole reply is there at once, but the buffer is too short for it.
abbrev at_once : List Event
at_once = piece b'2' (codes "00 OK\r\n5 2\r\nhello" ++ 0 ∷ 13 ∷ 10 ∷ []) ∷ []

whole_reply : sent (waiting at_once).input ≡ reply_text hello ++ []
unfolding new_client print_decimal digits
whole_reply = refl

recv-moved_example : memuncached_recv 40 always_moved (waiting at_once) ≡ fault released
unfolding new_client print_decimal digits
recv-moved_example =
    recv-moved hello hello-IsReply [] [] always_moved 38 (waiting at_once) b'2'
      (codes "00 OK\r\n5 2\r\nhello" ++ 0 ∷ 13 ∷ 10 ∷ []) [] (waiting-IsClient at_once) refl refl
      whole_reply (omega arith) (omega arith) refl

-- What the call leaves of the client.
abbrev served : Client
served = elim (memuncached_recv 40 unmoved (waiting in_pieces)) [
  | ok p ↦ p.1
  | fault f ↦ waiting in_pieces
]

served_run : memuncached_recv 40 unmoved (waiting in_pieces) ≡ ok (true, served)
unfolding memuncached_recv recv_loop handle_received store_read parse status_line header_line
    count_payload is_complete grow fresh_scan no_response take_status take_type take_header
    find_line_end find_header_end value_of number_at end_line to_size to_char new_client recv
    rest_of put at write c_string atoi clamp_pos digits_value
served_run = refl

memuncached_recv-buffer_size_example :
    served.buffer_size
    ≤ (waiting in_pieces).buffer_size + 2 * length (sent (waiting in_pieces).input)
memuncached_recv-buffer_size_example =
    memuncached_recv-buffer_size unmoved 40 (waiting in_pieces) served true served_run
