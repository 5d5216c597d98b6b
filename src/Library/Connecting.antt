-- ===== src/Library/Connecting.antt =====
-- libmemuncached.c: `memuncached_connect` and `memuncached_disconnect`.
use memuncached.Connection.{Cell, byte, garbage}
use memuncached.Library.Receiving.{IsClient}
use memuncached.Library.Requests.{send, receive_ok}
use memuncached.Library.{Client, Realloc, no_response}
use memuncached.Memory.{put, put-set, write, write-append}
use memuncached.Network.{Event, piece, Received, failed, bytes, recv, rest_of, sent}
use memuncached.Payload.Receive.{sent-rest_of}
use memuncached.Prelude.{
  ℕ, ◌-◌, ◌<◌, ◌≤◌, ◌≡◌, refl, sym, ap, ◌∙◌, Bool, true, false, ◌&&◌, List, [], ◌∷◌, ◌++◌, map,
  Option, none, some, codes, arith, length, length-map, length-append, length-replicate,
  length-take, take, drop, replicate, take-append-drop, ltb, ◌==◌, if◌then◌else◌, if_true, if_false,
}
use memuncached.Run.{Run, ok, bind_ok, Returns, ◌>>=◌}

-- The results of the calls that set the client up: the two allocations, `socket`, `inet_addr` and
-- `connect`.
pub record Steps : Type 0 where
  pub client : Bool
  pub buffer : Bool
  pub socket : Bool
  pub inet_addr : Bool
  pub connect : Bool

-- `body_type` is not set here, but `memuncached_recv` sets it before it is read.
unfoldable pub new_client : List Event → Client
new_client input = record {
  buffer = replicate 10 (byte 0);
  buffer_size = 10;
  response = no_response;
  input = input;
  out = [];
}

-- `buffer[size - 2] = 0`, in an array of a hundred bytes that nothing has been stored in.
unfoldable pub end_greeting : List ℕ → Run (List Cell)
end_greeting bs = do
  buffer ← write (replicate 100 garbage) 0 (map byte bs)
  put buffer (length bs - 2) (byte 0)

-- What follows `connect`: the greeting is read by one `recv`.
unfoldable pub read_greeting : Received → List Event → Run (Option Client)
read_greeting failed input = ok none
read_greeting (bytes bs) input =
    if ltb (length bs) 2 then ok none else end_greeting bs >>= λ _. ok (some (new_client input))

unfoldable pub client_connect : Steps → List Event → Run (Option Client)
client_connect steps input =
    if steps.client && (steps.buffer && (steps.socket && (steps.inet_addr && steps.connect)))
    then (let (received, rest) = recv 100 input in read_greeting received rest)
    else ok none

-- `left` is the sum of what `shutdown` and `close` return, as 0 or not. The client is released.
unfoldable pub client_disconnect : ℕ → (ℕ → Realloc) → Client → ℕ → Run Bool
client_disconnect fuel realloc c result = do
  (is_success, _) ← receive_ok fuel realloc (send c (codes "BYE\r\n"))
  ok ((result == 0) && is_success)

stored_greeting :
    (bs : List ℕ) (pad : List Cell)
    → length bs ≤ length pad
    → write pad 0 (map byte bs) ≡ ok (map byte bs ++ drop (length bs) pad)
stored_greeting bs pad le =
    ap (λ c. write c 0 (map byte bs)) (sym (take-append-drop (length bs) pad))
    ∙ write-append (map byte bs) [] (take (length bs) pad) (drop (length bs) pad) 0 refl
        (omega (arith, length-take (length bs) pad, length-map bs byte))

end_greeting-ok :
    (bs : List ℕ) → 2 ≤ length bs → length bs ≤ 100 → Returns (end_greeting bs) λ b. Unit {0}
unfolding end_greeting
end_greeting-ok bs lo hi =
    let pad = replicate 100 garbage in
    let stored = stored_greeting bs pad (omega (arith, length-replicate 100 garbage)) in
    let inside : length bs - 2 < length (map byte bs ++ drop (length bs) pad) =
      omega (arith, length-append (map byte bs) (drop (length bs) pad), length-map bs byte) in
    (
      _,
      bind_ok _ stored
          ∙ put-set (map byte bs ++ drop (length bs) pad) (length bs - 2) (byte 0) inside,
      tt,
    )

-- When the allocations, socket, inet_addr and connect succeed and the first piece of the greeting
-- has two bytes or more, memuncached_connect gives a client whose buffer has its size and room, and
-- what is left to read is that piece behind its first hundred bytes and all that follows.
pub connect-greeting :
    (steps : Steps) (x y : ℕ) (greeting : List ℕ) (events : List Event)
    → steps.client ≡ true
    → steps.buffer ≡ true
    → steps.socket ≡ true
    → steps.inet_addr ≡ true
    → steps.connect ≡ true
    → Returns (client_connect steps (piece x (y ∷ greeting) ∷ events)) λ o.
      (c : Client) × (o ≡ some c) × IsClient c × (sent c.input ≡ drop 98 greeting ++ sent events)
unfolding client_connect read_greeting recv new_client
connect-greeting steps x y greeting events ec eb es ei en =
    let bs = x ∷ y ∷ take 98 greeting in
    let long : ltb (length bs) 2 ≡ false = ground arith in
    let (b, run, _) = end_greeting-ok bs (omega arith) (omega (arith, length-take 98 greeting)) in
    let all : (steps.client
          && (steps.buffer && (steps.socket && (steps.inet_addr && steps.connect))))
        ≡ true =
      rw (ec, eb, es, ei, en) refl in
    (
      some (new_client (rest_of (drop 98 greeting) events)),
      if_true _ _ all ∙ if_false _ _ long ∙ bind_ok _ run,
      (
        new_client (rest_of (drop 98 greeting) events),
        refl,
        record { size = refl; some_room = omega arith },
        sent-rest_of (drop 98 greeting) events,
      ),
    )
