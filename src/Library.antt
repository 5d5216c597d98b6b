-- ===== src/Library.antt =====
-- libmemuncached.c: `memuncached_recv`, the client's parser of replies. A pointer into the buffer is an
-- index of it; after a `realloc` that moved the buffer, `line_start` is an index of the released one.
-- What is logged is left out.
pub mod Lines
pub mod Status
pub mod Widths
pub mod Labels
pub mod Dangling
pub mod Counting
pub mod Statistics
pub mod Connecting
pub mod Cut
pub mod Moved
pub mod Exchange
pub mod Getting
pub mod Answers
pub mod Requests
pub mod Numbers
pub mod Values
pub mod Calls
pub mod Storing
pub mod Bounds
pub mod Ensures
pub mod Receiving
pub mod Parsing
pub mod Stages
pub mod Cuts
pub mod Reply
use memuncached.Connection.{Cell, byte, garbage, readable}
use memuncached.Libc.{atoi}
use memuncached.Memory.{at, put, write}
use memuncached.Network.{Event, Received, failed, bytes, recv}
use memuncached.Payload.{c_string}
use memuncached.Prelude.Int.{ℤ, pos, negsuc}
use memuncached.Prelude.{
  ℕ, zero, suc, ◌+◌, ◌-◌, ◌*◌, ◌%◌, ◌^◌, Bool, true, false, ◌&&◌, List, [], ◌∷◌, ◌++◌, map, Option,
  none, some, drop, length, replicate, ltb, leb, ◌==◌, if◌then◌else◌,
}
use memuncached.Run.{
  Run, ok, fault, out_of_bounds, released, uninitialised, signed_overflow, out_of_fuel, ◌>>=◌,
}

-- `client->response`. A `char` is its byte.
pub record Response : Type 0 where
  pub code : ℤ
  pub description : Option ℕ
  pub body_size : ℕ
  pub body : Option ℕ
  pub body_type : ℕ

-- `memuncached_client_t`, with the bytes that will come from the server and those sent to it.
pub record Client : Type 0 where
  pub buffer : List Cell
  pub buffer_size : ℕ
  pub response : Response
  pub input : List Event
  pub out : List ℕ

-- What a call of `realloc` does.
pub data Realloc : Type 0 where
  no_memory : Realloc
  in_place : Realloc
  moved : Realloc

-- The locals of `memuncached_recv`; `stale` is whether `line_start` points into released memory.
pub record Scan : Type 0 where
  pub client : Client
  pub read_size : ℕ
  pub total_size : ℕ
  pub payload_read_size : ℕ
  pub line_number : ℕ
  pub line_start : ℕ
  pub stale : Bool

unfoldable pub no_response : Response
no_response = record { code = pos 0; description = none; body_size = 0; body = none; body_type = 0 }

-- A byte of the buffer that the code compares.
unfoldable pub value_of : Cell → Run ℕ
value_of (byte c) = ok c
value_of garbage = fault uninitialised

-- The number at a place of the buffer.
unfoldable pub number_at : List Cell → ℕ → Run ℤ
number_at buffer i = c_string (readable (drop i buffer)) >>= λ s. ok (atoi s)

-- `*(itr - 1) = 0`
unfoldable pub end_line : List Cell → ℕ → Run (List Cell)
end_line buffer zero = fault out_of_bounds
end_line buffer (suc i) = put buffer i (byte 0)

-- An `int` as a `size_t`, and as a `char`.
unfoldable pub to_size : ℤ → ℕ
to_size (pos n) = n
to_size (negsuc n) = 2 ^ 64 - 1 - n

unfoldable pub to_char : ℤ → ℕ
to_char (pos n) = n % 256
to_char (negsuc n) = 255 - n % 256

-- The search of the first loop, `n` bytes from `itr` on.
unfoldable pub find_line_end : ℕ → List Cell → ℕ → Run (Option ℕ)
find_line_end zero buffer itr = ok none
find_line_end (suc n) buffer itr = do
  cell ← at buffer itr
  c ← value_of cell
  if c == 10 then ok (some itr) else find_line_end n buffer (itr + 1)

-- The search of the second loop, which also remembers the last space.
unfoldable pub find_header_end : ℕ → List Cell → ℕ → Option ℕ → Run (Option (ℕ × Option ℕ))
find_header_end zero buffer itr whitespace = ok none
find_header_end (suc n) buffer itr whitespace = do
  cell ← at buffer itr
  c ← value_of cell
  if c == 10
      then ok (some (itr, whitespace))
      else find_header_end n buffer (itr + 1) (if c == b' ' then some itr else whitespace)

-- The body of the first loop at the line end.
unfoldable pub take_status : Scan → ℕ → Run Scan
take_status s itr = do
  ended ← end_line s.client.buffer itr
  cut ← put ended (s.line_start + 3) (byte 0)
  code ← number_at cut s.line_start
  let r = record s.client.response { code = code; description = some (s.line_start + 4) }
  ok (record s {
    client = record s.client { buffer = cut; response = r };
    line_number = s.line_number + 1;
    line_start = itr + 1;
  })

-- `if (whitespace != NULL)`
unfoldable pub take_type : List Cell → Option ℕ → ℕ → Run (List Cell × ℕ)
take_type buffer none body_type = ok (buffer, body_type)
take_type buffer (some whitespace) body_type = do
  cut ← put buffer whitespace (byte 0)
  number ← number_at cut (whitespace + 1)
  ok (cut, to_char number)

-- The body of the second loop at the line end.
unfoldable pub take_header : Scan → ℕ → Option ℕ → Run Scan
take_header s itr whitespace = do
  ended ← end_line s.client.buffer itr
  (cut, body_type) ← take_type ended whitespace s.client.response.body_type
  number ← number_at cut s.line_start
  let r = record s.client.response {
    body_size = to_size number;
    body = some (itr + 1);
    body_type = body_type;
  }
  ok (record s {
    client = record s.client { buffer = cut; response = r };
    line_number = s.line_number + 1;
    line_start = itr + 1;
    read_size = s.total_size - (itr + 1);
  })

unfoldable pub status_line : Scan → Run Scan
status_line s =
    if s.line_number == 0
    then (if s.stale then fault released else (do
      found ← find_line_end (s.total_size - s.line_start) s.client.buffer s.line_start
      elim found [ none ↦ ok s | some itr ↦ take_status s itr ]))
    else ok s

unfoldable pub header_line : Scan → Run Scan
header_line s =
    if s.line_number == 1
    then (if s.stale then fault released else (do
      found ← find_header_end (s.total_size - s.line_start) s.client.buffer s.line_start none
      elim found [ none ↦ ok s | some (itr, whitespace) ↦ take_header s itr whitespace ]))
    else ok s

-- `payload_read_size += read_size`
unfoldable pub count_payload : Scan → Scan
count_payload s =
    if s.line_number == 2
    then record s { payload_read_size = s.payload_read_size + s.read_size }
    else s

-- The break: an `int` is compared with a `size_t`.
unfoldable pub is_complete : Scan → Bool
is_complete s =
    (s.line_number == 2) && leb ((s.client.response.body_size + 3) % 2 ^ 64) s.payload_read_size

-- The growth at the end of the loop's body. The pointers of the response are moved with the buffer;
-- NULL stays NULL here, since the code does not look at what it becomes.
unfoldable pub grow : (ℕ → Realloc) → Scan → Run (Bool × Scan)
grow realloc s =
    if ltb s.client.buffer_size (s.total_size + 1)
    then (let size = s.client.buffer_size * 2 in
        if ltb size (2 ^ 31)
        then (let c = record s.client { buffer_size = size } in
            let wider = record c {
              buffer = s.client.buffer ++ replicate (size - length s.client.buffer) garbage;
            } in
            elim (realloc size) [
              | no_memory ↦ ok (false, record s { client = c })
              | in_place ↦ ok (true, record s { client = wider })
              | moved ↦ ok (true, record s { client = wider; stale = true })
            ])
        else fault signed_overflow)
    else ok (true, s)

-- Where the bytes that were read are stored, and how they are counted.
unfoldable pub store_read : Scan → List ℕ → Run Scan
store_read s bs = do
  cells ← write s.client.buffer s.total_size (map byte bs)
  ok (record s {
    client = record s.client { buffer = cells };
    read_size = length bs;
    total_size = s.total_size + length bs;
  })

unfoldable pub parse : Scan → Run Scan
parse s = do
  after_status ← status_line s
  after_header ← header_line after_status
  ok (count_payload after_header)

-- The body of the loop once `recv` has returned; `next` is the next round.
unfoldable pub handle_received :
    (Scan → Run (Bool × Client)) → (ℕ → Realloc) → Scan → Received → Run (Bool × Client)
handle_received next realloc s failed = ok (false, s.client)
handle_received next realloc s (bytes bs) = if length bs == 0 then ok (false, s.client) else (do
  stored ← store_read s bs
  parsed ← parse stored
  if is_complete parsed then ok (true, parsed.client) else (do
    (grown, wide) ← grow realloc parsed
    elim grown [ true ↦ next wide | false ↦ ok (false, wide.client) ]))

unfoldable pub recv_loop : ℕ → (ℕ → Realloc) → Scan → Run (Bool × Client)
recv_loop zero realloc s = fault out_of_fuel
recv_loop (suc fuel) realloc s =
    let (received, events) = recv (s.client.buffer_size - s.total_size) s.client.input in
    let s' = record s { client = record s.client { input = events } } in
    handle_received (λ t. recv_loop fuel realloc t) realloc s' received

unfoldable pub fresh_scan : Client → Scan
fresh_scan c = record {
  client = record c { response = no_response };
  read_size = 0;
  total_size = 0;
  payload_read_size = 0;
  line_number = 0;
  line_start = 0;
  stale = false;
}

unfoldable pub memuncached_recv : ℕ → (ℕ → Realloc) → Client → Run (Bool × Client)
memuncached_recv fuel realloc c = recv_loop fuel realloc (fresh_scan c)
