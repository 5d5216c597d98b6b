-- ===== src/Library/Bounds.antt =====
-- The memory that `memuncached_recv` asks for, whatever comes and whatever `realloc` does.
use memuncached.Library.{
  Client, Realloc, Scan, take_status, take_type, take_header, end_line, number_at, find_line_end,
  find_header_end, status_line, header_line, count_payload, is_complete, grow, store_read, parse,
  handle_received, recv_loop, fresh_scan, memuncached_recv,
}
use memuncached.Library.Ensures.{
  Ensures, ensures_ok, ensures_bind, ensures_if, ensures_option, ensures_realloc, ensures_bool,
  faulted,
}
use memuncached.Memory.{put, write}
use memuncached.Connection.{byte}
use memuncached.Network.{Event, piece, broken, Received, failed, bytes, rest_of, recv, sent}
use memuncached.Prelude.{
  ℕ, zero, suc, ◌+◌, ◌-◌, ◌*◌, ◌^◌, ◌≤◌, ◌≡◌, refl, ap, ◌∙◌, Bool, true, false, List, [], ◌∷◌,
  Option, none, arith, length, length-append, take, drop, take-append-drop, ltb, ltb→lt, ◌==◌,
  if◌then◌else◌, map,
}
use memuncached.Run.{Run, ok, released, signed_overflow, out_of_fuel}

-- What the parsing does not change.
record Same (s t : Scan) : Type 0 where
  size : t.client.buffer_size ≡ s.client.buffer_size
  total : t.total_size ≡ s.total_size
  input : t.client.input ≡ s.client.input

take_status-Same : (s : Scan) (itr : ℕ) → Ensures (take_status s itr) (Same s)
unfolding take_status
take_status-Same s itr = ensures_bind (end_line s.client.buffer itr) λ ended _.
    ensures_bind (put ended (s.line_start + 3) (byte 0)) λ cut _.
      ensures_bind (number_at cut s.line_start)
        λ code _. ensures_ok _ (record { size = refl; total = refl; input = refl })

take_header-Same :
    (s : Scan) (itr : ℕ) (whitespace : Option ℕ) → Ensures (take_header s itr whitespace) (Same s)
unfolding take_header
take_header-Same s itr whitespace = ensures_bind (end_line s.client.buffer itr) λ ended _.
    ensures_bind (take_type ended whitespace s.client.response.body_type) λ t _.
      ensures_bind (number_at t.0 s.line_start)
        λ number _. ensures_ok _ (record { size = refl; total = refl; input = refl })

unchanged : (s : Scan) → Ensures (ok s) (Same s)
unchanged s = ensures_ok s (record { size = refl; total = refl; input = refl })

status_line-Same : (s : Scan) → Ensures (status_line s) (Same s)
unfolding status_line
status_line-Same s =
    ensures_if (s.line_number == 0)
      (λ _.
        ensures_if s.stale (λ _. faulted released)
          λ _.
            ensures_bind (find_line_end (s.total_size - s.line_start) s.client.buffer s.line_start)
              λ found _. ensures_option found (unchanged s) λ itr. take_status-Same s itr)
      (λ _. unchanged s)

header_line-Same : (s : Scan) → Ensures (header_line s) (Same s)
unfolding header_line
header_line-Same s =
    ensures_if (s.line_number == 1)
      (λ _.
        ensures_if s.stale (λ _. faulted released)
          λ _.
            ensures_bind
              (find_header_end (s.total_size - s.line_start) s.client.buffer s.line_start none)
              λ found _. ensures_option found (unchanged s) λ x. take_header-Same s x.0 x.1)
      (λ _. unchanged s)

count_payload-Same : (s : Scan) → Same s (count_payload s)
unfolding count_payload
count_payload-Same s = counted (s.line_number == 2)
  where
    counted :
        (b : Bool)
        → Same s
            (if b then record s { payload_read_size = s.payload_read_size + s.read_size } else s)
    counted true = record { size = refl; total = refl; input = refl }
    counted false = record { size = refl; total = refl; input = refl }

parse-Same : (s : Scan) → Ensures (parse s) (Same s)
unfolding parse
parse-Same s = ensures_bind (status_line s) λ a ea. ensures_bind (header_line a) λ b eb.
    let p = (status_line-Same s).holds a ea in
    let q = (header_line-Same a).holds b eb in
    let r = count_payload-Same b in
    ensures_ok (count_payload b) (record {
      size = r.size ∙ q.size ∙ p.size;
      total = r.total ∙ q.total ∙ p.total;
      input = r.input ∙ q.input ∙ p.input;
    })

-- The buffer is not much larger than what was read, and what was read had been sent.
record Inside (size n : ℕ) (s : Scan) : Type 0 where
  small : s.client.buffer_size ≤ size + 2 * s.total_size
  read : s.total_size + length (sent s.client.input) ≤ n

-- What the growth changes.
record Grown (size : ℕ) (s t : Scan) : Type 0 where
  small : t.client.buffer_size ≤ size + 2 * t.total_size
  total : t.total_size ≡ s.total_size
  input : t.client.input ≡ s.client.input

grow-Grown :
    (realloc : ℕ → Realloc) (size : ℕ) (s : Scan)
    → s.client.buffer_size ≤ size + 2 * s.total_size
    → Ensures (grow realloc s) (λ g. Grown size s g.1)
unfolding grow
grow-Grown realloc size s small =
    ensures_if (ltb s.client.buffer_size (s.total_size + 1))
      (λ full.
        ensures_if (ltb (s.client.buffer_size * 2) (2 ^ 31))
          (λ _.
            let le : s.client.buffer_size * 2 ≤ size + 2 * s.total_size =
              omega (arith, ltb→lt _ _ full) in
            ensures_realloc (realloc (s.client.buffer_size * 2))
              (ensures_ok _ (record { small = le; total = refl; input = refl }))
              (ensures_ok _ (record { small = le; total = refl; input = refl }))
              (ensures_ok _ (record { small = le; total = refl; input = refl })))
          (λ _. faulted signed_overflow))
      (λ _. ensures_ok _ (record { small = small; total = refl; input = refl }))

-- What a `recv` reads had been sent.
abbrev Read : Received × List Event → ℕ → Type 0
Read (failed, events) n = Unit
Read (bytes bs, events) n = length bs + length (sent events) ≤ n

rest_of-sent :
    (bs : List ℕ) (events : List Event)
    → length (sent (rest_of bs events)) ≡ length bs + length (sent events)
unfolding rest_of
rest_of-sent [] events = omega arith
rest_of-sent (c ∷ cs) events = length-append (c ∷ cs) (sent events)

recv-Read : (n : ℕ) (events : List Event) → Read (recv n events) (length (sent events))
unfolding recv
recv-Read n [] = omega arith
recv-Read n (broken ∷ events) = tt
recv-Read n (piece c cs ∷ events) = omega (
  arith,
  rest_of-sent (drop n (c ∷ cs)) events,
  length-append (c ∷ cs) (sent events),
  length-append (take n (c ∷ cs)) (drop n (c ∷ cs)),
  ap length (take-append-drop n (c ∷ cs)),
)

store_read-Inside :
    (size n : ℕ) (s : Scan) (bs : List ℕ)
    → s.client.buffer_size ≤ size + 2 * s.total_size
    → s.total_size + (length bs + length (sent s.client.input)) ≤ n
    → Ensures (store_read s bs) (Inside size n)
unfolding store_read
store_read-Inside size n s bs small read =
    ensures_bind (write s.client.buffer s.total_size (map byte bs))
      λ cells _. ensures_ok _ (record { small = omega (arith, small); read = omega (arith, read) })

-- The buffer of the client that a call leaves.
abbrev Small : ℕ → Bool × Client → Type 0
Small limit p = p.1.buffer_size ≤ limit

module _ (realloc : ℕ → Realloc) (size n : ℕ) where
  received-Small :
      (next : Scan → Run (Bool × Client)) (s : Scan) (x : Received × List Event)
      → ((t : Scan) → Inside size n t → Ensures (next t) (Small (size + 2 * n)))
      → Inside size n s
      → Read x (length (sent s.client.input))
      → Ensures
          (handle_received next realloc (record s { client = record s.client { input = x.1 } }) x.0)
          (Small (size + 2 * n))
  unfolding handle_received
  received-Small next s (failed, events) later h read =
      ensures_ok _ (omega (arith, h.small, h.read))
  received-Small next s (bytes bs, events) later h read =
      let s' = record s { client = record s.client { input = events } } in
      ensures_if (length bs == 0) (λ _. ensures_ok _ (omega (arith, h.small, h.read)))
        λ _. ensures_bind (store_read s' bs) λ stored es. ensures_bind (parse stored) λ parsed ep.
          let i =
            (store_read-Inside size n s' bs h.small (omega (arith, h.read, read))).holds stored
              es in
          let p = (parse-Same stored).holds parsed ep in
          let small : parsed.client.buffer_size ≤ size + 2 * parsed.total_size =
            omega (arith, p.size, p.total, i.small) in
          let left : parsed.total_size + length (sent parsed.client.input) ≤ n =
            omega (arith, p.total, ap (λ e. length (sent e)) p.input, i.read) in
          ensures_if (is_complete parsed) (λ _. ensures_ok _ (omega (arith, small, left)))
            λ _. ensures_bind (grow realloc parsed) λ g eg.
              let w = (grow-Grown realloc size parsed small).holds g eg in
              let wide : Inside size n g.1 = record {
                small = w.small;
                read = omega (arith, w.total, ap (λ e. length (sent e)) w.input, left);
              } in
              ensures_bool g.0 (later g.1 wide)
                (ensures_ok _ (omega (arith, wide.small, wide.read)))

  recv_loop-Small :
      (fuel : ℕ) (s : Scan)
      → Inside size n s
      → Ensures (recv_loop fuel realloc s) (Small (size + 2 * n))
  unfolding recv_loop
  recv_loop-Small zero s h = faulted out_of_fuel
  recv_loop-Small (suc fuel) s h =
      received-Small (λ t. recv_loop fuel realloc t) s
        (recv (s.client.buffer_size - s.total_size) s.client.input) (recv_loop-Small fuel) h
        (recv-Read (s.client.buffer_size - s.total_size) s.client.input)

-- Whatever the server sends and whatever realloc does, if memuncached_recv returns, the buffer of
-- the client is no larger than before by more than twice the number of bytes that were sent.
pub memuncached_recv-buffer_size :
    (realloc : ℕ → Realloc) (fuel : ℕ) (c c' : Client) (received : Bool)
    → memuncached_recv fuel realloc c ≡ ok (received, c')
    → c'.buffer_size ≤ c.buffer_size + 2 * length (sent c.input)
unfolding memuncached_recv fresh_scan
memuncached_recv-buffer_size realloc fuel c c' received run =
    let n = length (sent c.input) in
    let start : Inside c.buffer_size n (fresh_scan c) = record {
      small = omega arith;
      read = omega arith;
    } in
    (recv_loop-Small realloc c.buffer_size n fuel (fresh_scan c) start).holds (received, c') run
