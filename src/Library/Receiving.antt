-- ===== src/Library/Receiving.antt =====
-- About `memuncached_recv` in libmemuncached.c as a whole.
use memuncached.Connection.{Cell, byte}
use memuncached.Library.Lines.{cells}
use memuncached.Library.Parsing.{Parsed, parse-Parsed}
use memuncached.Library.Widths.{reply_width, read-all}
use memuncached.Library.Reply.{
  Reply, IsReply, status_text, header_text, body_text, reply_text, status_cut, header_cut,
}
use memuncached.Library.Stages.{
  Held, Status, Body, Phase, in_status, in_header, in_body, Stage, store_read-Stage, grow-Stage,
}
use memuncached.Library.{
  Client, Realloc, in_place, Scan, no_response, is_complete, parse, store_read, grow,
  handle_received, recv_loop, fresh_scan, memuncached_recv,
}
use memuncached.Network.{Event, bytes, recv, sent}
use memuncached.Payload.Receive.{recv-sent}
use memuncached.Prelude.{
  ℕ, zero, suc, ◌+◌, ◌-◌, ◌^◌, ◌<◌, ◌≤◌, ◌≡◌, refl, sym, ap, ◌∙◌, Bool, true, false, if_true,
  if_false, Bool-cases, inl, inr, List, [], ◌∷◌, ◌++◌, arith, length, length-append, length-map,
  append_assoc, append-nil, ◌==◌, crlf, drop, map,
}
use memuncached.Run.{Run, ok, bind_ok, Returns}

-- The call ended with the reply in the buffer, its strings ended, and the response pointing to them.
-- `behind` has been read although it was sent after the reply.
pub record GotReply (r : Reply) (more out : List ℕ) (c : Client) : Type 0 where
  pub behind : List ℕ
  pub pad : List Cell
  pub buffer : c.buffer ≡ cells ((status_cut r ++ header_cut r) ++ (body_text r ++ behind)) pad
  pub size : length c.buffer ≡ c.buffer_size
  pub status : Status r c.response
  pub body : Body r c.response
  pub left : more ≡ behind ++ sent c.input
  pub written : c.out ≡ out

-- The memory of the client between the calls.
pub record IsClient (c : Client) : Type 0 where
  pub size : length c.buffer ≡ c.buffer_size
  pub some_room : 0 < c.buffer_size

-- A first part that has been read.
prefix_split :
    (s t g rest : List ℕ)
    → length s ≤ length g
    → g ++ rest ≡ s ++ t
    → (b : List ℕ) × (g ≡ s ++ b) × (t ≡ b ++ rest)
prefix_split [] t g rest le e = (g, refl, sym e)
prefix_split (c ∷ s) t [] rest le e = absurd (omega arith)
prefix_split (c ∷ s) t (d ∷ g) rest le e =
    let (b, eg, et) = prefix_split s t g rest (omega arith) (ap (drop 1) e) in
    let same : d ≡ c = cc in (b, cc, et)

pub loop_round :
    (realloc : ℕ → Realloc) (fuel : ℕ) (s : Scan) (bs : List ℕ) (events : List Event)
    → recv (s.client.buffer_size - s.total_size) s.client.input ≡ (bytes bs, events)
    → recv_loop (suc fuel) realloc s
      ≡ handle_received
          (λ t. recv_loop fuel realloc t)
          realloc
          (record s { client = record s.client { input = events } })
          (bytes bs)
unfolding recv_loop
loop_round realloc fuel s bs events read =
    ap
      (λ x.
        handle_received (λ t. recv_loop fuel realloc t) realloc
          (record s { client = record s.client { input = x.1 } }) x.0)
      read

module _ (r : Reply) (h : IsReply r) (more out : List ℕ) where
  complete-GotReply :
      (s : Scan) (rest : List ℕ)
      → Stage r more out [] s.payload_read_size rest s
      → is_complete s ≡ true
      → GotReply r more out s.client
  unfolding is_complete
  complete-GotReply s rest stage full = at_phase stage.phase stage.held
    where
      at_phase :
          {a got : List ℕ}
          → Phase r more a got
              (got ++ rest)
              s.payload_read_size
              s.line_number
              s.payload_read_size
              s.client.response
          → Held a got rest out [] s
          → GotReply r more out s.client
      at_phase {a} {got} (in_status ea el ep et e) held = absurd (ground (arith, full, el))
      at_phase {a} {got} (in_header ea el ep et st e) held = absurd (ground (arith, full, el))
      at_phase {a} {got} (in_body ea el en st b e) held =
          let size : length r.body + 3 ≤ length got =
            let small : length r.body < 2 ^ 30 = omega (arith, h.size, reply_width r) in
            ground (arith, full, b.size, en, small) in
          let width = length-append r.body (0 ∷ crlf) in
          let (behind, eg, em) =
            prefix_split (body_text r) more got rest (omega (arith, width, size)) e in
          record {
            behind = behind;
            pad = held.pad;
            buffer =
                held.cells
                ∙ ap (λ k. cells (a ++ k) held.pad) eg
                ∙ ap (λ k. cells (k ++ (body_text r ++ behind)) held.pad) ea;
            size =
                ap length held.cells
                ∙ omega (
                  arith,
                  length-append (map byte (a ++ got)) held.pad,
                  length-map (a ++ got) byte,
                  length-append a got,
                  held.width,
                );
            status = st;
            body = b;
            left = em ∙ ap (λ k. behind ++ k) (held.input ∙ append-nil (sent s.client.input));
            written = held.written;
          }

  pub start-Stage :
      (late rest : List ℕ) (c : Client)
      → IsClient c
      → c.out ≡ out
      → rest ≡ sent c.input ++ late
      → rest ≡ reply_text r ++ more
      → Stage r more out late 0 rest (fresh_scan c)
  unfolding fresh_scan no_response
  start-Stage late rest c good same come e = record {
    a = [];
    got = [];
    held = record {
      pad = c.buffer;
      cells = refl;
      width = omega (arith, good.size);
      least = good.some_room;
      total = refl;
      start = refl;
      fresh = refl;
      input = come;
      written = same;
    };
    phase = in_status refl refl refl refl (
        e
        ∙ append_assoc (status_text r) (10 ∷ (header_text r ++ 10 ∷ body_text r)) more
        ∙ ap (λ k. status_text r ++ 10 ∷ k) (append_assoc (header_text r) (10 ∷ body_text r) more));
  }

  pub fresh-Stage :
      (c : Client)
      → IsClient c
      → c.out ≡ out
      → sent c.input ≡ reply_text r ++ more
      → Stage r more out [] 0 (sent c.input) (fresh_scan c)
  fresh-Stage c good same e =
      start-Stage [] (sent c.input) c good same (sym (append-nil (sent c.input))) e

  module _ (realloc : ℕ → Realloc) (memory : (n : ℕ) → realloc n ≡ in_place) where
    one_round :
        (next : Scan → Run (Bool × Client)) (s stored parsed wide : Scan) (bs : List ℕ)
        → 0 < length bs
        → store_read s bs ≡ ok stored
        → parse stored ≡ ok parsed
        → is_complete parsed ≡ false
        → grow realloc parsed ≡ ok (true, wide)
        → handle_received next realloc s (bytes bs) ≡ next wide
    unfolding handle_received
    one_round next s stored parsed wide bs more_read es ep ec eg =
        let some_read : (length bs == 0) ≡ false = ground arith in
        if_false _ _ some_read ∙ bind_ok _ es ∙ bind_ok _ ep ∙ if_false _ _ ec ∙ bind_ok _ eg

    last_round :
        (next : Scan → Run (Bool × Client)) (s stored parsed : Scan) (bs : List ℕ)
        → 0 < length bs
        → store_read s bs ≡ ok stored
        → parse stored ≡ ok parsed
        → is_complete parsed ≡ true
        → handle_received next realloc s (bytes bs) ≡ ok (true, parsed.client)
    unfolding handle_received
    last_round next s stored parsed bs more_read es ep ec =
        let some_read : (length bs == 0) ≡ false = ground arith in
        if_false _ _ some_read ∙ bind_ok _ es ∙ bind_ok _ ep ∙ if_true _ _ ec

    -- A round that read `bs`; the loop goes on with `next`.
    round-GotReply :
        (next : Scan → Run (Bool × Client)) (s stored parsed : Scan) (bs rest : List ℕ) (size : ℕ)
        → 0 < length bs
        → store_read s bs ≡ ok stored
        → parse stored ≡ ok parsed
        → Parsed r h more out [] size rest parsed
        → ((wide : Scan)
            → Stage r more out [] wide.payload_read_size rest wide
            → wide.total_size < wide.client.buffer_size
            → wide.total_size < length (reply_text r)
            → Returns (next wide) λ p. (p.0 ≡ true) × GotReply r more out p.1)
        → Returns
            (handle_received next realloc s (bytes bs))
            λ p. (p.0 ≡ true) × GotReply r more out p.1
    round-GotReply next s stored parsed bs rest size more_read es ep q ih =
        elim (Bool-cases (is_complete parsed)) [
          | inl full ↦ (
            (true, parsed.client),
            last_round next s stored parsed bs more_read es ep full,
            (refl, complete-GotReply parsed rest q.stage full),
          )
          | inr open_end ↦
              let less : parsed.total_size < length (reply_text r) = elim q.done [
                | inl full ↦ absurd (ground (arith, full, open_end))
                | inr less ↦ less
              ] in
              let (wide, eg, stage, free, same) =
                grow-Stage realloc memory parsed q.stage (omega (arith, less, h.size)) in
              let (p, run, good) = ih wide stage free (omega arith) in
              (p, one_round next s stored parsed wide bs more_read es ep open_end eg ∙ run, good)
        ]

    recv_loop-GotReply :
        (fuel : ℕ) (s : Scan) (rest : List ℕ)
        → Stage r more out [] s.payload_read_size rest s
        → s.total_size < s.client.buffer_size
        → s.total_size < length (reply_text r)
        → length rest < fuel
        → Returns (recv_loop fuel realloc s) λ p. (p.0 ≡ true) × GotReply r more out p.1
    unfolding recv_loop
    recv_loop-GotReply zero s rest stage room short lt = absurd (omega arith)
    recv_loop-GotReply (suc fuel) s rest stage room short lt =
        let come : rest ≡ sent s.client.input =
          stage.held.input ∙ append-nil (sent s.client.input) in
        let coming : 0 < length (sent s.client.input) =
          omega (arith, ap length come, read-all r more out [] s.payload_read_size s rest stage) in
        let (bs, events, read, split, more_read, le) =
          recv-sent (s.client.buffer_size - s.total_size) s.client.input (omega arith) coming in
        let (stored, es, stage') =
          store_read-Stage s bs (sent events) events stage (sym (append-nil (sent events)))
            (come ∙ split) le in
        let (parsed, ep, q) = parse-Parsed r h more out [] stored (sent events) stage' in
        let fewer : length (sent events) < fuel =
          omega (arith, ap length come, ap length split, length-append bs (sent events)) in
        let (p, run, good) =
          round-GotReply (λ t. recv_loop fuel realloc t)
            (record s { client = record s.client { input = events } }) stored parsed bs
            (sent events) stored.client.buffer_size more_read es ep q
            (λ wide stage'' free less.
              recv_loop-GotReply fuel wide (sent events) stage'' free less fewer) in
        (p, loop_round realloc fuel s bs events read ∙ run, good)

    -- When realloc always grows the buffer in place, the client has room for a byte, a reply is sent
    -- and perhaps more, in whatever pieces, and the loop has more rounds than bytes are sent (a
    -- reply has a code of three digits, a description that is a line of text, a type below 128 if it
    -- has one, and a body, and is shorter than 2^30): memuncached_recv returns true, the reply is in
    -- the buffer with its strings ended, the response has its code, description, type, size and
    -- body, and what follows the reply is behind it in the buffer or left to read, in order.
    pub memuncached_recv-GotReply :
        (fuel : ℕ) (c : Client)
        → IsClient c
        → c.out ≡ out
        → sent c.input ≡ reply_text r ++ more
        → length (reply_text r ++ more) < fuel
        → Returns (memuncached_recv fuel realloc c) λ p. (p.0 ≡ true) × GotReply r more out p.1
    unfolding memuncached_recv fresh_scan no_response
    memuncached_recv-GotReply fuel c good same e lt =
        recv_loop-GotReply fuel (fresh_scan c) (sent c.input) (fresh-Stage c good same e)
          good.some_room (omega (arith, reply_width r)) (omega (arith, ap length e))
