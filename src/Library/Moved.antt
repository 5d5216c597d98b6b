-- ===== src/Library/Moved.antt =====
-- `memuncached_recv` when `realloc` moves the buffer while a line is being read.
use memuncached.Library.Dangling.{dangling, dangling-round, grow-moved, recv-full, store_read-line}
use memuncached.Library.Parsing.{Parsed, parse-Parsed}
use memuncached.Library.Widths.{reply_width, status_width, header_width, read-all}
use memuncached.Library.Receiving.{IsClient, fresh-Stage, loop_round}
use memuncached.Library.Reply.{
  Reply, IsReply, status_text, header_text, reply_text, status_cut, header_cut,
}
use memuncached.Library.Stages.{
  Held, Phase, in_status, in_header, in_body, Stage, store_read-Stage, grow-Stage,
}
use memuncached.Library.{
  Client, Realloc, in_place, moved, Scan, is_complete, parse, store_read, grow, handle_received,
  recv_loop, fresh_scan, memuncached_recv,
}
use memuncached.Network.{Event, piece, bytes, recv, sent}
use memuncached.Payload.Receive.{recv-sent}
use memuncached.Prelude.{
  ℕ, suc, ◌+◌, ◌-◌, ◌*◌, ◌<◌, ◌≤◌, ◌≡◌, refl, sym, ap, ◌∙◌, true, false, if_false, ◌∷◌, append-nil,
  [], List, ◌++◌, arith, length, length-append, ltb, ◌==◌,
}
use memuncached.Run.{ok, fault, released, bind_ok}

module _ (r : Reply) (h : IsReply r) (more out : List ℕ) where
  -- The second line has not been read to its end.
  early-line :
      (n : ℕ) (s : Scan) (rest : List ℕ)
      → Stage r more out [] n rest s
      → s.total_size ≤ length (status_text r) + 1 + length (header_text r)
      → s.line_number < 2
  early-line n s rest stage early = at_phase stage.phase stage.held
    where
      at_phase :
          {a got : List ℕ}
          → Phase r more a got (got ++ rest) n s.line_number s.payload_read_size s.client.response
          → Held a got rest out [] s
          → s.line_number < 2
      at_phase {a} {got} (in_status ea el ep et e) held = omega (arith, el)
      at_phase {a} {got} (in_header ea el ep et st e) held = omega (arith, el)
      at_phase {a} {got} (in_body ea el en st b e) held = absurd (
          omega (
            arith,
            ap length ea,
            held.total,
            status_width r,
            header_width r,
            length-append (status_cut r) (header_cut r),
          ))

  -- The growth that moves the buffer, and the round behind it.
  released-line :
      (realloc : ℕ → Realloc) (fuel : ℕ) (s : Scan) (rest : List ℕ)
      → Stage r more out [] s.payload_read_size rest s
      → s.total_size ≤ length (status_text r) + 1 + length (header_text r)
      → s.client.buffer_size ≡ s.total_size
      → realloc (s.client.buffer_size * 2) ≡ moved
      → (wide : Scan) × (grow realloc s ≡ ok (true, dangling wide))
        × (recv_loop (suc fuel) realloc (dangling wide) ≡ fault released)
  released-line realloc fuel s rest stage early size move =
      let long : s.total_size < length (reply_text r) = omega (arith, reply_width r) in
      let outgrown : ltb s.client.buffer_size (s.total_size + 1) ≡ true = ground (arith, size) in
      let (wide, eg, stage', free, same_total) =
        grow-Stage (λ k. in_place) (λ k. refl) s stage (omega (arith, long, h.size)) in
      let come : length rest ≡ length (sent wide.client.input) =
        ap length stage'.held.input ∙ ap length (append-nil (sent wide.client.input)) in
      let more_coming : 0 < length (sent wide.client.input) =
        omega (arith, come, read-all r more out [] s.payload_read_size s rest stage, long) in
      let (bs, events, read, split, more_read, le) =
        recv-sent (wide.client.buffer_size - wide.total_size) wide.client.input (omega arith)
          more_coming in
      let (stored, es, _) =
        store_read-Stage wide bs (sent events) events stage' (sym (append-nil (sent events)))
          (stage'.held.input ∙ append-nil (sent wide.client.input) ∙ split) le in
      let line : wide.line_number < 2 =
        early-line wide.payload_read_size wide rest stage' (omega (arith, same_total)) in
      (
        wide,
        grow-moved realloc s wide outgrown (omega (arith, long, h.size, size)) move eg,
        dangling-round realloc fuel wide stored bs events read more_read es line,
      )

  -- The first round fills the buffer.
  full_round :
      (realloc : ℕ → Realloc) (fuel : ℕ) (s stored parsed : Scan) (bs rest : List ℕ) (size : ℕ)
      → 0 < length bs
      → store_read s bs ≡ ok stored
      → parse stored ≡ ok parsed
      → Parsed r h more out [] size rest parsed
      → parsed.total_size ≡ size
      → size ≤ length (status_text r) + 1 + length (header_text r)
      → realloc (size * 2) ≡ moved
      → handle_received (λ t. recv_loop (suc fuel) realloc t) realloc s (bytes bs) ≡ fault released
  unfolding handle_received is_complete
  full_round realloc fuel s stored parsed bs rest size more_read es ep q total early move =
      let some_read : (length bs == 0) ≡ false = ground arith in
      let line : parsed.line_number < 2 =
        early-line parsed.payload_read_size parsed rest q.stage (omega (arith, total)) in
      let open_end : is_complete parsed ≡ false = ground (arith, line) in
      let (wide, eg, round) =
        released-line realloc fuel parsed rest q.stage (omega (arith, total)) (q.same ∙ sym total)
          (ap (λ k. realloc (k * 2)) q.same ∙ move) in
      if_false _ _ some_read
      ∙ bind_ok _ es
      ∙ bind_ok _ ep
      ∙ if_false _ _ open_end
      ∙ bind_ok _ eg
      ∙ round

  start_moved :
      (realloc : ℕ → Realloc) (fuel : ℕ) (c : Client) (bs : List ℕ) (events' : List Event)
      → IsClient c
      → c.out ≡ out
      → sent c.input ≡ reply_text r ++ more
      → recv c.buffer_size c.input ≡ (bytes bs, events')
      → sent c.input ≡ bs ++ sent events'
      → 0 < length bs
      → length bs ≡ c.buffer_size
      → length (sent c.input) ≡ length bs + length (sent events')
      → length (sent c.input) ≡ length (reply_text r) + length more
      → c.buffer_size ≤ length (status_text r) + 1 + length (header_text r)
      → realloc (c.buffer_size * 2) ≡ moved
      → memuncached_recv (suc (suc fuel)) realloc c ≡ fault released
  unfolding memuncached_recv fresh_scan
  start_moved realloc fuel c bs events' good same e read split more_read n parts all early move =
      let stage = fresh-Stage r h more out c good same e in
      let s' : Scan = record (fresh_scan c) {
        client = record (fresh_scan c).client { input = events' };
      } in
      let (stored, es, stage') =
        store_read-Stage (fresh_scan c) bs (sent events') events' stage
          (sym (append-nil (sent events'))) split (omega arith) in
      let size : stored.client.buffer_size ≡ c.buffer_size = (store_read-line s' stored bs es).1 in
      let (parsed, ep, q) = parse-Parsed r h more out [] stored (sent events') stage' in
      let total : parsed.total_size ≡ stored.client.buffer_size = omega (
        arith,
        read-all r more out [] parsed.payload_read_size parsed (sent events') q.stage,
        parts,
        all,
        size,
        n,
      ) in
      loop_round realloc (suc fuel) (fresh_scan c) bs events'
        (ap (λ k. recv k c.input) (omega arith) ∙ read)
      ∙ full_round realloc fuel s' stored parsed bs (sent events') stored.client.buffer_size
          more_read es ep q total (omega (arith, size)) (ap (λ k. realloc (k * 2)) size ∙ move)

  -- When the first piece of a reply (a reply has a code of three digits, a description that is a
  -- line of text, a type below 128 if it has one, and a body, and is shorter than 2^30) fills the
  -- buffer of a client before the end of the second line, and realloc moves the buffer,
  -- memuncached_recv reads released memory in the second round.
  pub recv-moved :
      (realloc : ℕ → Realloc) (fuel : ℕ) (c : Client) (x : ℕ) (xs : List ℕ) (events : List Event)
      → IsClient c
      → c.out ≡ out
      → c.input ≡ piece x xs ∷ events
      → sent c.input ≡ reply_text r ++ more
      → c.buffer_size ≤ length (x ∷ xs)
      → c.buffer_size ≤ length (status_text r) + 1 + length (header_text r)
      → realloc (c.buffer_size * 2) ≡ moved
      → memuncached_recv (suc (suc fuel)) realloc c ≡ fault released
  recv-moved realloc fuel c x xs events good same input e full early move =
      let all : length (sent c.input) ≡ length (reply_text r) + length more =
        ap length e ∙ length-append (reply_text r) more in
      let (bs, events', read, split, more_read, le) =
        recv-sent c.buffer_size c.input good.some_room (omega (arith, reply_width r)) in
      let n : length bs ≡ c.buffer_size =
        recv-full c.buffer_size x xs events bs events' full
          (ap (recv c.buffer_size) (sym input) ∙ read) in
      let parts : length (sent c.input) ≡ length bs + length (sent events') =
        ap length split ∙ length-append bs (sent events') in
      start_moved realloc fuel c bs events' good same e read split more_read n parts all early move
