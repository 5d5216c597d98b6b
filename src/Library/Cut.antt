-- ===== src/Library/Cut.antt =====
-- `memuncached_recv` when the peer leaves, or the connection breaks, before the reply is complete.
use memuncached.Library.Parsing.{Parsed, parse-Parsed}
use memuncached.Library.Widths.{reply_width, read-all, status_width, header_width}
use memuncached.Library.Receiving.{IsClient, start-Stage, loop_round}
use memuncached.Library.Reply.{Reply, IsReply, reply_text, status_cut, header_cut}
use memuncached.Library.Stages.{
  Held, Phase, in_status, in_header, in_body, Stage, store_read-Stage, grow-Stage,
}
use memuncached.Library.{
  Client, Realloc, in_place, Scan, is_complete, parse, store_read, handle_received, recv_loop,
  fresh_scan, memuncached_recv,
}
use memuncached.Network.{Event, piece, broken, Received, failed, bytes, recv, sent}
use memuncached.Payload.Receive.{recv-sent}
use memuncached.Prelude.{
  ℕ, zero, suc, ◌+◌, ◌-◌, ◌^◌, ◌<◌, ◌≤◌, ◌≡◌, refl, sym, ap, ◌∙◌, Bool, true, false, ◌⊎◌, if_true,
  if_false, Bool-cases, inl, inr, List, [], ◌∷◌, ◌++◌, append_assoc, append-nil, arith, length,
  length-append, ◌==◌,
}
use memuncached.Run.{Run, ok, bind_ok, Returns}

-- A `recv` reads a first part of what was sent, or brings no byte.
abbrev NoByte : Received → Type 0
NoByte failed = Unit
NoByte (bytes bs) = bs ≡ []

recv_cases :
    (n : ℕ) (events : List Event)
    → 0 < n
    → ((bs : List ℕ) × (events' : List Event) × (recv n events ≡ (bytes bs, events'))
        × (sent events ≡ bs ++ sent events')
        × (0 < length bs)
        × (length bs ≤ n))
      ⊎ ((received : Received) × (events' : List Event) × (recv n events ≡ (received, events'))
          × NoByte received)
unfolding recv
recv_cases n [] h = inr (bytes [], [], refl, refl)
recv_cases n (broken ∷ events) h = inr (failed, events, refl, tt)
recv_cases n (piece c cs ∷ events) h = inl (recv-sent n (piece c cs ∷ events) h (omega arith))

empty_round :
    (next : Scan → Run (Bool × Client)) (realloc : ℕ → Realloc) (s : Scan) (received : Received)
    → NoByte received
    → handle_received next realloc s received ≡ ok (false, s.client)
unfolding handle_received
empty_round next realloc s failed h = refl
empty_round next realloc s (bytes bs) h =
    let none_read : (length bs == 0) ≡ true = ap (λ b. length b == 0) h in if_true _ _ none_read

module _ (r : Reply) (h : IsReply r) (out late : List ℕ) (cut : 0 < length late) where
  -- A complete reply has been read to its end.
  complete-all :
      (s : Scan) (rest : List ℕ)
      → Stage r [] out late s.payload_read_size rest s
      → is_complete s ≡ true
      → length (reply_text r) ≤ s.total_size
  unfolding is_complete
  complete-all s rest stage full = at_phase stage.phase stage.held
    where
      at_phase :
          {a got : List ℕ}
          → Phase r [] a got
              (got ++ rest)
              s.payload_read_size
              s.line_number
              s.payload_read_size
              s.client.response
          → Held a got rest out late s
          → length (reply_text r) ≤ s.total_size
      at_phase {a} {got} (in_status ea el ep et e) held = absurd (ground (arith, full, el))
      at_phase {a} {got} (in_header ea el ep et st e) held = absurd (ground (arith, full, el))
      at_phase {a} {got} (in_body ea el en st b e) held =
          let small : length r.body < 2 ^ 30 = omega (arith, h.size, reply_width r) in
          let size : length r.body + 3 ≤ length got = ground (arith, full, b.size, en, small) in
          omega (
            arith,
            ap length ea,
            held.total,
            size,
            reply_width r,
            status_width r,
            header_width r,
            length-append (status_cut r) (header_cut r),
          )

  module _ (realloc : ℕ → Realloc) (memory : (n : ℕ) → realloc n ≡ in_place) where
    open_round :
        (next : Scan → Run (Bool × Client)) (s stored parsed : Scan) (bs rest : List ℕ) (size : ℕ)
        → 0 < length bs
        → store_read s bs ≡ ok stored
        → parse stored ≡ ok parsed
        → Parsed r h [] out late size rest parsed
        → length late ≤ length rest
        → ((wide : Scan)
            → Stage r [] out late wide.payload_read_size rest wide
            → wide.total_size < wide.client.buffer_size
            → Returns (next wide) λ p. p.0 ≡ false)
        → Returns (handle_received next realloc s (bytes bs)) λ p. p.0 ≡ false
    unfolding handle_received
    open_round next s stored parsed bs rest size more_read es ep q later ih =
        let all = read-all r [] out late parsed.payload_read_size parsed rest q.stage in
        let short : parsed.total_size < length (reply_text r) = omega (arith, all) in
        let some_read : (length bs == 0) ≡ false = ground arith in
        elim (Bool-cases (is_complete parsed)) [
          | inl full ↦ let full_size = complete-all parsed rest q.stage full in absurd (omega arith)
          | inr open_end ↦
              let (wide, eg, stage, free, same) =
                grow-Stage realloc memory parsed q.stage (omega (arith, short, h.size)) in
              let (p, run, cut_off) = ih wide stage free in
              (
                p,
                if_false _ _ some_read
                    ∙ bind_ok _ es
                    ∙ bind_ok _ ep
                    ∙ if_false _ _ open_end
                    ∙ bind_ok _ eg
                    ∙ run,
                cut_off,
              )
        ]

    recv_loop-cut :
        (fuel : ℕ) (s : Scan) (rest : List ℕ)
        → Stage r [] out late s.payload_read_size rest s
        → s.total_size < s.client.buffer_size
        → length (sent s.client.input) < fuel
        → Returns (recv_loop fuel realloc s) λ p. p.0 ≡ false
    unfolding recv_loop
    recv_loop-cut zero s rest stage room lt = absurd (omega arith)
    recv_loop-cut (suc fuel) s rest stage room lt =
        elim (recv_cases (s.client.buffer_size - s.total_size) s.client.input (omega arith)) [
          | inr (received, events, read, none_read) ↦ (
            (false, record s.client { input = events }),
            ap
                  (λ x.
                    handle_received (λ t. recv_loop fuel realloc t) realloc
                      (record s { client = record s.client { input = x.1 } }) x.0)
                  read
                ∙ empty_round _ realloc _ received none_read,
            refl,
          )
          | inl (bs, events, read, split, more_read, le) ↦
              let come : rest ≡ bs ++ (sent events ++ late) =
                stage.held.input ∙ ap (λ l. l ++ late) split ∙ append_assoc bs (sent events) late in
              let (stored, es, stage') =
                store_read-Stage s bs (sent events ++ late) events stage refl come le in
              let (parsed, ep, q) =
                parse-Parsed r h [] out late stored (sent events ++ late) stage' in
              let fewer : length (sent events) < fuel =
                omega (arith, ap length split, length-append bs (sent events)) in
              let (p, run, cut_off) =
                open_round (λ t. recv_loop fuel realloc t)
                  (record s { client = record s.client { input = events } }) stored parsed bs
                  (sent events ++ late) stored.client.buffer_size more_read es ep q
                  (omega (arith, length-append (sent events) late))
                  (λ wide stage'' free. recv_loop-cut fuel wide (sent events ++ late) stage'' free (
                    omega (
                      arith,
                      fewer,
                      ap length stage''.held.input,
                      length-append (sent events) late,
                      length-append (sent wide.client.input) late,
                    ))) in
              (p, loop_round realloc fuel s bs events read ∙ run, cut_off)
        ]

    -- When realloc always grows the buffer in place, the client has room for a byte, the server
    -- closes the connection or fails before the last byte of a reply (a reply has a code of three
    -- digits, a description that is a line of text, a type below 128 if it has one, and a body, and
    -- is shorter than 2^30), and the loop has more rounds than bytes are sent: memuncached_recv
    -- returns false, without a fault.
    pub recv-cut :
        (fuel : ℕ) (c : Client)
        → IsClient c
        → c.out ≡ out
        → sent c.input ++ late ≡ reply_text r
        → length (sent c.input) < fuel
        → Returns (memuncached_recv fuel realloc c) λ p. p.0 ≡ false
    unfolding memuncached_recv fresh_scan
    recv-cut fuel c good same e lt =
        recv_loop-cut fuel (fresh_scan c) (sent c.input ++ late)
          (start-Stage r h [] out late (sent c.input ++ late) c good same refl
            (e ∙ sym (append-nil (reply_text r))))
          good.some_room lt
