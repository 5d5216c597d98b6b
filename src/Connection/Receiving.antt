-- ===== src/Connection/Receiving.antt =====
-- About the inner loop of `handle_connection`.
use memuncached.Connection.Room.{Holds, make_room-Room, append_read-Holds}
use memuncached.Payload.Receive.{recv-sent}
use memuncached.Connection.{
  Cell, byte, Ending, line_end, Buffer, make_room, append_read, handle_read, receive_command,
}
use memuncached.Network.{Event, bytes, recv, sent}
use memuncached.Prelude.{
  ℕ, zero, suc, ◌+◌, ◌-◌, ◌≤◌, ◌<◌, ◌≡◌, refl, sym, ap, ◌∙◌, inl, inr, Bool, true, false, List, [],
  ◌∷◌, ◌++◌, map, some, arith, length, length-append, append_assoc, ◌==◌,
}
use memuncached.Run.{Run, ok, Returns}
use memuncached.Connection.LineEnds.{
  NoLine, line_cases, sstrstr_from-NoLine, sstrstr_from-line, same_line, later_line,
}
use memuncached.Utils.{sstrstr_from, sstrstr}

line_end_eq :
    {c c' : List Cell} {n n' k k' : ℕ}
    → c ≡ c'
    → n ≡ n'
    → k ≡ k'
    → line_end c n k ≡ line_end c' n' k'
line_end_eq ec en ek = rw (ec, en, ek)

regrouped :
    (got bs l behind : List ℕ) (pad : List Cell) {e : Ending}
    → e
      ≡ line_end
          (map byte ((got ++ bs) ++ (l ++ 10 ∷ behind)) ++ pad)
          (length ((got ++ bs) ++ (l ++ 10 ∷ behind)))
          (length behind)
    → e
      ≡ line_end
          (map byte (got ++ ((bs ++ l) ++ 10 ∷ behind)) ++ pad)
          (length (got ++ ((bs ++ l) ++ 10 ∷ behind)))
          (length behind)
regrouped got bs l behind pad h =
    let same : (got ++ bs) ++ (l ++ 10 ∷ behind) ≡ got ++ ((bs ++ l) ++ 10 ∷ behind) =
      append_assoc got bs (l ++ 10 ∷ behind)
      ∙ ap (λ t. got ++ t) (sym (append_assoc bs l (10 ∷ behind))) in
    h ∙ ap (λ t. line_end (map byte t ++ pad) (length t) (length behind)) same

-- The loop ended with the line `l` behind the bytes read before: all that was read is in the command's
-- memory, room is left there, and the payload's bytes are counted. `p` is what was sent behind the
-- line.
pub record GotLine (got l p : List ℕ) (r : Ending × List Event) : Type 0 where
  pub behind : List ℕ
  pub pad : List Cell
  pub ending :
      r.0
      ≡ line_end
          (map byte (got ++ (l ++ 10 ∷ behind)) ++ pad)
          (length (got ++ (l ++ 10 ∷ behind)))
          (length behind)
  pub room : 0 < length pad
  pub left : p ≡ behind ++ sent r.1

module _ (next : Buffer → Run (Ending × List Event)) (grows : ℕ → Bool) (b room b' : Buffer)
    (bs : List ℕ) (events : List Event) (made : make_room grows b (length bs) ≡ some room)
    (written : append_read room bs ≡ ok b') where
  handle_read-next :
      0 < length bs → NoLine bs → handle_read next grows b (bytes bs) events ≡ next b'
  unfolding handle_read sstrstr
  handle_read-next more none_in =
      let some_read : (length bs == 0) ≡ false = ground arith in
      rw (some_read, made, written, sstrstr_from-NoLine 0 bs none_in)

  handle_read-line :
      (l behind : List ℕ)
      → bs ≡ l ++ 10 ∷ behind
      → NoLine l
      → handle_read next grows b (bytes bs) events
        ≡ ok (line_end b'.command (b'.command_len - b'.command_free_len) (length behind), events)
  unfolding handle_read sstrstr
  handle_read-line l behind e none_in =
      let width = length-append l (10 ∷ behind) in
      let some_read : (length bs == 0) ≡ false = ground (arith, ap length e, width) in
      let found : sstrstr_from 0 bs (10 ∷ []) ≡ some (0 + length l) =
        ap (λ s. sstrstr_from 0 s (10 ∷ [])) e ∙ sstrstr_from-line 0 l behind none_in in
      let rest : length bs - (0 + length l + 1) ≡ length behind =
        omega (arith, ap length e, width) in
      rw (some_read, made, written, found, rest)

module _ (grows : ℕ → Bool) (memory : (n : ℕ) → grows n ≡ true) where
  first_round :
      (fuel : ℕ) (b : Buffer) (bs : List ℕ) (events events' : List Event)
      → recv 10 events ≡ (bytes bs, events')
      → receive_command (suc fuel) grows b events
        ≡ handle_read (λ b'. receive_command fuel grows b' events') grows b (bytes bs) events'
  unfolding receive_command
  first_round fuel b bs events events' read =
      ap (λ r. handle_read (λ b'. receive_command fuel grows b' r.1) grows b r.0 r.1) read

  last_read :
      (fuel : ℕ) (b : Buffer) (got l behind bs p : List ℕ) (events events' : List Event)
      → recv 10 events ≡ (bytes bs, events')
      → bs ≡ l ++ 10 ∷ behind
      → length bs ≤ 10
      → NoLine l
      → p ≡ behind ++ sent events'
      → Holds b got
      → Returns (receive_command (suc fuel) grows b events) (GotLine got l p)
  last_read fuel b got l behind bs p events events' read e le none_in left h =
      let (room, made, spare) = make_room-Room grows memory b got (length bs) h le in
      let (b', written, h') = append_read-Holds room got bs spare in
      (
        (line_end b'.command (b'.command_len - b'.command_free_len) (length behind), events'),
        first_round fuel b bs events events' read
            ∙ handle_read-line _ grows b room b' bs events' made written l behind e none_in,
        record {
          behind = behind;
          pad = h'.pad;
          ending =
              line_end_eq (h'.cells ∙ ap (λ s. map byte (got ++ s) ++ h'.pad) e)
                (omega (arith, h'.width, ap (λ s. length (got ++ s)) e)) refl;
          room = omega (arith, h'.room, h'.free);
          left = left;
        },
      )

  early_read :
      (fuel : ℕ) (b : Buffer) (got l bs p : List ℕ) (events events' : List Event)
      → recv 10 events ≡ (bytes bs, events')
      → 0 < length bs
      → length bs ≤ 10
      → NoLine bs
      → Holds b got
      → ((b' : Buffer)
          → Holds b' (got ++ bs)
          → Returns (receive_command fuel grows b' events') (GotLine (got ++ bs) l p))
      → Returns (receive_command (suc fuel) grows b events) (GotLine got (bs ++ l) p)
  early_read fuel b got l bs p events events' read more le none_in h ih =
      let (room, made, spare) = make_room-Room grows memory b got (length bs) h le in
      let (b', written, h') = append_read-Holds room got bs spare in
      let (r, run, q) = ih b' h' in
      (
        r,
        first_round fuel b bs events events' read
            ∙ handle_read-next _ grows b room b' bs events' made written more none_in
            ∙ run,
        record {
          behind = q.behind;
          pad = q.pad;
          ending = regrouped got bs l q.behind q.pad q.ending;
          room = q.room;
          left = q.left;
        },
      )

  -- When realloc always finds memory, the peer sends a text without a line feed, then a line feed
  -- and more, and the loop has more rounds than the text has bytes: the inner loop never writes
  -- outside the command, whatever the pieces, and ends with all that was read in the command, in
  -- order, at least one byte of room behind it, and the bytes behind the line feed counted; what was
  -- sent and not read is left.
  pub receive_command-GotLine :
      (fuel : ℕ) (b : Buffer) (got l p : List ℕ) (events : List Event)
      → Holds b got
      → NoLine l
      → sent events ≡ l ++ 10 ∷ p
      → length l < fuel
      → Returns (receive_command fuel grows b events) (GotLine got l p)
  receive_command-GotLine zero b got l p events h none_in e lt = absurd (omega arith)
  receive_command-GotLine (suc fuel) b got l p events h none_in e lt =
      let some_sent : 0 < length (sent events) =
        omega (arith, ap length e, length-append l (10 ∷ p)) in
      let (bs, events', read, split, more, le) = recv-sent 10 events (omega arith) some_sent in
      elim (line_cases bs) [
        | inl no_line ↦
            let (m, el, et, hm) =
              later_line l p bs (sent events') none_in no_line (sym e ∙ split) in
            let shorter : length m < fuel = omega (arith, ap length el, length-append bs m) in
            rw el (
              early_read fuel b got m bs p events events' read more le no_line h
                (λ b' h'. receive_command-GotLine fuel b' (got ++ bs) m p events' h' hm et shorter))
        | inr (l', behind, eb, hl') ↦
            let (el, ep) = same_line l p l' (behind ++ sent events') none_in hl' (
              sym e
              ∙ split
              ∙ ap (λ s. s ++ sent events') eb
              ∙ append_assoc l' (10 ∷ behind) (sent events')) in
            rw el (last_read fuel b got l' behind bs p events events' read eb le hl' ep h)
      ]
