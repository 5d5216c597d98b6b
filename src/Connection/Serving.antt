-- ===== src/Connection/Serving.antt =====
-- The outer loop of `handle_connection`.
use memuncached.Commands.{World}
use memuncached.Connection.Receiving.{receive_command-GotLine}
use memuncached.Connection.Room.{fresh-Holds}
use memuncached.Connection.LineEnds.{NoLine}
use memuncached.Connection.Trimming.{AllEnds, trim-blank, trim-text}
use memuncached.Connection.{
  Cell, byte, line_end, fresh_buffer, receive_command, handle_read, trim, readable, handle_ending,
  serve,
}
use memuncached.Dispatch.{handle_command}
use memuncached.Double.{Double}
use memuncached.HashTable.{HashTable}
use memuncached.Network.{Event, recv, sent}
use memuncached.Prelude.{
  ℕ, zero, suc, ◌<◌, ◌≡◌, refl, sym, ap, ◌∙◌, Bool, true, false, ◌||◌, List, [], ◌∷◌, ◌++◌, map,
  arith, length, length-append, length-map, append_assoc, ◌==◌,
}
use memuncached.Vector.{Vector}
use memuncached.Run.{ok, fault, out_of_bounds, out_of_fuel, ◌>>=◌}

module _ {R : Type 0} ⦃d : Double R⦄ (grows : ℕ → Bool) where
  spins :
      (fuel : ℕ) (t : HashTable R) (c : Vector ℕ) (o : List ℕ)
      → serve fuel grows
          (record { table = t; clients = c; input = []; out = o; is_thread_running = true })
        ≡ fault out_of_fuel
  unfolding serve receive_command handle_read recv handle_ending
  spins zero t c o = refl
  spins (suc zero) t c o = refl
  spins (suc (suc fuel)) t c o = spins (suc fuel) t c o

  -- When the peer has closed the connection without BYE, no number of rounds ends the running
  -- thread.
  pub serve-closed :
      (fuel : ℕ) (w : World R)
      → w.is_thread_running ≡ true
      → w.input ≡ []
      → serve fuel grows w ≡ fault out_of_fuel
  serve-closed fuel w running closed =
      ap
        (λ (p : List Event × Bool).
          serve fuel grows (record w { input = p.0; is_thread_running = p.1 }))
        (λ i. (closed i, running i))
      ∙ spins fuel w.table w.clients w.out

nothing_behind : (behind rest : List ℕ) → [] ≡ behind ++ rest → (behind ≡ []) × (rest ≡ [])
nothing_behind [] rest e = (refl, sym e)
nothing_behind (c ∷ behind) rest e = absurd (ground (arith, e))

module _ (grows : ℕ → Bool) (memory : (n : ℕ) → grows n ≡ true) where
  -- The one line that was sent is in the command's memory.
  whole_line :
      (fuel : ℕ) (l : List ℕ) (events : List Event)
      → NoLine l
      → sent events ≡ l ++ 10 ∷ []
      → length l < fuel
      → (pad : List Cell) × (events' : List Event) × (receive_command fuel grows fresh_buffer events
          ≡ ok (line_end (map byte (l ++ 10 ∷ []) ++ pad) (length (l ++ 10 ∷ [])) 0, events'))
        × (sent events' ≡ [])
  whole_line fuel l events none_in e lt =
      let (r, run, got) =
        receive_command-GotLine grows memory fuel fresh_buffer [] l [] events fresh-Holds none_in e
          lt in
      let (eb, es) = nothing_behind got.behind (sent r.1) got.left in
      (got.pad, r.1, run ∙ ap (λ x. ok (x, r.1)) (rw eb at got.ending), es)

AllEnds-snoc : (l : List ℕ) → AllEnds l → AllEnds (l ++ 10 ∷ [])
AllEnds-snoc [] h = (refl, tt)
AllEnds-snoc (c ∷ l) h = (h.0, AllEnds-snoc l h.1)

map-append : (s t : List ℕ) → map byte (s ++ t) ≡ map byte s ++ map byte t
map-append [] t = refl
map-append (c ∷ s) t = ap (λ l. byte c ∷ l) (map-append s t)

readable-append :
    (s : List ℕ) (rest : List Cell) → readable (map byte s ++ rest) ≡ s ++ readable rest
readable-append [] rest = refl
readable-append (c ∷ s) rest = ap (λ l. c ∷ l) (readable-append s rest)

-- The trimmed command: the text, then zeros.
trim_line :
    (s : List ℕ) (c : ℕ) (pad : List Cell)
    → ((c == 13) || (c == 10)) ≡ false
    → trim
        (length ((s ++ c ∷ 13 ∷ []) ++ 10 ∷ []))
        (map byte ((s ++ c ∷ 13 ∷ []) ++ 10 ∷ []) ++ pad)
      ≡ ok (map byte s ++ byte c ∷ (byte 0 ∷ byte 0 ∷ pad))
trim_line s c pad h =
    let same : (s ++ c ∷ 13 ∷ []) ++ 10 ∷ [] ≡ s ++ c ∷ 13 ∷ 10 ∷ [] =
      append_assoc s (c ∷ 13 ∷ []) (10 ∷ []) in
    let width = length-append s (c ∷ 13 ∷ 10 ∷ []) in
    ap (λ l. trim (length l) (map byte l ++ pad)) same
    ∙ ap (λ l. trim (length (s ++ c ∷ 13 ∷ 10 ∷ [])) (l ++ pad)) (map-append s (c ∷ 13 ∷ 10 ∷ []))
    ∙ ap (trim (length (s ++ c ∷ 13 ∷ 10 ∷ [])))
        (append_assoc (map byte s) (map byte (c ∷ 13 ∷ 10 ∷ [])) pad)
    ∙ trim-text (map byte s) c (13 ∷ 10 ∷ []) pad (length (s ++ c ∷ 13 ∷ 10 ∷ []))
        (omega (arith, width, length-map s byte)) h (refl, (refl, tt))

module _ {R : Type 0} ⦃d : Double R⦄ (grows : ℕ → Bool) (memory : (n : ℕ) → grows n ≡ true)
    (fuel : ℕ) (w : World R) (running : w.is_thread_running ≡ true) where
  -- When the one line that the peer sends has carriage returns alone, or nothing, before its line
  -- feed, the running thread looks at the byte before the command.
  pub serve-blank :
      (l : List ℕ)
      → NoLine l
      → AllEnds l
      → sent w.input ≡ l ++ 10 ∷ []
      → length l < fuel
      → serve (suc fuel) grows w ≡ fault out_of_bounds
  unfolding serve handle_ending
  serve-blank l none_in ends e lt =
      let (pad, events', run, _) = whole_line grows memory fuel l w.input none_in e lt in
      rw (running, run, trim-blank (l ++ 10 ∷ []) pad (AllEnds-snoc l ends))

  pub serve-line :
      (s : List ℕ) (c : ℕ)
      → NoLine (s ++ c ∷ 13 ∷ [])
      → ((c == 13) || (c == 10)) ≡ false
      → sent w.input ≡ (s ++ c ∷ 13 ∷ []) ++ 10 ∷ []
      → length (s ++ c ∷ 13 ∷ []) < fuel
      → (rest : List ℕ) × (events : List Event) × (serve (suc fuel) grows w ≡ (
          handle_command fuel (record w { input = events }) (s ++ c ∷ 0 ∷ 0 ∷ rest) 0 >>= λ w'.
          serve fuel grows w'))
        × (sent events ≡ [])
  unfolding serve handle_ending
  serve-line s c none_in h e lt =
      let (pad, events', run, left) =
        whole_line grows memory fuel (s ++ c ∷ 13 ∷ []) w.input none_in e lt in
      (
        readable pad,
        events',
        rw (running, run, trim_line s c pad h, readable-append s (byte c ∷ byte 0 ∷ byte 0 ∷ pad)),
        left,
      )
