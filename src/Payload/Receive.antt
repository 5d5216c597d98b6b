-- ===== src/Payload/Receive.antt =====
-- The loop of `memuncached_set` that receives the payload.
use memuncached.Payload.{recv_payload}
use memuncached.Memory.{write, write-append}
use memuncached.Network.{Event, piece, broken, bytes, recv, rest_of, sent}
use memuncached.Prelude.{
  ℕ, zero, suc, ◌+◌, ◌-◌, ◌≤◌, ◌<◌, ◌≡◌, refl, sym, ap, ◌∙◌, false, List, [], ◌∷◌, ◌++◌, some,
  arith, length, length-append, length-take, length-drop, take, drop, append_assoc,
  take-append-drop, take-append, drop-append, ◌==◌,
}
use memuncached.Run.{ok, fault, out_of_fuel, Returns}

pub sent-rest_of :
    (cs : List ℕ) (events : List Event) → sent (rest_of cs events) ≡ cs ++ sent events
unfolding rest_of
sent-rest_of [] events = refl
sent-rest_of (c ∷ cs) events = refl

sent_split :
    (cs : List ℕ) (n : ℕ) (events : List Event)
    → cs ++ sent events ≡ take n cs ++ sent (rest_of (drop n cs) events)
sent_split cs n events =
    rw (sent-rest_of (drop n cs) events, ← append_assoc (take n cs) (drop n cs) (sent events))
      (ap (λ l. l ++ sent events) (sym (take-append-drop n cs)))

-- A read takes a first part of what was sent, at least one byte if there is one and room for it.
pub recv-sent :
    (n : ℕ) (events : List Event)
    → 0 < n
    → 0 < length (sent events)
    → (bs : List ℕ) × (events' : List Event) × (recv n events ≡ (bytes bs, events'))
      × (sent events ≡ bs ++ sent events')
      × (0 < length bs)
      × (length bs ≤ n)
recv-sent n [] pos h = elim h [ ]
recv-sent n (broken ∷ events) pos h = elim h [ ]
recv-sent n (piece c cs ∷ events) pos h =
    let cut = take-append-drop n (c ∷ cs) in
    let k = length-take n (c ∷ cs) in
    (
      take n (c ∷ cs),
      rest_of (drop n (c ∷ cs)) events,
      unfold recv in refl,
      sent_split (c ∷ cs) n events,
      omega arith,
      omega arith,
    )

-- One round that reads `bs`, the first bytes of what was sent, into the missing part `m`.
module _ (front m bs : List ℕ) (events events' : List Event)
    (split : sent events ≡ bs ++ sent events') (le : length bs ≤ length m) where
  read_into :
      write (front ++ m) (length (front ++ m) - length m) bs
      ≡ ok ((front ++ bs) ++ drop (length bs) m)
  read_into =
      let parts : front ++ m ≡ front ++ (take (length bs) m ++ drop (length bs) m) =
        ap (λ l. front ++ l) (sym (take-append-drop (length bs) m)) in
      let start : length (front ++ m) - length m ≡ length front =
        omega (arith, length-append front m) in
      rw (start, parts, append_assoc front bs (drop (length bs) m))
        (write-append bs front (take (length bs) m) (drop (length bs) m) (length front) refl
          (omega (arith, length-take (length bs) m)))

  missing : length (drop (length bs) m) ≡ length m - length bs
  missing = length-drop (length bs) m

  still_sent : length (sent events) ≡ length bs + length (sent events')
  still_sent = ap length split ∙ length-append bs (sent events')

  taken :
      (front ++ bs) ++ take (length (drop (length bs) m)) (sent events')
      ≡ front ++ take (length m) (sent events)
  taken =
      append_assoc front bs _
      ∙ ap (λ l. front ++ l)
          (sym (take-append bs (sent events') (length m) _ (omega (arith, missing))))
      ∙ ap (λ l. front ++ take (length m) l) (sym split)

  gone : drop (length (drop (length bs) m)) (sent events') ≡ drop (length m) (sent events)
  gone =
      sym (drop-append bs (sent events') (length m) _ (omega (arith, missing)))
      ∙ ap (λ l. drop (length m) l) (sym split)

-- The run ends with the missing part `mid` filled from what was sent.
abbrev pub Completes : ℕ → List ℕ → List ℕ → List Event → Type 0
Completes fuel front mid events =
    Returns (recv_payload fuel (front ++ mid) (length mid) events) λ r.
      (r.0 ≡ some (front ++ take (length mid) (sent events)))
      × (sent r.1 ≡ drop (length mid) (sent events))

one_round :
    (fuel : ℕ) (front m bs : List ℕ) (events events' : List Event)
    → recv (length m) events ≡ (bytes bs, events')
    → sent events ≡ bs ++ sent events'
    → 0 < length m
    → length bs ≤ length m
    → Completes fuel (front ++ bs) (drop (length bs) m) events'
    → Completes (suc fuel) front m events
unfolding recv_payload
one_round fuel front m bs events events' read split pos le (r, run, (e, e')) =
    let more : (length m == 0) ≡ false = ground arith in
    let got : (recv (length m) events).0 ≡ bytes bs = ap (λ p. p.0) read in
    let next : (recv (length m) events).1 ≡ events' = ap (λ p. p.1) read in
    (
      r,
      rw
          (
            more,
            got,
            read_into front m bs events events' split le,
            next,
            ← missing front m bs events events' split le,
          )
          run,
      (
        e ∙ ap some (taken front m bs events events' split le),
        e' ∙ gone front m bs events events' split le,
      ),
    )

some_rounds :
    (fuel : ℕ) (front m : List ℕ) (events : List Event)
    → ((front' mid : List ℕ) (events' : List Event)
        → length mid < fuel
        → length mid ≤ length (sent events')
        → Completes fuel front' mid events')
    → 0 < length m
    → length m < suc fuel
    → length m ≤ length (sent events)
    → Completes (suc fuel) front m events
some_rounds fuel front m events ih pos h s =
    let (bs, events', read, split, some_read, le) = recv-sent (length m) events pos (omega arith) in
    let left = missing front m bs events events' split le in
    let more = still_sent front m bs events events' split le in
    one_round fuel front m bs events events' read split pos le
      (ih (front ++ bs) (drop (length bs) m) events' (omega arith) (omega arith))

-- When the peer sends the missing bytes of a payload, in whatever pieces, one round more than bytes
-- are missing is enough for the loop to end with the payload completed by them, in order, and with
-- what is sent behind them left to read.
pub recv_payload-sent :
    (fuel : ℕ) (front mid : List ℕ) (events : List Event)
    → length mid < fuel
    → length mid ≤ length (sent events)
    → Completes fuel front mid events
unfolding recv_payload
recv_payload-sent zero front mid events h s = absurd (omega arith)
recv_payload-sent (suc fuel) front [] events h s =
    ((some (front ++ []), events), refl, (refl, refl))
recv_payload-sent (suc fuel) front (x ∷ mid) events h s =
    some_rounds fuel front (x ∷ mid) events (recv_payload-sent fuel) (omega arith) h s

-- When the peer has closed the connection and a byte of the payload is missing, no number of rounds
-- ends the loop: `recv` returns 0, which is not below 0, again and again.
pub recv_payload-closed :
    (fuel : ℕ) (payload : List ℕ) (v_len : ℕ)
    → 0 < v_len
    → recv_payload fuel payload v_len [] ≡ fault out_of_fuel
unfolding recv_payload recv write
recv_payload-closed zero payload v_len h = refl
recv_payload-closed (suc fuel) payload v_len h =
    let more : (v_len == 0) ≡ false = ground arith in
    let same : v_len - 0 ≡ v_len = omega arith in
    rw (more, same) (recv_payload-closed fuel payload v_len h)
