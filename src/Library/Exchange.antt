-- ===== src/Library/Exchange.antt =====
-- A GET of the client library with the thread of the server that answers it.
use memuncached.Commands.Replies.{bucket_text, IsShort, get-reply}
use memuncached.Commands.{World, reply}
use memuncached.Connection.LineEnds.{NoLine}
use memuncached.Connection.Serving.{serve-line}
use memuncached.Connection.{serve}
use memuncached.Dispatch.Branches.{line, get-line}
use memuncached.Dispatch.Lines.{IsArgument, argument-IsWord}
use memuncached.Dispatch.Words.{IsWord}
use memuncached.Dispatch.{is_delimiter, handle_command}
use memuncached.Double.{Double}
use memuncached.HashTable.Invariant.{IsValid, bucket, slot}
use memuncached.Libc.{same_case}
use memuncached.Library.Getting.{CellIsPrintable, Outcome, receive_value-Outcome}
use memuncached.Library.Receiving.{IsClient}
use memuncached.Library.Requests.{ValueResult, send}
use memuncached.Library.Values.{client_get}
use memuncached.Library.{Client, Realloc, in_place}
use memuncached.Network.{sent}
use memuncached.Prelude.{
  ℕ, suc, ◌^◌, ◌<◌, ◌≡◌, refl, sym, ap, ◌∙◌, Bool, true, false, ◌||◌, List, [], ◌∷◌, ◌++◌, some,
  arith, codes, crlf, length, length-append, append_assoc, ◌==◌,
}
use memuncached.Run.{ok, bind_ok, Returns}

word_byte :
    (c : ℕ)
    → ((c == 0) || is_delimiter c) ≡ false
    → ((c == 10) ≡ false) × (((c == 13) || (c == 10)) ≡ false)
unfolding is_delimiter
word_byte c h = (ground arith, ground arith)

-- A word as its bytes before the last one, and that one.
last_byte :
    (c : ℕ) (s : List ℕ)
    → IsWord (c ∷ s)
    → (a : List ℕ) × (b : ℕ) × (c ∷ s ≡ a ++ b ∷ [])
      × (((b == 13) || (b == 10)) ≡ false)
      × NoLine (a ++ b ∷ 13 ∷ [])
last_byte c [] h = ([], c, refl, (word_byte c h.0).1, ((word_byte c h.0).0, (refl, tt)))
last_byte c (d ∷ s) h =
    let (a, b, e, stop, no_line) = last_byte d s h.1 in
    (c ∷ a, b, ap (λ l. c ∷ l) e, stop, ((word_byte c h.0).0, no_line))

argument_end :
    (key : List ℕ)
    → IsArgument key
    → (a : List ℕ) × (b : ℕ) × (key ≡ a ++ b ∷ [])
      × (((b == 13) || (b == 10)) ≡ false)
      × NoLine (a ++ b ∷ 13 ∷ [])
argument_end [] h = absurd h
argument_end (c ∷ s) h = last_byte c s (argument-IsWord (c ∷ s) h)

name-IsArgument : IsArgument (codes "GET")
unfolding is_delimiter
name-IsArgument = ((refl, (refl, (refl, tt))), (omega arith, (omega arith, (omega arith, tt))))

module _ {R : Type 0} ⦃d : Double R⦄ where
  -- The thread that reads the request for a key.
  served :
      (grows : ℕ → Bool) (memory : (n : ℕ) → grows n ≡ true) (fuel : ℕ) (w : World R) (key : List ℕ)
      → w.is_thread_running ≡ true
      → IsArgument key
      → IsValid w.table
      → IsShort (bucket w.table key)
      → sent w.input ≡ codes "GET " ++ (key ++ crlf)
      → length (sent w.input) < fuel
      → (w' : World R) × (serve (suc fuel) grows w ≡ serve fuel grows w')
        × (w'.table ≡ w.table)
        × (w'.out ≡ w.out ++ bucket_text (bucket w.table key))
  unfolding same_case memuncached.Libc.tolower
  served grows memory fuel w key running hk valid short e lt =
      let (a, b, ek, stop, no_line) = argument_end key hk in
      let whole : sent w.input ≡ ((codes "GET " ++ a) ++ b ∷ 13 ∷ []) ++ 10 ∷ [] =
        e
        ∙ ap (λ k. codes "GET " ++ (k ++ crlf)) ek
        ∙ ap (λ l. codes "GET " ++ l)
            (append_assoc a (b ∷ []) crlf ∙ sym (append_assoc a (b ∷ 13 ∷ []) (10 ∷ []))) in
      let fits : length ((codes "GET " ++ a) ++ b ∷ 13 ∷ []) < fuel =
        omega
          (arith, ap length whole, length-append ((codes "GET " ++ a) ++ b ∷ 13 ∷ []) (10 ∷ [])) in
      let (rest, events, run, left) =
        serve-line grows memory fuel w running (codes "GET " ++ a) b
          (refl, (refl, (refl, (refl, no_line)))) stop whole fits in
      let w' : World R = record w { input = events } in
      let text : (codes "GET " ++ a) ++ b ∷ 0 ∷ 0 ∷ rest
          ≡ line (codes "GET") (key ∷ []) (0 ∷ rest) =
        ap (λ l. codes "GET " ++ l)
          (sym (append_assoc a (b ∷ []) (0 ∷ 0 ∷ rest)) ∙ ap (λ k. k ++ 0 ∷ 0 ∷ rest) (sym ek)) in
      let handled : handle_command fuel w' ((codes "GET " ++ a) ++ b ∷ 0 ∷ 0 ∷ rest) 0
          ≡ ok (reply w' (bucket_text (bucket w.table key))) =
        ap (λ l. handle_command fuel w' l 0) text
        ∙ get-line fuel w' (codes "GET") key (0 ∷ rest) 0 name-IsArgument hk refl
        ∙ get-reply w' key valid short in
      (reply w' (bucket_text (bucket w.table key)), run ∙ bind_ok _ handled, refl, refl)

  module _ (grows memory : ℕ → Bool) (realloc : ℕ → Realloc) (grown : (n : ℕ) → grows n ≡ true)
      (found : (n : ℕ) → memory n ≡ true) (kept_place : (n : ℕ) → realloc n ≡ in_place) where
    pub get_exchange :
        (fuel : ℕ) (w : World R) (c : Client) (key : List ℕ) (result : ValueResult R)
        → w.is_thread_running ≡ true
        → IsValid w.table
        → IsArgument key
        → IsShort (bucket w.table key)
        → CellIsPrintable (bucket w.table key)
        → IsClient c
        → sent w.input ≡ codes "GET " ++ (key ++ crlf)
        → sent c.input ≡ bucket_text (bucket w.table key)
        → length (sent c.input) < 2 ^ 30
        → length (sent w.input) < fuel
        → length (sent c.input) < fuel
        → ((w' : World R) × (serve (suc fuel) grows w ≡ serve fuel grows w')
            × (w'.table ≡ w.table)
            × (w'.out ≡ w.out ++ sent c.input))
          × Returns
              (client_get memory fuel realloc c key (some result))
              λ p. Outcome (bucket w.table key) result p × (p.2.out ≡ c.out ++ sent w.input)
    unfolding client_get send slot
    get_exchange fuel w c key result running valid hk short printable good asked answered size lt
          lt' =
        let (w', run, table, out) = served grows grown fuel w key running hk valid short asked lt in
        let long = ap length answered in
        let request = codes "GET " ++ (key ++ crlf) in
        let (p, got, (outcome, written)) =
          receive_value-Outcome memory found realloc kept_place (bucket w.table key) fuel
            (record c { out = c.out ++ request }) result (valid.cells (slot w.table key)) printable
            (record { size = good.size; some_room = good.some_room }) answered (omega (arith, long))
            (omega (arith, long)) in
        (
          (w', run, table, out ∙ ap (λ s. w.out ++ s) (sym answered)),
          (p, got, (outcome, written ∙ ap (λ s. c.out ++ s) (sym asked))),
        )
