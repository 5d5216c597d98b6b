-- ===== src/Library/Dangling.antt =====
-- What `memuncached_recv` does with a `line_start` that points into released memory.
use memuncached.Connection.{Cell, byte}
use memuncached.Library.Lines.{cells}
use memuncached.Library.Receiving.{loop_round}
use memuncached.Library.{
  Realloc, in_place, moved, Scan, status_line, header_line, is_complete, parse, store_read, grow,
  handle_received, recv_loop, count_payload,
}
use memuncached.Memory.{write}
use memuncached.Network.{Event, piece, failed, bytes, recv}
use memuncached.Prelude.{
  ℕ, suc, ◌+◌, ◌-◌, ◌*◌, ◌^◌, ◌<◌, ◌≤◌, ◌≡◌, sym, ap, ◌∙◌, Bool, true, false, if_true, if_false,
  Bool-cases, inl, inr, if◌then◌else◌, ◌∷◌, length-take, List, map, arith, length, ltb, ◌==◌,
}
use memuncached.Run.{Run, ok, fault, released, bind_ok, ◌>>=◌}

-- A scan whose `line_start` points into the released buffer.
abbrev pub dangling : Scan → Scan
dangling s = record s { stale = true }

store_dangling :
    (m : Run (List Cell)) (s t : Scan) (n : ℕ)
    → (m >>= λ cells. ok (record s {
      client = record s.client { buffer = cells };
      read_size = n;
      total_size = s.total_size + n;
    }))
      ≡ ok t
    → (m >>= λ cells. ok (record (dangling s) {
      client = record s.client { buffer = cells };
      read_size = n;
      total_size = s.total_size + n;
    }))
      ≡ ok (dangling t)
store_dangling (ok cells) s t n e = ap (λ (x : Run Scan). x >>= λ u. ok (dangling u)) e
store_dangling (fault f) s t n e = absurd cc

-- A read is stored as before, but the next look at the line is a fault.
dangling-store_read :
    (s t : Scan) (bs : List ℕ)
    → store_read s bs ≡ ok t
    → store_read (dangling s) bs ≡ ok (dangling t)
unfolding store_read
dangling-store_read s t bs e =
    store_dangling (write s.client.buffer s.total_size (map byte bs)) s t (length bs) e

parse-dangling : (t : Scan) → t.line_number < 2 → parse (dangling t) ≡ fault released
unfolding parse status_line header_line
parse-dangling t h = elim (Bool-cases (t.line_number == 0)) [
  | inl first ↦
      ap (λ (m : Run Scan). m >>= λ u. header_line u >>= λ v. ok (count_payload v))
        (if_true _ _ first)
  | inr later ↦
      let second : (t.line_number == 1) ≡ true = ground arith in
      ap (λ (m : Run Scan). m >>= λ u. header_line u >>= λ v. ok (count_payload v))
        (if_false _ _ later)
      ∙ ap (λ (m : Run Scan). m >>= λ v. ok (count_payload v)) (if_true _ _ second)
]

pub grow-moved :
    (realloc : ℕ → Realloc) (s wide : Scan)
    → ltb s.client.buffer_size (s.total_size + 1) ≡ true
    → s.client.buffer_size < 2 ^ 30
    → realloc (s.client.buffer_size * 2) ≡ moved
    → grow (λ n. in_place) s ≡ ok (true, wide)
    → grow realloc s ≡ ok (true, dangling wide)
unfolding grow
grow-moved realloc s wide full small e run =
    let fits : ltb (s.client.buffer_size * 2) (2 ^ 31) ≡ true = ground arith in
    let inside = sym (if_true _ _ full ∙ if_true _ _ fits) ∙ run in
    if_true _ _ full
    ∙ if_true _ _ fits
    ∙ rw e (ap (λ (m : Run (Bool × Scan)). m >>= λ p. ok (p.0, dangling p.1)) inside)

stored-line :
    (m : Run (List Cell)) (s t : Scan) (n : ℕ)
    → (m >>= λ cells. ok (record s {
      client = record s.client { buffer = cells };
      read_size = n;
      total_size = s.total_size + n;
    }))
      ≡ ok t
    → (t.line_number ≡ s.line_number) × (t.client.buffer_size ≡ s.client.buffer_size)
stored-line (ok cells) s t n e = (
  sym (ap (λ (x : Run Scan). elim x [ ok u ↦ u.line_number | fault f ↦ 0 ]) e),
  sym (ap (λ (x : Run Scan). elim x [ ok u ↦ u.client.buffer_size | fault f ↦ 0 ]) e),
)
stored-line (fault f) s t n e = absurd cc

pub store_read-line :
    (s t : Scan) (bs : List ℕ)
    → store_read s bs ≡ ok t
    → (t.line_number ≡ s.line_number) × (t.client.buffer_size ≡ s.client.buffer_size)
unfolding store_read
store_read-line s t bs e =
    stored-line (write s.client.buffer s.total_size (map byte bs)) s t (length bs) e

-- The round that reads on in a released line.
pub dangling-round :
    (realloc : ℕ → Realloc) (fuel : ℕ) (s t : Scan) (bs : List ℕ) (events : List Event)
    → recv (s.client.buffer_size - s.total_size) s.client.input ≡ (bytes bs, events)
    → 0 < length bs
    → store_read (record s { client = record s.client { input = events } }) bs ≡ ok t
    → s.line_number < 2
    → recv_loop (suc fuel) realloc (dangling s) ≡ fault released
unfolding handle_received
dangling-round realloc fuel s t bs events read more_read e line =
    let some_read : (length bs == 0) ≡ false = ground arith in
    let s' = record s { client = record s.client { input = events } } in
    let later : t.line_number < 2 = omega (arith, (store_read-line s' t bs e).0) in
    loop_round realloc fuel (dangling s) bs events read
    ∙ if_false _ _ some_read
    ∙ bind_ok _ (dangling-store_read s' t bs e)
    ∙ ap
        (λ (m : Run Scan). m >>= λ u.
          if is_complete u
          then ok (true, u.client)
          else grow realloc u >>= λ p. elim p.0 [
            | true ↦ recv_loop fuel realloc p.1
            | false ↦ ok (false, p.1.client)
          ])
        (parse-dangling t later)

pub recv-full :
    (n x : ℕ) (xs : List ℕ) (events : List Event) (bs : List ℕ) (events' : List Event)
    → n ≤ length (x ∷ xs)
    → recv n (piece x xs ∷ events) ≡ (bytes bs, events')
    → length bs ≡ n
unfolding recv
recv-full n x xs events bs events' full e =
    sym (ap (λ p. elim p.0 [ failed ↦ 0 | bytes b ↦ length b ]) e)
    ∙ omega (arith, length-take n (x ∷ xs))
