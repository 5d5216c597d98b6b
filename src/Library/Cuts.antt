-- ===== src/Library/Cuts.antt =====
-- What `memuncached_recv` does at a line end: the strings it ends and the numbers it reads.
use memuncached.Library.Status.{behind_header, cut_feed}
use memuncached.Connection.{Cell}
use memuncached.Library.Lines.{
  cells, end_line-cells, put-cells, number_at-cells, find_header_end-none, find_header_end-line,
}
use memuncached.Library.Reply.{
  Reply, IsReply, status_text, type_text, header_text, type_cut, header_cut, body_text, type_of,
  print-IsText, atoi-print, space_of, last_space-header, header_text-NoLine,
}
use memuncached.Library.{
  find_header_end, end_line, Scan, to_size, to_char, number_at, take_type, take_header, header_line,
}
use memuncached.Libc.{print_decimal}
use memuncached.Connection.LineEnds.{NoLine}
use memuncached.Prelude.Int.{pos}
use memuncached.Prelude.{
  ℕ, ◌+◌, ◌-◌, ◌%◌, ◌^◌, ◌<◌, ◌≡◌, refl, sym, ap, ◌∙◌, true, false, if_true, if_false, Bool-cases,
  inl, inr, List, [], ◌∷◌, ◌++◌, Option, none, some, arith, crlf, length, length-append,
  append_assoc, ◌==◌,
}
use memuncached.Run.{ok, bind_ok}

type_size : (t n : ℕ) → n ≡ t → t < 128 → to_char (pos n) ≡ t
unfolding to_char
type_size t n e h = omega arith

take_type-text :
    (t : Option ℕ) (a q : List ℕ) (pad : List Cell) (i : ℕ)
    → i ≡ length a
    → type_of t < 128
    → take_type (cells (a ++ (cut_feed t ++ q)) pad) (space_of i t) 0
      ≡ ok (cells (a ++ (type_cut t ++ q)) pad, type_of t)
unfolding take_type to_char
take_type-text none a q pad i e h = refl
take_type-text (some t) a q pad i e h =
    let number = print_decimal (pos t) in
    let joined : (number ++ 0 ∷ 10 ∷ []) ++ q ≡ number ++ 0 ∷ 10 ∷ q =
      append_assoc number (0 ∷ 10 ∷ []) q in
    let back : a ++ (0 ∷ (number ++ 0 ∷ 10 ∷ q)) ≡ (a ++ 0 ∷ []) ++ (number ++ 0 ∷ 10 ∷ q) =
      sym (append_assoc a (0 ∷ []) (number ++ 0 ∷ 10 ∷ q)) in
    let char : t % 256 ≡ t = omega arith in
    rw
      (
        joined,
        put-cells a b' ' 0 (number ++ 0 ∷ 10 ∷ q) pad i e,
        back,
        number_at-cells (a ++ 0 ∷ []) number (10 ∷ q) pad (i + 1)
            (omega (arith, length-append a (0 ∷ []))) (print-IsText t),
        atoi-print t (omega arith),
        char,
      )
      refl

module _ (r : Reply) (h : IsReply r) (a q : List ℕ) (pad : List Cell) where
  cut_feed-end :
      (i : ℕ)
      → i ≡ length a + length (header_text r)
      → end_line (cells (a ++ (header_text r ++ 10 ∷ q)) pad) i
        ≡ ok (cells ((a ++ print_decimal (pos (length r.body))) ++ (cut_feed r.type ++ q)) pad)
  cut_feed-end i e =
      at_type r.type
        (omega (arith, length-append (print_decimal (pos (length r.body))) (type_text r.type)))
    where
      front : List ℕ
      front = a ++ print_decimal (pos (length r.body))

      at_type :
          (t : Option ℕ)
          → i ≡ length a + length (print_decimal (pos (length r.body))) + length (type_text t)
          → end_line
              (cells (a ++ ((print_decimal (pos (length r.body)) ++ type_text t) ++ 10 ∷ q)) pad)
              i
            ≡ ok (cells (front ++ (cut_feed t ++ q)) pad)
      at_type none k =
          let number = print_decimal (pos (length r.body)) in
          rw (append_assoc number (13 ∷ []) (10 ∷ q), ← append_assoc a number (13 ∷ 10 ∷ q))
            (end_line-cells front (10 ∷ q) pad i (omega (arith, length-append a number)))
      at_type (some t) k =
          let number = print_decimal (pos (length r.body)) in
          let kind = print_decimal (pos t) in
          rw
            (
              append_assoc number (b' ' ∷ (kind ++ 13 ∷ [])) (10 ∷ q),
              ← append_assoc a number (b' ' ∷ ((kind ++ 13 ∷ []) ++ 10 ∷ q)),
              append_assoc kind (13 ∷ []) (10 ∷ q),
              append_assoc kind (0 ∷ 10 ∷ []) q,
              ← append_assoc front (b' ' ∷ kind) (13 ∷ 10 ∷ q),
              ← append_assoc front (b' ' ∷ kind) (0 ∷ 10 ∷ q),
            )
            (end_line-cells (front ++ b' ' ∷ kind) (10 ∷ q) pad i (
              omega (
                arith,
                length-append a number,
                length-append front (b' ' ∷ kind),
                length-append kind (13 ∷ []),
              )))

number_at-size :
    (n : ℕ) (t : Option ℕ) (a q : List ℕ) (pad : List Cell) (i : ℕ)
    → i ≡ length a
    → n < 2 ^ 31
    → number_at (cells ((a ++ print_decimal (pos n)) ++ (type_cut t ++ q)) pad) i ≡ ok (pos n)
number_at-size n none a q pad i e h =
    ap (λ c. number_at (cells c pad) i) (append_assoc a (print_decimal (pos n)) (0 ∷ 10 ∷ q))
    ∙ number_at-cells a (print_decimal (pos n)) (10 ∷ q) pad i e (print-IsText n)
    ∙ ap ok (atoi-print n h)
number_at-size n (some t) a q pad i e h =
    let kind = (print_decimal (pos t) ++ 0 ∷ 10 ∷ []) ++ q in
    ap (λ c. number_at (cells c pad) i) (append_assoc a (print_decimal (pos n)) (0 ∷ kind))
    ∙ number_at-cells a (print_decimal (pos n)) kind pad i e (print-IsText n)
    ∙ ap ok (atoi-print n h)

module _ (r : Reply) (h : IsReply r) (a q : List ℕ) (pad : List Cell) (s : Scan)
    (eb : s.client.buffer ≡ cells (a ++ (header_text r ++ 10 ∷ q)) pad)
    (es : s.line_start ≡ length a) (et : s.client.response.body_type ≡ 0)
    (en : s.total_size ≡ length (a ++ (header_text r ++ 10 ∷ q))) where
  take_header-text :
      take_header s
        (length a + length (header_text r))
        (space_of (length a + length (print_decimal (pos (length r.body)))) r.type)
      ≡ ok (behind_header r a q pad s)
  unfolding take_header to_size
  take_header-text =
      let number = print_decimal (pos (length r.body)) in
      let width = length-append a number in
      let rest : s.total_size - (length a + length (header_text r) + 1) ≡ length q = omega (
        arith,
        en,
        length-append a (header_text r ++ 10 ∷ q),
        length-append (header_text r) (10 ∷ q),
      ) in
      let joined : (a ++ number) ++ (type_cut r.type ++ q) ≡ a ++ (header_cut r ++ q) =
        append_assoc a number (type_cut r.type ++ q)
        ∙ ap (λ l. a ++ l) (sym (append_assoc number (type_cut r.type) q)) in
      let small : length r.body < 2 ^ 31 = omega (
        arith,
        h.size,
        length-append (status_text r) (10 ∷ (header_text r ++ 10 ∷ body_text r)),
        length-append (header_text r) (10 ∷ body_text r),
        length-append r.body (0 ∷ crlf),
      ) in
      rw
        (
          eb,
          cut_feed-end r h a q pad (length a + length (header_text r)) refl,
          et,
          take_type-text r.type (a ++ number) q pad (length a + length number) (omega arith) h.type,
          number_at-size (length r.body) r.type a q pad s.line_start es small,
          joined,
          rest,
        )
        refl

  pub header_line-text :
      s.line_number ≡ 1 → s.stale ≡ false → header_line s ≡ ok (behind_header r a q pad s)
  unfolding header_line
  header_line-text ek ef =
      let n = s.total_size - s.line_start in
      let here : (s.line_number == 1) ≡ true = ap (λ k. k == 1) ek in
      let size : n ≡ length (header_text r ++ 10 ∷ q) =
        omega (arith, en, es, length-append a (header_text r ++ 10 ∷ q)) in
      let found =
        find_header_end-line pad a (header_text r) q n s.line_start none size es
          (header_text-NoLine r) in
      let place : s.line_start + length (header_text r) ≡ length a + length (header_text r) =
        omega arith in
      if_true _ _ here
      ∙ if_false _ _ ef
      ∙ bind_ok _ (ap (λ b. find_header_end n b s.line_start none) eb ∙ found)
      ∙ ap (take_header s (s.line_start + length (header_text r)))
          (last_space-header s.line_start r)
      ∙ ap
          (λ k.
            take_header s (k + length (header_text r))
              (space_of (k + length (print_decimal (pos (length r.body)))) r.type))
          es
      ∙ take_header-text

-- The second line is not complete.
pub header_line-NoLine :
    (a got : List ℕ) (pad : List Cell) (s : Scan)
    → s.client.buffer ≡ cells (a ++ got) pad
    → s.line_start ≡ length a
    → s.stale ≡ false
    → s.total_size ≡ length (a ++ got)
    → NoLine got
    → header_line s ≡ ok s
unfolding header_line
header_line-NoLine a got pad s eb es ef et none_in =
    let n = s.total_size - s.line_start in
    let found =
      find_header_end-none pad a got n s.line_start none (omega (arith, length-append a got)) es
        none_in in
    elim (Bool-cases (s.line_number == 1)) [
      | inl here ↦
          if_true _ _ here
          ∙ if_false _ _ ef
          ∙ bind_ok _ (ap (λ b. find_header_end n b s.line_start none) eb ∙ found)
      | inr other ↦ if_false _ _ other
    ]

pub header_line-other : (s : Scan) → (s.line_number == 1) ≡ false → header_line s ≡ ok s
unfolding header_line
header_line-other s h = if_false _ _ h
