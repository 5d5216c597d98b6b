-- ===== src/Library/Status.antt =====
-- What `memuncached_recv` does in the first line of a reply, and at its end.
use memuncached.Connection.{Cell}
use memuncached.Library.Lines.{
  cells, end_line-cells, put-cells, number_at-cells, find_line_end-none, find_line_end-line,
}
use memuncached.Library.Reply.{
  Reply, IsReply, reply_code, code_text, status_text, header_text, status_cut, header_cut, type_of,
  code_text-IsText, atoi-code, status_text-NoLine,
}
use memuncached.Library.{find_line_end, Scan, take_status, status_line}
use memuncached.Libc.{print_decimal}
use memuncached.Connection.LineEnds.{NoLine}
use memuncached.Prelude.Int.{pos}
use memuncached.Prelude.{
  ℕ, ◌+◌, ◌-◌, ◌<◌, ◌≡◌, refl, sym, ap, ◌∙◌, true, false, if_true, if_false, Bool-cases, inl, inr,
  List, [], ◌∷◌, ◌++◌, Option, none, some, arith, length, length-append, append_assoc, ◌==◌,
}
use memuncached.Run.{ok, bind_ok}

-- The end of the second line when only its carriage return is set to zero.
abbrev pub cut_feed : Option ℕ → List ℕ
cut_feed none = 0 ∷ 10 ∷ []
cut_feed (some t) = b' ' ∷ (print_decimal (pos t) ++ 0 ∷ 10 ∷ [])

-- The scan behind the first line.
abbrev pub behind_status : Reply → List ℕ → List Cell → Scan → Scan
behind_status r q pad s = record s {
  client = record s.client {
    buffer = cells (status_cut r ++ q) pad;
    response = record s.client.response { code = pos (reply_code r); description = some 4 };
  };
  line_number = s.line_number + 1;
  line_start = length (status_text r) + 1;
}

-- The scan behind the second line, the first bytes being `a`.
abbrev pub behind_header : Reply → List ℕ → List ℕ → List Cell → Scan → Scan
behind_header r a q pad s = record s {
  client = record s.client {
    buffer = cells (a ++ (header_cut r ++ q)) pad;
    response = record s.client.response {
      body_size = length r.body;
      body = some (length a + length (header_text r) + 1);
      body_type = type_of r.type;
    };
  };
  line_number = s.line_number + 1;
  line_start = length a + length (header_text r) + 1;
  read_size = length q;
}

module _ (r : Reply) (h : IsReply r) (q : List ℕ) (pad : List Cell) where
  take_status-text :
      (s : Scan)
      → s.client.buffer ≡ cells (status_text r ++ 10 ∷ q) pad
      → s.line_start ≡ 0
      → take_status s (length (status_text r)) ≡ ok (behind_status r q pad s)
  unfolding take_status
  take_status-text s eb es =
      let d = r.description in
      let split : (d ++ 13 ∷ []) ++ 10 ∷ q ≡ d ++ 13 ∷ 10 ∷ q = append_assoc d (13 ∷ []) (10 ∷ q) in
      let joined : d ++ 0 ∷ 10 ∷ q ≡ (d ++ 0 ∷ 10 ∷ []) ++ q =
        sym (append_assoc d (0 ∷ 10 ∷ []) q) in
      let width = length-append d (13 ∷ []) in
      rw
        (
          eb,
          es,
          split,
          end_line-cells (code_text r ++ b' ' ∷ d) (10 ∷ q) pad (length (status_text r))
              (omega (arith, width)),
          put-cells (code_text r) b' ' 0 (d ++ 0 ∷ 10 ∷ q) pad 3 refl,
          number_at-cells [] (code_text r) (d ++ 0 ∷ 10 ∷ q) pad 0 refl (code_text-IsText r h),
          atoi-code r h,
          joined,
        )
        refl

  pub status_line-text :
      (s : Scan)
      → s.client.buffer ≡ cells (status_text r ++ 10 ∷ q) pad
      → s.line_start ≡ 0
      → s.line_number ≡ 0
      → s.stale ≡ false
      → s.total_size ≡ length (status_text r ++ 10 ∷ q)
      → status_line s ≡ ok (behind_status r q pad s)
  unfolding status_line
  status_line-text s eb es en ef et =
      let first : (s.line_number == 0) ≡ true = ap (λ n. n == 0) en in
      let found =
        find_line_end-line pad [] (status_text r) q (s.total_size - s.line_start) s.line_start
          (omega arith) es (status_text-NoLine r h) in
      if_true _ _ first
      ∙ if_false _ _ ef
      ∙ bind_ok _ (ap (λ b. find_line_end (s.total_size - s.line_start) b s.line_start) eb ∙ found)
      ∙ ap (take_status s) (omega arith)
      ∙ take_status-text s eb es

-- The first line is not complete.
pub status_line-NoLine :
    (got : List ℕ) (pad : List Cell) (s : Scan)
    → s.client.buffer ≡ cells got pad
    → s.line_start ≡ 0
    → s.stale ≡ false
    → s.total_size ≡ length got
    → NoLine got
    → status_line s ≡ ok s
unfolding status_line
status_line-NoLine got pad s eb es ef et none_in =
    let found =
      find_line_end-none pad [] got (s.total_size - s.line_start) s.line_start (omega arith) es
        none_in in
    elim (Bool-cases (s.line_number == 0)) [
      | inl first ↦
          if_true _ _ first
          ∙ if_false _ _ ef
          ∙ bind_ok _
              (ap (λ b. find_line_end (s.total_size - s.line_start) b s.line_start) eb ∙ found)
      | inr later ↦ if_false _ _ later
    ]

pub status_line-later : (s : Scan) → 0 < s.line_number → status_line s ≡ ok s
unfolding status_line
status_line-later s h =
    let later : (s.line_number == 0) ≡ false = ground arith in if_false _ _ later
