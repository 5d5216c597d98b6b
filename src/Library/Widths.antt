-- ===== src/Library/Widths.antt =====
-- About the lengths of a reply and of what has been read of it.
use memuncached.Library.Reply.{
  Reply, status_text, header_text, body_text, reply_text, status_cut, header_cut, type_cut,
  type_text,
}
use memuncached.Library.Stages.{Held, Phase, in_status, in_header, in_body, Stage}
use memuncached.Library.{Scan}
use memuncached.Libc.{print_decimal}
use memuncached.Prelude.Int.{pos}
use memuncached.Prelude.{
  ℕ, ◌+◌, ◌≡◌, ap, List, [], ◌∷◌, ◌++◌, Option, none, some, arith, length, length-append, crlf,
}

module _ (r : Reply) where
  pub reply_width :
      length (reply_text r)
      ≡ length (status_text r) + 1 + length (header_text r) + 1 + length r.body + 3
  reply_width = omega (
    arith,
    length-append (status_text r) (10 ∷ (header_text r ++ 10 ∷ body_text r)),
    length-append (header_text r) (10 ∷ body_text r),
    length-append r.body (0 ∷ crlf),
  )

  pub status_width : length (status_cut r) ≡ length (status_text r) + 1
  status_width =
      omega
        (arith, length-append r.description (0 ∷ 10 ∷ []), length-append r.description (13 ∷ []))

  pub header_width : length (header_cut r) ≡ length (header_text r) + 1
  header_width = width r.type
    where
      width :
          (t : Option ℕ)
          → length (print_decimal (pos (length r.body)) ++ type_cut t)
            ≡ length (print_decimal (pos (length r.body)) ++ type_text t) + 1
      width none = omega (
        arith,
        length-append (print_decimal (pos (length r.body))) (type_cut none),
        length-append (print_decimal (pos (length r.body))) (type_text none),
      )
      width (some t) = omega (
        arith,
        length-append (print_decimal (pos (length r.body))) (type_cut (some t)),
        length-append (print_decimal (pos (length r.body))) (type_text (some t)),
        length-append (print_decimal (pos t)) (0 ∷ 10 ∷ []),
        length-append (print_decimal (pos t)) (13 ∷ []),
      )

  -- What was read and what will come is the reply and what follows it.
  pub read-all :
      (more out late : List ℕ) (n : ℕ) (s : Scan) (rest : List ℕ)
      → Stage r more out late n rest s
      → s.total_size + length rest ≡ length (reply_text r) + length more
  read-all more out late n s rest stage = at_phase stage.phase stage.held
    where
      at_phase :
          {a got : List ℕ}
          → Phase r more a got (got ++ rest) n s.line_number s.payload_read_size s.client.response
          → Held a got rest out late s
          → s.total_size + length rest ≡ length (reply_text r) + length more
      at_phase {a} {got} (in_status ea el ep et e) held = omega (
        arith,
        ap length ea,
        ap length e,
        held.total,
        reply_width,
        length-append got rest,
        length-append (status_text r) (10 ∷ (header_text r ++ 10 ∷ (body_text r ++ more))),
        length-append (header_text r) (10 ∷ (body_text r ++ more)),
        length-append (body_text r) more,
        length-append r.body (0 ∷ crlf),
      )
      at_phase {a} {got} (in_header ea el ep et st e) held = omega (
        arith,
        ap length ea,
        ap length e,
        held.total,
        reply_width,
        status_width,
        length-append got rest,
        length-append (header_text r) (10 ∷ (body_text r ++ more)),
        length-append (body_text r) more,
        length-append r.body (0 ∷ crlf),
      )
      at_phase {a} {got} (in_body ea el en st b e) held = omega (
        arith,
        ap length ea,
        ap length e,
        held.total,
        reply_width,
        status_width,
        header_width,
        length-append (status_cut r) (header_cut r),
        length-append got rest,
        length-append (body_text r) more,
        length-append r.body (0 ∷ crlf),
      )
