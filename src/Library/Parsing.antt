-- ===== src/Library/Parsing.antt =====
-- What the parsing after a read does in each stage of a reply.
use memuncached.Connection.LineEnds.{line_cases, same_line, later_line}
use memuncached.Library.Cuts.{header_line-text, header_line-NoLine, header_line-other}
use memuncached.Library.Status.{
  behind_status, behind_header, status_line-text, status_line-NoLine, status_line-later,
}
use memuncached.Library.Widths.{reply_width, status_width, header_width}
use memuncached.Library.Lines.{cells}
use memuncached.Library.Reply.{
  Reply, IsReply, status_text, header_text, body_text, reply_text, status_cut, header_cut,
  status_text-NoLine, header_text-NoLine,
}
use memuncached.Library.Stages.{Held, Status, Body, Phase, in_status, in_header, in_body, Stage}
use memuncached.Library.{Scan, header_line, count_payload, is_complete, parse}
use memuncached.Prelude.{
  ℕ, ◌+◌, ◌%◌, ◌^◌, ◌<◌, ◌≡◌, refl, subst, sym, ap, ◌∙◌, true, false, if_false, Bool-cases, inl,
  inr, ◌⊎◌, List, [], ◌∷◌, ◌++◌, some, arith, length, length-append, append_assoc, leb, ◌==◌,
}
use memuncached.Run.{ok, bind_ok, Returns, ◌>>=◌}

module _ (r : Reply) (h : IsReply r) (more out late : List ℕ) where
  -- After the parsing: the reply is complete, or its end has not been read.
  pub record Parsed (size : ℕ) (rest : List ℕ) (s : Scan) : Type 0 where
    pub stage : Stage r more out late s.payload_read_size rest s
    pub same : s.client.buffer_size ≡ size
    pub done : (is_complete s ≡ true) ⊎ (s.total_size < length (reply_text r))

  -- The body is counted.
  count_payload-Parsed :
      (s : Scan) (got rest : List ℕ)
      → Held (status_cut r ++ header_cut r) got rest out late s
      → s.line_number ≡ 2
      → s.payload_read_size + s.read_size ≡ length got
      → Status r s.client.response
      → Body r s.client.response
      → got ++ rest ≡ body_text r ++ more
      → Parsed s.client.buffer_size rest (count_payload s)
  unfolding count_payload is_complete
  count_payload-Parsed s got rest held el en st b e =
      let two : (s.line_number == 2) ≡ true = ap (λ k. k == 2) el in
      let size : length r.body < 2 ^ 30 = omega (arith, h.size, reply_width r) in
      let wrapped : (s.client.response.body_size + 3) % 2 ^ 64 ≡ length r.body + 3 =
        omega (arith, b.size) in
      let width = length-append (status_cut r) (header_cut r) in
      let s' = record s { payload_read_size = s.payload_read_size + s.read_size } in
      rw two (record {
        stage = record {
          a = status_cut r ++ header_cut r;
          got = got;
          held = record {
            pad = held.pad;
            cells = held.cells;
            width = held.width;
            least = held.least;
            total = held.total;
            start = held.start;
            fresh = held.fresh;
            input = held.input;
            written = held.written;
          };
          phase = in_body refl el en st b e;
        };
        same = refl;
        done = elim (Bool-cases (leb (length r.body + 3) (s.payload_read_size + s.read_size))) [
          | inl all ↦ inl (rw (two, wrapped, all) refl)
          | inr some_left ↦
              inr (
                ground
                  (arith, held.total, width, status_width r, header_width r, reply_width r, en))
        ];
      })

  same_count : (s : Scan) → (s.line_number == 2) ≡ false → count_payload s ≡ s
  unfolding count_payload
  same_count s e = if_false _ _ e

  -- The bytes read end in the second line, or behind it.
  header_stage :
      (s : Scan) (got rest : List ℕ)
      → Held (status_cut r) got rest out late s
      → s.line_number ≡ 1
      → s.payload_read_size ≡ 0
      → s.client.response.body_type ≡ 0
      → Status r s.client.response
      → got ++ rest ≡ header_text r ++ 10 ∷ (body_text r ++ more)
      → Returns (header_line s >>= λ t. ok (count_payload t)) (Parsed s.client.buffer_size rest)
  header_stage s got rest held el ep et st e = elim (line_cases got) [
    | inl no_line ↦
        let (m, em, et', hm) =
          later_line (header_text r) (body_text r ++ more) got rest (header_text-NoLine r) no_line
            (sym e) in
        let open_line : (s.line_number == 2) ≡ false = ap (λ k. k == 2) el in
        let total : s.total_size ≡ length (status_cut r ++ got) =
          omega (arith, held.total, length-append (status_cut r) got) in
        (
          s,
          bind_ok _ (
                header_line-NoLine (status_cut r) got held.pad s held.cells held.start held.fresh
                  total no_line)
              ∙ ap ok (same_count s open_line),
          record {
            stage = record {
              a = status_cut r;
              got = got;
              held = held;
              phase = in_header refl el ep et st e;
            };
            same = refl;
            done = inr (
                omega (
                  arith,
                  held.total,
                  status_width r,
                  reply_width r,
                  ap length em,
                  length-append got m,
                ));
          },
        )
    | inr (l, q, eg, nl) ↦
        let whole : l ++ 10 ∷ (q ++ rest) ≡ header_text r ++ 10 ∷ (body_text r ++ more) =
          sym (append_assoc l (10 ∷ q) rest) ∙ ap (λ g. g ++ rest) (sym eg) ∙ e in
        let (line, left) =
          same_line l (q ++ rest) (header_text r) (body_text r ++ more) nl (header_text-NoLine r)
            whole in
        let split : got ≡ header_text r ++ 10 ∷ q = eg ∙ ap (λ k. k ++ 10 ∷ q) line in
        let buffer : s.client.buffer ≡ cells (status_cut r ++ (header_text r ++ 10 ∷ q)) held.pad =
          held.cells ∙ ap (λ g. cells (status_cut r ++ g) held.pad) split in
        let read : length got ≡ length (header_text r) + 1 + length q =
          omega (arith, ap length split, length-append (header_text r) (10 ∷ q)) in
        let total : s.total_size ≡ length (status_cut r ++ (header_text r ++ 10 ∷ q)) = omega (
          arith,
          held.total,
          read,
          length-append (status_cut r) (header_text r ++ 10 ∷ q),
          length-append (header_text r) (10 ∷ q),
        ) in
        let t = behind_header r (status_cut r) q held.pad s in
        let heads = length-append (status_cut r) (header_cut r) in
        (
          count_payload t,
          bind_ok _ (
              header_line-text r h (status_cut r) q held.pad s buffer held.start et total el
                held.fresh),
          count_payload-Parsed t q rest
              (record {
                pad = held.pad;
                cells =
                    ap (λ k. cells k held.pad) (sym (append_assoc (status_cut r) (header_cut r) q));
                width = omega (arith, held.width, heads, header_width r, read);
                least = held.least;
                total = omega (arith, held.total, heads, header_width r, read);
                start = omega (arith, heads, header_width r);
                fresh = held.fresh;
                input = held.input;
                written = held.written;
              })
              (omega (arith, el)) (omega (arith, ep))
              (record { code = st.code; description = st.description })
              (record {
                size = refl;
                place = ap some (omega (arith, heads, header_width r));
                type = refl;
              })
              left,
        )
  ]

  status_stage :
      (s : Scan) (got rest : List ℕ)
      → Held [] got rest out late s
      → s.line_number ≡ 0
      → s.payload_read_size ≡ 0
      → s.client.response.body_type ≡ 0
      → got ++ rest ≡ status_text r ++ 10 ∷ (header_text r ++ 10 ∷ (body_text r ++ more))
      → Returns (parse s) (Parsed s.client.buffer_size rest)
  unfolding parse
  status_stage s got rest held el ep et e = elim (line_cases got) [
    | inl no_line ↦
        let (m, em, et', hm) =
          later_line (status_text r) (header_text r ++ 10 ∷ (body_text r ++ more)) got rest
            (status_text-NoLine r h) no_line (sym e) in
        let not_one : (s.line_number == 1) ≡ false = ap (λ k. k == 1) el in
        let not_two : (s.line_number == 2) ≡ false = ap (λ k. k == 2) el in
        let total : s.total_size ≡ length got = omega (arith, held.total) in
        (
          s,
          bind_ok _
                (status_line-NoLine got held.pad s held.cells held.start held.fresh total no_line)
              ∙ bind_ok _ (header_line-other s not_one)
              ∙ ap ok (same_count s not_two),
          record {
            stage = record { a = []; got = got; held = held; phase = in_status refl el ep et e };
            same = refl;
            done =
                inr (omega (arith, held.total, reply_width r, ap length em, length-append got m));
          },
        )
    | inr (l, q, eg, nl) ↦
        let p = header_text r ++ 10 ∷ (body_text r ++ more) in
        let whole : l ++ 10 ∷ (q ++ rest) ≡ status_text r ++ 10 ∷ p =
          sym (append_assoc l (10 ∷ q) rest) ∙ ap (λ g. g ++ rest) (sym eg) ∙ e in
        let (line, left) =
          same_line l (q ++ rest) (status_text r) p nl (status_text-NoLine r h) whole in
        let split : got ≡ status_text r ++ 10 ∷ q = eg ∙ ap (λ k. k ++ 10 ∷ q) line in
        let buffer : s.client.buffer ≡ cells (status_text r ++ 10 ∷ q) held.pad =
          held.cells ∙ ap (λ g. cells g held.pad) split in
        let read : length got ≡ length (status_text r) + 1 + length q =
          omega (arith, ap length split, length-append (status_text r) (10 ∷ q)) in
        let total : s.total_size ≡ length (status_text r ++ 10 ∷ q) =
          omega (arith, held.total, ap length split) in
        let t = behind_status r q held.pad s in
        let (s', run, parsed) =
          header_stage t q rest
            (record {
              pad = held.pad;
              cells = refl;
              width = omega (arith, held.width, status_width r, read);
              least = held.least;
              total = omega (arith, held.total, status_width r, read);
              start = omega (arith, status_width r);
              fresh = held.fresh;
              input = held.input;
              written = held.written;
            })
            (omega (arith, el)) ep et (record { code = refl; description = refl }) left in
        (
          s',
          bind_ok _ (status_line-text r h q held.pad s buffer held.start el held.fresh total) ∙ run,
          parsed,
        )
  ]

  pub parse-Parsed :
      (s : Scan) (rest : List ℕ)
      → Stage r more out late (s.payload_read_size + s.read_size) rest s
      → Returns (parse s) (Parsed s.client.buffer_size rest)
  unfolding parse
  parse-Parsed s rest stage = at_phase stage.phase stage.held
    where
      at_phase :
          {a got : List ℕ}
          → Phase r more a got
              (got ++ rest)
              (s.payload_read_size + s.read_size)
              s.line_number
              s.payload_read_size
              s.client.response
          → Held a got rest out late s
          → Returns (parse s) (Parsed s.client.buffer_size rest)
      at_phase {a} {got} (in_status ea el ep et e) held =
          status_stage s got rest (subst (λ b. Held b got rest out late s) ea held) el ep et e
      at_phase {a} {got} (in_header ea el ep et st e) held =
          let (s', run, parsed) =
            header_stage s got rest (subst (λ b. Held b got rest out late s) ea held) el ep et st
              e in
          (s', bind_ok _ (status_line-later s (omega (arith, el))) ∙ run, parsed)
      at_phase {a} {got} (in_body ea el en st b e) held =
          let not_one : (s.line_number == 1) ≡ false = ap (λ k. k == 1) el in
          (
            count_payload s,
            bind_ok _ (status_line-later s (omega (arith, el)))
                ∙ bind_ok _ (header_line-other s not_one),
            count_payload-Parsed s got rest (subst (λ b. Held b got rest out late s) ea held) el en
                st b e,
          )
