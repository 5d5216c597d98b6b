-- ===== src/Library/Answers.antt =====
-- What the functions of the client find in a reply that was received.
use memuncached.Connection.{byte, readable}
use memuncached.Dispatch.Lines.{IsText}
use memuncached.Library.Lines.{cells, cells-append, c_string-cells, readable-cells, put-cells}
use memuncached.Library.Receiving.{GotReply, IsClient, memuncached_recv-GotReply}
use memuncached.Library.Reply.{Reply, IsReply, reply_code, reply_text, status_cut, header_cut}
use memuncached.Library.Requests.{receive_ok, body_place, body_string, body_bytes, end_body}
use memuncached.Library.{Client, Realloc, in_place}
use memuncached.Memory.{put}
use memuncached.Network.{sent}
use memuncached.Payload.{c_string}
use memuncached.Prelude.{
  ℕ, ◌+◌, ◌<◌, ◌≡◌, refl, sym, ap, ◌∙◌, false, List, [], ◌∷◌, ◌++◌, map, arith, crlf, length,
  length-append, length-map, drop, drop_all, take, take_all, append_assoc, append-nil, ltb, ◌==◌,
  if_false,
}
use memuncached.Run.{ok, bind_ok, Returns}

module _ {r : Reply} {more out : List ℕ} (c : Client) (got : GotReply r more out c) where
  heads : List ℕ
  heads = status_cut r ++ header_cut r

  pub body_place-GotReply : body_place c ≡ ok (length (status_cut r ++ header_cut r))
  unfolding body_place
  body_place-GotReply = rw got.body.place refl

  pub in_memory :
      c.buffer
      ≡ cells ((status_cut r ++ header_cut r) ++ (r.body ++ 0 ∷ (crlf ++ got.behind))) got.pad
  in_memory =
      got.buffer
      ∙ ap (λ l. cells ((status_cut r ++ header_cut r) ++ l) got.pad)
          (append_assoc r.body (0 ∷ crlf) got.behind)

  pub body_string-GotReply : IsText r.body → body_string c ≡ ok r.body
  unfolding body_string
  body_string-GotReply h =
      bind_ok _ body_place-GotReply
      ∙ ap (λ b. c_string (readable (drop (length (status_cut r ++ header_cut r)) b))) in_memory
      ∙ c_string-cells (status_cut r ++ header_cut r) r.body (crlf ++ got.behind) got.pad _ refl h

  pub body_bytes-GotReply : body_bytes c ≡ ok r.body
  unfolding body_bytes
  body_bytes-GotReply =
      let n = length (status_cut r ++ header_cut r) in
      let front = map byte (status_cut r ++ header_cut r) in
      let rest = r.body ++ 0 ∷ (crlf ++ got.behind) in
      let seen : readable (drop n c.buffer)
          ≡ r.body ++ (0 ∷ (crlf ++ got.behind) ++ readable got.pad) =
        ap (λ b. readable (drop n b)) in_memory
        ∙ ap (λ b. readable (drop n b)) (cells-append (status_cut r ++ header_cut r) rest got.pad)
        ∙ ap readable (
            drop_all front (cells rest got.pad) n
              (sym (length-map (status_cut r ++ header_cut r) byte)))
        ∙ readable-cells rest got.pad
        ∙ append_assoc r.body (0 ∷ (crlf ++ got.behind)) (readable got.pad) in
      let size = got.body.size in
      let enough : ltb (length (readable (drop n c.buffer))) c.response.body_size ≡ false = ground (
        arith,
        ap length seen,
        length-append r.body (0 ∷ (crlf ++ got.behind) ++ readable got.pad),
        size,
      ) in
      bind_ok _ body_place-GotReply
      ∙ if_false _ _ enough
      ∙ ap ok
          (ap (λ s. take c.response.body_size s) seen ∙ take_all r.body _ c.response.body_size size)

  -- The zero that the client stores behind the body is there already.
  pub end_body-GotReply : end_body c ≡ ok (record c { buffer = c.buffer })
  unfolding end_body
  end_body-GotReply =
      let width = length-append (status_cut r ++ header_cut r) r.body in
      let stored : put c.buffer (length (status_cut r ++ header_cut r) + c.response.body_size)
            (byte 0)
          ≡ ok c.buffer =
        ap (λ b. put b (length (status_cut r ++ header_cut r) + c.response.body_size) (byte 0))
          (in_memory
            ∙ ap (λ l. cells l got.pad)
                (sym
                  (append_assoc (status_cut r ++ header_cut r) r.body (0 ∷ (crlf ++ got.behind)))))
        ∙ put-cells ((status_cut r ++ header_cut r) ++ r.body) 0 0 (crlf ++ got.behind) got.pad _
            (omega (arith, width, got.body.size))
        ∙ ap ok (
            sym (
              in_memory
              ∙ ap (λ l. cells l got.pad)
                  (sym (
                    append_assoc (status_cut r ++ header_cut r) r.body
                      (0 ∷ (crlf ++ got.behind)))))) in
      bind_ok _ body_place-GotReply ∙ bind_ok _ stored

module _ (r : Reply) (h : IsReply r) (realloc : ℕ → Realloc)
    (memory : (n : ℕ) → realloc n ≡ in_place) where
  -- The reply is received, and whether its code is 200.
  pub receive_ok-GotReply :
      (fuel : ℕ) (c : Client)
      → IsClient c
      → sent c.input ≡ reply_text r
      → length (reply_text r) < fuel
      → Returns
          (receive_ok fuel realloc c)
          λ p. (p.0 ≡ (reply_code r == 200)) × GotReply r [] c.out p.1
  unfolding receive_ok
  receive_ok-GotReply fuel c good e lt =
      let all : reply_text r ++ [] ≡ reply_text r = append-nil (reply_text r) in
      let (p, run, (received, got)) =
        memuncached_recv-GotReply r h [] c.out realloc memory fuel c good refl (e ∙ sym all)
          (omega (arith, ap length all)) in
      ((reply_code r == 200, p.1), bind_ok _ run ∙ rw (received, got.status.code) refl, (refl, got))
