-- ===== src/Library/Labels.antt =====
-- The numbers behind labels in the body of a reply, which `memuncached_stt` of libmemuncached.c reads.
use memuncached.Connection.{readable}
use memuncached.Dispatch.Lines.{IsText}
use memuncached.Libc.Decimal.{digits-Digits}
use memuncached.Libc.{atoi, print_decimal}
use memuncached.Library.Answers.{body_place-GotReply, body_bytes-GotReply, in_memory}
use memuncached.Library.Lines.{cells, c_string-cells}
use memuncached.Library.Receiving.{GotReply}
use memuncached.Library.Reply.{Reply, IsReply, reply_text, status_cut, header_cut}
use memuncached.Library.Requests.{labelled_number}
use memuncached.Library.{Client}
use memuncached.Payload.{c_string}
use memuncached.Prelude.Int.{ℤ, pos, negsuc}
use memuncached.Prelude.{
  ℕ, suc, ◌+◌, ◌^◌, ◌<◌, ◌≤◌, ◌≡◌, refl, sym, ap, ◌∙◌, true, false, List, [], ◌∷◌, ◌++◌, some, none,
  arith, codes, crlf, length, length-append, append_assoc, drop, ltb, ◌==◌, if_true, if_false,
}
use memuncached.Protocol.{response_200_ok, response_write}
use memuncached.Run.{ok, fault, null_pointer, bind_ok, ◌>>=◌}
use memuncached.Utils.Numeral.{Digits}
use memuncached.Utils.{isdigit, starts_with, sstrstr, sstrstr_from}

-- A reply with code 200 and no type.
abbrev pub ok_reply : List ℕ → Reply
ok_reply text = record {
  hundreds = 2;
  tens = 0;
  ones = 0;
  description = codes "OK";
  type = none;
  body = text;
}

pub ok_reply-text :
    (text : List ℕ) → response_write response_200_ok text ≡ reply_text (ok_reply text)
unfolding response_write
ok_reply-text text =
    rw (append_assoc (print_decimal (pos (length text))) (13 ∷ []) (10 ∷ (text ++ 0 ∷ crlf))) refl

pub ok_reply-IsReply :
    (text : List ℕ)
    → length (response_write response_200_ok text) < 2 ^ 30
    → IsReply (ok_reply text)
ok_reply-IsReply text size = record {
  hundreds = omega arith;
  tens = omega arith;
  ones = omega arith;
  line = (refl, (refl, tt));
  text = (refl, (refl, tt));
  type = omega arith;
  size = omega (arith, ap length (ok_reply-text text));
}

-- No byte is a K, with which the second label begins.
abbrev pub NoK : List ℕ → Type 0
NoK [] = Unit
NoK (c ∷ s) = ((b'K' == c) ≡ false) × NoK s

pub NoK-append : (a b : List ℕ) → NoK a → NoK b → NoK (a ++ b)
NoK-append [] b ha hb = hb
NoK-append (c ∷ a) b ha hb = (ha.0, NoK-append a b ha.1 hb)

digit-not_K : (c : ℕ) → isdigit c ≡ true → (b'K' == c) ≡ false
unfolding isdigit
digit-not_K c h = ground arith

Digits-NoK : (s : List ℕ) → Digits s → NoK s
Digits-NoK [] h = tt
Digits-NoK (c ∷ s) h = (digit-not_K c h.0, Digits-NoK s h.1)

pub print-NoK : (z : ℤ) → NoK (print_decimal z)
unfolding print_decimal
print-NoK (pos n) = Digits-NoK _ (digits-Digits (suc n) n)
print-NoK (negsuc n) = (refl, Digits-NoK _ (digits-Digits (suc (suc n)) (suc n)))

-- The first place where a text that begins with K can stand is behind them.
pub sstrstr_from-NoK :
    (i : ℕ) (front hay label : List ℕ)
    → NoK front
    → starts_with (b'K' ∷ label) (b'K' ∷ hay) ≡ true
    → length label ≤ length hay
    → sstrstr_from i (front ++ b'K' ∷ hay) (b'K' ∷ label) ≡ some (i + length front)
unfolding sstrstr_from starts_with
sstrstr_from-NoK i [] hay label h found le =
    let long : ltb (length (b'K' ∷ hay)) (length (b'K' ∷ label)) ≡ false = ground arith in
    if_false _ _ long ∙ if_true _ _ found ∙ ap some (omega arith)
sstrstr_from-NoK i (c ∷ front) hay label h found le =
    let width = length-append front (b'K' ∷ hay) in
    let long : ltb (length (c ∷ (front ++ b'K' ∷ hay))) (length (b'K' ∷ label)) ≡ false =
      ground (arith, width) in
    let other : starts_with (b'K' ∷ label) (c ∷ (front ++ b'K' ∷ hay)) ≡ false = rw h.0 refl in
    if_false _ _ long
    ∙ if_false _ _ other
    ∙ sstrstr_from-NoK (i + 1) front hay label h.1 found le
    ∙ ap some (omega arith)

-- The number behind a label.
module _ {r : Reply} {more out : List ℕ} (c : Client) (got : GotReply r more out c) where
  pub labelled_number-text :
      (label front text : List ℕ) (k : ℕ)
      → sstrstr r.body label ≡ some k
      → r.body ≡ front ++ text
      → k + length label ≡ length front
      → IsText text
      → labelled_number c label ≡ ok (atoi text)
  unfolding labelled_number
  labelled_number-text label front text k found split e h =
      let heads = status_cut r ++ header_cut r in
      let there : c.buffer
          ≡ cells ((heads ++ front) ++ (text ++ 0 ∷ (crlf ++ got.behind))) got.pad =
        in_memory c got
        ∙ ap (λ l. cells (heads ++ (l ++ 0 ∷ (crlf ++ got.behind))) got.pad) split
        ∙ ap (λ l. cells (heads ++ l) got.pad) (append_assoc front text (0 ∷ (crlf ++ got.behind)))
        ∙ ap (λ l. cells l got.pad)
            (sym (append_assoc heads front (text ++ 0 ∷ (crlf ++ got.behind)))) in
      let place : length heads + k + length label ≡ length (heads ++ front) =
        omega (arith, length-append heads front) in
      bind_ok _ (body_place-GotReply c got)
      ∙ bind_ok _ (body_bytes-GotReply c got)
      ∙ ap
          (λ o. elim o [
            | none ↦ fault null_pointer
            | some j ↦
                c_string (readable (drop (length heads + j + length label) c.buffer)) >>= λ t.
                ok (atoi t)
          ])
          found
      ∙ bind_ok _ (
          ap (λ b. c_string (readable (drop (length heads + k + length label) b))) there
          ∙ c_string-cells (heads ++ front) text (crlf ++ got.behind) got.pad _ place h)
