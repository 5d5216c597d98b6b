-- ===== src/Library/Lines.antt =====
-- The client's buffer: bytes that were read, and room behind them; the searches for a line end in it.
use memuncached.Connection.LineEnds.{NoLine}
use memuncached.Connection.Room.{map-append}
use memuncached.Connection.{Cell, byte, readable}
use memuncached.Dispatch.Lines.{IsText, c_string-IsText}
use memuncached.Library.{value_of, number_at, end_line, find_line_end, find_header_end}
use memuncached.Libc.{atoi}
use memuncached.Memory.{at, at-append, put, put-append}
use memuncached.Payload.{c_string}
use memuncached.Prelude.{
  ℕ, zero, suc, ◌+◌, ◌≡◌, refl, sym, ap, ◌∙◌, List, [], ◌∷◌, ◌++◌, map, Option, none, some, arith,
  length, length-append, length-map, drop, drop_all, append_assoc, ◌==◌, if◌then◌else◌,
}
use memuncached.Run.{ok}

-- The buffer whose first bytes are `s`.
abbrev pub cells : List ℕ → List Cell → List Cell
cells s pad = map byte s ++ pad

pub cells-append : (s t : List ℕ) (pad : List Cell) → cells (s ++ t) pad ≡ map byte s ++ cells t pad
cells-append s t pad = rw (map-append s t) (append_assoc (map byte s) (map byte t) pad)

pub at-cells :
    (a : List ℕ) (c : ℕ) (b : List ℕ) (pad : List Cell) (i : ℕ)
    → i ≡ length a
    → at (cells (a ++ c ∷ b) pad) i ≡ ok (byte c)
at-cells a c b pad i e =
    rw (cells-append a (c ∷ b) pad)
      (at-append (map byte a) i (byte c) (cells b pad) (omega (arith, length-map a byte)))

pub put-cells :
    (a : List ℕ) (c v : ℕ) (b : List ℕ) (pad : List Cell) (i : ℕ)
    → i ≡ length a
    → put (cells (a ++ c ∷ b) pad) i (byte v) ≡ ok (cells (a ++ v ∷ b) pad)
put-cells a c v b pad i e =
    rw (cells-append a (c ∷ b) pad, cells-append a (v ∷ b) pad)
      (put-append (map byte a) i (byte c) (byte v) (cells b pad) (omega (arith, length-map a byte)))

-- `*(itr - 1) = 0` at the line feed behind a carriage return.
pub end_line-cells :
    (a b : List ℕ) (pad : List Cell) (i : ℕ)
    → i ≡ length a + 1
    → end_line (cells (a ++ 13 ∷ b) pad) i ≡ ok (cells (a ++ 0 ∷ b) pad)
unfolding end_line
end_line-cells a b pad zero e = absurd (omega arith)
end_line-cells a b pad (suc i) e = put-cells a 13 0 b pad i (omega arith)

pub readable-cells : (s : List ℕ) (pad : List Cell) → readable (cells s pad) ≡ s ++ readable pad
readable-cells [] pad = refl
readable-cells (c ∷ s) pad = ap (λ l. c ∷ l) (readable-cells s pad)

-- The C string behind the bytes `a`.
pub c_string-cells :
    (a s b : List ℕ) (pad : List Cell) (i : ℕ)
    → i ≡ length a
    → IsText s
    → c_string (readable (drop i (cells (a ++ (s ++ 0 ∷ b)) pad))) ≡ ok s
c_string-cells a s b pad i e h =
    rw
      (
        cells-append a (s ++ 0 ∷ b) pad,
        drop_all (map byte a) (cells (s ++ 0 ∷ b) pad) i (omega (arith, length-map a byte)),
        readable-cells (s ++ 0 ∷ b) pad,
        append_assoc s (0 ∷ b) (readable pad),
      )
      (c_string-IsText s (b ++ readable pad) h)

pub number_at-cells :
    (a s b : List ℕ) (pad : List Cell) (i : ℕ)
    → i ≡ length a
    → IsText s
    → number_at (cells (a ++ (s ++ 0 ∷ b)) pad) i ≡ ok (atoi s)
unfolding number_at
number_at-cells a s b pad i e h = rw (c_string-cells a s b pad i e h)

-- The place of the last space, those before the text's start counted from `whitespace`.
abbrev pub last_space : ℕ → List ℕ → Option ℕ → Option ℕ
last_space i [] whitespace = whitespace
last_space i (c ∷ s) whitespace = last_space (i + 1) s (if c == b' ' then some i else whitespace)

-- The text `a ++ c ∷ b` read as the first part `a ++ c ∷ []` and the rest.
step_back : (a : List ℕ) (c : ℕ) (b : List ℕ) → a ++ c ∷ b ≡ (a ++ c ∷ []) ++ b
step_back a c b = sym (append_assoc a (c ∷ []) b)

module _ (pad : List Cell) where
  pub find_line_end-none :
      (a l : List ℕ) (n i : ℕ)
      → n ≡ length l
      → i ≡ length a
      → NoLine l
      → find_line_end n (cells (a ++ l) pad) i ≡ ok none
  unfolding find_line_end value_of
  find_line_end-none a [] zero i en ei h = refl
  find_line_end-none a [] (suc n) i en ei h = absurd (omega arith)
  find_line_end-none a (c ∷ l) zero i en ei h = absurd (omega arith)
  find_line_end-none a (c ∷ l) (suc n) i en ei h =
      rw (at-cells a c l pad i ei, h.0, step_back a c l)
        (find_line_end-none (a ++ c ∷ []) l n (i + 1) (omega arith)
          (omega (arith, length-append a (c ∷ []))) h.1)

  pub find_line_end-line :
      (a l q : List ℕ) (n i : ℕ)
      → n ≡ length (l ++ 10 ∷ q)
      → i ≡ length a
      → NoLine l
      → find_line_end n (cells (a ++ (l ++ 10 ∷ q)) pad) i ≡ ok (some (i + length l))
  unfolding find_line_end value_of
  find_line_end-line a l q zero i en ei h = absurd (omega (arith, length-append l (10 ∷ q)))
  find_line_end-line a [] q (suc n) i en ei h =
      rw (at-cells a 10 q pad i ei) (ap (λ k. ok (some k)) (omega arith))
  find_line_end-line a (c ∷ l) q (suc n) i en ei h =
      rw (at-cells a c (l ++ 10 ∷ q) pad i ei, h.0, step_back a c (l ++ 10 ∷ q))
        (find_line_end-line (a ++ c ∷ []) l q n (i + 1) (omega arith)
            (omega (arith, length-append a (c ∷ []))) h.1
          ∙ ap (λ k. ok (some k)) (omega arith))

  pub find_header_end-none :
      (a l : List ℕ) (n i : ℕ) (w : Option ℕ)
      → n ≡ length l
      → i ≡ length a
      → NoLine l
      → find_header_end n (cells (a ++ l) pad) i w ≡ ok none
  unfolding find_header_end value_of
  find_header_end-none a [] zero i w en ei h = refl
  find_header_end-none a [] (suc n) i w en ei h = absurd (omega arith)
  find_header_end-none a (c ∷ l) zero i w en ei h = absurd (omega arith)
  find_header_end-none a (c ∷ l) (suc n) i w en ei h =
      rw (at-cells a c l pad i ei, h.0, step_back a c l)
        (find_header_end-none (a ++ c ∷ []) l n (i + 1) _ (omega arith)
          (omega (arith, length-append a (c ∷ []))) h.1)

  pub find_header_end-line :
      (a l q : List ℕ) (n i : ℕ) (w : Option ℕ)
      → n ≡ length (l ++ 10 ∷ q)
      → i ≡ length a
      → NoLine l
      → find_header_end n (cells (a ++ (l ++ 10 ∷ q)) pad) i w
        ≡ ok (some (i + length l, last_space i l w))
  unfolding find_header_end value_of
  find_header_end-line a l q zero i w en ei h = absurd (omega (arith, length-append l (10 ∷ q)))
  find_header_end-line a [] q (suc n) i w en ei h =
      rw (at-cells a 10 q pad i ei) (ap (λ k. ok (some (k, w))) (omega arith))
  find_header_end-line a (c ∷ l) q (suc n) i w en ei h =
      rw (at-cells a c (l ++ 10 ∷ q) pad i ei, h.0, step_back a c (l ++ 10 ∷ q))
        (find_header_end-line (a ++ c ∷ []) l q n (i + 1) _ (omega arith)
            (omega (arith, length-append a (c ∷ []))) h.1
          ∙ ap (λ k. ok (some (k, last_space (i + 1) l (if c == b' ' then some i else w))))
              (omega arith))
