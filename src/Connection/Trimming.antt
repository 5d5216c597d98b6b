-- ===== src/Connection/Trimming.antt =====
-- The loop of `handle_connection` that cuts the line ends off.
use memuncached.Connection.{Cell, byte, is_line_end, trim}
use memuncached.Memory.{at-append, put-append}
use memuncached.Prelude.{
  ℕ, suc, ◌+◌, ◌≡◌, refl, ap, ◌∙◌, true, false, ◌||◌, List, [], ◌∷◌, ◌++◌, map, arith, length,
  length-append, append_assoc, ◌==◌,
}
use memuncached.Run.{ok, fault, out_of_bounds}

-- Carriage returns and line feeds alone.
abbrev pub AllEnds : List ℕ → Type 0
AllEnds [] = Unit
AllEnds (c ∷ s) = (((c == 13) || (c == 10)) ≡ true) × AllEnds s

abbrev pub cleared : List ℕ → List ℕ
cleared [] = []
cleared (c ∷ s) = 0 ∷ cleared s

one_end :
    (front : List Cell) (x : ℕ) (rest : List Cell)
    → ((x == 13) || (x == 10)) ≡ true
    → trim (suc (length front)) (front ++ byte x ∷ rest)
      ≡ trim (length front) (front ++ byte 0 ∷ rest)
unfolding trim is_line_end
one_end front x rest h = rw (
  at-append front (length front) (byte x) rest refl,
  h,
  put-append front (length front) (byte x) (byte 0) rest refl,
)

-- The line ends behind a first part are set to zero, and the loop goes on with that part.
trim_ends :
    (ends : List ℕ) (front rest : List Cell) (n : ℕ)
    → n ≡ length front + length ends
    → AllEnds ends
    → trim n (front ++ (map byte ends ++ rest))
      ≡ trim (length front) (front ++ (map byte (cleared ends) ++ rest))
trim_ends [] front rest n e h = ap (λ k. trim k (front ++ rest)) (e ∙ omega arith)
trim_ends (x ∷ ends) front rest n e h =
    let one = byte x ∷ [] in
    let width = length-append front one in
    let whole = trim_ends ends (front ++ one) rest n (omega (arith, width)) h.1 in
    let last : length (front ++ one) ≡ suc (length front) = omega (arith, width) in
    (rw
      (
        append_assoc front one (map byte ends ++ rest),
        append_assoc front one (map byte (cleared ends) ++ rest),
        last,
      )
      at whole)
    ∙ one_end front x (map byte (cleared ends) ++ rest) h.0

-- When nothing but line ends was received, the loop looks at the byte before the command.
pub trim-blank :
    (ends : List ℕ) (rest : List Cell)
    → AllEnds ends
    → trim (length ends) (map byte ends ++ rest) ≡ fault out_of_bounds
unfolding trim
trim-blank ends rest h = trim_ends ends [] rest (length ends) (omega arith) h

-- Otherwise the text before them stays.
pub trim-text :
    (front : List Cell) (c : ℕ) (ends : List ℕ) (rest : List Cell) (n : ℕ)
    → n ≡ length front + 1 + length ends
    → ((c == 13) || (c == 10)) ≡ false
    → AllEnds ends
    → trim n (front ++ byte c ∷ (map byte ends ++ rest))
      ≡ ok (front ++ byte c ∷ (map byte (cleared ends) ++ rest))
unfolding trim is_line_end
trim-text front c ends rest n e h he =
    let one = byte c ∷ [] in
    let width = length-append front one in
    let whole = trim_ends ends (front ++ one) rest n (omega (arith, width)) he in
    let last : length (front ++ one) ≡ suc (length front) = omega (arith, width) in
    (rw
      (
        append_assoc front one (map byte ends ++ rest),
        append_assoc front one (map byte (cleared ends) ++ rest),
        last,
      )
      at whole)
    ∙ rw (at-append front (length front) (byte c) (map byte (cleared ends) ++ rest) refl, h)
