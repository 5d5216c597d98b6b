-- ===== src/Dispatch/Words.antt =====
-- About `GET_NEXT_ARG` and its loops.
use memuncached.Payload.{c_string}
use memuncached.Dispatch.{
  is_delimiter, pass_word, zero_delimiters, put_null_terminator_unknown_size, get_next_arg,
}
use memuncached.Prelude.{
  ℕ, ◌≡◌, refl, true, false, ◌||◌, List, [], ◌∷◌, ◌++◌, none, some, arith, length, replicate,
  append_assoc, append-nil, ◌==◌, Bool-cases, inl, inr,
}
use memuncached.Run.{ok}

-- Bytes that the first loop passes.
abbrev pub IsWord : List ℕ → Type 0
IsWord [] = Unit
IsWord (c ∷ s) = (((c == 0) || is_delimiter c) ≡ false) × IsWord s

-- Bytes that the second loop passes.
abbrev pub IsBlank : List ℕ → Type 0
IsBlank [] = Unit
IsBlank (c ∷ s) = (is_delimiter c ≡ true) × IsBlank s

abbrev zeros : List ℕ → List ℕ
zeros s = replicate (length s) 0

pass_word-IsWord :
    (word : List ℕ) (c : ℕ) (rest : List ℕ)
    → IsWord word
    → ((c == 0) || is_delimiter c) ≡ true
    → pass_word (word ++ c ∷ rest) ≡ ok (word, c ∷ rest)
unfolding pass_word
pass_word-IsWord [] c rest h stop = rw stop
pass_word-IsWord (x ∷ word) c rest h stop = rw (h.0, pass_word-IsWord word c rest h.1 stop)

zero_delimiters-IsBlank :
    (blank : List ℕ) (c : ℕ) (rest : List ℕ)
    → IsBlank blank
    → is_delimiter c ≡ false
    → zero_delimiters (blank ++ c ∷ rest) ≡ ok (zeros blank, c ∷ rest)
unfolding zero_delimiters
zero_delimiters-IsBlank [] c rest h stop = rw stop
zero_delimiters-IsBlank (x ∷ blank) c rest h stop =
    rw (h.0, zero_delimiters-IsBlank blank c rest h.1 stop)

pub c_string-IsWord : (word rest : List ℕ) → IsWord word → c_string (word ++ 0 ∷ rest) ≡ ok word
unfolding c_string
c_string-IsWord [] rest h = refl
c_string-IsWord (c ∷ word) rest h = elim (Bool-cases (c == 0)) [
  | inl e ↦ absurd (ground arith)
  | inr e ↦ rw (e, c_string-IsWord word rest h.1)
]

-- GET_NEXT_ARG gives a non-empty word without blanks or zeros, skips all blanks behind it, and
-- leaves the pointer at the first byte that is no blank.
pub get_next_arg-word :
    (x : ℕ) (word : List ℕ) (b : ℕ) (blank : List ℕ) (c : ℕ) (rest : List ℕ)
    → IsWord (x ∷ word)
    → IsBlank (b ∷ blank)
    → is_delimiter c ≡ false
    → get_next_arg ((x ∷ word) ++ ((b ∷ blank) ++ c ∷ rest)) ≡ ok (some (x ∷ word), c ∷ rest)
unfolding get_next_arg put_null_terminator_unknown_size
get_next_arg-word x word b blank c rest h hb stop =
    let start : (x == 0) ≡ false = ground (arith, h.0) in
    let at_blank : ((b == 0) || is_delimiter b) ≡ true = ground (arith, hb.0) in
    let text : c_string (((x ∷ word) ++ zeros (b ∷ blank)) ++ c ∷ rest) ≡ ok (x ∷ word) =
      rw (append_assoc (x ∷ word) (zeros (b ∷ blank)) (c ∷ rest))
        (c_string-IsWord (x ∷ word) (zeros blank ++ c ∷ rest) h) in
    rw (
      pass_word-IsWord (x ∷ word) b (blank ++ c ∷ rest) h at_blank,
      zero_delimiters-IsBlank (b ∷ blank) c rest hb stop,
      text,
      start,
    )

-- A word that ends the command is the argument, and `itr` stays at the terminator.
pub get_next_arg-last :
    (x : ℕ) (word rest : List ℕ)
    → IsWord (x ∷ word)
    → get_next_arg ((x ∷ word) ++ 0 ∷ rest) ≡ ok (some (x ∷ word), 0 ∷ rest)
unfolding get_next_arg put_null_terminator_unknown_size
get_next_arg-last x word rest h =
    let start : (x == 0) ≡ false = ground (arith, h.0) in
    let at_end : ((0 == 0) || is_delimiter 0) ≡ true = refl in
    let text : c_string (((x ∷ word) ++ []) ++ 0 ∷ rest) ≡ ok (x ∷ word) =
      rw (append-nil word) (c_string-IsWord (x ∷ word) rest h) in
    rw (
      pass_word-IsWord (x ∷ word) 0 rest h at_end,
      zero_delimiters-IsBlank [] 0 rest tt (unfold is_delimiter in refl),
      text,
      start,
    )

-- At the terminator the argument is NULL.
pub get_next_arg-none : (rest : List ℕ) → get_next_arg (0 ∷ rest) ≡ ok (none, 0 ∷ rest)
unfolding get_next_arg put_null_terminator_unknown_size pass_word zero_delimiters is_delimiter
    c_string
get_next_arg-none rest = refl
