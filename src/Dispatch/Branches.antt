-- ===== src/Dispatch/Branches.antt =====
-- About whole lines: a command with its arguments.
use memuncached.Commands.{World, memuncached_get, memuncached_set, memuncached_del, memuncached_inc}
use memuncached.Payload.{c_string, first}
use memuncached.Dispatch.Lines.{
  handle_name-case, handle_command-name, IsText, c_string-IsText, IsText-append, IsWord-IsText,
  AllAscii-append, IsArgument, argument-IsWord, argument-AllAscii, last_argument, then_argument,
}
use memuncached.Dispatch.Words.{get_next_arg-word, get_next_arg-none}
use memuncached.Dispatch.{
  is_delimiter, get_next_arg, is_bad_offset, is_bad_initial, handle_store, with_type, with_length,
  handle_number, with_number, handle_key, handle_name, handle_command,
}
use memuncached.Double.{Double}
use memuncached.Libc.{tolower, same_case}
use memuncached.Prelude.{
  ℕ, ◌≡◌, refl, ◌∙◌, true, false, not, ◌||◌, List, [], ◌∷◌, ◌++◌, none, some, arith, codes, crlf,
  append_assoc, ◌==◌,
}
use memuncached.Run.{ok}
use memuncached.Utils.Escape.{AllAscii}
use memuncached.Utils.{is_decimal_string}

-- Words with a space between them.
abbrev pub spaced : List ℕ → List (List ℕ) → List ℕ
spaced word [] = word
spaced word (next ∷ words) = word ++ b' ' ∷ spaced next words

abbrev pub AllArguments : List (List ℕ) → Type 0
AllArguments [] = Unit
AllArguments (word ∷ words) = IsArgument word × AllArguments words

spaced-IsText :
    (word : List ℕ) (words : List (List ℕ))
    → IsArgument word
    → AllArguments words
    → IsText (spaced word words)
spaced-IsText word [] h hs = IsWord-IsText word (argument-IsWord word h)
spaced-IsText word (next ∷ words) h hs =
    IsText-append word _ (IsWord-IsText word (argument-IsWord word h))
      (refl, spaced-IsText next words hs.0 hs.1)

spaced-AllAscii :
    (word : List ℕ) (words : List (List ℕ))
    → IsArgument word
    → AllArguments words
    → AllAscii (spaced word words)
spaced-AllAscii word [] h hs = argument-AllAscii word h
spaced-AllAscii word (next ∷ words) h hs =
    AllAscii-append word _ (argument-AllAscii word h)
      (omega arith, spaced-AllAscii next words hs.0 hs.1)

-- The command of a line of words.
abbrev pub line : List ℕ → List (List ℕ) → List ℕ → List ℕ
line word words rest = spaced word words ++ 0 ∷ rest

next_of_line :
    (word next : List ℕ) (words : List (List ℕ)) (tail : List ℕ)
    → IsArgument word
    → AllArguments (next ∷ words)
    → get_next_arg (spaced word (next ∷ words) ++ tail) ≡ ok (some word, spaced next words ++ tail)
next_of_line word next [] tail h hs =
    rw (append_assoc word (b' ' ∷ next) tail) (then_argument word next tail h hs.0)
next_of_line word next (third ∷ words) tail h hs =
    rw
      (
        append_assoc word (b' ' ∷ spaced next (third ∷ words)) tail,
        append_assoc next (b' ' ∷ spaced third words) tail,
      )
      (then_argument word next _ h hs.0)

-- An argument that the end of the line follows, and more behind that.
before_payload :
    (word : List ℕ) (c : ℕ) (rest : List ℕ)
    → IsArgument word
    → is_delimiter c ≡ false
    → get_next_arg (word ++ (crlf ++ c ∷ rest)) ≡ ok (some word, c ∷ rest)
unfolding is_delimiter
before_payload [] c rest h stop = absurd h
before_payload (x ∷ word) c rest h stop =
    get_next_arg-word x word 13 (10 ∷ []) c rest h.0 (refl, (refl, tt)) stop

module _ {R : Type 0} ⦃d : Double R⦄ where
  line-name :
      (fuel : ℕ) (w : World R) (name next : List ℕ) (words : List (List ℕ)) (rest : List ℕ) (n : ℕ)
      → IsArgument name
      → AllArguments (next ∷ words)
      → handle_command fuel w (line name (next ∷ words) rest) n
        ≡ handle_name fuel w name (line next words rest) n
  line-name fuel w name next words rest n h hs =
      handle_command-name fuel w (line name (next ∷ words) rest) (spaced name (next ∷ words)) name
        (line next words rest) n
        (c_string-IsText (spaced name (next ∷ words)) rest (spaced-IsText name (next ∷ words) h hs))
        (spaced-AllAscii name (next ∷ words) h hs) (next_of_line name next words (0 ∷ rest) h hs)

  module _ (fuel : ℕ) (w : World R) (name key : List ℕ) (rest : List ℕ) (n : ℕ)
      (h : IsArgument name) (hk : IsArgument key) where
    -- GET with a key.
    pub get-line :
        same_case name (codes "GET") ≡ true
        → handle_command fuel w (line name (key ∷ []) rest) n ≡ memuncached_get w key
    unfolding handle_name handle_key same_case tolower
    get-line e =
        line-name fuel w name key [] rest n h (hk, tt)
        ∙ handle_name-case fuel w name (codes "GET") (line key [] rest) n e
            (argument-AllAscii name h) (omega arith, (omega arith, (omega arith, tt)))
        ∙ rw (last_argument key rest hk)

    pub del-line :
        same_case name (codes "DEL") ≡ true
        → handle_command fuel w (line name (key ∷ []) rest) n ≡ memuncached_del w key
    unfolding handle_name handle_key same_case tolower
    del-line e =
        line-name fuel w name key [] rest n h (hk, tt)
        ∙ handle_name-case fuel w name (codes "DEL") (line key [] rest) n e
            (argument-AllAscii name h) (omega arith, (omega arith, (omega arith, tt)))
        ∙ rw (last_argument key rest hk)

    -- INC or DEC with a key alone.
    pub inc-line :
        same_case name (codes "INC") ≡ true
        → handle_command fuel w (line name (key ∷ []) rest) n ≡ memuncached_inc w key none none
    unfolding handle_name handle_number with_number is_bad_offset is_bad_initial same_case tolower
    inc-line e =
        line-name fuel w name key [] rest n h (hk, tt)
        ∙ handle_name-case fuel w name (codes "INC") (line key [] rest) n e
            (argument-AllAscii name h) (omega arith, (omega arith, (omega arith, tt)))
        ∙ rw (last_argument key rest hk, get_next_arg-none rest, get_next_arg-none rest)

    -- A line with the name INC in any case and a key, an offset and an initial value, non-empty
    -- ASCII words that pass the tests on numbers, comes to memuncached_inc with these texts.
    pub inc_by-line :
        (offset initial : List ℕ)
        → same_case name (codes "INC") ≡ true
        → IsArgument offset
        → IsArgument initial
        → is_bad_offset (some offset) ≡ false
        → is_bad_initial (some initial) ≡ false
        → handle_command fuel w (line name (key ∷ offset ∷ initial ∷ []) rest) n
          ≡ memuncached_inc w key (some offset) (some initial)
    unfolding handle_name handle_number with_number same_case tolower
    inc_by-line offset initial e ho hi good good' =
        line-name fuel w name key (offset ∷ initial ∷ []) rest n h (hk, (ho, (hi, tt)))
        ∙ handle_name-case fuel w name (codes "INC") (line key (offset ∷ initial ∷ []) rest) n e
            (argument-AllAscii name h) (omega arith, (omega arith, (omega arith, tt)))
        ∙ rw (
          next_of_line key offset (initial ∷ []) (0 ∷ rest) hk (ho, (hi, tt)),
          next_of_line offset initial [] (0 ∷ rest) ho (hi, tt),
          last_argument initial rest hi,
          good,
          good',
        )

    -- A line with the name SET in any case, a key, a type and a length, all non-empty ASCII words,
    -- type and length decimal texts not beginning with a minus, comes to memuncached_set with these
    -- texts, and with no byte of the payload.
    pub set-line :
        (type length : List ℕ)
        → same_case name (codes "SET") ≡ true
        → IsArgument type
        → IsArgument length
        → ((first type == b'-') || not (is_decimal_string type)) ≡ false
        → ((first length == b'-') || not (is_decimal_string length)) ≡ false
        → handle_command fuel w (line name (key ∷ type ∷ length ∷ []) rest) n
          ≡ memuncached_set fuel w key type length (0 ∷ rest) n true
    unfolding handle_name handle_store with_type with_length same_case tolower
    set-line type length e ht hl good good' =
        line-name fuel w name key (type ∷ length ∷ []) rest n h (hk, (ht, (hl, tt)))
        ∙ handle_name-case fuel w name (codes "SET") (line key (type ∷ length ∷ []) rest) n e
            (argument-AllAscii name h) (omega arith, (omega arith, (omega arith, tt)))
        ∙ rw (
          next_of_line key type (length ∷ []) (0 ∷ rest) hk (ht, (hl, tt)),
          next_of_line type length [] (0 ∷ rest) ht (hl, tt),
          last_argument length rest hl,
          good,
          good',
        )

    -- A line as in set-line with a line end and the first bytes of the payload behind it, the first
    -- of which is no blank, where the text up to the first zero is ASCII, comes to memuncached_set
    -- with a pointer to those bytes.
    pub set_with_payload-line :
        (type length : List ℕ) (c : ℕ) (text : List ℕ)
        → same_case name (codes "SET") ≡ true
        → IsArgument type
        → IsArgument length
        → ((first type == b'-') || not (is_decimal_string type)) ≡ false
        → ((first length == b'-') || not (is_decimal_string length)) ≡ false
        → is_delimiter c ≡ false
        → c_string (spaced name (key ∷ type ∷ length ∷ []) ++ (crlf ++ c ∷ rest)) ≡ ok text
        → AllAscii text
        → handle_command fuel w (spaced name (key ∷ type ∷ length ∷ []) ++ (crlf ++ c ∷ rest)) n
          ≡ memuncached_set fuel w key type length (c ∷ rest) n true
    unfolding handle_name handle_store with_type with_length same_case tolower
    set_with_payload-line type length c text e ht hl good good' stop et ascii =
        let tail = crlf ++ c ∷ rest in
        let words = key ∷ type ∷ length ∷ [] in
        handle_command-name fuel w (spaced name words ++ tail) text name
          (spaced key (type ∷ length ∷ []) ++ tail) n et ascii
          (next_of_line name key (type ∷ length ∷ []) tail h (hk, (ht, (hl, tt))))
        ∙ handle_name-case fuel w name (codes "SET") (spaced key (type ∷ length ∷ []) ++ tail) n e
            (argument-AllAscii name h) (omega arith, (omega arith, (omega arith, tt)))
        ∙ rw (
          next_of_line key type (length ∷ []) tail hk (ht, (hl, tt)),
          next_of_line type length [] tail ht (hl, tt),
          before_payload length c rest hl stop,
          good,
          good',
        )
