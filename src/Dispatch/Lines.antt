-- ===== src/Dispatch/Lines.antt =====
-- About `handle_command` and the words of a line.
use memuncached.Commands.{World}
use memuncached.Payload.{c_string}
use memuncached.Dispatch.Words.{IsWord, get_next_arg-word, get_next_arg-last}
use memuncached.Dispatch.{is_delimiter, get_next_arg, handle_name, handle_command}
use memuncached.Double.{Double}
use memuncached.Libc.{tolower, same_case}
use memuncached.Prelude.{
  ℕ, ◌≡◌, refl, true, false, List, [], ◌∷◌, ◌++◌, some, arith, codes, ◌==◌, ==_iff, Bool-cases, inl,
  inr,
}
use memuncached.Run.{ok}
use memuncached.Utils.Escape.{AllAscii, str_escape-escaped}

-- Texts that are the same but for case compare alike with any other.
pub same_case_trans : (a b c : List ℕ) → same_case a b ≡ true → same_case a c ≡ same_case b c
unfolding same_case
same_case_trans [] [] c h = refl
same_case_trans [] (y ∷ b) c h = absurd (cc)
same_case_trans (x ∷ a) [] c h = absurd (cc)
same_case_trans (x ∷ a) (y ∷ b) [] h = refl
same_case_trans (x ∷ a) (y ∷ b) (z ∷ c) h = elim (Bool-cases (tolower x == tolower y)) [
  | inl e ↦
      let rest : same_case a b ≡ true = rw e at h in
      rw ((==_iff (tolower x) (tolower y)).0 e, same_case_trans a b c rest)
  | inr e ↦ absurd (ground (arith))
]

module _ {R : Type 0} ⦃d : Double R⦄ where
  -- Two ASCII names that differ only in the case of letters are handled alike by the chain of
  -- comparisons, with any arguments.
  pub handle_name-case :
      (fuel : ℕ) (w : World R) (a b itr : List ℕ) (n : ℕ)
      → same_case a b ≡ true
      → AllAscii a
      → AllAscii b
      → handle_name fuel w a itr n ≡ handle_name fuel w b itr n
  unfolding handle_name
  handle_name-case fuel w a b itr n h ha hb = rw (
    same_case_trans a b (codes "ADD") h,
    same_case_trans a b (codes "BYE") h,
    same_case_trans a b (codes "DEC") h,
    same_case_trans a b (codes "DEL") h,
    same_case_trans a b (codes "INC") h,
    same_case_trans a b (codes "GET") h,
    same_case_trans a b (codes "SET") h,
    same_case_trans a b (codes "STT") h,
    same_case_trans a b (codes "VER") h,
    str_escape-escaped a ha,
    str_escape-escaped b hb,
  )

  -- The name is cut off and the rest of the line goes to its branch.
  pub handle_command-name :
      (fuel : ℕ) (w : World R) (command text name itr : List ℕ) (n : ℕ)
      → c_string command ≡ ok text
      → AllAscii text
      → get_next_arg command ≡ ok (some name, itr)
      → handle_command fuel w command n ≡ handle_name fuel w name itr n
  unfolding handle_command
  handle_command-name fuel w command text name itr n e ascii cut =
      rw (e, str_escape-escaped text ascii, cut)

-- A text without a terminator in it.
abbrev pub IsText : List ℕ → Type 0
IsText [] = Unit
IsText (c ∷ s) = ((c == 0) ≡ false) × IsText s

pub c_string-IsText : (text rest : List ℕ) → IsText text → c_string (text ++ 0 ∷ rest) ≡ ok text
unfolding c_string
c_string-IsText [] rest h = refl
c_string-IsText (c ∷ text) rest h = rw (h.0, c_string-IsText text rest h.1)

pub IsText-append : (s t : List ℕ) → IsText s → IsText t → IsText (s ++ t)
IsText-append [] t hs ht = ht
IsText-append (c ∷ s) t hs ht = (hs.0, IsText-append s t hs.1 ht)

pub IsWord-IsText : (word : List ℕ) → IsWord word → IsText word
IsWord-IsText [] h = tt
IsWord-IsText (c ∷ word) h = (ground (arith, h.0), IsWord-IsText word h.1)

pub AllAscii-append : (s t : List ℕ) → AllAscii s → AllAscii t → AllAscii (s ++ t)
AllAscii-append [] t hs ht = ht
AllAscii-append (c ∷ s) t hs ht = (hs.0, AllAscii-append s t hs.1 ht)

-- A word of a command: not empty, and of ASCII characters.
abbrev pub IsArgument : List ℕ → Type 0
IsArgument [] = ⊥
IsArgument (c ∷ s) = IsWord (c ∷ s) × AllAscii (c ∷ s)

pub argument-IsWord : (word : List ℕ) → IsArgument word → IsWord word
argument-IsWord [] h = tt
argument-IsWord (c ∷ s) h = h.0

pub argument-AllAscii : (word : List ℕ) → IsArgument word → AllAscii word
argument-AllAscii [] h = tt
argument-AllAscii (c ∷ s) h = h.1

space-stops : is_delimiter b' ' ≡ true
unfolding is_delimiter
space-stops = refl

-- An argument with a space behind it, or with the terminator.
pub next_argument :
    (word next : List ℕ) (c : ℕ) (rest : List ℕ)
    → IsArgument word
    → next ≡ c ∷ rest
    → is_delimiter c ≡ false
    → get_next_arg (word ++ b' ' ∷ next) ≡ ok (some word, next)
next_argument [] next c rest h e stop = absurd h
next_argument (x ∷ word) next c rest h e stop =
    rw e (get_next_arg-word x word b' ' [] c rest h.0 (space-stops, tt) stop)

pub last_argument :
    (word rest : List ℕ)
    → IsArgument word
    → get_next_arg (word ++ 0 ∷ rest) ≡ ok (some word, 0 ∷ rest)
last_argument [] rest h = absurd h
last_argument (x ∷ word) rest h = get_next_arg-last x word rest h.0

-- An argument begins with no blank.
word-start :
    (word rest : List ℕ)
    → IsArgument word
    → (c : ℕ) × (s : List ℕ) × (word ++ rest ≡ c ∷ s) × (is_delimiter c ≡ false)
word-start [] rest h = absurd h
word-start (c ∷ word) rest h = (c, word ++ rest, refl, ground (arith, h.0.0))

-- An argument behind a space.
pub then_argument :
    (word next rest : List ℕ)
    → IsArgument word
    → IsArgument next
    → get_next_arg (word ++ b' ' ∷ (next ++ rest)) ≡ ok (some word, next ++ rest)
then_argument word next rest h h' =
    let (c, s, e, stop) = word-start next rest h' in next_argument word (next ++ rest) c s h e stop
