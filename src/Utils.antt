-- ===== src/Utils.antt =====
-- utils.h. A C string is the list of its bytes before the terminator, each from 1 to 255; `char` is
-- signed, so a byte from 128 on is a negative `char`.
pub mod Escape
pub mod Numeral
pub mod Search
use memuncached.Memory.{put, write}
use memuncached.Prelude.{
  ℕ, ◌+◌, ◌-◌, ◌*◌, ◌/◌, ◌%◌, Bool, true, false, not, ◌&&◌, ◌||◌, List, [], ◌∷◌, ◌++◌, Option, none,
  some, ltb, leb, ◌==◌, if◌then◌else◌, length, replicate,
}
use memuncached.Run.{Run, ok, ◌>>=◌}

-- `*c_ptr > 31 && *c_ptr < 127`; a negative `char` fails the first test.
unfoldable pub is_printable : ℕ → Bool
is_printable c = ltb c 128 && (ltb 31 c && ltb c 127)

-- A digit of "%x".
unfoldable pub hex_digit : ℕ → ℕ
hex_digit n = if ltb n 10 then b'0' + n else b'a' + (n - 10)

-- What `sprintf` makes of "\\x%02x" and `(int)*c_ptr`: eight digits for a negative `char`.
unfoldable pub hex_escape : ℕ → List ℕ
unfolding hex_digit
hex_escape c =
    let low = hex_digit (c / 16) ∷ hex_digit (c % 16) ∷ [] in
    if ltb c 128
    then b'\\' ∷ b'x' ∷ low
    else b'\\' ∷ b'x' ∷ b'f' ∷ b'f' ∷ b'f' ∷ b'f' ∷ b'f' ∷ b'f' ∷ low

-- The loop, with `eb_ptr` as an index of the buffer.
unfoldable pub escape_from : List ℕ → ℕ → List ℕ → Run (List ℕ)
escape_from buffer eb [] = put buffer eb 0
escape_from buffer eb (c ∷ str) =
    if is_printable c
    then put buffer eb c >>= (λ b. escape_from b (eb + 1) str)
    else write buffer eb (hex_escape c ++ 0 ∷ []) >>= (λ b. escape_from b (eb + 4) str)

unfoldable pub str_escape : List ℕ → Run (List ℕ)
unfolding escape_from
str_escape str = escape_from (replicate (length str * 5 + 1) 0) 0 str

-- `isdigit`
unfoldable pub isdigit : ℕ → Bool
isdigit c = leb b'0' c && leb c b'9'

unfoldable pub is_sign : ℕ → Bool
is_sign c = (c == b'+') || (c == b'-')

-- The loop of `is_decimal_string`.
unfoldable pub decimal_from : List ℕ → Bool
decimal_from [] = true
decimal_from (c ∷ itr) = if not (isdigit c) then false else decimal_from itr

unfoldable pub is_decimal_string : List ℕ → Bool
is_decimal_string [] = false
is_decimal_string (c ∷ itr) = if is_sign c then decimal_from itr else decimal_from (c ∷ itr)

-- The loop of `is_real_string`. Its two calls of itself are one, on what `dot` becomes.
unfoldable pub real_from : Bool → List ℕ → Bool
real_from dot [] = true
real_from dot (c ∷ itr) =
    let rest = real_from (dot || (c == b'.')) itr in
    if c == b'.' then (if dot then false else rest) else if not (isdigit c) then false else rest

unfoldable pub is_real_string : List ℕ → Bool
is_real_string [] = false
is_real_string (c ∷ itr) =
    if c == b'.'
    then false
    else if is_sign c
    then real_from false itr
    else real_from false (c ∷ itr)

-- `strncmp(haystack, needle, strlen(needle)) == 0`
unfoldable pub starts_with : List ℕ → List ℕ → Bool
starts_with [] haystack = true
starts_with (n ∷ needle) [] = false
starts_with (n ∷ needle) (h ∷ haystack) = (n == h) && starts_with needle haystack

-- The loop from `i` on, over the bytes of `haystack[i .. length)`.
unfoldable pub sstrstr_from : ℕ → List ℕ → List ℕ → Option ℕ
sstrstr_from i [] needle = none
sstrstr_from i (h ∷ haystack) needle =
    if ltb (length (h ∷ haystack)) (length needle)
    then none
    else if starts_with needle (h ∷ haystack)
    then some i
    else sstrstr_from (i + 1) haystack needle

-- The index of the first occurrence in the bytes of `haystack[0 .. length)`.
unfoldable pub sstrstr : List ℕ → List ℕ → Option ℕ
unfolding sstrstr_from
sstrstr haystack needle = sstrstr_from 0 haystack needle
