-- ===== src/Tests/Text.antt =====
-- The text utilities.
use memuncached.Prelude.{
  ℕ, ◌-◌, ◌*◌, ◌+◌, ◌≡◌, ◌↔◌, true, List, [], ◌∷◌, ◌++◌, arith, codes, length,
}
use memuncached.Run.{ok, fault, out_of_bounds}
use memuncached.Utils.Escape.{escaped, zeros, str_escape-escaped, str_escape-overflow}
use memuncached.Utils.Numeral.{Real, is_real_string_iff}
use memuncached.Utils.Search.{Answers, sstrstr-Answers}
use memuncached.Utils.{str_escape, is_printable, is_real_string, sstrstr}

abbrev line : List ℕ
line = b'a' ∷ 13 ∷ []

str_escape-escaped_example :
    str_escape line ≡ ok (escaped line ++ zeros (length line * 5 + 1 - length (escaped line)))
str_escape-escaped_example = str_escape-escaped line (omega arith)

str_escape-overflow_example : str_escape (codes "a" ++ 0xe9 ∷ []) ≡ fault out_of_bounds
unfolding is_printable
str_escape-overflow_example =
    str_escape-overflow (codes "a") 0xe9 (omega arith) (omega arith) (omega arith)

is_real_string_iff_example : (is_real_string (codes "-1.5") ≡ true) ↔ Real (codes "-1.5")
is_real_string_iff_example = is_real_string_iff (codes "-1.5")

sstrstr-Answers_example :
    Answers (codes "\n") (codes "GET k\n") (sstrstr (codes "GET k\n") (codes "\n"))
sstrstr-Answers_example = sstrstr-Answers (codes "GET k\n") (codes "\n")
