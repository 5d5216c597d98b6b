-- ===== src/Tests/Sessions.antt =====
-- Lines as a client sends them.
use memuncached.Commands.Counters.{Counts, next_cell, inc-reply}
use memuncached.Commands.{offset_value, memuncached_get}
use memuncached.Dispatch.Branches.{line, spaced, get-line, inc-line}
use memuncached.Dispatch.Keeps.{handle_command-IsValid}
use memuncached.Dispatch.Lines.{IsArgument}
use memuncached.Dispatch.Session.{get-set_line}
use memuncached.Dispatch.{is_delimiter, handle_command}
use memuncached.HashTable.Invariant.{IsValid, bucket}
use memuncached.Libc.{same_case, tolower, print_decimal, digits}
use memuncached.Network.{sent}
use memuncached.Prelude.{ℕ, ◌≡◌, refl, List, [], ◌∷◌, ◌++◌, none, arith, codes, crlf, take}
use memuncached.Protocol.{response_200_ok, response_write, value_write}
use memuncached.Run.{Returns, ◌>>=◌}
use memuncached.Tests.Handlers.{before, delivered}
use memuncached.Tests.Numbers.{whole_numbers}
use memuncached.Tests.Table.{key, empty-IsValid}
use memuncached.Utils.{is_decimal_string, decimal_from, isdigit, is_sign}

abbrev key_line : List ℕ
key_line = codes "k" ++ 0 ∷ []

get_name : IsArgument (codes "get")
unfolding is_delimiter
get_name = ((refl, (refl, (refl, tt))), (omega arith, (omega arith, (omega arith, tt))))

set_name : IsArgument (codes "Set")
unfolding is_delimiter
set_name = ((refl, (refl, (refl, tt))), (omega arith, (omega arith, (omega arith, tt))))

inc_name : IsArgument (codes "INC")
unfolding is_delimiter
inc_name = ((refl, (refl, (refl, tt))), (omega arith, (omega arith, (omega arith, tt))))

one_letter : IsArgument key
unfolding is_delimiter
one_letter = ((refl, tt), (omega arith, tt))

digit_2 : IsArgument (codes "2")
unfolding is_delimiter
digit_2 = ((refl, tt), (omega arith, tt))

get-line_example :
    handle_command 5 before (line (codes "get") (key ∷ []) []) 0 ≡ memuncached_get before key
unfolding same_case tolower
get-line_example = get-line 5 before (codes "get") key [] 0 get_name one_letter refl

get-set_line_example :
    Returns
      (handle_command 5 before (line (codes "Set") (key ∷ codes "2" ∷ codes "2" ∷ []) []) 0
        >>= λ w'. handle_command 5 w' (line (codes "get") (key ∷ []) []) 0)
      λ w'.
        w'.out
        ≡ (before.out ++ response_write response_200_ok [])
          ++ value_write 2 (take 2 (sent before.input))
unfolding same_case tolower is_decimal_string decimal_from is_sign isdigit value_write print_decimal
    digits
get-set_line_example =
    get-set_line 5 before (codes "Set") (codes "get") key (codes "2") [] [] 2 empty-IsValid set_name
      get_name one_letter digit_2 refl refl refl delivered (omega arith)

-- The payload comes with the line.
abbrev with_payload : List ℕ
with_payload =
    spaced (codes "Set") (key ∷ codes "2" ∷ codes "2" ∷ []) ++ (crlf ++ codes "h" ++ 0 ∷ [])

got : Returns (handle_command 5 before (line (codes "INC") (key ∷ []) []) 0) (
    Counts before key
      (next_cell whole_numbers.add key (bucket before.table key) (offset_value none) none))
unfolding same_case tolower
got =
    rw (inc-line 5 before (codes "INC") key [] 0 inc_name one_letter refl)
      (inc-reply before key none none empty-IsValid)

handle_command-IsValid_example : IsValid got.0.table
handle_command-IsValid_example =
    handle_command-IsValid 5 before empty-IsValid (line (codes "INC") (key ∷ []) []) 0 got.0 got.1
