-- ===== src/Libc.antt =====
-- The functions of the C library that connection.c and libmemuncached.c call on text: `strcasecmp`,
-- `atoll` with its kin, and `printf` with "%d" and "%ld".
pub mod Decimal
use memuncached.Prelude.Int.{ℤ, pos, negsuc}
use memuncached.Prelude.{
  ℕ, zero, suc, ◌+◌, ◌-◌, ◌*◌, ◌/◌, ◌%◌, ◌^◌, Bool, true, false, ◌&&◌, ◌||◌, List, [], ◌∷◌, ◌++◌,
  ltb, leb, ◌==◌, if◌then◌else◌,
}
use memuncached.Utils.{isdigit}

unfoldable pub tolower : ℕ → ℕ
tolower c = if leb b'A' c && leb c b'Z' then c + 32 else c

-- `strcasecmp(a, b) == 0`
unfoldable pub same_case : List ℕ → List ℕ → Bool
same_case [] [] = true
same_case [] (d ∷ b) = false
same_case (c ∷ a) [] = false
same_case (c ∷ a) (d ∷ b) = (tolower c == tolower d) && same_case a b

unfoldable pub isspace : ℕ → Bool
isspace c = (c == b' ') || (leb 9 c && leb c 13)

-- The value of the digits that stand first, behind those of value `acc`.
unfoldable pub digits_value : ℕ → List ℕ → ℕ
unfolding isdigit
digits_value acc [] = acc
digits_value acc (c ∷ s) = if isdigit c then digits_value (acc * 10 + (c - b'0')) s else acc

-- The nearest `long long`.
unfoldable pub clamp_pos : ℕ → ℤ
clamp_pos n = if ltb n (2 ^ 63) then pos n else pos (2 ^ 63 - 1)

unfoldable pub clamp_neg : ℕ → ℤ
clamp_neg zero = pos 0
clamp_neg (suc n) = if ltb n (2 ^ 63) then negsuc n else negsuc (2 ^ 63 - 1)

-- `atoll` of a text that begins with no space: the C library stops at the limits of the type.
unfoldable pub signed_value : List ℕ → ℤ
signed_value [] = pos 0
signed_value (c ∷ s) =
    if c == b'-'
    then clamp_neg (digits_value 0 s)
    else if c == b'+'
    then clamp_pos (digits_value 0 s)
    else clamp_pos (digits_value 0 (c ∷ s))

unfoldable pub skip_space : List ℕ → List ℕ
unfolding isspace
skip_space [] = []
skip_space (c ∷ s) = if isspace c then skip_space s else c ∷ s

-- `atoll`, and `atol`, whose type is as wide
unfoldable pub atoll : List ℕ → ℤ
unfolding skip_space signed_value
atoll s = signed_value (skip_space s)

-- The `int` that a `long` is converted to.
unfoldable pub to_int32 : ℤ → ℤ
to_int32 z =
    let word : ℕ = elim z [ pos n ↦ n % 2 ^ 32 | negsuc n ↦ 2 ^ 32 - 1 - n % 2 ^ 32 ] in
    if ltb word (2 ^ 31) then pos word else negsuc (2 ^ 32 - 1 - word)

-- `atoi`
unfoldable pub atoi : List ℕ → ℤ
unfolding atoll to_int32
atoi s = to_int32 (atoll s)

-- The decimal digits of a number, in `fuel` rounds at most; more rounds than the number always do.
unfoldable pub digits : ℕ → ℕ → List ℕ
digits zero n = []
digits (suc fuel) n =
    let more = digits fuel (n / 10) ++ (b'0' + n % 10) ∷ [] in
    if ltb n 10 then (b'0' + n) ∷ [] else more

-- "%d" and "%ld"
unfoldable pub print_decimal : ℤ → List ℕ
print_decimal (pos n) = digits (suc n) n
print_decimal (negsuc n) = b'-' ∷ digits (suc (suc n)) (suc n)
