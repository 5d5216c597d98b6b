-- ===== src/Libc/Decimal.antt =====
-- About `atoll` and the printing of integers.
use memuncached.Libc.{isspace, digits_value, clamp_pos, clamp_neg, atoll, digits, print_decimal}
use memuncached.Prelude.Int.{ℤ, pos, negsuc, pos_part, neg_part}
use memuncached.Prelude.{
  ℕ, zero, suc, ◌+◌, ◌-◌, ◌*◌, ◌/◌, ◌%◌, ◌^◌, ◌≤◌, ◌<◌, ◌≡◌, refl, sym, ap, ◌∙◌, true, false, List,
  [], ◌∷◌, ◌++◌, arith, length, length-append, ltb, ◌==◌, Bool-cases, ltb→lt, inl, inr,
}
use memuncached.Utils.Numeral.{Digits, signed, unsigned, is_decimal_string_iff}
use memuncached.Utils.{isdigit, is_sign, is_decimal_string}

-- The integers of `int64_t`.
abbrev pub IsInt64 : ℤ → Type 0
IsInt64 z = (pos_part z < 2 ^ 63) × (neg_part z ≤ 2 ^ 63)

-- A text that does not go on with a digit.
abbrev pub NoDigit : List ℕ → Type 0
NoDigit [] = Unit
NoDigit (c ∷ s) = isdigit c ≡ false

Digits-append : (a b : List ℕ) → Digits a → Digits b → Digits (a ++ b)
Digits-append [] b ha hb = hb
Digits-append (c ∷ a) b ha hb = (ha.0, Digits-append a b ha.1 hb)

pub isdigit-digit : (n : ℕ) → n < 10 → isdigit (b'0' + n) ≡ true
unfolding isdigit
isdigit-digit n h = ground arith

pub digits-Digits : (fuel n : ℕ) → Digits (digits fuel n)
unfolding digits
digits-Digits zero n = tt
digits-Digits (suc fuel) n = elim (Bool-cases (ltb n 10)) [
  | inl one ↦ rw one (isdigit-digit n (ltb→lt n 10 one), tt)
  | inr more ↦
      rw more
        (Digits-append _ _ (digits-Digits fuel (n / 10)) (isdigit-digit (n % 10) (omega arith), tt))
]

digits_value-append :
    (acc : ℕ) (a b : List ℕ)
    → Digits a
    → digits_value acc (a ++ b) ≡ digits_value (digits_value acc a) b
unfolding digits_value
digits_value-append acc [] b h = refl
digits_value-append acc (c ∷ a) b h = rw h.0 (digits_value-append (acc * 10 + (c - b'0')) a b h.1)

digits_value-one : (acc n : ℕ) → n < 10 → digits_value acc ((b'0' + n) ∷ []) ≡ acc * 10 + n
unfolding digits_value
digits_value-one acc n h = ground (arith, isdigit-digit n h)

digits_value-digits : (fuel n : ℕ) → n < fuel → digits_value 0 (digits fuel n) ≡ n
unfolding digits
digits_value-digits zero n h = absurd (omega arith)
digits_value-digits (suc fuel) n h = elim (Bool-cases (ltb n 10)) [
  | inl one ↦ rw one (digits_value-one 0 n (ltb→lt n 10 one) ∙ omega arith)
  | inr more ↦ rw more (
      digits_value-append 0 (digits fuel (n / 10)) _ (digits-Digits fuel (n / 10))
      ∙ digits_value-one _ (n % 10) (omega arith)
      ∙ rw (digits_value-digits fuel (n / 10) (ground arith)) (omega arith))
]

digits_value-NoDigit : (acc : ℕ) (rest : List ℕ) → NoDigit rest → digits_value acc rest ≡ acc
unfolding digits_value
digits_value-NoDigit acc [] h = refl
digits_value-NoDigit acc (c ∷ rest) h = rw h

digits_value-print :
    (fuel n : ℕ) (rest : List ℕ)
    → n < fuel
    → NoDigit rest
    → digits_value 0 (digits fuel n ++ rest) ≡ n
digits_value-print fuel n rest h nd =
    digits_value-append 0 (digits fuel n) rest (digits-Digits fuel n)
    ∙ digits_value-NoDigit _ rest nd
    ∙ digits_value-digits fuel n h

cons_of_Digits :
    (l : List ℕ)
    → Digits l
    → 0 < length l
    → (c : ℕ) × (s : List ℕ) × (l ≡ c ∷ s) × (isdigit c ≡ true) × Digits s
cons_of_Digits [] ds h = elim h [ ]
cons_of_Digits (c ∷ s) ds h = (c, s, refl, ds.0, ds.1)

length-digits_pos : (fuel n : ℕ) → 0 < length (digits (suc fuel) n)
unfolding digits
length-digits_pos fuel n =
    ground (arith, length-append (digits fuel (n / 10)) ((b'0' + n % 10) ∷ []))

-- The first digit of a number, and the others.
pub digits-cons :
    (fuel n : ℕ)
    → (c : ℕ) × (s : List ℕ) × (digits (suc fuel) n ≡ c ∷ s) × (isdigit c ≡ true) × Digits s
digits-cons fuel n =
    cons_of_Digits (digits (suc fuel) n) (digits-Digits (suc fuel) n) (length-digits_pos fuel n)

isdigit-plain :
    (c : ℕ) → isdigit c ≡ true → (isspace c ≡ false) × ((c == b'-') ≡ false) × ((c == b'+') ≡ false)
unfolding isdigit isspace
isdigit-plain c h = ground arith

clamp_pos-eq : (n : ℕ) → n < 2 ^ 63 → clamp_pos n ≡ pos n
unfolding clamp_pos
clamp_pos-eq n h = ground arith

clamp_neg-eq : (n : ℕ) → n < 2 ^ 63 → clamp_neg (suc n) ≡ negsuc n
unfolding clamp_neg
clamp_neg-eq n h = ground arith

-- `atoll` reads back what "%ld" printed, whatever follows that is no digit.
pub atoll-print :
    (z : ℤ) (rest : List ℕ) → IsInt64 z → NoDigit rest → atoll (print_decimal z ++ rest) ≡ z
unfolding atoll print_decimal
atoll-print (pos n) rest h nd =
    let (c, s, e, d, ds) = digits-cons n n in
    let (space, minus, plus) = isdigit-plain c d in
    let value : digits_value 0 (c ∷ (s ++ rest)) ≡ n =
      ap (λ l. digits_value 0 (l ++ rest)) (sym e)
      ∙ digits_value-print (suc n) n rest (omega arith) nd in
    rw (e, space, minus, plus, value) (clamp_pos-eq n h.0)
atoll-print (negsuc n) rest h nd =
    rw (digits_value-print (suc (suc n)) (suc n) rest (omega arith) nd)
      (clamp_neg-eq n (omega (arith, h.1)))

-- `is_decimal_string` accepts what "%ld" prints.
pub is_decimal_string-print : (z : ℤ) → is_decimal_string (print_decimal z) ≡ true
unfolding print_decimal
is_decimal_string-print (pos n) =
    let (c, s, e, d, ds) = digits-cons n n in
    rw e ((is_decimal_string_iff (c ∷ s)).1 (unsigned d ds))
is_decimal_string-print (negsuc n) =
    (is_decimal_string_iff (print_decimal (negsuc n))).1
      (signed {c = b'-'} (unfold is_sign in refl) (digits-Digits (suc (suc n)) (suc n)))
