-- ===== src/Library/Reply.antt =====
-- The form of a reply, as connection.h writes it and `memuncached_recv` in libmemuncached.c reads it.
use memuncached.Connection.LineEnds.{NoLine}
use memuncached.Dispatch.Lines.{IsText}
use memuncached.Library.Lines.{last_space}
use memuncached.Libc.Decimal.{isdigit-digit, digits-Digits, atoll-print}
use memuncached.Libc.{
  to_int32, atoi, print_decimal, isspace, digits_value, clamp_pos, skip_space, signed_value, atoll,
}
use memuncached.Prelude.Int.{ℤ, pos, negsuc}
use memuncached.Prelude.{
  ℕ, suc, ◌+◌, ◌*◌, ◌^◌, ◌<◌, ◌≡◌, refl, sym, ap, ◌∙◌, false, List, [], ◌∷◌, ◌++◌, Option, none,
  some, true, arith, append-nil, crlf, length, ◌==◌, if◌then◌else◌,
}
use memuncached.Utils.Numeral.{Digits}
use memuncached.Utils.{isdigit}

-- A reply: the digits of its code, its description, its type if it carries a value, and its body.
pub record Reply : Type 0 where
  pub hundreds : ℕ
  pub tens : ℕ
  pub ones : ℕ
  pub description : List ℕ
  pub type : Option ℕ
  pub body : List ℕ

abbrev pub reply_code : Reply → ℕ
reply_code r = r.hundreds * 100 + r.tens * 10 + r.ones

abbrev pub code_text : Reply → List ℕ
code_text r = (b'0' + r.hundreds) ∷ (b'0' + r.tens) ∷ (b'0' + r.ones) ∷ []

-- The two lines in front of the body, without the line feed.
abbrev pub status_text : Reply → List ℕ
status_text r = code_text r ++ (b' ' ∷ (r.description ++ 13 ∷ []))

abbrev pub type_text : Option ℕ → List ℕ
type_text none = 13 ∷ []
type_text (some t) = b' ' ∷ (print_decimal (pos t) ++ 13 ∷ [])

abbrev pub header_text : Reply → List ℕ
header_text r = print_decimal (pos (length r.body)) ++ type_text r.type

abbrev pub body_text : Reply → List ℕ
body_text r = r.body ++ 0 ∷ crlf

abbrev pub reply_text : Reply → List ℕ
reply_text r = status_text r ++ 10 ∷ (header_text r ++ 10 ∷ body_text r)

-- The same lines after the parser has ended the strings in them.
abbrev pub status_cut : Reply → List ℕ
status_cut r = code_text r ++ (0 ∷ (r.description ++ 0 ∷ 10 ∷ []))

abbrev pub type_cut : Option ℕ → List ℕ
type_cut none = 0 ∷ 10 ∷ []
type_cut (some t) = 0 ∷ (print_decimal (pos t) ++ 0 ∷ 10 ∷ [])

abbrev pub header_cut : Reply → List ℕ
header_cut r = print_decimal (pos (length r.body)) ++ type_cut r.type

abbrev pub type_of : Option ℕ → ℕ
type_of none = 0
type_of (some t) = t

-- The code has three digits, the description is a line, and the numbers fit their types.
pub record IsReply (r : Reply) : Type 0 where
  pub hundreds : r.hundreds < 10
  pub tens : r.tens < 10
  pub ones : r.ones < 10
  pub line : NoLine r.description
  pub text : IsText r.description
  pub type : type_of r.type < 128
  pub size : length (reply_text r) < 2 ^ 30

isdigit-others :
    (c : ℕ) → isdigit c ≡ true → ((c == 10) ≡ false) × ((c == 0) ≡ false) × ((c == b' ') ≡ false)
unfolding isdigit
isdigit-others c h = ground arith

NoLine-append : (a b : List ℕ) → NoLine a → NoLine b → NoLine (a ++ b)
NoLine-append [] b ha hb = hb
NoLine-append (c ∷ a) b ha hb = (ha.0, NoLine-append a b ha.1 hb)

Digits-NoLine : (s : List ℕ) → Digits s → NoLine s
Digits-NoLine [] h = tt
Digits-NoLine (c ∷ s) h = ((isdigit-others c h.0).0, Digits-NoLine s h.1)

Digits-IsText : (s : List ℕ) → Digits s → IsText s
Digits-IsText [] h = tt
Digits-IsText (c ∷ s) h = ((isdigit-others c h.0).1, Digits-IsText s h.1)

print-Digits : (n : ℕ) → Digits (print_decimal (pos n))
unfolding print_decimal
print-Digits n = digits-Digits (suc n) n

pub print-IsText : (n : ℕ) → IsText (print_decimal (pos n))
print-IsText n = Digits-IsText _ (print-Digits n)

print-NoLine : (n : ℕ) → NoLine (print_decimal (pos n))
print-NoLine n = Digits-NoLine _ (print-Digits n)

last_space-Digits :
    (i : ℕ) (s t : List ℕ) (w : Option ℕ)
    → Digits s
    → last_space i (s ++ t) w ≡ last_space (i + length s) t w
last_space-Digits i [] t w h = ap (λ k. last_space k t w) (omega arith)
last_space-Digits i (c ∷ s) t w h =
    ap (λ b. last_space (i + 1) (s ++ t) (if b then some i else w)) (isdigit-others c h.0).2
    ∙ last_space-Digits (i + 1) s t w h.1
    ∙ ap (λ k. last_space k t w) (omega arith)

to_int32-eq : (n : ℕ) → n < 2 ^ 31 → to_int32 (pos n) ≡ pos n
unfolding to_int32
to_int32-eq n h = ground arith

pub atoi-print : (n : ℕ) → n < 2 ^ 31 → atoi (print_decimal (pos n)) ≡ pos n
unfolding atoi
atoi-print n h =
    ap (λ s. to_int32 (atoll s)) (sym (append-nil (print_decimal (pos n))))
    ∙ ap to_int32 (atoll-print (pos n) [] (omega arith, omega arith) tt)
    ∙ to_int32-eq n h

code_text-Digits : (r : Reply) → IsReply r → Digits (code_text r)
code_text-Digits r h = (
  isdigit-digit r.hundreds h.hundreds,
  (isdigit-digit r.tens h.tens, (isdigit-digit r.ones h.ones, tt)),
)

pub status_text-NoLine : (r : Reply) → IsReply r → NoLine (status_text r)
status_text-NoLine r h =
    NoLine-append (code_text r) (b' ' ∷ (r.description ++ 13 ∷ []))
      (Digits-NoLine (code_text r) (code_text-Digits r h))
      (refl, NoLine-append r.description (13 ∷ []) h.line (refl, tt))

pub header_text-NoLine : (r : Reply) → NoLine (header_text r)
header_text-NoLine r =
    NoLine-append (print_decimal (pos (length r.body))) (type_text r.type)
      (print-NoLine (length r.body)) (line r.type)
  where
    line : (t : Option ℕ) → NoLine (type_text t)
    line none = (refl, tt)
    line (some t) =
        (refl, NoLine-append (print_decimal (pos t)) (13 ∷ []) (print-NoLine t) (refl, tt))

pub code_text-IsText : (r : Reply) → IsReply r → IsText (code_text r)
code_text-IsText r h = Digits-IsText (code_text r) (code_text-Digits r h)

code_value :
    (a b c : ℕ)
    → a < 10
    → b < 10
    → c < 10
    → digits_value 0 ((b'0' + a) ∷ (b'0' + b) ∷ (b'0' + c) ∷ []) ≡ a * 100 + b * 10 + c
unfolding digits_value isdigit
code_value a b c ha hb hc = ground arith

first_plain :
    (a : ℕ)
    → a < 10
    → (isspace (b'0' + a) ≡ false) × (((b'0' + a) == b'-') ≡ false) × (((b'0' + a) == b'+') ≡ false)
unfolding isspace
first_plain a h = ground arith

small_value : (n : ℕ) → n < 1000 → to_int32 (clamp_pos n) ≡ pos n
unfolding clamp_pos to_int32
small_value n h = ground arith

pub atoi-code : (r : Reply) → IsReply r → atoi (code_text r) ≡ pos (reply_code r)
unfolding atoi atoll skip_space signed_value
atoi-code r h =
    let (space, minus, plus) = first_plain r.hundreds h.hundreds in
    let a = h.hundreds in
    let b = h.tens in
    let c = h.ones in
    rw (space, minus, plus, code_value r.hundreds r.tens r.ones a b c)
      (small_value (reply_code r) (omega arith))

-- The last space of the second line.
abbrev pub space_of : ℕ → Option ℕ → Option ℕ
space_of i none = none
space_of i (some t) = some i

pub last_space-header :
    (i : ℕ) (r : Reply)
    → last_space i (header_text r) none
      ≡ space_of (i + length (print_decimal (pos (length r.body)))) r.type
last_space-header i r =
    last_space-Digits i (print_decimal (pos (length r.body))) (type_text r.type) none
      (print-Digits (length r.body))
    ∙ behind (i + length (print_decimal (pos (length r.body)))) r.type
  where
    behind : (k : ℕ) (t : Option ℕ) → last_space k (type_text t) none ≡ space_of k t
    behind k none = refl
    behind k (some t) =
        last_space-Digits (k + 1) (print_decimal (pos t)) (13 ∷ []) (some k) (print-Digits t)

pub print_decimal-IsText : (z : ℤ) → IsText (print_decimal z)
unfolding print_decimal
print_decimal-IsText (pos n) = Digits-IsText _ (digits-Digits (suc n) n)
print_decimal-IsText (negsuc n) = (refl, Digits-IsText _ (digits-Digits (suc (suc n)) (suc n)))
