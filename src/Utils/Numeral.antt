-- ===== src/Utils/Numeral.antt =====
-- About `is_decimal_string` and `is_real_string`, and the numerals.
use memuncached.Prelude.{
  ℕ, ◌≡◌, ◌↔◌, ◌⊎◌, refl, ap, Bool, true, false, ◌||◌, List, [], ◌∷◌, ◌++◌, arith, ◌==◌, ==_iff,
  Bool-cases, inl, inr,
}
use memuncached.Utils.{isdigit, is_sign, decimal_from, is_decimal_string, real_from, is_real_string}

-- Digits alone.
abbrev pub Digits : List ℕ → Type 0
Digits [] = Unit
Digits (c ∷ s) = (isdigit c ≡ true) × Digits s

-- A decimal numeral: a sign, or none, and digits; digits there are unless there is a sign.
pub data Decimal : List ℕ → Type 0 where
  signed : {c : ℕ} {s : List ℕ} → is_sign c ≡ true → Digits s → Decimal (c ∷ s)
  unsigned : {c : ℕ} {s : List ℕ} → isdigit c ≡ true → Digits s → Decimal (c ∷ s)

-- A real numeral: a sign, or none, and digits with a point among them or behind them, or none. A
-- point may open the digits only behind a sign.
pub data Real : List ℕ → Type 0 where
  whole : {s : List ℕ} → Decimal s → Real s
  parts : {r : List ℕ} (s t : List ℕ) → r ≡ s ++ b'.' ∷ t → Decimal s → Digits t → Real r

decimal_from→Digits : (s : List ℕ) → decimal_from s ≡ true → Digits s
unfolding decimal_from
decimal_from→Digits [] h = tt
decimal_from→Digits (c ∷ s) h = ground (arith, decimal_from→Digits s)

Digits→decimal_from : (s : List ℕ) → Digits s → decimal_from s ≡ true
unfolding decimal_from
Digits→decimal_from [] h = refl
Digits→decimal_from (c ∷ s) h = rw h.0 (Digits→decimal_from s h.1)

isdigit-not-is_sign : (c : ℕ) → isdigit c ≡ true → is_sign c ≡ false
unfolding is_sign isdigit
isdigit-not-is_sign c h = ground arith

isdigit-not-point : (c : ℕ) → isdigit c ≡ true → (c == b'.') ≡ false
unfolding isdigit
isdigit-not-point c h = ground arith

is_sign-not-point : (c : ℕ) → is_sign c ≡ true → (c == b'.') ≡ false
unfolding is_sign
is_sign-not-point c h = ground arith

decimal→ : (s : List ℕ) → is_decimal_string s ≡ true → Decimal s
unfolding is_decimal_string
decimal→ [] h = absurd (cc)
decimal→ (c ∷ s) h = elim (Bool-cases (is_sign c)) [
  | inl sign ↦ signed sign (decimal_from→Digits s (rw sign at h))
  | inr digit ↦
      let ds : Digits (c ∷ s) = decimal_from→Digits (c ∷ s) (rw digit at h) in unsigned ds.0 ds.1
]

→decimal : {s : List ℕ} → Decimal s → is_decimal_string s ≡ true
unfolding is_decimal_string
→decimal (signed {c} {s} sign ds) = rw sign (Digits→decimal_from s ds)
→decimal (unsigned {c} {s} digit ds) =
    rw (isdigit-not-is_sign c digit) (Digits→decimal_from (c ∷ s) (digit, ds))

-- is_decimal_string accepts exactly the decimal numerals: a sign and digits, possibly none, or
-- digits, at least one.
pub is_decimal_string_iff : (s : List ℕ) → (is_decimal_string s ≡ true) ↔ Decimal s
is_decimal_string_iff s = (decimal→ s, →decimal)

real_from-true→ : (s : List ℕ) → real_from true s ≡ true → Digits s
unfolding real_from
real_from-true→ [] h = tt
real_from-true→ (c ∷ s) h = ground (arith, real_from-true→ s)

-- Digits with at most one point among them.
abbrev Mantissa : List ℕ → Type 0
Mantissa r = Digits r ⊎ ((s : List ℕ) × (t : List ℕ) × (r ≡ s ++ b'.' ∷ t) × Digits s × Digits t)

Mantissa-cons : (c : ℕ) (r : List ℕ) → isdigit c ≡ true → Mantissa r → Mantissa (c ∷ r)
Mantissa-cons c r h (inl ds) = inl (h, ds)
Mantissa-cons c r h (inr (s, t, e, ds, dt)) = inr (c ∷ s, t, ap (λ l. c ∷ l) e, (h, ds), dt)

real_from-false→ : (r : List ℕ) → real_from false r ≡ true → Mantissa r
unfolding real_from
real_from-false→ [] h = inl tt
real_from-false→ (c ∷ r) h = elim (Bool-cases (c == b'.')) [
  | inl point ↦
      let e : c ≡ b'.' = (==_iff c b'.').0 point in
      inr ([], r, ap (λ k. k ∷ r) e, tt, real_from-true→ r (rw point at h))
  | inr other ↦ elim (Bool-cases (isdigit c)) [
    | inl digit ↦ Mantissa-cons c r digit (real_from-false→ r (rw (other, digit) at h))
    | inr no_digit ↦ absurd (ground arith)
  ]
]

Digits→real_from : (dot : Bool) (s : List ℕ) → Digits s → real_from dot s ≡ true
unfolding real_from
Digits→real_from dot [] h = refl
Digits→real_from dot (c ∷ s) h =
    rw (isdigit-not-point c h.0, h.0) (Digits→real_from (dot || false) s h.1)

Mantissa→real_from : (s t : List ℕ) → Digits s → Digits t → real_from false (s ++ b'.' ∷ t) ≡ true
unfolding real_from
Mantissa→real_from [] t hs ht = Digits→real_from true t ht
Mantissa→real_from (c ∷ s) t hs ht =
    rw (isdigit-not-point c hs.0, hs.0) (Mantissa→real_from s t hs.1 ht)

signed-Mantissa : (c : ℕ) (r : List ℕ) → is_sign c ≡ true → Mantissa r → Real (c ∷ r)
signed-Mantissa c r sign (inl ds) = whole (signed sign ds)
signed-Mantissa c r sign (inr (s, t, e, ds, dt)) =
    parts (c ∷ s) t (ap (λ l. c ∷ l) e) (signed sign ds) dt

unsigned-Mantissa : (c : ℕ) (r : List ℕ) → (c == b'.') ≡ false → Mantissa (c ∷ r) → Real (c ∷ r)
unsigned-Mantissa c r other (inl (d, ds)) = whole (unsigned d ds)
unsigned-Mantissa c r other (inr ([], t, e, ds, dt)) =
    let point : c ≡ b'.' = cc in absurd (ground arith)
unsigned-Mantissa c r other (inr (x ∷ s, t, e, ds, dt)) = parts (x ∷ s) t e (unsigned ds.0 ds.1) dt

real→ : (r : List ℕ) → is_real_string r ≡ true → Real r
unfolding is_real_string
real→ [] h = absurd (cc)
real→ (c ∷ r) h = elim (Bool-cases (c == b'.')) [
  | inl point ↦ absurd (ground arith)
  | inr other ↦ elim (Bool-cases (is_sign c)) [
    | inl sign ↦ signed-Mantissa c r sign (real_from-false→ r (rw (other, sign) at h))
    | inr bare ↦ unsigned-Mantissa c r other (real_from-false→ (c ∷ r) (rw (other, bare) at h))
  ]
]

decimal→real : {s : List ℕ} → Decimal s → is_real_string s ≡ true
unfolding is_real_string
decimal→real (signed {c} {s} sign ds) =
    rw (is_sign-not-point c sign, sign) (Digits→real_from false s ds)
decimal→real (unsigned {c} {s} digit ds) =
    rw (isdigit-not-point c digit, isdigit-not-is_sign c digit)
      (Digits→real_from false (c ∷ s) (digit, ds))

parts→real :
    {s : List ℕ} (t : List ℕ) → Decimal s → Digits t → is_real_string (s ++ b'.' ∷ t) ≡ true
unfolding is_real_string
parts→real t (signed {c} {s} sign ds) dt =
    rw (is_sign-not-point c sign, sign) (Mantissa→real_from s t ds dt)
parts→real t (unsigned {c} {s} digit ds) dt =
    rw (isdigit-not-point c digit, isdigit-not-is_sign c digit)
      (Mantissa→real_from (c ∷ s) t (digit, ds) dt)

→real : {r : List ℕ} → Real r → is_real_string r ≡ true
→real (whole d) = decimal→real d
→real (parts s t e d dt) = rw e (parts→real t d dt)

pub is_real_string_iff : (r : List ℕ) → (is_real_string r ≡ true) ↔ Real r
is_real_string_iff r = (real→ r, →real)
