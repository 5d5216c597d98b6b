-- ===== src/Connection/LineEnds.antt =====
-- Where the first line end is in the bytes that were read.
use memuncached.Prelude.{
  ℕ, ◌+◌, ◌≡◌, refl, sym, ap, ◌∙◌, ◌⊎◌, inl, inr, false, List, [], ◌∷◌, ◌++◌, none, some, arith,
  length, drop, ltb, ◌==◌, ==_iff, Bool-cases,
}
use memuncached.Utils.{starts_with, sstrstr_from}

-- No line end is in the bytes.
abbrev pub NoLine : List ℕ → Type 0
NoLine [] = Unit
NoLine (c ∷ s) = ((c == 10) ≡ false) × NoLine s

pub line_cases :
    (s : List ℕ) → NoLine s ⊎ ((l : List ℕ) × (p : List ℕ) × (s ≡ l ++ 10 ∷ p) × NoLine l)
line_cases [] = inl tt
line_cases (c ∷ s) = elim (Bool-cases (c == 10)) [
  | inl e ↦ inr ([], s, ap (λ x. x ∷ s) ((==_iff c 10).0 e), tt)
  | inr e ↦ elim (line_cases s) [
    | inl none_in ↦ inl (e, none_in)
    | inr (l, p, split, none_in) ↦ inr (c ∷ l, p, ap (λ x. c ∷ x) split, (e, none_in))
  ]
]

pub sstrstr_from-NoLine : (i : ℕ) (s : List ℕ) → NoLine s → sstrstr_from i s (10 ∷ []) ≡ none
unfolding sstrstr_from starts_with
sstrstr_from-NoLine i [] h = refl
sstrstr_from-NoLine i (c ∷ s) h =
    let long : ltb (length (c ∷ s)) 1 ≡ false = ground arith in
    let other : (10 == c) ≡ false = ground (arith, h.0) in
    rw (long, other) (sstrstr_from-NoLine (i + 1) s h.1)

pub sstrstr_from-line :
    (i : ℕ) (l p : List ℕ) → NoLine l → sstrstr_from i (l ++ 10 ∷ p) (10 ∷ []) ≡ some (i + length l)
unfolding sstrstr_from starts_with
sstrstr_from-line i [] p h =
    let long : ltb (length (10 ∷ p)) 1 ≡ false = ground arith in rw long (ap some (omega arith))
sstrstr_from-line i (c ∷ l) p h =
    let long : ltb (length (c ∷ (l ++ 10 ∷ p))) 1 ≡ false = ground arith in
    let other : (10 == c) ≡ false = ground (arith, h.0) in
    rw (long, other) (sstrstr_from-line (i + 1) l p h.1 ∙ ap some (omega arith))

-- The first line end is where it is in any division of the bytes.
pub same_line :
    (l p l' p' : List ℕ) → NoLine l → NoLine l' → l ++ 10 ∷ p ≡ l' ++ 10 ∷ p' → (l ≡ l') × (p ≡ p')
same_line [] p [] p' h h' e = (refl, ap (drop 1) e)
same_line [] p (c ∷ l') p' h h' e = absurd (ground (arith, h'.0, e))
same_line (c ∷ l) p [] p' h h' e = absurd (ground (arith, h.0, e))
same_line (c ∷ l) p (c' ∷ l') p' h h' e =
    let (el, ep) = same_line l p l' p' h.1 h'.1 (ap (drop 1) e) in let ec : c ≡ c' = cc in (cc, ep)

pub later_line :
    (l p s t : List ℕ)
    → NoLine l
    → NoLine s
    → l ++ 10 ∷ p ≡ s ++ t
    → (m : List ℕ) × (l ≡ s ++ m) × (t ≡ m ++ 10 ∷ p) × NoLine m
later_line l p [] t h hs e = (l, refl, sym e, h)
later_line [] p (c ∷ s) t h hs e = absurd (ground (arith, hs.0, e))
later_line (x ∷ l) p (c ∷ s) t h hs e =
    let (m, el, et, hm) = later_line l p s t h.1 hs.1 (ap (drop 1) e) in
    let ec : x ≡ c = cc in (m, cc, et, hm)
