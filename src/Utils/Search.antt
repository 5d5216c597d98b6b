-- ===== src/Utils/Search.antt =====
-- About `sstrstr`.
use memuncached.Prelude.{
  ℕ, zero, suc, ◌+◌, ◌-◌, ◌≤◌, ◌<◌, ◌≡◌, true, false, List, [], ◌∷◌, Option, none, some, arith,
  length, length-drop, drop, ltb, ltb→lt, Bool-cases, inl, inr,
}
use memuncached.Utils.{starts_with, sstrstr_from, sstrstr}

starts_with-length :
    (needle hay : List ℕ) → starts_with needle hay ≡ true → length needle ≤ length hay
unfolding starts_with
starts_with-length [] hay h = omega arith
starts_with-length (n ∷ needle) [] h = absurd (cc)
starts_with-length (n ∷ needle) (c ∷ hay) h = ground (arith, starts_with-length needle hay)

-- `k` is the first place of `hay` at which `needle` stands.
pub record IsFirst (needle hay : List ℕ) (k : ℕ) : Type 0 where
  pub inside : k < length hay
  pub here : starts_with needle (drop k hay) ≡ true
  pub first : (j : ℕ) → j < k → starts_with needle (drop j hay) ≡ false

-- No place of `hay` is one at which `needle` stands.
abbrev pub Nowhere : List ℕ → List ℕ → Type 0
Nowhere needle hay = (j : ℕ) → j < length hay → starts_with needle (drop j hay) ≡ false

too_short : (needle hay : List ℕ) → length hay < length needle → Nowhere needle hay
too_short needle hay h j lt = elim (Bool-cases (starts_with needle (drop j hay))) [
  | inr no_match ↦ no_match
  | inl match ↦
      absurd (omega (arith, starts_with-length needle (drop j hay) match, length-drop j hay))
]

-- What the loop returns from `i` on.
abbrev Finds : ℕ → List ℕ → List ℕ → Option ℕ → Type 0
Finds i needle hay none = Nowhere needle hay
Finds i needle hay (some k) = (i ≤ k) × IsFirst needle hay (k - i)

Nowhere-cons :
    (c : ℕ) (hay needle : List ℕ)
    → starts_with needle (c ∷ hay) ≡ false
    → Nowhere needle hay
    → Nowhere needle (c ∷ hay)
Nowhere-cons c hay needle miss rest zero lt = miss
Nowhere-cons c hay needle miss rest (suc j) lt = rest j (omega arith)

IsFirst-cons :
    (c : ℕ) (hay needle : List ℕ) (k : ℕ)
    → starts_with needle (c ∷ hay) ≡ false
    → IsFirst needle hay k
    → IsFirst needle (c ∷ hay) (suc k)
IsFirst-cons c hay needle k miss rest = record {
  inside = omega (arith, rest.inside);
  here = rest.here;
  first = elim [ zero ↦ λ lt. miss | suc j ↦ λ lt. rest.first j (omega arith) ];
}

Finds-cons :
    (i c : ℕ) (hay needle : List ℕ) (o : Option ℕ)
    → starts_with needle (c ∷ hay) ≡ false
    → Finds (i + 1) needle hay o
    → Finds i needle (c ∷ hay) o
Finds-cons i c hay needle none miss rest = Nowhere-cons c hay needle miss rest
Finds-cons i c hay needle (some k) miss rest =
    let e : k - i ≡ suc (k - (i + 1)) = omega (arith, rest.0) in
    (omega (arith, rest.0), rw e (IsFirst-cons c hay needle (k - (i + 1)) miss rest.1))

Finds-here :
    (i c : ℕ) (hay needle : List ℕ)
    → starts_with needle (c ∷ hay) ≡ true
    → Finds i needle (c ∷ hay) (some i)
Finds-here i c hay needle match =
    let e : i - i ≡ 0 = omega arith in
    (
      omega arith,
      rw e (record { inside = omega arith; here = match; first = λ j lt. absurd (omega arith) }),
    )

sstrstr_from-Finds : (i : ℕ) (hay needle : List ℕ) → Finds i needle hay (sstrstr_from i hay needle)
unfolding sstrstr_from
sstrstr_from-Finds i [] needle = λ j lt. elim lt [ ]
sstrstr_from-Finds i (c ∷ hay) needle = elim (Bool-cases (ltb (length (c ∷ hay)) (length needle))) [
  | inl short ↦ rw short (too_short needle (c ∷ hay) (ltb→lt _ _ short))
  | inr long ↦ elim (Bool-cases (starts_with needle (c ∷ hay))) [
    | inl match ↦ rw (long, match) (Finds-here i c hay needle match)
    | inr miss ↦
        rw (long, miss)
          (Finds-cons i c hay needle (sstrstr_from (i + 1) hay needle) miss
            (sstrstr_from-Finds (i + 1) hay needle))
  ]
]

-- The promise of `sstrstr`: the index of the first occurrence, or none, and then there is none.
abbrev pub Answers : List ℕ → List ℕ → Option ℕ → Type 0
Answers needle hay none = Nowhere needle hay
Answers needle hay (some k) = IsFirst needle hay k

Finds-Answers : (needle hay : List ℕ) (o : Option ℕ) → Finds 0 needle hay o → Answers needle hay o
Finds-Answers needle hay none h = h
Finds-Answers needle hay (some k) h = let e : k - 0 ≡ k = omega arith in rw e at h.1

-- sstrstr returns the first place below the given length at which the needle stands, and NULL only
-- if it stands at none.
pub sstrstr-Answers : (hay needle : List ℕ) → Answers needle hay (sstrstr hay needle)
unfolding sstrstr
sstrstr-Answers hay needle =
    Finds-Answers needle hay (sstrstr_from 0 hay needle) (sstrstr_from-Finds 0 hay needle)
