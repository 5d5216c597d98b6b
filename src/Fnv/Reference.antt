-- ===== src/Fnv/Reference.antt =====
-- The hash of fnv.c against FNV-1a as it is published, over unsigned bytes.
use Prim.Native.Nat.{bit_xor}
use memuncached.Prelude.{
  ℕ, zero, suc, ◌*◌, ◌%◌, ◌^◌, ◌≤◌, ◌<◌, ◌≡◌, ◌≢◌, refl, Bool, true, ◌&&◌, ◌||◌, List, [], ◌∷◌,
  ◌++◌, arith, ltb, not, ◌==◌, ==_iff, Bool-cases, inl, inr,
}
use memuncached.Fnv.{fnv_prime_64, fnv_offset_64, widen, mix, fnv1a_from, fnv1a}

-- FNV-1a over octets.
abbrev pub reference_from : ℕ → List ℕ → ℕ
reference_from hash [] = hash
reference_from hash (c ∷ s) = reference_from ((bit_xor hash c * fnv_prime_64) % 2 ^ 64) s

abbrev pub reference : List ℕ → ℕ
reference s = reference_from fnv_offset_64 s

abbrev pub IsAscii : List ℕ → Type 0
IsAscii [] = Unit
IsAscii (c ∷ s) = (c < 128) × IsAscii s

widen-ascii : (c : ℕ) → c < 128 → widen c ≡ c
unfolding widen
widen-ascii c h = ground arith

fnv1a_from-eq-reference :
    (hash : ℕ) (s : List ℕ) → IsAscii s → fnv1a_from hash s ≡ reference_from hash s
unfolding fnv1a_from
fnv1a_from-eq-reference hash [] h = refl
fnv1a_from-eq-reference hash (c ∷ s) h =
    rw (widen-ascii c h.0)
      (fnv1a_from-eq-reference ((bit_xor hash c * fnv_prime_64) % 2 ^ 64) s h.1)

fnv1a_from-lt : (hash : ℕ) (s : List ℕ) → hash < 2 ^ 64 → fnv1a_from hash s < 2 ^ 64
unfolding fnv1a_from
fnv1a_from-lt hash [] h = h
fnv1a_from-lt hash (c ∷ s) h = fnv1a_from-lt (mix hash c) s (omega arith)

pub fnv1a-eq-reference : (s : List ℕ) → IsAscii s → fnv1a s ≡ reference s
unfolding fnv1a
fnv1a-eq-reference s h = fnv1a_from-eq-reference fnv_offset_64 s h

-- The hash is a `uint64_t`, whatever the key.
pub fnv1a-lt : (s : List ℕ) → fnv1a s < 2 ^ 64
unfolding fnv1a
fnv1a-lt s = fnv1a_from-lt fnv_offset_64 s (omega arith)

pub fnv1a_from-append :
    (hash : ℕ) (s t : List ℕ) → fnv1a_from hash (s ++ t) ≡ fnv1a_from (fnv1a_from hash s) t
unfolding fnv1a_from
fnv1a_from-append hash [] t = refl
fnv1a_from-append hash (c ∷ s) t = fnv1a_from-append (mix hash c) s t

-- Whether a test passes for every byte below a bound.
every : (ℕ → Bool) → ℕ → Bool
every test zero = true
every test (suc bound) = every test bound && test bound

every-passes : (test : ℕ → Bool) {c bound : ℕ} → c < bound → every test bound ≡ true → test c ≡ true
unfolding every
every-passes test {c} {bound = zero} lt h = absurd (omega arith)
every-passes test {c} {bound = suc bound} lt h = elim (Bool-cases (c == bound)) [
  | inl last ↦ rw ((==_iff c bound).0 last) (ground arith)
  | inr before ↦ every-passes test {c = c} {bound = bound} (ground arith) (ground arith)
]

differs : ℕ → Bool
unfolding fnv1a
differs c = ltb c 128 || not (fnv1a (c ∷ []) == reference (c ∷ []))

differs_table : every differs 256 ≡ true
unfolding every differs
differs_table = refl

-- On a key of one byte from 128 to 255 the hash is not the published FNV-1a.
pub fnv1a-ne-reference : (c : ℕ) → 128 ≤ c → c < 256 → fnv1a (c ∷ []) ≢ reference (c ∷ [])
unfolding differs
fnv1a-ne-reference c lo hi e = ground (arith, every-passes differs {c = c} hi differs_table, e)
