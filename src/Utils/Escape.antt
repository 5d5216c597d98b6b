-- ===== src/Utils/Escape.antt =====
-- About `str_escape`.
use native.Mathlib.Nat.{zero-add, add-zero, add_assoc}
use memuncached.Memory.{put, write, put-append, write-append, write-out_of_bounds}
use memuncached.Prelude.{
  ℕ, zero, suc, ◌+◌, ◌-◌, ◌*◌, ◌≤◌, ◌<◌, ◌≡◌, refl, sym, ap, ◌∙◌, false, List, [], ◌∷◌, ◌++◌, arith,
  length, length-append, append_assoc, append-nil, replicate, length-replicate, Bool-cases, inl,
  inr, if◌then◌else◌,
}
use memuncached.Run.{ok, fault, out_of_bounds}
use memuncached.Utils.{is_printable, hex_escape, escape_from, str_escape}

abbrev pub AllAscii : List ℕ → Type 0
AllAscii [] = Unit
AllAscii (c ∷ s) = (c < 128) × AllAscii s

-- A printable character stands for itself, any other for "\xNN".
abbrev pub escaped : List ℕ → List ℕ
escaped [] = []
escaped (c ∷ s) = (if is_printable c then c ∷ [] else hex_escape c) ++ escaped s

abbrev pub zeros : ℕ → List ℕ
zeros n = replicate n 0

hex_escape_ascii : (c : ℕ) → c < 128 → length (hex_escape c) ≡ 4
unfolding hex_escape
hex_escape_ascii c h = ground arith

hex_escape_high : (c : ℕ) → 128 ≤ c → length (hex_escape c) ≡ 10
unfolding hex_escape
hex_escape_high c h = ground arith

zeros-suc : (n : ℕ) → 0 < n → zeros n ≡ 0 ∷ zeros (n - 1)
zeros-suc zero h = absurd (omega arith)
zeros-suc (suc n) h = let e : n ≡ suc n - 1 = omega arith in ap (λ k. 0 ∷ zeros k) e

zeros-add : (m n k : ℕ) → k ≡ m + n → zeros k ≡ zeros m ++ zeros n
zeros-add zero n k e = ap zeros (e ∙ zero-add n)
zeros-add (suc m) n zero e = absurd (omega arith)
zeros-add (suc m) n (suc k) e = ap (λ l. 0 ∷ l) (zeros-add m n k (omega arith))

abbrev piece : ℕ → List ℕ
piece c = if is_printable c then c ∷ [] else hex_escape c

-- One round for an ASCII character, with room for a byte more: the zero that `sprintf` writes behind
-- its text falls on a zero.
escape_from-one :
    (c : ℕ) (t done : List ℕ) (eb n k : ℕ)
    → c < 128
    → eb ≡ length done
    → 0 < k
    → n ≡ length (piece c) + k
    → escape_from (done ++ zeros n) eb (c ∷ t)
      ≡ escape_from ((done ++ piece c) ++ zeros k) (eb + length (piece c)) t
unfolding escape_from
escape_from-one c t done eb n k h e pos en = elim (Bool-cases (is_printable c)) [
  | inl plain ↦
      let e1 : n ≡ 1 + k = en ∙ rw plain in
      let shape : done ++ zeros n ≡ done ++ 0 ∷ zeros k =
        ap (λ l. done ++ l) (zeros-add 1 k n e1) in
      rw (plain, shape, put-append done eb 0 c (zeros k) e, append_assoc done (c ∷ []) (zeros k))
  | inr other ↦
      let four = hex_escape_ascii c h in
      let e4 : n ≡ 5 + (k - 1) = en ∙ rw other (omega arith) in
      let shape : done ++ zeros n ≡ done ++ (zeros 5 ++ zeros (k - 1)) =
        ap (λ l. done ++ l) (zeros-add 5 (k - 1) n e4) in
      let text = hex_escape c ++ 0 ∷ [] in
      let wide : 5 ≡ length text = omega (arith, length-append (hex_escape c) (0 ∷ [])) in
      let back : done ++ (text ++ zeros (k - 1)) ≡ (done ++ hex_escape c) ++ zeros k =
        ap (λ l. done ++ l) (append_assoc (hex_escape c) (0 ∷ []) (zeros (k - 1)))
        ∙ ap (λ l. done ++ (hex_escape c ++ l)) (sym (zeros-suc k pos))
        ∙ sym (append_assoc done (hex_escape c) (zeros k)) in
      rw (other, shape, write-append text done (zeros 5) (zeros (k - 1)) eb e wide, back, four)
]

-- The loop over a first part of ASCII characters, with room for it and for one byte more.
escape_from-append :
    (s t done : List ℕ) (eb n k : ℕ)
    → AllAscii s
    → eb ≡ length done
    → 0 < k
    → n ≡ length (escaped s) + k
    → escape_from (done ++ zeros n) eb (s ++ t)
      ≡ escape_from ((done ++ escaped s) ++ zeros k) (eb + length (escaped s)) t
escape_from-append [] t done eb n k h e pos en =
    let en' : n ≡ k = omega arith in rw (append-nil, add-zero, en')
escape_from-append (c ∷ s) t done eb n k h e pos en =
    let l = length-append (piece c) (escaped s) in
    let d = length-append done (piece c) in
    escape_from-one c (s ++ t) done eb n (length (escaped s) + k) h.0 e (omega arith) (omega arith)
    ∙ escape_from-append s t (done ++ piece c) (eb + length (piece c)) _ k h.1 (omega arith) pos
        refl
    ∙ rw (append_assoc done (piece c) (escaped s), l, add_assoc)

length-escaped-le : (s : List ℕ) → AllAscii s → length (escaped s) ≤ 4 * length s
length-escaped-le [] h = omega arith
length-escaped-le (c ∷ s) h =
    let l = length-append (piece c) (escaped s) in
    let p : length (piece c) ≤ 4 = ground (arith, hex_escape_ascii c h.0) in
    omega (arith, length-escaped-le s h.1)

-- On ASCII text str_escape stays in its buffer, and leaves there each printable character as itself
-- and each other one as \xNN, with zeros behind.
pub str_escape-escaped :
    (s : List ℕ)
    → AllAscii s
    → str_escape s ≡ ok (escaped s ++ zeros (length s * 5 + 1 - length (escaped s)))
unfolding str_escape escape_from
str_escape-escaped s h =
    let k = length s * 5 + 1 - length (escaped s) in
    let pos : 0 < k = omega (arith, length-escaped-le s h) in
    let run = escape_from-append s [] [] 0 (length s * 5 + 1) k h refl pos (omega arith) in
    let last : put (escaped s ++ zeros k) (0 + length (escaped s)) 0 ≡ ok (escaped s ++ zeros k) =
      rw (zeros-suc k pos)
        (put-append (escaped s) (0 + length (escaped s)) 0 0 (zeros (k - 1)) (omega arith)) in
    (rw (append-nil s) at run) ∙ last

-- On ASCII text followed by one character outside ASCII str_escape writes behind its buffer whenever
-- the escaped text and the eleven bytes of the last escape exceed five times the length of the whole
-- plus one.
pub str_escape-overflow :
    (s : List ℕ) (c : ℕ)
    → AllAscii s
    → 128 ≤ c
    → (length s + 1) * 5 + 1 < length (escaped s) + 11
    → str_escape (s ++ c ∷ []) ≡ fault out_of_bounds
unfolding str_escape escape_from
str_escape-overflow s c h hc short =
    let n = length (s ++ c ∷ []) * 5 + 1 in
    let k = n - length (escaped s) in
    let more = length-append s (c ∷ []) in
    let pos : 0 < k = omega (arith, length-escaped-le s h) in
    let run = escape_from-append s (c ∷ []) [] 0 n k h refl pos (omega arith) in
    let other : is_printable c ≡ false = unfold is_printable in (ground arith) in
    let ten = hex_escape_high c hc in
    let behind : write (escaped s ++ zeros k) (0 + length (escaped s)) (hex_escape c ++ 0 ∷ [])
        ≡ fault out_of_bounds =
      write-out_of_bounds (hex_escape c ++ 0 ∷ []) _ _
        (omega (arith, length-append (hex_escape c) (0 ∷ [])))
        (omega (
          arith,
          length-append (hex_escape c) (0 ∷ []),
          length-append (escaped s) (zeros k),
          length-replicate {A = ℕ} k 0,
        )) in
    run ∙ rw (other, behind)
