-- ===== src/HashTable/Shift.antt =====
-- `hash_table_inc` and `hash_table_dec`.
use memuncached.Double.{Double, IsExact, RoundsNot}
use memuncached.HashTable.Invariant.{Matches, IsValid, slot, bucket, index_of-slot, slot-lt}
use memuncached.HashTable.Write.{Replaced, Replaced-refl, Replaced-same, with_cell-Replaced}
use memuncached.HashTable.{
  Value, null, gone, decimal, real, string, CacheValue, HashTable, shift, shift_cell,
  hash_table_inc, hash_table_dec,
}
use memuncached.Memory.{at-get_or}
use memuncached.Prelude.Int.{ℤ, ◌+ℤ◌, ◌-ℤ◌, +ℤ_cancel}
use memuncached.Prelude.{
  ℕ, ◌≡◌, refl, sym, ap, ◌∙◌, List, Option, none, some, arith, inl, inr, ◌⊎◌, Bool-cases, ==_iff,
  ◌==◌, if◌then◌else◌, set,
}
use memuncached.Run.{ok, Returns, ◌>>=◌}

module _ {R : Type 0} ⦃d : Double R⦄ where
  -- The value after `*val = *val + offset`; a decimal goes through `double` and back.
  abbrev pub shifted : (R → R → R) → Value R → R → Value R
  shifted op (decimal z) offset = decimal (d.to_int (op (d.of_int z) offset))
  shifted op (real x) offset = real (op x offset)
  shifted op v offset = v

  -- What a bucket answers: nothing if it is empty or holds a string.
  abbrev pub answer : (R → R → R) → Option (CacheValue R) → R → Option (CacheValue R)
  answer op none offset = none
  answer op (some c) offset =
      if c.type == 2 then none else some (record c { value = shifted op c.value offset })

  -- What a bucket holds afterwards.
  abbrev pub after : (R → R → R) → Option (CacheValue R) → R → Option (CacheValue R)
  after op none offset = none
  after op (some c) offset = some (record c { value = shifted op c.value offset })

  shift-shifted :
      (op : R → R → R) (k : List ℕ) (type : ℕ) (v : Value R) (n : ℕ) (offset : R)
      → Matches type v n
      → let c : CacheValue R = record { key = k; type = type; value = v; length = n } in
        (type ≡ 2) ⊎ (shift op c offset ≡ ok (record c { value = shifted op v offset }))
  unfolding shift
  shift-shifted op k type null n offset m = absurd m
  shift-shifted op k type gone n offset m = absurd m
  shift-shifted op k type (decimal z) n offset m = inr (ground arith)
  shift-shifted op k type (real x) n offset m = inr (ground arith)
  shift-shifted op k type (string s) n offset m = inl m.0

  shifted-string :
      (op : R → R → R) (type : ℕ) (v : Value R) (n : ℕ) (offset : R)
      → Matches type v n
      → type ≡ 2
      → shifted op v offset ≡ v
  shifted-string op type null n offset m e = refl
  shifted-string op type gone n offset m e = refl
  shifted-string op type (decimal z) n offset m e = absurd (omega arith)
  shifted-string op type (real x) n offset m e = absurd (omega arith)
  shifted-string op type (string s) n offset m e = refl

  shifted-Matches :
      (op : R → R → R) (type : ℕ) (v : Value R) (n : ℕ) (offset : R)
      → Matches type v n
      → Matches type (shifted op v offset) n
  shifted-Matches op type null n offset m = m
  shifted-Matches op type gone n offset m = m
  shifted-Matches op type (decimal z) n offset m = m
  shifted-Matches op type (real x) n offset m = m
  shifted-Matches op type (string s) n offset m = m

  abbrev pub Shifts :
      (R → R → R) → HashTable R → List ℕ → R → Option (CacheValue R) × HashTable R → Type 0
  Shifts op t key offset r =
      (r.0 ≡ answer op (bucket t key) offset) × Replaced t key (after op (bucket t key) offset) r.1

  shift_cell-Shifts :
      (op : R → R → R) {t : HashTable R} (key : List ℕ) (offset : R) (c : Option (CacheValue R))
      → IsValid t
      → bucket t key ≡ c
      → Returns
          (shift_cell op t (slot t key) c offset)
          λ r. (r.0 ≡ answer op c offset) × Replaced t key (after op c offset) r.1
  unfolding shift_cell
  shift_cell-Shifts op {t} key offset none v e = ((none, t), refl, (refl, Replaced-refl t key v e))
  shift_cell-Shifts op {t} key offset (some c) v e =
      let c' : CacheValue R = record c { value = shifted op c.value offset } in
      let m : Matches c.type c.value c.length = rw e at (v.cells (slot t key)) in
      elim (Bool-cases (c.type == 2)) [
        | inl str ↦ (
          (none, t),
          rw str,
          (
            rw str,
            Replaced-refl t key v
                (rw (shifted-string op c.type c.value c.length offset m ((==_iff _ _).0 str)) e),
          ),
        )
        | inr num ↦ elim (shift-shifted op c.key c.type c.value c.length offset m) [
          | inl str ↦ absurd (ground arith)
          | inr run ↦ (
            (some c', record t { table = set t.table (slot t key) (some c') }),
            rw (num, run),
            (
              rw num,
              with_cell-Replaced t key (some c') t.count v
                  (shifted-Matches op c.type c.value c.length offset m) (rw e refl),
            ),
          )
        ]
      ]

  module _ {t : HashTable R} (key : List ℕ) (offset : R) (v : IsValid t) where
    pub inc-Shifts : Returns (hash_table_inc t key offset) (Shifts d.add t key offset)
    unfolding hash_table_inc
    inc-Shifts =
        let (r, run, p) = shift_cell-Shifts d.add {t = t} key offset (bucket t key) v refl in
        (r, rw (index_of-slot key v, at-get_or t.table (slot t key) none (slot-lt key v)) run, p)

    -- `hash_table_dec` subtracts it.
    pub dec-Shifts : Returns (hash_table_dec t key offset) (Shifts d.sub t key offset)
    unfolding hash_table_dec
    dec-Shifts =
        let (r, run, p) = shift_cell-Shifts d.sub {t = t} key offset (bucket t key) v refl in
        (r, rw (index_of-slot key v, at-get_or t.table (slot t key) none (slot-lt key v)) run, p)

  -- A record's value given anew as what it was.
  same_value : (c : CacheValue R) (v : Value R) → c.value ≡ v → record c { value = v } ≡ c
  same_value c v e = λ i. record c { value = sym e i }

  module _ (exact : RoundsNot d) (c : CacheValue R) (z n : ℤ) (ez : c.value ≡ decimal z) where
    after-add :
        IsExact z
        → IsExact n
        → IsExact (z +ℤ n)
        → after d.add (some c) (d.of_int n) ≡ some (record c { value = decimal (z +ℤ n) })
    after-add hz hn hs = rw (ez, exact.add-of_int z n hz hn hs, exact.to_int-of_int (z +ℤ n) hs)

    after-sub :
        IsExact z
        → IsExact n
        → IsExact (z -ℤ n)
        → after d.sub (some c) (d.of_int n) ≡ some (record c { value = decimal (z -ℤ n) })
    after-sub hz hn hs = rw (ez, exact.sub-of_int z n hz hn hs, exact.to_int-of_int (z -ℤ n) hs)

  module _ (exact : RoundsNot d) {t : HashTable R} (v : IsValid t) (key : List ℕ) where
    -- On integers that a double holds, a decimal counts as an `int64_t` would.
    pub inc-exact :
        (c : CacheValue R) (z n : ℤ)
        → bucket t key ≡ some c
        → c.value ≡ decimal z
        → IsExact z
        → IsExact n
        → IsExact (z +ℤ n)
        → Returns
            (hash_table_inc t key (d.of_int n))
            λ r. IsValid r.1 × (bucket r.1 key ≡ some (record c { value = decimal (z +ℤ n) }))
    inc-exact c z n e ez hz hn hs =
        let (r, run, (_, p)) = inc-Shifts {t = t} key (d.of_int n) v in
        (
          r,
          run,
          (
            p.valid,
            Replaced-same p
                ∙ ap (λ o. after d.add o (d.of_int n)) e
                ∙ after-add exact c z n ez hz hn hs,
          ),
        )

    -- Where the double arithmetic does not round on integers up to 2^53, a decimal of such a value,
    -- incremented by an integer and decremented by it, with both results in that range, leaves the
    -- bucket as it was.
    pub dec-inc :
        (c : CacheValue R) (z n : ℤ)
        → bucket t key ≡ some c
        → c.value ≡ decimal z
        → IsExact z
        → IsExact n
        → IsExact (z +ℤ n)
        → Returns
            (hash_table_inc t key (d.of_int n) >>= λ r. hash_table_dec r.1 key (d.of_int n))
            λ r. bucket r.1 key ≡ bucket t key
    dec-inc c z n e ez hz hn hs =
        let c' : CacheValue R = record c { value = decimal (z +ℤ n) } in
        let (r, run, (v', e')) = inc-exact c z n e ez hz hn hs in
        let (r', run', (_, p)) = dec-Shifts {t = r.1} key (d.of_int n) v' in
        let back : z +ℤ n -ℤ n ≡ z = +ℤ_cancel z n in
        (
          r',
          rw run run',
          Replaced-same p
              ∙ ap (λ o. after d.sub o (d.of_int n)) e'
              ∙ after-sub exact c' (z +ℤ n) n refl hs hn (rw back hz)
              ∙ ap some (rw back (same_value c (decimal z) ez))
              ∙ sym e,
        )
