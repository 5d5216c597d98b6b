-- ===== src/Commands/Counters.antt =====
-- INC and DEC: what the table holds afterwards and what is answered.
use memuncached.Commands.Replies.{bucket_text, IsShort, ValueIsShort, get-reply}
use memuncached.Commands.{
  World, reply, starts_whole, offset_value, set_initial, finish_shift, memuncached_get,
  memuncached_inc, memuncached_dec,
}
use memuncached.Double.{Double}
use memuncached.HashTable.Invariant.{Matches, CellIsValid, IsValid, bucket, slot}
use memuncached.HashTable.Shift.{shifted, answer, after, inc-Shifts, dec-Shifts, Shifts}
use memuncached.HashTable.Write.{Replaced, Replaced-same, Replaced-trans, set-Replaced}
use memuncached.HashTable.{Value, null, gone, decimal, real, string, CacheValue, HashTable}
use memuncached.Libc.{atoll}
use memuncached.Prelude.Int.{pos}
use memuncached.Prelude.{
  ℕ, ◌⊎◌, ◌≡◌, refl, false, List, ◌++◌, Option, none, some, arith, ◌==◌, Bool-cases, inl, inr,
  if◌then◌else◌,
}
use memuncached.Run.{Returns}

module _ {R : Type 0} ⦃d : Double R⦄ where
  -- The cell that INC and DEC make of INITIAL.
  abbrev pub initial_value : Option (List ℕ) → Value R
  initial_value none = decimal (pos 1)
  initial_value (some s) = if starts_whole s then decimal (atoll s) else real (d.parse s)

  abbrev value_type : Value R → ℕ
  value_type (real x) = 1
  value_type v = 0

  abbrev pub initial_cell : List ℕ → Option (List ℕ) → CacheValue R
  initial_cell key initial = record {
    key = key;
    type = value_type (initial_value initial);
    value = initial_value initial;
    length = 0;
  }

initial-IsShort :
    (R : Type 0) ⦃d : Double R⦄ (initial : Option (List ℕ))
    → ValueIsShort {R = R} (initial_value initial)
initial-IsShort R none = tt
initial-IsShort R (some s) = elim (Bool-cases (starts_whole s)) [
  | inl e ↦ rw e tt
  | inr e ↦ rw e tt
]

module _ {R : Type 0} ⦃d : Double R⦄ where
  set_initial-Replaced :
      (t : HashTable R) (key : List ℕ) (initial : Option (List ℕ))
      → IsValid t
      → Returns
          (set_initial t key initial)
          λ r. Replaced t key (some (initial_cell key initial)) r.1
  unfolding set_initial
  set_initial-Replaced t key none v =
      let (r, run, (_, p)) = set-Replaced {t = t} key 0 (decimal (pos 1)) 0 v refl in (r, run, p)
  set_initial-Replaced t key (some s) v = elim (Bool-cases (starts_whole s)) [
    | inl e ↦
        let (r, run, (_, p)) = set-Replaced {t = t} key 0 (decimal (atoll s)) 0 v refl in
        (r, rw e run, rw e p)
    | inr e ↦
        let (r, run, (_, p)) = set-Replaced {t = t} key 1 (real (d.parse s)) 0 v refl in
        (r, rw e run, rw e p)
  ]

  -- The bucket's cell after INC or DEC: the shifted number, or the initial one if there was none.
  abbrev pub next_cell :
      (R → R → R) → List ℕ → Option (CacheValue R) → R → Option (List ℕ) → CacheValue R
  next_cell op key c offset initial = elim (answer op c offset) [
    | none ↦ initial_cell key initial
    | some c' ↦ c'
  ]

  -- The bucket holds `c` afterwards, and `c` is answered as GET would.
  abbrev pub Counts : World R → List ℕ → CacheValue R → World R → Type 0
  Counts w key c w' =
      Replaced w.table key (some c) w'.table
      × (w'.out ≡ w.out ++ bucket_text (some c))
      × (w'.input ≡ w.input)

  get-Counts :
      (w : World R) (key : List ℕ) (c : CacheValue R) (t : HashTable R)
      → Replaced w.table key (some c) t
      → IsShort (some c)
      → Returns (memuncached_get (record w { table = t }) key) (Counts w key c)
  get-Counts w key c t p short =
      let same = Replaced-same p in
      (
        reply (record w { table = t }) (bucket_text (bucket t key)),
        get-reply (record w { table = t }) key p.valid (rw same short),
        (p, rw same, refl),
      )

  shifted-IsShort :
      (op : R → R → R) (type : ℕ) (v : Value R) (n : ℕ) (offset : R)
      → Matches type v n
      → (type == 2) ≡ false
      → ValueIsShort (shifted op v offset)
  shifted-IsShort op type null n offset m e = tt
  shifted-IsShort op type gone n offset m e = tt
  shifted-IsShort op type (decimal z) n offset m e = tt
  shifted-IsShort op type (real x) n offset m e = tt
  shifted-IsShort op type (string s) n offset m e = absurd (ground (arith, m.0))

  -- Either the bucket has a number, or it answers nothing.
  answer-cases :
      (op : R → R → R) (c : Option (CacheValue R)) (offset : R)
      → CellIsValid c
      → (answer op c offset ≡ none)
        ⊎ ((c' : CacheValue R) × (answer op c offset ≡ some c')
            × (after op c offset ≡ some c')
            × IsShort (some c'))
  answer-cases op none offset m = inl refl
  answer-cases op (some c) offset m = elim (Bool-cases (c.type == 2)) [
    | inl e ↦ inl (rw e)
    | inr e ↦ inr (
      record c { value = shifted op c.value offset },
      rw e,
      refl,
      shifted-IsShort op c.type c.value c.length offset m e,
    )
  ]

  finish_shift-Counts :
      (op : R → R → R) (w : World R) (key : List ℕ) (offset : R) (initial : Option (List ℕ))
      (cell : Option (CacheValue R)) (t : HashTable R)
      → IsValid w.table
      → Shifts op w.table key offset (cell, t)
      → Returns
          (finish_shift (record w { table = t }) key initial cell)
          (Counts w key (next_cell op key (bucket w.table key) offset initial))
  unfolding finish_shift slot
  finish_shift-Counts op w key offset initial cell t v (e, p) =
      elim (answer-cases op (bucket w.table key) offset (v.cells (slot w.table key))) [
        | inl nothing ↦
            let next : next_cell op key (bucket w.table key) offset initial
                ≡ initial_cell key initial =
              rw (next_cell, nothing) refl in
            let (r, run, q) = set_initial-Replaced t key initial p.valid in
            let (w', run', c) =
              get-Counts w key (initial_cell key initial) r.1 (Replaced-trans p q)
                (initial-IsShort R initial) in
            (w', rw (e, nothing, run) run', rw next c)
        | inr (c', number, is, short) ↦
            let next : next_cell op key (bucket w.table key) offset initial ≡ c' =
              rw (next_cell, number) refl in
            let (w', run, c) = get-Counts w key c' t (rw is at p) short in
            (w', rw (e, number) run, rw next c)
      ]

  pub inc-reply :
      (w : World R) (key : List ℕ) (offset initial : Option (List ℕ))
      → IsValid w.table
      → Returns
          (memuncached_inc w key offset initial)
          (Counts w key (next_cell d.add key (bucket w.table key) (offset_value offset) initial))
  unfolding memuncached_inc
  inc-reply w key offset initial v =
      let (r, run, p) = inc-Shifts {t = w.table} key (offset_value offset) v in
      rw run (finish_shift-Counts d.add w key (offset_value offset) initial r.0 r.1 v p)

  -- On a valid table memuncached_dec does what memuncached_inc does, with the number less OFFSET, or
  -- less 1.
  pub dec-reply :
      (w : World R) (key : List ℕ) (offset initial : Option (List ℕ))
      → IsValid w.table
      → Returns
          (memuncached_dec w key offset initial)
          (Counts w key (next_cell d.sub key (bucket w.table key) (offset_value offset) initial))
  unfolding memuncached_dec
  dec-reply w key offset initial v =
      let (r, run, p) = dec-Shifts {t = w.table} key (offset_value offset) v in
      rw run (finish_shift-Counts d.sub w key (offset_value offset) initial r.0 r.1 v p)
