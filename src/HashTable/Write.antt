-- ===== src/HashTable/Write.antt =====
-- About `hash_table_set` and `hash_table_del`, and tables that differ in one bucket.
use memuncached.HashTable.Invariant.{
  present, CellIsValid, IsValid, Fits, copy, slot, bucket, index_of-slot, slot-lt, store-copy,
  copy-Matches, free-Matches, old_value-CellIsValid, occupied-set, occupied-le, get-bucket,
}
use memuncached.HashTable.{
  Value, CacheValue, HashTable, count_with, hash_table_set, del_cell, hash_table_del,
  hash_table_get,
}
use memuncached.Memory.{at-get_or}
use memuncached.Prelude.{
  ℕ, ◌+◌, ◌-◌, ◌%◌, ◌^◌, ◌<◌, ◌≡◌, refl, sym, ap, ◌∙◌, inl, inr, Bool, true, false, List, Option,
  none, some, arith, ◌==◌, ==_iff, Bool-cases, if◌then◌else◌, length-set, set, get_or, get_or-set,
}
use memuncached.Run.{ok, Returns, ◌>>=◌}

module _ {R : Type 0} where
  -- `t'` is `t` with `c` in the bucket of `key`.
  pub record Replaced (t : HashTable R) (key : List ℕ) (c : Option (CacheValue R))
      (t' : HashTable R) : Type 0 where
    pub valid : IsValid t'
    pub size : t'.size ≡ t.size
    pub count : t'.count + present (bucket t key) ≡ t.count + present c
    pub reads : (q : List ℕ) → bucket t' q ≡ (if slot t key == slot t q then c else bucket t q)

  abbrev with_cell : HashTable R → List ℕ → Option (CacheValue R) → ℕ → HashTable R
  with_cell t key c n = record t { table = set t.table (slot t key) c; count = n }

  if-CellIsValid :
      (b : Bool) (c c' : Option (CacheValue R))
      → CellIsValid c
      → CellIsValid c'
      → CellIsValid (if b then c else c')
  if-CellIsValid true c c' h h' = h
  if-CellIsValid false c c' h h' = h'

  -- A write to one bucket that accounts for it in the count.
  pub with_cell-Replaced :
      (t : HashTable R) (key : List ℕ) (c : Option (CacheValue R)) (n : ℕ)
      → IsValid t
      → CellIsValid c
      → n + present (bucket t key) ≡ t.count + present c
      → Replaced t key c (with_cell t key c n)
  unfolding slot
  with_cell-Replaced t key c n v m e = record {
    valid = record {
      pos = v.pos;
      small = v.small;
      width = length-set t.table _ c ∙ v.width;
      counted = omega (arith, occupied-set t.table _ c (slot-lt key v), v.counted);
      cells = λ i.
          rw (get_or-set t.table (slot t key) i c none (slot-lt key v))
            (if-CellIsValid (slot t key == i) c (get_or t.table i none) m (v.cells i));
    };
    size = refl;
    count = e;
    reads = λ q. get_or-set t.table _ _ c none (slot-lt key v);
  }

  count_with-present :
      (c : Option (CacheValue R)) (n : ℕ) → n + 1 < 2 ^ 64 → count_with c n + present c ≡ n + 1
  unfolding count_with
  count_with-present none n h = omega arith
  count_with-present (some c) n h = refl

  count-lt : {t : HashTable R} → IsValid t → t.count + 1 < 2 ^ 64
  count-lt {t} v = omega (arith, occupied-le t.table, v.counted, v.width)

  abbrev pub cell_of : List ℕ → ℕ → Value R → ℕ → CacheValue R
  cell_of key type value size = record {
    key = key;
    type = type;
    value = copy value size;
    length = size;
  }

  pub Replaced-same :
      {t t' : HashTable R} {key : List ℕ} {c : Option (CacheValue R)}
      → Replaced t key c t'
      → bucket t' key ≡ c
  Replaced-same {t} {key = key} p = p.reads key ∙ rw ((==_iff (slot t key) _).1 refl)

  -- On a valid table, with a value of the announced type and, for a string, at least as many bytes
  -- as announced, hash_table_set returns true, keeps the table valid and its size, puts a copy of
  -- the value in the bucket of the key, changes no other bucket, and counts the cell if the bucket
  -- was empty.
  pub set-Replaced :
      {t : HashTable R} (key : List ℕ) (type : ℕ) (value : Value R) (size : ℕ)
      → IsValid t
      → Fits type value size
      → Returns
          (hash_table_set t key type value size)
          λ r. (r.0 ≡ true) × Replaced t key (some (cell_of key type value size)) r.1
  unfolding hash_table_set
  set-Replaced {t} key type value size v f =
      let c = bucket t key in
      let (old, e) = old_value-CellIsValid c (v.cells (slot t key)) in
      (
        (true, with_cell t key (some (cell_of key type value size)) (count_with c t.count)),
        rw (
          index_of-slot key v,
          at-get_or t.table (slot t key) none (slot-lt key v),
          e,
          store-copy type value size old f,
        ),
        (
          refl,
          with_cell-Replaced t key _ _ v (copy-Matches type value size f)
              (count_with-present c t.count (count-lt v)),
        ),
      )

  -- A bucket is the same for two keys of one slot.
  pub Replaced-refl :
      (t : HashTable R) (key : List ℕ) {c : Option (CacheValue R)}
      → IsValid t
      → bucket t key ≡ c
      → Replaced t key c t
  Replaced-refl t key v e = record {
    valid = v;
    size = refl;
    count = rw e refl;
    reads = λ q. elim (Bool-cases (slot t key == slot t q)) [
      | inl same ↦ rw same (ap (λ i. get_or t.table i none) (sym ((==_iff _ _).0 same)) ∙ e)
      | inr differ ↦ rw differ
    ];
  }

  -- A taken bucket is counted, so the count does not wrap.
  count-del :
      (t : HashTable R) (key : List ℕ) (c : CacheValue R)
      → IsValid t
      → bucket t key ≡ some c
      → (t.count + 2 ^ 64 - 1) % 2 ^ 64 + present (bucket t key) ≡ t.count + present {R = R} none
  count-del t key c v e =
      let one : present (bucket t key) ≡ 1 = ap present e in
      omega
        (arith, one, count-lt v, v.counted, occupied-set t.table (slot t key) none (slot-lt key v))

  del_cell-Replaced :
      {t : HashTable R} (key : List ℕ) (c : Option (CacheValue R))
      → IsValid t
      → bucket t key ≡ c
      → Returns (del_cell t (slot t key) c) λ r. (r.0 ≡ (present c == 1)) × Replaced t key none r.1
  unfolding del_cell
  del_cell-Replaced {t} key none v e = ((false, t), refl, (refl, Replaced-refl t key v e))
  del_cell-Replaced {t} key (some c) v e = (
    (true, with_cell t key none ((t.count + 2 ^ 64 - 1) % 2 ^ 64)),
    rw (free-Matches c.type c.value c.length (rw e at (v.cells (slot t key)))),
    (refl, with_cell-Replaced t key none _ v tt (count-del t key c v e)),
  )

  -- On a valid table hash_table_del returns whether the bucket of the key was taken, keeps the table
  -- valid, empties that bucket and no other, and counts one cell less if it was taken.
  pub del-Replaced :
      {t : HashTable R} (key : List ℕ)
      → IsValid t
      → Returns
          (hash_table_del t key)
          λ r. (r.0 ≡ (present (bucket t key) == 1)) × Replaced t key none r.1
  unfolding hash_table_del
  del-Replaced {t} key v =
      let (r, run, p) = del_cell-Replaced {t = t} key (bucket t key) v refl in
      (r, rw (index_of-slot key v, at-get_or t.table (slot t key) none (slot-lt key v)) run, p)

  -- After such a call hash_table_get finds the new cell for every key of the same slot, also for
  -- another key, and for all other keys what was there.
  pub get-set :
      {t : HashTable R} (key q : List ℕ) (type : ℕ) (value : Value R) (size : ℕ)
      → IsValid t
      → Fits type value size
      → (hash_table_set t key type value size >>= λ r. hash_table_get r.1 q)
        ≡ ok (if slot t key == slot t q then some (cell_of key type value size) else bucket t q)
  get-set {t} key q type value size v f =
      let (r, run, (_, p)) = set-Replaced {t = t} key type value size v f in
      rw run (get-bucket q p.valid ∙ ap ok (p.reads q))

  slot-eq : (t t' : HashTable R) (key : List ℕ) → t'.size ≡ t.size → slot t' key ≡ slot t key
  unfolding slot
  slot-eq t t' key e = rw e

  if-twice :
      (b : Bool) (c c' c'' : Option (CacheValue R))
      → (if b then c' else (if b then c else c'')) ≡ (if b then c' else c'')
  if-twice true c c' c'' = refl
  if-twice false c c' c'' = refl

  -- A second write to the bucket of a key covers the first.
  pub Replaced-trans :
      {t t' t'' : HashTable R} {key : List ℕ} {c c' : Option (CacheValue R)}
      → Replaced t key c t'
      → Replaced t' key c' t''
      → Replaced t key c' t''
  Replaced-trans {t} {t'} {key = key} {c = c} {c' = c'} p q = record {
    valid = q.valid;
    size = q.size ∙ p.size;
    count = omega (arith, p.count, q.count, ap present (Replaced-same p));
    reads = λ k.
        q.reads k
        ∙ rw (p.reads k, slot-eq t t' key p.size, slot-eq t t' k p.size)
            (if-twice (slot t key == slot t k) c c' (bucket t k));
  }
