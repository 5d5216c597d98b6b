-- ===== src/HashTable.antt =====
-- hash_table.c: the cache table. `malloc` and `calloc`, whose results the source does not test, are
-- taken to succeed. A function that changes `*table` returns the new table beside its result.
pub mod Invariant
pub mod Write
pub mod Shift
pub mod Calls
pub mod Refine
use memuncached.Double.{Double}
use memuncached.Fnv.{fnv1a}
use memuncached.Memory.{at}
use memuncached.Prelude.Int.{ℤ}
use memuncached.Prelude.{
  ℕ, zero, suc, ◌+◌, ◌-◌, ◌%◌, ◌^◌, Bool, true, false, List, [], ◌∷◌, Option, none, some, ltb, ◌==◌,
  if◌then◌else◌, length, take, replicate, set,
}
use memuncached.Run.{
  Run, ok, fault, out_of_bounds, wrong_type, null_pointer, released, division_by_zero, ◌>>=◌,
}

abbrev pub cache_value_decimal : ℕ
cache_value_decimal = 0

abbrev pub cache_value_real : ℕ
cache_value_real = 1

abbrev pub cache_value_string : ℕ
cache_value_string = 2

-- What a `void *value` refers to. `gone` is memory that has been released.
pub data Value (R : Type 0) : Type 0 where
  null : Value R
  gone : Value R
  decimal : ℤ → Value R
  real : R → Value R
  string : List ℕ → Value R

-- `cache_value_t`. The key is the text that its pointer had when it was stored.
pub record CacheValue (R : Type 0) : Type 0 where
  pub key : List ℕ
  pub type : ℕ
  pub value : Value R
  pub length : ℕ

pub record HashTable (R : Type 0) : Type 0 where
  pub table : List (Option (CacheValue R))
  pub count : ℕ
  pub size : ℕ

-- `int64_t index = fnv1a(key) % table->size`; a remainder from 2 ^ 63 on would be negative.
unfoldable pub index_of : List ℕ → ℕ → Run ℕ
index_of key size =
    if size == 0
    then fault division_by_zero
    else let index = fnv1a key % size in
      if ltb index (2 ^ 63) then ok index else fault out_of_bounds

-- `free(value)`
unfoldable pub free : {R : Type 0} → Value R → Run (Value R)
free null = ok null
free gone = fault released
free v = ok gone

-- `*(cache_value_decimal*)value`
unfoldable pub load_decimal : {R : Type 0} → Value R → Run ℤ
load_decimal null = fault null_pointer
load_decimal gone = fault released
load_decimal (decimal z) = ok z
load_decimal v = fault wrong_type

-- `*(cache_value_real*)value`
unfoldable pub load_real : {R : Type 0} → Value R → Run R
load_real null = fault null_pointer
load_real gone = fault released
load_real (real x) = ok x
load_real v = fault wrong_type

-- The `size` bytes that `memcpy` reads at `value`.
unfoldable pub load_bytes : {R : Type 0} → Value R → ℕ → Run (List ℕ)
load_bytes null size = fault null_pointer
load_bytes gone size = fault released
load_bytes (string s) size = if ltb (length s) size then fault out_of_bounds else ok (take size s)
load_bytes v size = fault wrong_type

module _ {R : Type 0} where
  -- `cell->value` after the three branches on the type: a copy of `*value`, or what was there.
  unfoldable pub store : ℕ → Value R → ℕ → Value R → Run (Value R)
  unfolding load_decimal load_real load_bytes
  store type value size old =
      if type == cache_value_decimal
      then load_decimal value >>= (λ z. ok (decimal z))
      else if type == cache_value_real
      then load_real value >>= (λ x. ok (real x))
      else if type == cache_value_string
      then load_bytes value size >>= (λ s. ok (string s))
      else ok old

  unfoldable pub hash_table_create : ℕ → HashTable R
  hash_table_create size = record { table = replicate size none; count = 0; size = size }

  -- The loop of `hash_table_destroy`, over the cells from `i` on.
  unfoldable pub destroy_cells : List (Option (CacheValue R)) → Run (Unit {0})
  unfolding free
  destroy_cells [] = ok tt
  destroy_cells (none ∷ cells) = destroy_cells cells
  destroy_cells (some c ∷ cells) = free c.value >>= λ _. destroy_cells cells

  unfoldable pub hash_table_destroy : HashTable R → Run (Unit {0})
  unfolding destroy_cells
  hash_table_destroy t = destroy_cells t.table

  -- `cell->value` when the branches begin: a new cell has NULL, an old value is released.
  unfoldable pub old_value : Option (CacheValue R) → Run (Value R)
  unfolding free
  old_value none = ok null
  old_value (some c) = free c.value

  -- `table->count` once the cell is there
  unfoldable pub count_with : Option (CacheValue R) → ℕ → ℕ
  count_with none count = (count + 1) % 2 ^ 64
  count_with (some c) count = count

  unfoldable pub hash_table_set : HashTable R → List ℕ → ℕ → Value R → ℕ → Run (Bool × HashTable R)
  unfolding index_of at old_value count_with store
  hash_table_set t key type value size = do
    index ← index_of key t.size
    cell ← at t.table index
    old ← old_value cell
    v ← store type value size old
    let c : CacheValue R = record { key = key; type = type; value = v; length = size }
    ok (true, record t { table = set t.table index (some c); count = count_with cell t.count })

  unfoldable pub hash_table_get : HashTable R → List ℕ → Run (Option (CacheValue R))
  unfolding index_of at
  hash_table_get t key = do index ← index_of key t.size; at t.table index

  -- `hash_table_del` once the cell is read.
  unfoldable pub del_cell : HashTable R → ℕ → Option (CacheValue R) → Run (Bool × HashTable R)
  unfolding free
  del_cell t index none = ok (false, t)
  del_cell t index (some c) = do
    _ ← free c.value
    ok (true, record t { table = set t.table index none; count = (t.count + 2 ^ 64 - 1) % 2 ^ 64 })

  unfoldable pub hash_table_del : HashTable R → List ℕ → Run (Bool × HashTable R)
  unfolding index_of at del_cell
  hash_table_del t key = do
    index ← index_of key t.size
    cell ← at t.table index
    del_cell t index cell

module _ {R : Type 0} ⦃d : Double R⦄ where
  -- `*val = *val + offset`, or `-`, through the pointer of the cell's type. The arithmetic is done
  -- on doubles, also for a decimal.
  unfoldable pub shift : (R → R → R) → CacheValue R → R → Run (CacheValue R)
  unfolding load_decimal load_real
  shift op c offset =
      if c.type == cache_value_decimal
      then (do
        z ← load_decimal c.value
        ok (record c { value = decimal (d.to_int (op (d.of_int z) offset)) }))
      else if c.type == cache_value_real
      then (do x ← load_real c.value; ok (record c { value = real (op x offset) }))
      else ok c

  -- The body that `hash_table_inc` and `hash_table_dec` share, once the cell is read.
  unfoldable pub shift_cell :
      (R → R → R)
      → HashTable R
      → ℕ
      → Option (CacheValue R)
      → R
      → Run (Option (CacheValue R) × HashTable R)
  unfolding shift
  shift_cell op t index none offset = ok (none, t)
  shift_cell op t index (some c) offset = if c.type == cache_value_string then ok (none, t) else (do
    c' ← shift op c offset
    ok (some c', record t { table = set t.table index (some c') }))

  unfoldable pub hash_table_inc :
      HashTable R → List ℕ → R → Run (Option (CacheValue R) × HashTable R)
  unfolding index_of at shift_cell
  hash_table_inc t key offset = do
    index ← index_of key t.size
    cell ← at t.table index
    shift_cell d.add t index cell offset

  unfoldable pub hash_table_dec :
      HashTable R → List ℕ → R → Run (Option (CacheValue R) × HashTable R)
  unfolding index_of at shift_cell
  hash_table_dec t key offset = do
    index ← index_of key t.size
    cell ← at t.table index
    shift_cell d.sub t index cell offset
