-- ===== src/HashTable/Invariant.antt =====
-- What the code keeps true of a `hash_table_t`, and the parts of its operations under that.
use memuncached.Fnv.{fnv1a}
use memuncached.HashTable.{
  Value, null, gone, decimal, real, string, CacheValue, HashTable, index_of, free, store, old_value,
  hash_table_create, hash_table_destroy, destroy_cells, hash_table_get,
}
use memuncached.Memory.{at-get_or}
use memuncached.Prelude.{
  ℕ, zero, suc, ◌+◌, ◌%◌, ◌^◌, ◌≤◌, ◌<◌, ◌≡◌, refl, sym, List, [], ◌∷◌, Option, none, some, arith,
  length, take, replicate, set, get_or, length-take, length-replicate, get_or-replicate,
}
use memuncached.Run.{ok}

module _ {R : Type 0} where
  -- Whether a pointer of a bucket is not NULL, as a number.
  abbrev pub present : Option (CacheValue R) → ℕ
  present none = 0
  present (some c) = 1

  abbrev pub occupied : List (Option (CacheValue R)) → ℕ
  occupied [] = 0
  occupied (c ∷ cells) = present c + occupied cells

  -- A value is of the type that stands beside it, and a string has the length beside it.
  abbrev pub Matches : ℕ → Value R → ℕ → Type 0
  Matches type null length' = ⊥
  Matches type gone length' = ⊥
  Matches type (decimal z) length' = type ≡ 0
  Matches type (real x) length' = type ≡ 1
  Matches type (string s) length' = (type ≡ 2) × (length s ≡ length')

  abbrev pub CellIsValid : Option (CacheValue R) → Type 0
  CellIsValid none = Unit
  CellIsValid (some c) = Matches c.type c.value c.length

  pub record IsValid (t : HashTable R) : Type 0 where
    pub pos : 0 < t.size
    pub small : t.size < 2 ^ 63
    pub width : length t.table ≡ t.size
    pub counted : t.count ≡ occupied t.table
    pub cells : (i : ℕ) → CellIsValid (get_or t.table i none)

  -- The arguments that a caller may hand to `hash_table_set`.
  abbrev pub Fits : ℕ → Value R → ℕ → Type 0
  Fits type null size = ⊥
  Fits type gone size = ⊥
  Fits type (decimal z) size = type ≡ 0
  Fits type (real x) size = type ≡ 1
  Fits type (string s) size = (type ≡ 2) × (size ≤ length s)

  -- The copy that the table takes of an argument.
  abbrev pub copy : Value R → ℕ → Value R
  copy (string s) size = string (take size s)
  copy v size = v

  unfoldable pub slot : HashTable R → List ℕ → ℕ
  slot t key = fnv1a key % t.size

  -- The bucket that a key shares with every key of the same slot.
  abbrev pub bucket : HashTable R → List ℕ → Option (CacheValue R)
  bucket t key = get_or t.table (slot t key) none

  pub index_of-slot :
      {t : HashTable R} (key : List ℕ) → IsValid t → index_of key t.size ≡ ok (slot t key)
  unfolding index_of slot
  index_of-slot {t} key v = ground arith

  pub slot-lt : {t : HashTable R} (key : List ℕ) → IsValid t → slot t key < length t.table
  unfolding slot
  slot-lt key v = omega arith

  pub store-copy :
      (type : ℕ) (value : Value R) (size : ℕ) (old : Value R)
      → Fits type value size
      → store type value size old ≡ ok (copy value size)
  unfolding store
  store-copy type null size old f = absurd f
  store-copy type gone size old f = absurd f
  store-copy type (decimal z) size old f = ground arith
  store-copy type (real x) size old f = ground arith
  store-copy type (string s) size old f = ground arith

  pub copy-Matches :
      (type : ℕ) (value : Value R) (size : ℕ)
      → Fits type value size
      → Matches type (copy value size) size
  copy-Matches type null size f = f
  copy-Matches type gone size f = f
  copy-Matches type (decimal z) size f = f
  copy-Matches type (real x) size f = f
  copy-Matches type (string s) size f = (f.0, omega (arith, length-take size s))

  pub free-Matches : (type : ℕ) (v : Value R) (n : ℕ) → Matches type v n → free v ≡ ok gone
  unfolding free
  free-Matches type null n m = absurd m
  free-Matches type gone n m = absurd m
  free-Matches type (decimal z) n m = refl
  free-Matches type (real x) n m = refl
  free-Matches type (string s) n m = refl

  pub old_value-CellIsValid :
      (c : Option (CacheValue R)) → CellIsValid c → (v : Value R) × (old_value c ≡ ok v)
  unfolding old_value
  old_value-CellIsValid none h = (null, refl)
  old_value-CellIsValid (some c) h = (gone, free-Matches c.type c.value c.length h)

  pub occupied-set :
      (cells : List (Option (CacheValue R))) (i : ℕ) (c : Option (CacheValue R))
      → i < length cells
      → occupied (set cells i c) + present (get_or cells i none) ≡ occupied cells + present c
  occupied-set [] i c h = elim h [ ]
  occupied-set (x ∷ cells) zero c h = omega arith
  occupied-set (x ∷ cells) (suc i) c h = omega (arith, occupied-set cells i c (omega arith))

  pub occupied-le : (cells : List (Option (CacheValue R))) → occupied cells ≤ length cells
  occupied-le [] = omega arith
  occupied-le (none ∷ cells) = omega (arith, occupied-le cells)
  occupied-le (some c ∷ cells) = omega (arith, occupied-le cells)

occupied-replicate : (R : Type 0) (n : ℕ) → occupied {R = R} (replicate n none) ≡ 0
occupied-replicate R zero = refl
occupied-replicate R (suc n) = omega (arith, occupied-replicate R n)

module _ {R : Type 0} where
  -- The bucket of a key is in the table, so `hash_table_get` reads it.
  pub get-bucket :
      {t : HashTable R} (key : List ℕ) → IsValid t → hash_table_get t key ≡ ok (bucket t key)
  unfolding hash_table_get
  get-bucket {t} key v =
      rw (index_of-slot key v) (at-get_or t.table (slot t key) none (slot-lt key v))

  -- A table created with a size above 0 and below 2^63 is valid.
  pub create-IsValid :
      (size : ℕ) → 0 < size → size < 2 ^ 63 → IsValid (hash_table_create {R = R} size)
  unfolding hash_table_create
  create-IsValid size lo hi = record {
    pos = lo;
    small = hi;
    width = length-replicate size none;
    counted = sym (occupied-replicate R size);
    cells = λ i. rw get_or-replicate tt;
  }

  destroy_cells-ok :
      (cells : List (Option (CacheValue R)))
      → ((i : ℕ) → CellIsValid (get_or cells i none))
      → destroy_cells cells ≡ ok tt
  unfolding destroy_cells
  destroy_cells-ok [] h = refl
  destroy_cells-ok (none ∷ cells) h = destroy_cells-ok cells (λ i. h (suc i))
  destroy_cells-ok (some c ∷ cells) h =
      rw (free-Matches c.type c.value c.length (h 0)) (destroy_cells-ok cells (λ i. h (suc i)))

  -- hash_table_destroy of a valid table releases every value once, without a fault.
  pub destroy-ok : {t : HashTable R} → IsValid t → hash_table_destroy t ≡ ok tt
  unfolding hash_table_destroy
  destroy-ok v = destroy_cells-ok _ v.cells
