-- ===== src/Vector.antt =====
-- vector.c: the dynamic array. Its lock and the threads that take it are those of `Vector/Locked`.
pub mod Contents
pub mod Insert
pub mod Remove
pub mod Locked
use memuncached.Memory.{at, put}
use memuncached.Prelude.{
  ℕ, zero, suc, ◌+◌, ◌-◌, ◌*◌, ◌/◌, ◌%◌, ◌^◌, Bool, true, false, List, [], ◌∷◌, Option, none, some,
  ltb, leb, ◌==◌, if◌then◌else◌, replicate,
}
use memuncached.Run.{Run, ok, fault, uninitialised, ◌>>=◌}

-- One `void *` of the array: NULL, an element, or what `realloc` left in the memory that it added.
pub data Slot {ℓ} (A : Type ℓ) : Type ℓ where
  null : Slot A
  element : A → Slot A
  garbage : Slot A

-- `size` and `count` are `size_t`; the array is the memory behind the pointer, whatever `size` says.
pub record Vector {ℓ} (A : Type ℓ) : Type ℓ where
  pub array : List (Slot A)
  pub size : ℕ
  pub count : ℕ

-- `realloc` of an array: `n` slots, the old ones first.
unfoldable pub realloc {ℓ} : {A : Type ℓ} → List (Slot A) → ℕ → List (Slot A)
realloc array zero = []
realloc [] (suc n) = replicate (suc n) garbage
realloc (x ∷ array) (suc n) = x ∷ realloc array n

-- A pointer that the code looks at or hands on: NULL or an element.
unfoldable pub read {ℓ} : {A : Type ℓ} → Slot A → Run (Option A)
read null = ok none
read (element a) = ok (some a)
read garbage = fault uninitialised

module _ {ℓ} {A : Type ℓ} where
  -- `calloc` is taken to succeed, as the source does; `none` is a failed `pthread_mutex_init`.
  unfoldable pub vector_create : Bool → ℕ → Option (Vector A)
  vector_create mutex_init size =
      if mutex_init
      then some (record { array = replicate size null; size = size; count = 0 })
      else none

  -- What is released has no slot left: an access to it would be out of bounds.
  unfoldable pub vector_destroy : Vector A → Vector A
  vector_destroy v = record v { array = [] }

  unfoldable pub vector_at_unsafe : Vector A → ℕ → Run (Option A)
  unfolding read
  vector_at_unsafe v index = if ltb index v.size then (at v.array index >>= read) else ok none

  -- `v->array[v->count++] = element`
  unfoldable pub append : Vector A → A → Run (Bool × Vector A)
  append v x = do
    array ← put v.array v.count (element x)
    ok (true, record v { array = array; count = (v.count + 1) % 2 ^ 64 })

  -- `enough` is whether `realloc` finds the memory. It is asked for `size * 8` bytes.
  unfoldable pub vector_insert_unsafe : Bool → Vector A → A → Run (Bool × Vector A)
  unfolding append
  vector_insert_unsafe enough v x =
      if v.size == v.count
      then (let size = (v.size * 2) % 2 ^ 64 in
          if enough
          then append (record v { array = realloc v.array ((size * 8) % 2 ^ 64 / 8); size = size })
              x
          else ok (false, record v { size = size }))
      else append v x

  -- `vector_remove_unsafe` from `v->array[index] = NULL` on.
  unfoldable pub take_out : Vector A → ℕ → A → Run (Option A × Vector A)
  take_out v index x = do
    array ← put v.array index null
    let count = (v.count + 2 ^ 64 - 1) % 2 ^ 64
    if ltb 0 count
        then (do
          last ← at array count
          moved ← put array index last
          cleared ← put moved count null
          ok (some x, record v { array = cleared; count = count }))
        else ok (some x, record v { array = array; count = count })

  unfoldable pub vector_remove_unsafe : Vector A → ℕ → Run (Option A × Vector A)
  unfolding vector_at_unsafe take_out
  vector_remove_unsafe v index = if leb v.size index then ok (none, v) else (do
    slot ← at v.array index
    pointer ← read slot
    elim pointer [ none ↦ ok (none, v) | some x ↦ take_out v index x ])
