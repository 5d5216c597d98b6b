-- ===== src/Tests/Table.antt =====
-- The hash table.
use memuncached.Fnv.Reference.{reference, fnv1a-eq-reference, fnv1a-ne-reference, fnv1a-lt}
use memuncached.Fnv.{fnv1a}
use memuncached.HashTable.Calls.{Call, set, get, del, inc, dec, run, spec_run}
use memuncached.HashTable.Invariant.{IsValid, slot, bucket, create-IsValid, present}
use memuncached.HashTable.Refine.{Models, run_refines}
use memuncached.HashTable.Shift.{Shifts, inc-Shifts, dec-inc}
use memuncached.HashTable.Write.{
  Replaced, cell_of, Replaced-same, set-Replaced, del-Replaced, get-set,
}
use memuncached.HashTable.{
  decimal, string, CacheValue, HashTable, hash_table_create, hash_table_set, hash_table_get,
  hash_table_del, hash_table_inc, hash_table_dec,
}
use memuncached.Prelude.Int.{ℤ, pos, ◌+ℤ◌}
use memuncached.Prelude.{
  ℕ, ◌^◌, ◌<◌, ◌≡◌, ◌≢◌, refl, true, List, [], ◌∷◌, none, some, arith, codes, ◌==◌, if◌then◌else◌,
  replicate, get_or-replicate,
}
use memuncached.Run.{ok, Returns, ◌>>=◌}
use memuncached.Tests.Numbers.{whole_numbers, whole_numbers-RoundsNot}

abbrev pub key : List ℕ
key = codes "k"

abbrev other : List ℕ
other = codes "q"

fnv1a-empty : fnv1a [] ≡ 0xcbf29ce484222325
unfolding fnv1a
fnv1a-empty = refl

fnv1a-a : fnv1a (codes "a") ≡ 0xaf63dc4c8601ec8c
unfolding fnv1a
fnv1a-a = refl

fnv1a-eq-reference_example : fnv1a (codes "ab") ≡ reference (codes "ab")
fnv1a-eq-reference_example = fnv1a-eq-reference (codes "ab") (omega arith)

fnv1a-ne-reference_example : fnv1a (0xe9 ∷ []) ≢ reference (0xe9 ∷ [])
fnv1a-ne-reference_example = fnv1a-ne-reference 0xe9 (omega arith) (omega arith)

fnv1a-lt_example : fnv1a (codes "ab") < 2 ^ 64
fnv1a-lt_example = fnv1a-lt (codes "ab")

abbrev pub empty : HashTable ℤ
empty = record { table = replicate 3 none; count = 0; size = 3 }

pub empty-IsValid : IsValid empty
unfolding hash_table_create
empty-IsValid = create-IsValid 3 (omega arith) (omega arith)

set-Replaced_example :
    Returns
      (hash_table_set empty key 0 (decimal (pos 41)) 0)
      λ r. (r.0 ≡ true) × Replaced empty key (some (cell_of key 0 (decimal (pos 41)) 0)) r.1
set-Replaced_example = set-Replaced key 0 (decimal (pos 41)) 0 empty-IsValid refl

pub stored :
    Returns
      (hash_table_set empty key 0 (decimal (pos 41)) 0)
      λ r. (r.0 ≡ true) × Replaced empty key (some (cell_of key 0 (decimal (pos 41)) 0)) r.1
stored = set-Replaced key 0 (decimal (pos 41)) 0 empty-IsValid refl

abbrev pub counting : HashTable ℤ
counting = stored.0.1

pub counting-IsValid : IsValid counting
counting-IsValid = stored.2.1.valid

get-set_example :
    (hash_table_set empty key 2 (string (codes "abc")) 3 >>= λ r. hash_table_get r.1 other)
    ≡ ok (
        if slot empty key == slot empty other
        then some (cell_of key 2 (string (codes "abc")) 3)
        else bucket empty other)
get-set_example = get-set key other 2 (string (codes "abc")) 3 empty-IsValid (omega arith)

del-Replaced_example :
    Returns
      (hash_table_del counting key)
      λ r. (r.0 ≡ (present (bucket counting key) == 1)) × Replaced counting key none r.1
del-Replaced_example = del-Replaced key counting-IsValid

inc-Shifts_example :
    Returns (hash_table_inc counting key (pos 1)) (Shifts whole_numbers.add counting key (pos 1))
inc-Shifts_example = inc-Shifts key (pos 1) counting-IsValid

abbrev pub cell_41 : CacheValue ℤ
cell_41 = record { key = key; type = 0; value = decimal (pos 41); length = 0 }

pub counting-key : bucket counting key ≡ some cell_41
counting-key = Replaced-same stored.2.1

dec-inc_example :
    Returns
      (hash_table_inc counting key (pos 1) >>= λ r. hash_table_dec r.1 key (pos 1))
      λ r. bucket r.1 key ≡ bucket counting key
unfolding ◌+ℤ◌
dec-inc_example =
    dec-inc whole_numbers-RoundsNot counting-IsValid key cell_41 (pos 41) (pos 1)
      (Replaced-same stored.2.1) refl (omega arith) (omega arith) (omega arith)

empty-Models : Models 3 (λ i. none) empty
empty-Models = record {
  valid = empty-IsValid;
  size_eq = refl;
  reads = λ q. get_or-replicate 3 (slot empty q) none;
}

abbrev script : List (Call ℤ)
script =
    set key 0 (decimal (pos 41)) 0 ∷ inc key (pos 1) ∷ get other ∷ del key ∷ dec key (pos 1) ∷ []

run_refines_example :
    Returns (run empty script) λ r. (r.0 ≡ spec_run 3 (λ i. none) script) × IsValid r.1
run_refines_example = run_refines script empty-Models (omega arith)
