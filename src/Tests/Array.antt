-- ===== src/Tests/Array.antt =====
-- The vector.
use mathlib.Core.List.{Perm}
use memuncached.Prelude.{ℕ, ◌≡◌, refl, true, false, [], ◌∷◌, some, arith}
use memuncached.Run.{fault, out_of_bounds, uninitialised, Returns, ◌>>=◌}
use memuncached.Vector.Contents.{Holds}
use memuncached.Vector.Insert.{insert-after_failure}
use memuncached.Vector.Remove.{remove-Holds}
use memuncached.Vector.{
  null, element, Vector, vector_at_unsafe, vector_insert_unsafe, vector_remove_unsafe, realloc,
}
use memuncached.Memory.{at, put}

abbrev pub pair : Vector ℕ
pair = record { array = element 7 ∷ element 8 ∷ []; size = 2; count = 2 }

pub pair-Holds : Holds pair (7 ∷ 8 ∷ []) []
pair-Holds = record {
  array = refl;
  count = refl;
  width = refl;
  pos = omega arith;
  small = omega arith;
  free = tt;
}

-- An index behind the elements of an array that has grown is not NULL.
at-garbage :
    (vector_insert_unsafe true pair 9 >>= λ r. vector_at_unsafe r.1 3) ≡ fault uninitialised
unfolding vector_insert_unsafe vector_at_unsafe put realloc at
at-garbage = refl

insert-after_failure_example :
    (vector_insert_unsafe false pair 9 >>= λ r. vector_insert_unsafe true r.1 10)
    ≡ fault out_of_bounds
insert-after_failure_example = insert-after_failure 9 10 true pair-Holds (omega arith)

remove-Holds_example :
    Returns
      (vector_remove_unsafe pair 0)
      λ r. (r.0 ≡ some 7) × Holds r.1 (8 ∷ []) (null ∷ []) × Perm {A = ℕ} (7 ∷ 8 ∷ []) (7 ∷ 8 ∷ [])
remove-Holds_example = remove-Holds (7 ∷ []) 8 [] pair-Holds 0 7 refl
