-- ===== src/Connection/Leaving.antt =====
-- About the end of `handle_connection`: the search of the clients for the thread's own.
use mathlib.Core.List.{Perm}
use memuncached.Connection.{remove_from, remove_client}
use memuncached.Prelude.{
  ℕ, zero, suc, ◌+◌, ◌<◌, ◌≤◌, ◌≡◌, refl, false, true, List, [], ◌∷◌, ◌++◌, some, arith, length,
  get_elem?, set, ◌==◌, ==_iff, Bool-cases, inl, inr,
}
use memuncached.Run.{ok, Returns}
use memuncached.Vector.Contents.{Holds, at-Holds, get_elem?-lt}
use memuncached.Vector.Remove.{remove-Holds}
use memuncached.Vector.{Slot, null, Vector, vector_at_unsafe}

get_elem?-some : (l : List ℕ) (i : ℕ) → i < length l → (x : ℕ) × (get_elem? l i ≡ some x)
get_elem?-some [] i h = elim h [ ]
get_elem?-some (x ∷ l) zero h = (x, refl)
get_elem?-some (x ∷ l) (suc i) h = get_elem?-some l i (omega arith)

-- `v` without the client `id`, which stood at `j`: the last one stands in its place.
abbrev pub Left : List ℕ → ℕ → List (Slot ℕ) → ℕ → ℕ → Vector ℕ → Type 0
Left front y rest id j v' =
    Holds v' (set front j y) (null ∷ rest) × Perm (id ∷ set front j y) (front ++ y ∷ [])

module _ (v : Vector ℕ) (front : List ℕ) (y : ℕ) (rest : List (Slot ℕ))
    (h : Holds v (front ++ y ∷ []) rest) (id : ℕ) (j : ℕ)
    (there : get_elem? (front ++ y ∷ []) j ≡ some id)
    (no_earlier : (k x : ℕ)
      → k < j
      → get_elem? (front ++ y ∷ []) k ≡ some x
      → (x == id) ≡ false) where
  at_place : (n : ℕ) (i : ℕ) → i ≡ j → Returns (remove_from (suc n) i v id) (Left front y rest id j)
  unfolding remove_from
  at_place n i e =
      let found : vector_at_unsafe v i ≡ ok (some id) = at-Holds i id h (rw e there) in
      let same : (id == id) ≡ true = (==_iff id id).1 refl in
      let (r, run, (_, held, perm)) = remove-Holds front y rest h i id (rw e there) in
      (r.1, rw (found, same, run), (rw e at held, rw e at perm))

  elsewhere :
      (n : ℕ) (i : ℕ)
      → i < j
      → i < length (front ++ y ∷ [])
      → Returns (remove_from n (i + 1) v id) (Left front y rest id j)
      → Returns (remove_from (suc n) i v id) (Left front y rest id j)
  unfolding remove_from
  elsewhere n i lt inside later =
      let (x, e) = get_elem?-some (front ++ y ∷ []) i inside in
      rw (at-Holds i x h e, no_earlier i x lt e) later

  remove_from-Left :
      (n : ℕ) (i : ℕ)
      → i ≤ j
      → i + n ≡ length (front ++ y ∷ [])
      → Returns (remove_from n i v id) (Left front y rest id j)
  remove_from-Left zero i le e = absurd (omega (arith, get_elem?-lt (front ++ y ∷ []) j there))
  remove_from-Left (suc n) i le e = elim (Bool-cases (i == j)) [
    | inl here ↦ at_place n i ((==_iff i j).0 here)
    | inr before ↦
        let lt : i < j = ground arith in
        elsewhere n i lt (omega arith) (remove_from-Left n (i + 1) (omega arith) (omega arith))
  ]

  -- When the vector holds a list in which the client of the thread stands at an index and at none
  -- before, the search at the end of the thread takes it out, and the vector holds the others.
  pub remove_client-Left : Returns (remove_client v id) (Left front y rest id j)
  unfolding remove_client
  remove_client-Left = remove_from-Left v.count 0 (omega arith) (omega (arith, h.count))

-- A client that is not in the list is not found.
module _ (v : Vector ℕ) (l : List ℕ) (rest : List (Slot ℕ)) (h : Holds v l rest) (id : ℕ)
    (absent : (k x : ℕ) → get_elem? l k ≡ some x → (x == id) ≡ false) where
  remove_from-absent : (n i : ℕ) → i + n ≡ length l → remove_from n i v id ≡ ok v
  unfolding remove_from
  remove_from-absent zero i e = refl
  remove_from-absent (suc n) i e =
      let (x, there) = get_elem?-some l i (omega arith) in
      rw (at-Holds i x h there, absent i x there) (remove_from-absent n (i + 1) (omega arith))

  pub remove_client-absent : remove_client v id ≡ ok v
  unfolding remove_client
  remove_client-absent = remove_from-absent v.count 0 (omega (arith, h.count))
