-- ===== src/Vector/Contents.antt =====
-- The list that a vector holds.
use memuncached.Prelude.{
  ℕ, zero, suc, ◌+◌, ◌^◌, ◌≤◌, ◌<◌, ◌≡◌, refl, true, List, [], ◌∷◌, ◌++◌, map, none, some, arith,
  length, length-replicate, get_elem?, replicate, Bool-cases, lt→ltb, ltb→lt, inl, inr, ltb,
}
use memuncached.Memory.{at}
use memuncached.Run.{ok}
use memuncached.Vector.{Slot, null, element, garbage, Vector, read, vector_create, vector_at_unsafe}

module _ {ℓ} {A : Type ℓ} where
  -- Slots that hold no element.
  abbrev pub NoElements : List (Slot A) → Type 0
  NoElements [] = Unit
  NoElements (null ∷ xs) = NoElements xs
  NoElements (element a ∷ xs) = ⊥
  NoElements (garbage ∷ xs) = NoElements xs

  -- Slots that a read finds NULL in.
  abbrev pub AllNull : List (Slot A) → Type 0
  AllNull [] = Unit
  AllNull (null ∷ xs) = AllNull xs
  AllNull (element a ∷ xs) = ⊥
  AllNull (garbage ∷ xs) = ⊥

  -- The elements of `l` stand first in the array, which is as long as `size` says and whose bytes
  -- can be counted, and the slots `rest` behind them hold none.
  pub record Holds (v : Vector A) (l : List A) (rest : List (Slot A)) : Type ℓ where
    pub array : v.array ≡ map element l ++ rest
    pub count : v.count ≡ length l
    pub width : v.size ≡ length l + length rest
    pub pos : 0 < v.size
    pub small : v.size < 2 ^ 61
    pub free : NoElements rest

  pub AllNull-NoElements : (xs : List (Slot A)) → AllNull xs → NoElements xs
  AllNull-NoElements [] h = h
  AllNull-NoElements (null ∷ xs) h = AllNull-NoElements xs h
  AllNull-NoElements (element a ∷ xs) h = h
  AllNull-NoElements (garbage ∷ xs) h = absurd h

AllNull-replicate {ℓ} : (A : Type ℓ) (n : ℕ) → AllNull {A = A} (replicate n null)
AllNull-replicate A zero = tt
AllNull-replicate A (suc n) = AllNull-replicate A n

module _ {ℓ} {A : Type ℓ} where
  -- A new vector holds nothing, and NULL in every slot.
  pub create-Holds :
      (size : ℕ)
      → 0 < size
      → size < 2 ^ 61
      → (v : Vector A) × (vector_create true size ≡ some v)
        × Holds v [] (replicate size null)
        × AllNull {A = A} (replicate size null)
  unfolding vector_create
  create-Holds size lo hi = (
    _,
    refl,
    record {
      array = refl;
      count = refl;
      width = omega (arith, length-replicate {A = Slot A} size null);
      pos = lo;
      small = hi;
      free = AllNull-NoElements (replicate size null) (AllNull-replicate A size);
    },
    AllNull-replicate A size,
  )

  pub get_elem?-lt : (l : List A) (i : ℕ) {x : A} → get_elem? l i ≡ some x → i < length l
  get_elem?-lt [] i e = cc
  get_elem?-lt (y ∷ l) zero e = omega arith
  get_elem?-lt (y ∷ l) (suc i) e = omega (arith, get_elem?-lt l i e)

  pub at-element :
      (l : List A) (rest : List (Slot A)) (i : ℕ) (x : A)
      → get_elem? l i ≡ some x
      → at (map element l ++ rest) i ≡ ok (element x)
  unfolding at
  at-element [] rest i x e = cc
  at-element (y ∷ l) rest zero x e = cc
  at-element (y ∷ l) rest (suc i) x e = at-element l rest i x e

  -- vector_at_unsafe returns the element at every index of the list that the vector holds.
  pub at-Holds :
      {v : Vector A} {l : List A} {rest : List (Slot A)} (i : ℕ) (x : A)
      → Holds v l rest
      → get_elem? l i ≡ some x
      → vector_at_unsafe v i ≡ ok (some x)
  unfolding vector_at_unsafe read
  at-Holds {v} {l = l} {rest = rest} i x h e =
      let inside : ltb i v.size ≡ true = lt→ltb i v.size (omega (arith, get_elem?-lt l i e)) in
      rw (inside, h.array, at-element l rest i x e)

  at-AllNull :
      (l : List A) (rest : List (Slot A)) (i : ℕ)
      → AllNull rest
      → length l ≤ i
      → i < length l + length rest
      → at (map element l ++ rest) i ≡ ok null
  unfolding at
  at-AllNull [] [] i clean lo hi = absurd (omega arith)
  at-AllNull [] (null ∷ rest) zero clean lo hi = refl
  at-AllNull [] (null ∷ rest) (suc i) clean lo hi =
      at-AllNull [] rest i clean (omega arith) (omega arith)
  at-AllNull [] (element a ∷ rest) i clean lo hi = absurd clean
  at-AllNull [] (garbage ∷ rest) i clean lo hi = absurd clean
  at-AllNull (y ∷ l) rest zero clean lo hi = absurd (omega arith)
  at-AllNull (y ∷ l) rest (suc i) clean lo hi =
      at-AllNull l rest i clean (omega arith) (omega arith)

  -- As long as the slots behind the elements are all NULL, vector_at_unsafe returns NULL for every
  -- index from the count on.
  pub at-null :
      {v : Vector A} {l : List A} {rest : List (Slot A)} (i : ℕ)
      → Holds v l rest
      → AllNull rest
      → v.count ≤ i
      → vector_at_unsafe v i ≡ ok none
  unfolding vector_at_unsafe read
  at-null {v} {l = l} {rest = rest} i h clean le = elim (Bool-cases (ltb i v.size)) [
    | inr out ↦ rw out
    | inl inside ↦
        let lt = ltb→lt i v.size inside in
        rw (inside, h.array, at-AllNull l rest i clean (omega arith) (omega arith))
  ]
