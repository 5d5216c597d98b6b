-- ===== src/Vector/Remove.antt =====
-- About `vector_remove_unsafe`.
use mathlib.Core.List.{Perm, perm_append_singleton}
use mathlib.Core.Option.{some-injective}
use mathlib.Core.List.Perm
use memuncached.Memory.{at-append, put-append, put-append_left, set-set, set-map}
use memuncached.Prelude.{
  ℕ, zero, suc, ◌+◌, ◌-◌, ◌%◌, ◌^◌, ◌≤◌, ◌<◌, ◌≡◌, refl, sym, ap, ◌∙◌, true, false, List, [], ◌∷◌,
  ◌++◌, map, some, arith, length, length-append, length-map, length-set, set, get_elem?, leb, ltb,
  ltb→lt, lt→ltb, Bool-cases, inl, inr,
}
use memuncached.Run.{ok, Returns}
use memuncached.Vector.Contents.{Holds, at-element, get_elem?-lt}
use memuncached.Vector.Insert.{map-append_one}
use memuncached.Vector.{Slot, null, element, Vector, take_out, vector_remove_unsafe}

module _ {ℓ} {A : Type ℓ} where
  -- The array when an element at `i` goes: the one behind `front` takes its place.
  module _ (front : List (Slot A)) (y : Slot A) (rest : List (Slot A)) (v : Vector A) (x : A) where
    module _ (e : v.array ≡ front ++ y ∷ rest) (n : v.count ≡ suc (length front))
        (s : v.count < 2 ^ 64) where
      one_less : (v.count + 2 ^ 64 - 1) % 2 ^ 64 ≡ length front
      one_less = omega arith

      take_out-inner :
          (i : ℕ)
          → i < length front
          → take_out v i x
            ≡ ok (some x, record v { array = set front i y ++ null ∷ rest; count = length front })
      unfolding take_out
      take_out-inner i lt =
          let l = length-set front i null in
          let m = length-set front i y in
          let full : ltb 0 (length front) ≡ true = lt→ltb 0 _ (omega arith) in
          rw (
            e,
            put-append_left front (y ∷ rest) i null lt,
            one_less,
            full,
            at-append (set front i null) (length front) y rest (omega arith),
            put-append_left (set front i null) (y ∷ rest) i y (omega arith),
            set-set front i null y,
            put-append (set front i y) (length front) y null rest (omega arith),
          )

      take_out-last :
          take_out v (length front) x
          ≡ ok (some x, record v { array = front ++ null ∷ rest; count = length front })
      unfolding take_out
      take_out-last = elim (Bool-cases (ltb 0 (length front))) [
        | inr none_left ↦
            rw (e, put-append front (length front) y null rest refl, one_less, none_left)
        | inl some_left ↦ rw (
          e,
          put-append front (length front) y null rest refl,
          one_less,
          some_left,
          at-append front (length front) null rest refl,
          put-append front (length front) null null rest refl,
          put-append front (length front) null null rest refl,
        )
      ]

  set_beyond : (xs : List A) (i : ℕ) (v : A) → length xs ≤ i → set xs i v ≡ xs
  set_beyond [] i v h = refl
  set_beyond (x ∷ xs) zero v h = absurd (omega arith)
  set_beyond (x ∷ xs) (suc i) v h = ap (λ l. x ∷ l) (set_beyond xs i v (omega arith))

  get_elem?-last :
      (front : List A) (y : A) {x : A} → get_elem? (front ++ y ∷ []) (length front) ≡ some x → x ≡ y
  get_elem?-last [] y e = cc
  get_elem?-last (z ∷ front) y e = get_elem?-last front y e

  -- Filling the hole at `i` from the end loses the element at `i` and no other.
  swap_remove-perm :
      (front : List A) (y : A) (i : ℕ) (x : A)
      → get_elem? (front ++ y ∷ []) i ≡ some x
      → Perm (x ∷ set front i y) (front ++ y ∷ [])
  swap_remove-perm [] y zero x e = rw (some-injective y x e) (Perm.refl _)
  swap_remove-perm [] y (suc i) x e = cc
  swap_remove-perm (z ∷ front) y zero x e =
      rw (← some-injective z x e) (Perm.cons z (Perm.symm (perm_append_singleton y front)))
  swap_remove-perm (z ∷ front) y (suc i) x e =
      Perm.trans (Perm.swap z x _) (Perm.cons z (swap_remove-perm front y i x e))

  module _ {v : Vector A} (front : List A) (y : A) (rest : List (Slot A))
      (h : Holds v (front ++ y ∷ []) rest) where
    shape : v.array ≡ map element front ++ element y ∷ rest
    shape = h.array ∙ sym (map-append_one front y rest)

    abbrev shorter : ℕ → Vector A
    shorter i = record v {
      array = map element (set front i y) ++ null ∷ rest;
      count = length front;
    }

    take_out-shorter :
        (i : ℕ) (x : A)
        → get_elem? (front ++ y ∷ []) i ≡ some x
        → take_out v i x ≡ ok (some x, shorter i)
    take_out-shorter i x e =
        let n : length (map element front) ≡ length front = length-map {B = Slot A} front element in
        let c : v.count ≡ suc (length (map element front)) =
          omega (arith, h.count, length-append front (y ∷ [])) in
        let small : v.count < 2 ^ 64 =
          omega (arith, h.count, h.width, h.small, length-append front (y ∷ [])) in
        let below : i < length (front ++ y ∷ []) = get_elem?-lt (front ++ y ∷ []) i e in
        let back = length-append front (y ∷ []) in
        let moved : set (map element front) i (element y) ≡ map element (set front i y) =
          set-map element front i y in
        elim (Bool-cases (ltb i (length front))) [
          | inl inner ↦
              let lt = ltb→lt i (length front) inner in
              take_out-inner (map element front) (element y) rest v x shape c small i (omega arith)
              ∙ rw (moved, n)
          | inr last ↦
              let end : i ≡ length (map element front) = ground arith in
              let stays : map element (set front i y) ≡ map element front =
                ap (map element) (set_beyond front i y (omega arith)) in
              rw stays (
                rw end
                  (take_out-last (map element front) (element y) rest v x shape c small ∙ rw n))
        ]

    shorter-Holds : (i : ℕ) → Holds (shorter i) (set front i y) (null ∷ rest)
    shorter-Holds i = record {
      array = refl;
      count = sym (length-set front i y);
      width = omega (arith, length-set front i y, length-append front (y ∷ []), h.width);
      pos = h.pos;
      small = h.small;
      free = h.free;
    }

    -- vector_remove_unsafe at an index of a held element returns that element and leaves the vector
    -- holding the others, the last one in its place: a permutation of what was held, less that
    -- element.
    pub remove-Holds :
        (i : ℕ) (x : A)
        → get_elem? (front ++ y ∷ []) i ≡ some x
        → Returns (vector_remove_unsafe v i) λ r.
          (r.0 ≡ some x)
          × Holds r.1 (set front i y) (null ∷ rest)
          × Perm (x ∷ set front i y) (front ++ y ∷ [])
    unfolding vector_remove_unsafe
    remove-Holds i x e =
        let below : i < length (front ++ y ∷ []) = get_elem?-lt (front ++ y ∷ []) i e in
        let inside : leb v.size i ≡ false = ground arith in
        (
          (some x, shorter i),
          rw (inside, h.array, at-element (front ++ y ∷ []) rest i x e) (take_out-shorter i x e),
          (refl, shorter-Holds i, swap_remove-perm front y i x e),
        )
