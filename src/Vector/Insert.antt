-- ===== src/Vector/Insert.antt =====
-- About `vector_insert_unsafe`.
use memuncached.Memory.{put, put-append, put-out_of_bounds}
use memuncached.Prelude.{
  ℕ, zero, suc, ◌+◌, ◌-◌, ◌*◌, ◌/◌, ◌%◌, ◌^◌, ◌<◌, ◌≡◌, refl, ap, ◌∙◌, Bool, true, false, List, [],
  ◌∷◌, ◌++◌, map, arith, length, length-append, length-map, replicate, length-replicate, append-nil,
  ◌==◌, ==_iff,
}
use memuncached.Run.{ok, fault, out_of_bounds, Returns, ◌>>=◌}
use memuncached.Vector.Contents.{NoElements, Holds}
use memuncached.Vector.{Slot, null, element, garbage, Vector, realloc, append, vector_insert_unsafe}

NoElements-garbage {ℓ} : (A : Type ℓ) (n : ℕ) → NoElements {A = A} (replicate n garbage)
NoElements-garbage A zero = tt
NoElements-garbage A (suc n) = NoElements-garbage A n

module _ {ℓ} {A : Type ℓ} where
  NoElements-tail : (z : Slot A) (xs : List (Slot A)) → NoElements (z ∷ xs) → NoElements xs
  NoElements-tail null xs h = h
  NoElements-tail (element a) xs h = absurd h
  NoElements-tail garbage xs h = h

  pub map-append_one :
      (l : List A) (x : A) (rest : List (Slot A))
      → map element l ++ element x ∷ rest ≡ map element (l ++ x ∷ []) ++ rest
  map-append_one [] x rest = refl
  map-append_one (y ∷ l) x rest = ap (λ k. element y ∷ k) (map-append_one l x rest)

  -- A longer array begins with the old slots, and goes on with what the memory happened to hold.
  realloc-garbage :
      (xs : List (Slot A)) (n k : ℕ) → k ≡ length xs + n → realloc xs k ≡ xs ++ replicate n garbage
  unfolding realloc
  realloc-garbage [] zero zero e = refl
  realloc-garbage [] (suc n) zero e = absurd (omega arith)
  realloc-garbage [] n (suc k) e = ap (λ m. replicate m garbage) (e ∙ omega arith)
  realloc-garbage (x ∷ xs) n zero e = absurd (omega arith)
  realloc-garbage (x ∷ xs) n (suc k) e = ap (λ l. x ∷ l) (realloc-garbage xs n k (omega arith))

  append-Holds :
      {v : Vector A} {l : List A} (z : Slot A) (rest : List (Slot A)) (x : A)
      → Holds v l (z ∷ rest)
      → Returns (append v x) λ r. (r.0 ≡ true) × Holds r.1 (l ++ x ∷ []) rest
  unfolding append
  append-Holds {v} {l = l} z rest x h =
      let place : put v.array v.count (element x) ≡ ok (map element l ++ element x ∷ rest) =
        rw h.array (
          put-append (map element l) v.count z (element x) rest
            (omega (arith, h.count, length-map {B = Slot A} l element))) in
      (
        (
          true,
          record v { array = map element l ++ element x ∷ rest; count = (v.count + 1) % 2 ^ 64 },
        ),
        rw place,
        (
          refl,
          record {
            array = map-append_one l x rest;
            count = omega (arith, length-append l (x ∷ []), h.count, h.width, h.small);
            width = omega (arith, length-append l (x ∷ []), h.width);
            pos = h.pos;
            small = h.small;
            free = NoElements-tail z rest h.free;
          },
        ),
      )

  -- The array behind a full vector once `realloc` has doubled it.
  abbrev grown : Vector A → Vector A
  grown v = record v {
    array = realloc v.array ((v.size * 2) % 2 ^ 64 * 8 % 2 ^ 64 / 8);
    size = (v.size * 2) % 2 ^ 64;
  }

  grown-Holds :
      {v : Vector A} {l : List A}
      → Holds v l []
      → v.size < 2 ^ 60
      → Holds (grown v) l (replicate v.size garbage)
  grown-Holds {v} {l} h small =
      let old : v.array ≡ map element l = h.array ∙ append-nil (map element l) in
      record {
        array = rw old (
            realloc-garbage (map element l) v.size _
              (omega (arith, length-map {B = Slot A} l element, h.width)));
        count = h.count;
        width = omega (arith, length-replicate {A = Slot A} v.size garbage, h.width);
        pos = omega (arith, h.pos);
        small = omega arith;
        free = NoElements-garbage A v.size;
      }

  -- When realloc finds memory and the size is below 2^60, vector_insert_unsafe on a vector that
  -- holds a list returns true and leaves it holding the list with the element behind.
  pub insert-Holds :
      {v : Vector A} {l : List A} (rest : List (Slot A)) (x : A)
      → Holds v l rest
      → v.size < 2 ^ 60
      → Returns
          (vector_insert_unsafe true v x)
          λ r. (r.0 ≡ true) × ((rest' : List (Slot A)) × Holds r.1 (l ++ x ∷ []) rest')
  unfolding vector_insert_unsafe
  insert-Holds {v} {l = l} [] x h small =
      let full : (v.size == v.count) ≡ true = (==_iff _ _).1 (omega arith) in
      let one : v.size ≡ suc (v.size - 1) = omega (arith, h.pos) in
      let more : replicate {A = Slot A} v.size garbage ≡ garbage ∷ replicate (v.size - 1) garbage =
        ap (λ m. replicate m garbage) one in
      let (r, run, (b, h')) =
        append-Holds {v = grown v} garbage _ x (rw more at (grown-Holds h small)) in
      (r, rw full run, (b, (_, h')))
  insert-Holds {v} {l = l} (z ∷ rest) x h small =
      let room : (v.size == v.count) ≡ false = ground arith in
      let (r, run, (b, h')) = append-Holds z rest x h in (r, rw room run, (b, (rest, h')))

  -- When a full vector of a size below 2^60 cannot grow, the insertion after the failed one writes
  -- behind the end of the array, whether or not memory is found by then.
  pub insert-after_failure :
      {v : Vector A} {l : List A} (x y : A) (enough : Bool)
      → Holds v l []
      → v.size < 2 ^ 60
      → (vector_insert_unsafe false v x >>= λ r. vector_insert_unsafe enough r.1 y)
        ≡ fault out_of_bounds
  unfolding vector_insert_unsafe append
  insert-after_failure {v} {l = l} x y enough h small =
      let full : (v.size == v.count) ≡ true = (==_iff _ _).1 (omega arith) in
      let twice : ((v.size * 2) % 2 ^ 64 == v.count) ≡ false = ground arith in
      let outside : put v.array v.count (element y) ≡ fault out_of_bounds =
        put-out_of_bounds v.array v.count (element y) (
          rw h.array
            (omega (arith, length-append (map element l) [], length-map {B = Slot A} l element))) in
      rw (full, twice, outside)
