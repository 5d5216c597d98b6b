-- ===== src/Memory.antt =====
-- An object in memory as the list of what it holds. An access outside of it is a fault.
use memuncached.Prelude.{
  append_assoc, length-set, Bool-cases, inl, inr, ltb→lt, ◌+◌, ℕ, zero, suc, ◌≤◌, ◌<◌, ◌≡◌, refl,
  ap, ◌∙◌, map, List, [], ◌∷◌, ◌++◌, arith, ltb, if◌then◌else◌, length, length-append, set, get_or,
}
use memuncached.Run.{Run, ok, fault, out_of_bounds, ◌>>=◌}

module _ {ℓ} {A : Type ℓ} where
  -- `xs[i]`
  unfoldable pub at : List A → ℕ → Run A
  at [] i = fault out_of_bounds
  at (x ∷ xs) zero = ok x
  at (x ∷ xs) (suc i) = at xs i

  -- `xs[i] = v`
  unfoldable pub put : List A → ℕ → A → Run (List A)
  put xs i v = if ltb i (length xs) then ok (set xs i v) else fault out_of_bounds

  pub at-get_or : (xs : List A) (i : ℕ) (d : A) → i < length xs → at xs i ≡ ok (get_or xs i d)
  unfolding at
  at-get_or [] i d h = elim h [ ]
  at-get_or (x ∷ xs) zero d h = refl
  at-get_or (x ∷ xs) (suc i) d h = at-get_or xs i d (omega arith)

  pub put-set : (xs : List A) (i : ℕ) (v : A) → i < length xs → put xs i v ≡ ok (set xs i v)
  unfolding put
  put-set xs i v h = ground arith

  pub put-out_of_bounds :
      (xs : List A) (i : ℕ) (v : A) → length xs ≤ i → put xs i v ≡ fault out_of_bounds
  unfolding put
  put-out_of_bounds xs i v h = ground arith

  -- Accesses just behind a first part.
  pub at-append :
      (xs : List A) (n : ℕ) (y : A) (ys : List A) → n ≡ length xs → at (xs ++ y ∷ ys) n ≡ ok y
  unfolding at
  at-append [] zero y ys e = refl
  at-append [] (suc n) y ys e = absurd (omega arith)
  at-append (x ∷ xs) zero y ys e = absurd (omega arith)
  at-append (x ∷ xs) (suc n) y ys e = at-append xs n y ys (omega arith)

  pub set-append :
      (xs : List A) (n : ℕ) (y v : A) (ys : List A)
      → n ≡ length xs
      → set (xs ++ y ∷ ys) n v ≡ xs ++ v ∷ ys
  set-append [] zero y v ys e = refl
  set-append [] (suc n) y v ys e = absurd (omega arith)
  set-append (x ∷ xs) zero y v ys e = absurd (omega arith)
  set-append (x ∷ xs) (suc n) y v ys e = ap (λ l. x ∷ l) (set-append xs n y v ys (omega arith))

  pub put-append :
      (xs : List A) (n : ℕ) (y v : A) (ys : List A)
      → n ≡ length xs
      → put (xs ++ y ∷ ys) n v ≡ ok (xs ++ v ∷ ys)
  put-append xs n y v ys e =
      put-set (xs ++ y ∷ ys) n v (omega (arith, length-append xs (y ∷ ys)))
      ∙ ap ok (set-append xs n y v ys e)

  -- A write inside the first part leaves the second.
  pub set-append_left :
      (xs ys : List A) (i : ℕ) (v : A) → i < length xs → set (xs ++ ys) i v ≡ set xs i v ++ ys
  set-append_left [] ys i v h = elim h [ ]
  set-append_left (x ∷ xs) ys zero v h = refl
  set-append_left (x ∷ xs) ys (suc i) v h =
      ap (λ l. x ∷ l) (set-append_left xs ys i v (omega arith))

  pub put-append_left :
      (xs ys : List A) (i : ℕ) (v : A) → i < length xs → put (xs ++ ys) i v ≡ ok (set xs i v ++ ys)
  put-append_left xs ys i v h =
      put-set (xs ++ ys) i v (omega (arith, length-append xs ys))
      ∙ ap ok (set-append_left xs ys i v h)

  pub set-set : (xs : List A) (i : ℕ) (v w : A) → set (set xs i v) i w ≡ set xs i w
  set-set [] i v w = refl
  set-set (x ∷ xs) zero v w = refl
  set-set (x ∷ xs) (suc i) v w = ap (λ l. x ∷ l) (set-set xs i v w)

pub set-map {ℓ κ} :
    {A : Type ℓ} {B : Type κ} (f : A → B) (xs : List A) (i : ℕ) (v : A)
    → set (map f xs) i (f v) ≡ map f (set xs i v)
set-map f [] i v = refl
set-map f (x ∷ xs) zero v = refl
set-map f (x ∷ xs) (suc i) v = ap (λ l. f x ∷ l) (set-map f xs i v)

module _ {ℓ} {A : Type ℓ} where
  -- The bytes `ys` written one by one from `i` on.
  unfoldable pub write : List A → ℕ → List A → Run (List A)
  write xs i [] = ok xs
  write xs i (y ∷ ys) = put xs i y >>= λ xs'. write xs' (i + 1) ys

  -- A write over a middle part of the same length.
  pub write-append :
      (ys front mid rest : List A) (i : ℕ)
      → i ≡ length front
      → length mid ≡ length ys
      → write (front ++ (mid ++ rest)) i ys ≡ ok (front ++ (ys ++ rest))
  unfolding write
  write-append [] front [] rest i e n = refl
  write-append [] front (x ∷ mid) rest i e n = absurd (omega arith)
  write-append (y ∷ ys) front [] rest i e n = absurd (omega arith)
  write-append (y ∷ ys) front (x ∷ mid) rest i e n =
      rw
        (
          put-append front i x y (mid ++ rest) e,
          ← append_assoc front (y ∷ []) (mid ++ rest),
          ← append_assoc front (y ∷ []) (ys ++ rest),
        )
        (write-append ys (front ++ y ∷ []) mid rest (i + 1)
          (omega (arith, length-append front (y ∷ []))) (omega arith))

  -- A write that reaches behind the end.
  pub write-out_of_bounds :
      (ys xs : List A) (i : ℕ)
      → 0 < length ys
      → length xs < i + length ys
      → write xs i ys ≡ fault out_of_bounds
  unfolding write
  write-out_of_bounds [] xs i ne h = absurd (omega arith)
  write-out_of_bounds (y ∷ []) xs i ne h = rw (put-out_of_bounds xs i y (omega arith))
  write-out_of_bounds (y ∷ z ∷ ys) xs i ne h = elim (Bool-cases (ltb i (length xs))) [
    | inl inside ↦ rw (put-set xs i y (ltb→lt i (length xs) inside)) (
        write-out_of_bounds (z ∷ ys) (set xs i y) (i + 1) (omega arith)
          (omega (arith, length-set xs i y)))
    | inr outside ↦ rw (put-out_of_bounds xs i y (ground arith))
  ]
