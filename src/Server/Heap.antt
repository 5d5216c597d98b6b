-- ===== src/Server/Heap.antt =====
-- The clients' memory in server.c: which structs are live, and what a release and a new one change.
use memuncached.Memory.{at, put-set}
use memuncached.Prelude.{
  ℕ, zero, suc, ◌<◌, ◌≡◌, ◌≢◌, refl, ap, ◌∙◌, Bool, true, false, List, [], ◌∷◌, ◌++◌, arith, length,
  set,
}
use memuncached.Run.{ok, bind_ok}
use memuncached.Server.{Struct, live, gone, socket_of, free_client}

abbrev pub is_live : List Struct → ℕ → Bool
is_live [] p = false
is_live (live fd ∷ heap) zero = true
is_live (gone ∷ heap) zero = false
is_live (s ∷ heap) (suc p) = is_live heap p

-- The descriptor in a live struct.
abbrev pub fd_of : List Struct → ℕ → ℕ
fd_of [] p = 0
fd_of (live fd ∷ heap) zero = fd
fd_of (gone ∷ heap) zero = 0
fd_of (s ∷ heap) (suc p) = fd_of heap p

pub is_live-lt : (heap : List Struct) (p : ℕ) → is_live heap p ≡ true → p < length heap
is_live-lt [] p h = absurd (ground (arith, h))
is_live-lt (live fd ∷ heap) zero h = omega arith
is_live-lt (gone ∷ heap) zero h = omega arith
is_live-lt (live fd ∷ heap) (suc p) h = omega (arith, is_live-lt heap p h)
is_live-lt (gone ∷ heap) (suc p) h = omega (arith, is_live-lt heap p h)

at-live :
    (heap : List Struct) (p : ℕ) → is_live heap p ≡ true → at heap p ≡ ok (live (fd_of heap p))
unfolding at
at-live [] p h = absurd (ground (arith, h))
at-live (live fd ∷ heap) zero h = refl
at-live (gone ∷ heap) zero h = absurd (ground (arith, h))
at-live (live fd ∷ heap) (suc p) h = at-live heap p h
at-live (gone ∷ heap) (suc p) h = at-live heap p h

pub socket_of-live :
    (heap : List Struct) (p : ℕ) → is_live heap p ≡ true → socket_of heap p ≡ ok (fd_of heap p)
unfolding socket_of
socket_of-live heap p h = bind_ok _ (at-live heap p h)

pub free_client-live :
    (heap : List Struct) (p : ℕ) → is_live heap p ≡ true → free_client heap p ≡ ok (set heap p gone)
unfolding free_client
free_client-live heap p h =
    bind_ok _ (socket_of-live heap p h) ∙ put-set heap p gone (is_live-lt heap p h)

pub is_live-set_self : (heap : List Struct) (p : ℕ) → is_live (set heap p gone) p ≡ false
is_live-set_self [] p = refl
is_live-set_self (s ∷ heap) zero = refl
is_live-set_self (live fd ∷ heap) (suc p) = is_live-set_self heap p
is_live-set_self (gone ∷ heap) (suc p) = is_live-set_self heap p

pub is_live-set_ne :
    (heap : List Struct) (p q : ℕ)
    → p ≢ q
    → (is_live (set heap p gone) q ≡ is_live heap q) × (fd_of (set heap p gone) q ≡ fd_of heap q)
is_live-set_ne [] p q n = (refl, refl)
is_live-set_ne (s ∷ heap) zero zero n = absurd (n refl)
is_live-set_ne (live fd ∷ heap) zero (suc q) n = (refl, refl)
is_live-set_ne (gone ∷ heap) zero (suc q) n = (refl, refl)
is_live-set_ne (live fd ∷ heap) (suc p) zero n = (refl, refl)
is_live-set_ne (gone ∷ heap) (suc p) zero n = (refl, refl)
is_live-set_ne (live fd ∷ heap) (suc p) (suc q) n = is_live-set_ne heap p q (λ e. n (ap suc e))
is_live-set_ne (gone ∷ heap) (suc p) (suc q) n = is_live-set_ne heap p q (λ e. n (ap suc e))

-- A new struct stands behind the others.
pub is_live-append :
    (heap : List Struct) (s : Struct) (p : ℕ)
    → p < length heap
    → is_live (heap ++ s ∷ []) p ≡ is_live heap p
is_live-append [] s p h = elim h [ ]
is_live-append (live fd ∷ heap) s zero h = refl
is_live-append (gone ∷ heap) s zero h = refl
is_live-append (live fd ∷ heap) s (suc p) h = is_live-append heap s p (omega arith)
is_live-append (gone ∷ heap) s (suc p) h = is_live-append heap s p (omega arith)

pub is_live-new :
    (heap : List Struct) (fd p : ℕ) → p ≡ length heap → is_live (heap ++ live fd ∷ []) p ≡ true
is_live-new [] fd zero e = refl
is_live-new [] fd (suc p) e = absurd (omega arith)
is_live-new (s ∷ heap) fd zero e = absurd (omega arith)
is_live-new (live x ∷ heap) fd (suc p) e = is_live-new heap fd p (omega arith)
is_live-new (gone ∷ heap) fd (suc p) e = is_live-new heap fd p (omega arith)

pub is_live-gone :
    (heap : List Struct) (p : ℕ) → is_live (heap ++ gone ∷ []) p ≡ true → is_live heap p ≡ true
is_live-gone [] zero h = h
is_live-gone [] (suc p) h = h
is_live-gone (live fd ∷ heap) zero h = h
is_live-gone (gone ∷ heap) zero h = h
is_live-gone (live fd ∷ heap) (suc p) h = is_live-gone heap p h
is_live-gone (gone ∷ heap) (suc p) h = is_live-gone heap p h

pub is_live-old :
    (heap : List Struct) (fd p : ℕ)
    → p ≢ length heap
    → is_live (heap ++ live fd ∷ []) p ≡ true
    → is_live heap p ≡ true
is_live-old [] fd zero n h = absurd (n refl)
is_live-old [] fd (suc p) n h = h
is_live-old (live x ∷ heap) fd zero n h = h
is_live-old (gone ∷ heap) fd zero n h = h
is_live-old (live x ∷ heap) fd (suc p) n h = is_live-old heap fd p (λ e. n (ap suc e)) h
is_live-old (gone ∷ heap) fd (suc p) n h = is_live-old heap fd p (λ e. n (ap suc e)) h
