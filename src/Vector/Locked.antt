-- ===== src/Vector/Locked.antt =====
-- vector.c: `vector_at`, `vector_insert` and `vector_remove` by several threads, with the mutex. Their
-- accesses to the vector happen between `vector_lock` and `vector_unlock`, so each is one step here.
use memuncached.Prelude.{
  ℕ, ◌≡◌, refl, sym, ap, ◌∙◌, Bool, true, false, List, [], ◌∷◌, ◌++◌, Option, none, some, ◌==◌,
  ==_iff, Bool-cases, inl, inr, if◌then◌else◌, arith,
}
use memuncached.Run.{Run, ok, fault, ◌>>=◌}
use memuncached.Vector.{Vector, vector_at_unsafe, vector_insert_unsafe, vector_remove_unsafe}

some_eq : (t u : ℕ) → some t ≡ some u → t ≡ u
some_eq t u e = ap (λ o. elim o [ none ↦ t | some x ↦ x ]) e

differ : (t u : ℕ) → (t == u) ≡ false → some t ≡ some u → ⊥
differ t u n e = let same : t ≡ u = some_eq t u e in ground arith

pub data Request {ℓ} (A : Type ℓ) : Type ℓ where
  vector_at : ℕ → Request A
  vector_insert : Bool → A → Request A
  vector_remove : ℕ → Request A

-- Where a thread is: outside, before `pthread_mutex_lock`, behind it, before `pthread_mutex_unlock`.
pub data Phase {ℓ} (A : Type ℓ) : Type ℓ where
  idle : Phase A
  locking : Request A → Phase A
  holding : Request A → Phase A
  unlocking : Phase A

-- The mutex's owner, the vector, the threads, and the requests that were served.
pub record Shared {ℓ} (A : Type ℓ) : Type ℓ where
  pub owner : Option ℕ
  pub vector : Vector A
  pub phase : ℕ → Phase A
  pub served : List (Request A)

module _ {ℓ} {A : Type ℓ} where
  unfoldable pub serve_request : Request A → Vector A → Run (Vector A)
  serve_request (vector_at i) v = vector_at_unsafe v i >>= λ p. ok v
  serve_request (vector_insert enough x) v = vector_insert_unsafe enough v x >>= λ r. ok r.1
  serve_request (vector_remove i) v = vector_remove_unsafe v i >>= λ r. ok r.1

  unfoldable pub serve_all : List (Request A) → Vector A → Run (Vector A)
  serve_all [] v = ok v
  serve_all (c ∷ cs) v = serve_request c v >>= λ v'. serve_all cs v'

  abbrev pub moved : (ℕ → Phase A) → ℕ → Phase A → ℕ → Phase A
  moved f t p u = if t == u then p else f u

  -- `time_out` is what ends `vector_timed_lock` without the lock.
  pub data Step (s : Shared A) : Shared A → Type ℓ where
    call :
        (t : ℕ) (c : Request A)
        → s.phase t ≡ idle
        → Step s (record s { phase = moved s.phase t (locking c) })
    lock :
        (t : ℕ) (c : Request A)
        → s.phase t ≡ locking c
        → s.owner ≡ none
        → Step s (record s { owner = some t; phase = moved s.phase t (holding c) })
    time_out :
        (t : ℕ) (c : Request A)
        → s.phase t ≡ locking c
        → Step s (record s { phase = moved s.phase t idle })
    work :
        (t : ℕ) (c : Request A) (v : Vector A)
        → s.phase t ≡ holding c
        → serve_request c s.vector ≡ ok v
        → Step s (record s {
          vector = v;
          phase = moved s.phase t unlocking;
          served = s.served ++ c ∷ [];
        })
    unlock :
        (t : ℕ)
        → s.phase t ≡ unlocking
        → Step s (record s { owner = none; phase = moved s.phase t idle })

  pub data Reaches (s : Shared A) : Shared A → Type ℓ where
    stay : Reaches s s
    go : {s' s'' : Shared A} → Reaches s s' → Step s' s'' → Reaches s s''

  -- A thread that has the lock.
  abbrev pub busy : Phase A → Bool
  busy idle = false
  busy (locking c) = false
  busy (holding c) = true
  busy unlocking = true

  -- No thread has the lock and nothing was served yet.
  pub record Quiet (s : Shared A) : Type ℓ where
    pub outside : (t : ℕ) → busy (s.phase t) ≡ false
    pub none_served : s.served ≡ []

  record Good (v : Vector A) (s : Shared A) : Type ℓ where
    owned : (t : ℕ) → busy (s.phase t) ≡ true → s.owner ≡ some t
    serial : serve_all s.served v ≡ ok s.vector

  bind-ok : (m : Run (Vector A)) → (m >>= λ v. ok v) ≡ m
  bind-ok (ok v) = refl
  bind-ok (fault e) = refl

  bind-serve_all :
      (m : Run (Vector A)) (cs : List (Request A)) (c : Request A)
      → ((v : Vector A) → serve_all (cs ++ c ∷ []) v ≡ (serve_all cs v >>= serve_request c))
      → (m >>= serve_all (cs ++ c ∷ [])) ≡ (m >>= serve_all cs >>= serve_request c)
  bind-serve_all (ok v) cs c h = h v
  bind-serve_all (fault e) cs c h = refl

  serve_all-snoc :
      (cs : List (Request A)) (c : Request A) (v : Vector A)
      → serve_all (cs ++ c ∷ []) v ≡ (serve_all cs v >>= serve_request c)
  unfolding serve_all
  serve_all-snoc [] c v = bind-ok (serve_request c v)
  serve_all-snoc (x ∷ cs) c v = bind-serve_all (serve_request x v) cs c (serve_all-snoc cs c)

  both : (p : Phase A) → busy p ≡ true → busy p ≡ false → ⊥
  both p h h' = cc

  -- The threads but the one that moves keep what they have.
  others :
      (f : ℕ → Phase A) (t : ℕ) (p : Phase A) (o : ℕ → Type 0)
      → (busy p ≡ true → o t)
      → ((u : ℕ) → (t == u) ≡ false → busy (f u) ≡ true → o u)
      → (u : ℕ) → busy (moved f t p u) ≡ true
      → o u
  others f t p o here there u b = elim (Bool-cases (t == u)) [
    | inl e ↦ let same : t ≡ u = (==_iff t u).0 e in rw (ap o (sym same)) (here (rw e at b))
    | inr e ↦ there u e (rw e at b)
  ]

  Step-Good : {v : Vector A} {s s' : Shared A} → Good v s → Step s s' → Good v s'
  Step-Good {s = s} g (call t c e) = record {
    owned =
        others s.phase t (locking c) (λ u. s.owner ≡ some u) (λ b. absurd (cc))
          (λ u n b. g.owned u b);
    serial = g.serial;
  }
  Step-Good {s = s} g (lock t c e free) = record {
    owned =
        others s.phase t (holding c) (λ u. some t ≡ some u) (λ b. refl)
          (λ u n b. let mine : s.owner ≡ some u = g.owned u b in absurd (cc));
    serial = g.serial;
  }
  Step-Good {s = s} g (time_out t c e) = record {
    owned = others s.phase t idle (λ u. s.owner ≡ some u) (λ b. absurd (cc)) (λ u n b. g.owned u b);
    serial = g.serial;
  }
  Step-Good {v = v} {s = s} g (work t c w e run) = record {
    owned =
        others s.phase t unlocking (λ u. s.owner ≡ some u) (λ b. g.owned t (rw e refl))
          (λ u n b. g.owned u b);
    serial = serve_all-snoc s.served c v ∙ rw g.serial run;
  }
  Step-Good {s = s} g (unlock t e) = record {
    owned =
        others s.phase t idle (λ u. none ≡ some u) (λ b. absurd (cc))
          (λ u n b.
            let mine : s.owner ≡ some t = g.owned t (rw e refl) in
            let yours : s.owner ≡ some u = g.owned u b in absurd (differ t u n (sym mine ∙ yours)));
    serial = g.serial;
  }

  Reaches-Good : {s s' : Shared A} → Quiet s → Reaches s s' → Good s.vector s'
  unfolding serve_all
  Reaches-Good {s = s} q stay = record {
    owned = λ t b. absurd (both (s.phase t) b (q.outside t));
    serial = rw q.none_served refl;
  }
  Reaches-Good q (go r step) = Step-Good (Reaches-Good q r) step

  pub mutual_exclusion :
      {s s' : Shared A} (t u : ℕ)
      → Quiet s
      → Reaches s s'
      → busy (s'.phase t) ≡ true
      → busy (s'.phase u) ≡ true
      → t ≡ u
  mutual_exclusion t u q r bt bu =
      let g = Reaches-Good q r in some_eq t u (sym (g.owned t bt) ∙ g.owned u bu)

  pub serial_order :
      {s s' : Shared A} → Quiet s → Reaches s s' → serve_all s'.served s.vector ≡ ok s'.vector
  serial_order q r = (Reaches-Good q r).serial
