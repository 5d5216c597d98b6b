-- ===== src/HashTable/Refine.antt =====
-- About the table and the map from slots to cells that it stands for.
use memuncached.Double.{Double}
use memuncached.Fnv.{fnv1a}
use memuncached.HashTable.Calls.{
  Call, set, get, del, inc, dec, flag, cell, Store, call, run, put, spec_call, spec_run, CallFits,
  AllFit,
}
use memuncached.HashTable.Invariant.{IsValid, slot, bucket, get-bucket}
use memuncached.HashTable.Shift.{inc-Shifts, dec-Shifts}
use memuncached.HashTable.Write.{Replaced, set-Replaced, del-Replaced}
use memuncached.HashTable.{CacheValue, HashTable}
use memuncached.Prelude.{ℕ, ◌%◌, ◌≡◌, refl, ap, ◌∙◌, List, [], ◌∷◌, Option}
use memuncached.Run.{Returns}

module _ {R : Type 0} ⦃d : Double R⦄ where
  -- A valid table of `size` buckets in which every key reads as its slot of `f` does.
  pub record Models (size : ℕ) (f : Store R) (t : HashTable R) : Type 0 where
    pub valid : IsValid t
    pub size_eq : t.size ≡ size
    pub reads : (q : List ℕ) → bucket t q ≡ f (fnv1a q % size)

  Models-slot :
      {size : ℕ} {f : Store R} {t : HashTable R} (q : List ℕ)
      → Models size f t
      → slot t q ≡ fnv1a q % size
  unfolding slot
  Models-slot q m = rw m.size_eq

  Replaced-Models :
      {size : ℕ} {f : Store R} {t t' : HashTable R} (key : List ℕ) (c : Option (CacheValue R))
      → Models size f t
      → Replaced t key c t'
      → Models size (put f (fnv1a key % size) c) t'
  Replaced-Models {t} key c m p = record {
    valid = p.valid;
    size_eq = p.size ∙ m.size_eq;
    reads = λ q. p.reads q ∙ rw (m.reads q, Models-slot key m, Models-slot q m);
  }

  -- One call on the table answers what the map answers, and leaves the table modelling the map.
  pub call_refines :
      {size : ℕ} {f : Store R} {t : HashTable R} (c : Call R)
      → Models size f t
      → CallFits c
      → Returns
          (call t c)
          λ r. (r.0 ≡ (spec_call size f c).0) × Models size (spec_call size f c).1 r.1
  unfolding call spec_call
  call_refines (set k type value n) m fits =
      let (r, run, (b, p)) = set-Replaced k type value n m.valid fits in
      ((flag r.0, r.1), rw run, (ap flag b, Replaced-Models k _ m p))
  call_refines (get k) m fits = ((cell _, _), rw (get-bucket k m.valid), (ap cell (m.reads k), m))
  call_refines (del k) m fits =
      let (r, run, (b, p)) = del-Replaced k m.valid in
      ((flag r.0, r.1), rw run, (ap flag (b ∙ rw (m.reads k)), Replaced-Models k _ m p))
  call_refines (inc k x) m fits =
      let (r, run, (b, p)) = inc-Shifts k x m.valid in
      (
        (cell r.0, r.1),
        rw run,
        (ap cell (b ∙ rw (m.reads k)), Replaced-Models k _ m (rw (m.reads k) at p)),
      )
  call_refines (dec k x) m fits =
      let (r, run, (b, p)) = dec-Shifts k x m.valid in
      (
        (cell r.0, r.1),
        rw run,
        (ap cell (b ∙ rw (m.reads k)), Replaced-Models k _ m (rw (m.reads k) at p)),
      )

  pub run_refines :
      {size : ℕ} {f : Store R} (cs : List (Call R)) {t : HashTable R}
      → Models size f t
      → AllFit cs
      → Returns (run t cs) λ r. (r.0 ≡ spec_run size f cs) × IsValid r.1
  unfolding run spec_run
  run_refines [] m fits = (([], _), refl, (refl, m.valid))
  run_refines {size = size} {f = f} (c ∷ cs) m fits =
      let (r, ran, (e, m')) = call_refines c m fits.0 in
      let (r', ran', (e', v)) = run_refines {f = (spec_call size f c).1} cs m' fits.1 in
      ((r.0 ∷ r'.0, r'.1), rw (ran, ran'), (rw (e, e'), v))
