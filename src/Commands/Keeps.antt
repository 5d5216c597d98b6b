-- ===== src/Commands/Keeps.antt =====
-- About the handlers and the table's invariant.
use memuncached.Commands.{
  World, cell_reply, store_payload, replace_value, finish_set, fill_payload, without_payload,
  memuncached_set, memuncached_get, memuncached_del,
}
use memuncached.Payload.{c_string, first, payload_size, copy_chunk, recv_payload}
use memuncached.Double.{Double}
use memuncached.HashTable.Invariant.{IsValid}
use memuncached.HashTable.Write.{set-Replaced, del-Replaced}
use memuncached.HashTable.{
  decimal, real, string, hash_table_set, hash_table_get, hash_table_del, Value, HashTable,
}
use memuncached.HashTable.Invariant.{Fits}
use memuncached.Libc.{atoll, to_int32}
use memuncached.Memory.{put}
use memuncached.Prelude.{
  ℕ, ◌+◌, ◌-◌, ◌%◌, ◌≤◌, ◌≡◌, refl, ap, Bool, true, false, List, Option, none, some, arith, length,
  length-set, replicate, ltb, ◌==◌, ==_iff, Bool-cases, inl, inr, if◌then◌else◌,
}
use memuncached.Run.{Fault, Run, ok, fault, null_pointer, out_of_bounds, Returns, ◌>>=◌}

-- What a run returned, or `a`.
abbrev value_or : {A : Type 0} → A → Run A → A
value_or a (ok b) = b
value_or a (fault e) = a

module _ {R : Type 0} where
  -- If the run ends well, it is with a valid table.
  pub record Keeps (m : Run (World R)) : Type 0 where
    pub valid : (w : World R) → m ≡ ok w → IsValid w.table

  pub done : (w : World R) → IsValid w.table → Keeps (ok w)
  done w v = record { valid = λ w' e. rw (ap (value_or w) e) at v }

  faulted : (e : Fault) → Keeps (fault e)
  faulted e = record { valid = λ w h. absurd (cc) }

  pub bind-Keeps :
      {A : Type 0} (m : Run A) {k : A → Run (World R)}
      → ((a : A) → m ≡ ok a → Keeps (k a))
      → Keeps (m >>= k)
  bind-Keeps (ok a) h = h a refl
  bind-Keeps (fault e) h = faulted e

  then-Keeps :
      (m : Run (World R)) {k : World R → Run (World R)}
      → Keeps m
      → ((w : World R) → IsValid w.table → Keeps (k w))
      → Keeps (m >>= k)
  then-Keeps (ok w) v h = h w (v.valid w refl)
  then-Keeps (fault e) v h = faulted e

  pub if-Keeps :
      (b : Bool) {m m' : Run (World R)} → Keeps m → Keeps m' → Keeps (if b then m else m')
  if-Keeps true h h' = h
  if-Keeps false h h' = h'

  pub Option-Keeps :
      {A : Type 0} (o : Option A) {m : Run (World R)} {k : A → Run (World R)}
      → Keeps m
      → ((a : A) → Keeps (k a))
      → Keeps (elim o [ none ↦ m | some a ↦ k a ])
  Option-Keeps none h h' = h
  Option-Keeps (some a) h h' = h' a

  pub Returns-Keeps :
      {m : Run (World R)} {P : World R → Type 0}
      → Returns m P
      → ((w : World R) → P w → IsValid w.table)
      → Keeps m
  Returns-Keeps (w, e, p) h = rw e (done w (h w p))

  set-Keeps :
      (t : HashTable R) (key : List ℕ) (type : ℕ) (value : Value R) (size : ℕ)
      (k : Bool × HashTable R → Run (World R))
      → IsValid t
      → Fits type value size
      → ((r : Bool × HashTable R) → IsValid r.1 → Keeps (k r))
      → Keeps (hash_table_set t key type value size >>= k)
  set-Keeps t key type value size k v f h =
      let (r, run, (_, p)) = set-Replaced {t = t} key type value size v f in rw run (h r p.valid)

  del-Keeps :
      (t : HashTable R) (key : List ℕ) (k : Bool × HashTable R → Run (World R))
      → IsValid t
      → ((r : Bool × HashTable R) → IsValid r.1 → Keeps (k r))
      → Keeps (hash_table_del t key >>= k)
  del-Keeps t key k v h = let (r, run, (_, p)) = del-Replaced {t = t} key v in rw run (h r p.valid)

length-put : (xs : List ℕ) (i v : ℕ) (ys : List ℕ) → put xs i v ≡ ok ys → length ys ≡ length xs
unfolding put
length-put xs i v ys h = elim (Bool-cases (ltb i (length xs))) [
  | inl e ↦ rw (← ap (value_or xs) (rw e at h)) (length-set xs i v)
  | inr e ↦ absurd (ground arith)
]

module _ {R : Type 0} ⦃d : Double R⦄ where
  pub get-Keeps : (w : World R) (key : List ℕ) → IsValid w.table → Keeps (memuncached_get w key)
  unfolding memuncached_get
  get-Keeps w key v =
      bind-Keeps (hash_table_get w.table key)
        (λ cell e. bind-Keeps (cell_reply cell) (λ text e'. done _ v))

  pub delete-Keeps : (w : World R) (key : List ℕ) → IsValid w.table → Keeps (memuncached_del w key)
  unfolding memuncached_del
  delete-Keeps w key v =
      then-Keeps (memuncached_get w key) (get-Keeps w key v)
        (λ w' v'. del-Keeps w'.table key _ v' (λ r h. done _ h))

  store_payload-Keeps :
      (w : World R) (key type payload : List ℕ) (v_length : ℕ)
      → IsValid w.table
      → v_length ≤ length payload
      → Keeps (store_payload w key type payload v_length)
  unfolding store_payload
  store_payload-Keeps w key type payload v_length v le =
      let v_type = (first type + 256 - b'0') % 256 in
      elim (Bool-cases (v_type == 0)) [
        | inl e ↦ rw e (
            bind-Keeps (c_string payload) (λ s _.
              set-Keeps w.table key v_type (decimal (atoll s)) 0 _ v ((==_iff _ _).0 e)
                (λ r h. done _ h)))
        | inr n0 ↦ elim (Bool-cases (v_type == 1)) [
          | inl e ↦
              rw (n0, e)
                (bind-Keeps (c_string payload) (λ s _.
                  set-Keeps w.table key v_type (real (d.parse s)) 0 _ v ((==_iff _ _).0 e)
                    (λ r h. done _ h)))
          | inr n1 ↦ elim (Bool-cases (v_type == 2)) [
            | inl e ↦
                rw (n0, n1, e)
                  (set-Keeps w.table key v_type (string payload) v_length _ v ((==_iff _ _).0 e, le)
                    (λ r h. done _ h))
            | inr n2 ↦ rw (n0, n1, n2) (done _ v)
          ]
        ]
      ]

  replace_value-Keeps :
      (w : World R) (key type payload : List ℕ)
      → IsValid w.table
      → Keeps (replace_value w key type payload)
  unfolding replace_value
  replace_value-Keeps w key type payload v = del-Keeps w.table key _ v (λ r v'.
      elim (Bool-cases (ltb (length payload) 2)) [
        | inl e ↦ rw e (faulted out_of_bounds)
        | inr e ↦
            let n = length payload - 2 in
            rw e (
              bind-Keeps (put payload n 0) (λ cut e1. bind-Keeps (put cut (n + 1) 0) (λ ended e2.
                store_payload-Keeps (record w { table = r.1 }) key type ended n v'
                  (omega
                    (arith, length-put payload n 0 cut e1, length-put cut (n + 1) 0 ended e2)))))
      ])

  finish_set-Keeps :
      (w : World R) (key type payload : List ℕ) (overwrite : Bool)
      → IsValid w.table
      → Keeps (finish_set w key type payload overwrite)
  unfolding finish_set
  finish_set-Keeps w key type payload true v = replace_value-Keeps w key type payload v
  finish_set-Keeps w key type payload false v =
      bind-Keeps (hash_table_get w.table key)
        (λ cell e. Option-Keeps cell (replace_value-Keeps w key type payload v) (λ c. done _ v))

  fill_payload-Keeps :
      (fuel : ℕ) (w : World R) (key type chunk : List ℕ) (chunk_size : ℕ) (overwrite : Bool)
      (size : ℕ)
      → IsValid w.table
      → Keeps (fill_payload fuel w key type chunk chunk_size overwrite size)
  unfolding fill_payload
  fill_payload-Keeps fuel w key type chunk chunk_size overwrite size v =
      bind-Keeps (copy_chunk (replicate size 0) chunk chunk_size) (λ payload e.
        bind-Keeps (recv_payload fuel payload (size - chunk_size) w.input) (λ r e'.
          Option-Keeps r.0 (done _ v)
            (λ p. finish_set-Keeps (record w { input = r.1 }) key type p overwrite v)))

  without_payload-Keeps :
      (w : World R) (key : List ℕ) (chunk_size : ℕ) (overwrite : Bool)
      → IsValid w.table
      → Keeps (without_payload w key chunk_size overwrite)
  unfolding without_payload
  without_payload-Keeps w key chunk_size true v = faulted null_pointer
  without_payload-Keeps w key chunk_size false v =
      bind-Keeps (hash_table_get w.table key) (λ cell e.
        Option-Keeps cell (faulted null_pointer)
          (λ c. if-Keeps (ltb 0 chunk_size) (faulted null_pointer) (done _ v)))

  pub store-Keeps :
      (fuel : ℕ) (w : World R) (key type length' chunk : List ℕ) (chunk_size : ℕ) (overwrite : Bool)
      → IsValid w.table
      → Keeps (memuncached_set fuel w key type length' chunk chunk_size overwrite)
  unfolding memuncached_set
  store-Keeps fuel w key type length' chunk chunk_size overwrite v =
      bind-Keeps (payload_size (to_int32 (atoll length'))) (λ memory e.
        Option-Keeps memory (without_payload-Keeps w key chunk_size overwrite v)
          (λ size. fill_payload-Keeps fuel w key type chunk chunk_size overwrite size v))
