-- ===== src/Commands/Set.antt =====
-- `memuncached_set` and `memuncached_add` as a whole: the payload begins with the bytes that were
-- read with the command, and what is missing is received.
use memuncached.Payload.Receive.{recv_payload-sent, recv_payload-closed}
use memuncached.Commands.Store.{kept, set_text, type_of, Answered, replace_value-Answered}
use memuncached.Commands.{
  World, reply, replace_value, finish_set, fill_payload, memuncached_set, memuncached_add,
}
use memuncached.Payload.{payload_size, copy_chunk, recv_payload}
use memuncached.Double.{Double}
use memuncached.HashTable.Invariant.{IsValid, bucket, get-bucket}
use memuncached.HashTable.Write.{Replaced}
use memuncached.HashTable.{CacheValue}
use memuncached.Libc.{atoll, to_int32}
use memuncached.Memory.{write-append, write-out_of_bounds}
use memuncached.Network.{Event, sent}
use memuncached.Prelude.Int.{pos}
use memuncached.Prelude.{
  ℕ, zero, suc, ◌+◌, ◌-◌, ◌^◌, ◌≤◌, ◌<◌, ◌≡◌, refl, ap, ◌∙◌, Bool, true, false, List, [], ◌∷◌,
  lt→ltb, ◌++◌, Option, none, some, arith, length, length-append, length-take, length-replicate,
  take, drop, replicate, ltb,
}
use memuncached.Protocol.{response_409_key_exists, response_write}
use memuncached.Run.{ok, fault, out_of_bounds, out_of_fuel, Returns}

abbrev zeros : ℕ → List ℕ
zeros n = replicate n 0

zeros_split : (size n total : ℕ) → total ≡ size + n → zeros total ≡ zeros size ++ zeros n
zeros_split zero n total e = ap zeros (e ∙ omega arith)
zeros_split (suc size) n zero e = absurd (omega arith)
zeros_split (suc size) n (suc total) e = ap (λ l. 0 ∷ l) (zeros_split size n total (omega arith))

-- The chunk covers the first bytes of the zeros.
copy_chunk-zeros :
    (chunk : List ℕ) (size n total : ℕ)
    → total ≡ size + n
    → size ≤ length chunk
    → copy_chunk (zeros total) chunk size ≡ ok (take size chunk ++ zeros n)
unfolding copy_chunk
copy_chunk-zeros chunk zero n total e h = ap (λ l. ok (zeros l)) (e ∙ omega arith)
copy_chunk-zeros chunk (suc size) n total e h =
    let fits : ltb (length chunk) (suc size) ≡ false = ground arith in
    let some_bytes : ltb 0 (suc size) ≡ true = ground arith in
    rw (some_bytes, fits, zeros_split (suc size) n total e)
      (write-append (take (suc size) chunk) [] (zeros (suc size)) (zeros n) 0 refl
        (omega (arith, length-replicate {A = ℕ} (suc size) 0, length-take (suc size) chunk)))

-- The bytes of a payload of which `n` are still to be received.
abbrev pub payload_bytes : List ℕ → ℕ → ℕ → List Event → List ℕ
payload_bytes chunk chunk_size n events = take chunk_size chunk ++ take n (sent events)

two_more :
    (s : List ℕ) (n : ℕ) → length s ≡ n + 2 → (a : ℕ) × (b : ℕ) × (s ≡ take n s ++ a ∷ b ∷ [])
two_more [] n h = absurd (omega arith)
two_more (x ∷ []) n h = absurd (omega arith)
two_more (x ∷ y ∷ []) zero h = (x, y, refl)
two_more (x ∷ y ∷ z ∷ s) zero h = absurd (omega arith)
two_more (x ∷ y ∷ s) (suc n) h =
    let (a, b, e) = two_more (y ∷ s) n (omega arith) in (a, b, ap (λ l. x ∷ l) e)

-- LENGTH is `n`, and the connection has delivered `chunk_size` bytes of the payload and will
-- deliver the rest, for which the loop has rounds enough.
pub record Delivers (fuel : ℕ) (length' chunk : List ℕ) (chunk_size n : ℕ) (events : List Event)
    : Type 0 where
  pub announced : to_int32 (atoll length') ≡ pos n
  pub in_range : n + 2 < 2 ^ 31
  pub no_more : chunk_size ≤ n + 2
  pub there : chunk_size ≤ length chunk
  pub comes : n + 2 - chunk_size ≤ length (sent events)
  pub rounds : n + 2 - chunk_size < fuel

module _ {R : Type 0} ⦃d : Double R⦄ where
  -- `w'` is `w` with the cell for the payload in the bucket of `key`, with the payload read from the
  -- connection, and with the answer written.
  abbrev pub Stored : World R → List ℕ → List ℕ → List ℕ → ℕ → ℕ → World R → Type 0
  Stored w key type chunk chunk_size n w' =
      let k = n + 2 - chunk_size in
      let body = take n (payload_bytes chunk chunk_size k w.input) in
      Replaced w.table key (kept key (type_of type) body) w'.table
      × (w'.out ≡ w.out ++ set_text (type_of type))
      × (sent w'.input ≡ drop k (sent w.input))

  replace_payload :
      (w : World R) (key type p : List ℕ) (n : ℕ)
      → length p ≡ n + 2
      → IsValid w.table
      → Returns
          (replace_value w key type p)
          λ w'. Answered w key (kept key (type_of type) (take n p)) (set_text (type_of type)) w'
  replace_payload w key type p n h v =
      let (a, b, e) = two_more p n h in
      rw (← e) at (replace_value-Answered w key type (take n p) a b v)

  module _ (fuel : ℕ) (w : World R) (key type length' chunk : List ℕ) (chunk_size n : ℕ)
      (h : Delivers fuel length' chunk chunk_size n w.input) where
    abbrev payload : List ℕ
    payload = payload_bytes chunk chunk_size (n + 2 - chunk_size) w.input

    abbrev Stores : World R → Type 0
    Stores w' = Stored w key type chunk chunk_size n w'

    length-payload : length payload ≡ n + 2
    length-payload = omega (
      arith,
      length-append (take chunk_size chunk) (take (n + 2 - chunk_size) (sent w.input)),
      length-take chunk_size chunk,
      length-take (n + 2 - chunk_size) (sent w.input),
      h.no_more,
      h.there,
      h.comes,
    )

    -- What the loop ends with.
    received :
        Returns
          (recv_payload fuel
            (take chunk_size chunk ++ zeros (n + 2 - chunk_size))
            (n + 2 - chunk_size)
            w.input)
          λ r. (r.0 ≡ some payload) × (sent r.1 ≡ drop (n + 2 - chunk_size) (sent w.input))
    received = rw (length-replicate {A = ℕ} (n + 2 - chunk_size) 0) at (
        recv_payload-sent fuel (take chunk_size chunk) (zeros (n + 2 - chunk_size)) w.input
          (omega (arith, length-replicate {A = ℕ} (n + 2 - chunk_size) 0, h.rounds))
          (omega (arith, length-replicate {A = ℕ} (n + 2 - chunk_size) 0, h.comes)))

    filled :
        (overwrite : Bool) (r : Option (List ℕ) × List Event)
        → recv_payload fuel
            (take chunk_size chunk ++ zeros (n + 2 - chunk_size))
            (n + 2 - chunk_size)
            w.input
          ≡ ok r
        → r.0 ≡ some payload
        → fill_payload fuel w key type chunk chunk_size overwrite (n + 2)
          ≡ finish_set (record w { input = r.1 }) key type payload overwrite
    unfolding fill_payload
    filled overwrite r run full =
        let whole : n + 2 ≡ chunk_size + (n + 2 - chunk_size) = omega (arith, h.no_more) in
        rw (copy_chunk-zeros chunk chunk_size (n + 2 - chunk_size) (n + 2) whole h.there, run, full)

    -- The payload is complete when the branches begin, and what the peer sent behind it is left.
    set-payload :
        (overwrite : Bool)
        → (events : List Event) × (memuncached_set fuel w key type length' chunk chunk_size
              overwrite
            ≡ finish_set (record w { input = events }) key type payload overwrite)
          × (sent events ≡ drop (n + 2 - chunk_size) (sent w.input))
    unfolding memuncached_set payload_size
    set-payload overwrite =
        let (r, run, (full, left)) = received in
        let small : ltb (n + 2) (2 ^ 31) ≡ true = lt→ltb (n + 2) (2 ^ 31) h.in_range in
        (r.1, rw (h.announced, small) (filled overwrite r run full), left)

    replaced :
        (events : List Event)
        → IsValid w.table
        → sent events ≡ drop (n + 2 - chunk_size) (sent w.input)
        → Returns (replace_value (record w { input = events }) key type payload) Stores
    replaced events v left =
        let (w', run, p) =
          replace_payload (record w { input = events }) key type payload n length-payload v in
        (w', run, (p.table, p.out, ap sent p.input ∙ left))

    pub set-Stored :
        IsValid w.table
        → Returns (memuncached_set fuel w key type length' chunk chunk_size true) Stores
    unfolding finish_set
    set-Stored v = let (events, run, left) = set-payload true in rw run (replaced events v left)

    pub add-Stored :
        IsValid w.table
        → bucket w.table key ≡ none
        → Returns (memuncached_add fuel w key type length' chunk chunk_size) Stores
    unfolding memuncached_add finish_set
    add-Stored v empty =
        let (events, run, left) = set-payload false in
        rw (run, get-bucket key v, empty) (replaced events v left)

    -- Under the conditions of set-Stored, and with the bucket of the key taken, memuncached_add
    -- reads the payload, leaves the table as it is, and writes the 409 reply.
    pub add-taken :
        (c : CacheValue R)
        → IsValid w.table
        → bucket w.table key ≡ some c
        → Returns (memuncached_add fuel w key type length' chunk chunk_size) λ w'.
          (w'.table ≡ w.table)
          × (w'.out ≡ w.out ++ response_write response_409_key_exists [])
          × (sent w'.input ≡ drop (n + 2 - chunk_size) (sent w.input))
    unfolding memuncached_add finish_set
    add-taken c v taken =
        let (events, run, left) = set-payload false in
        (
          reply (record w { input = events }) (response_write response_409_key_exists []),
          rw (run, get-bucket key v, taken),
          (refl, refl, left),
        )

  module _ (fuel : ℕ) (w : World R) (key type length' chunk : List ℕ) (chunk_size n : ℕ)
      (overwrite : Bool) (announced : to_int32 (atoll length') ≡ pos n) (in_range : n + 2 < 2 ^ 31)
      (there : chunk_size ≤ length chunk) where
    small : ltb (n + 2) (2 ^ 31) ≡ true
    small = lt→ltb (n + 2) (2 ^ 31) in_range

    -- When more bytes came with the command than LENGTH and the line end count, the copy of them
    -- writes behind the end of the payload.
    pub set-overflow :
        n + 2 < chunk_size
        → memuncached_set fuel w key type length' chunk chunk_size overwrite ≡ fault out_of_bounds
    unfolding memuncached_set payload_size fill_payload copy_chunk
    set-overflow h =
        let some_bytes : ltb 0 chunk_size ≡ true = ground arith in
        let fits : ltb (length chunk) chunk_size ≡ false = ground arith in
        let taken = length-take chunk_size chunk in
        rw (announced, small, some_bytes, fits)
          (rw (
            write-out_of_bounds (take chunk_size chunk) (zeros (n + 2)) 0 (omega (arith, taken))
              (omega (arith, taken, length-replicate {A = ℕ} (n + 2) 0))))

    -- When the peer has closed the connection and the payload misses a byte, no number of rounds
    -- ends the loop of memuncached_set.
    pub set-closed :
        chunk_size < n + 2
        → w.input ≡ []
        → memuncached_set fuel w key type length' chunk chunk_size overwrite ≡ fault out_of_fuel
    unfolding memuncached_set payload_size fill_payload
    set-closed h closed =
        let whole : n + 2 ≡ chunk_size + (n + 2 - chunk_size) = omega arith in
        rw (
          announced,
          small,
          copy_chunk-zeros chunk chunk_size (n + 2 - chunk_size) (n + 2) whole there,
          closed,
          recv_payload-closed fuel (take chunk_size chunk ++ zeros (n + 2 - chunk_size))
              (n + 2 - chunk_size) (omega arith),
        )
