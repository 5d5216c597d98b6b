-- ===== src/Commands.antt =====
-- connection.c: the handlers of the commands, `memuncached_*`. What a handler writes to the client is
-- appended to `out`; what it logs is left out.
pub mod Store
pub mod Set
pub mod Replies
pub mod Counters
pub mod Keeps
use memuncached.Payload.{c_string, first, payload_size, copy_chunk, recv_payload}
use memuncached.Double.{Double}
use memuncached.HashTable.{
  decimal, real, string, CacheValue, HashTable, load_decimal, load_real, load_bytes, hash_table_set,
  hash_table_get, hash_table_del, hash_table_inc, hash_table_dec, cache_value_decimal,
  cache_value_real, cache_value_string,
}
use memuncached.Libc.{atoll, to_int32, print_decimal}
use memuncached.Memory.{put, write}
use memuncached.Network.{Event, failed, bytes, recv}
use memuncached.Prelude.Int.{ℤ, pos, negsuc}
use memuncached.Prelude.{
  ℕ, zero, suc, ◌+◌, ◌-◌, ◌%◌, ◌^◌, Bool, true, false, not, ◌&&◌, ◌||◌, List, [], ◌∷◌, ◌++◌, Option,
  none, some, codes, length, take, replicate, ltb, ◌==◌, if◌then◌else◌,
}
use memuncached.Protocol.{
  response_200_ok, response_400_bad_request, response_404_not_found, response_409_key_exists,
  response_500_server_error, response_write, value_write,
}
use memuncached.Run.{
  Run, ok, fault, out_of_bounds, null_pointer, signed_overflow, out_of_fuel, ◌>>=◌,
}
use memuncached.Vector.{Vector}

-- What a handler works on: the shared table and clients, and the client's connection.
pub record World (R : Type 0) : Type 0 where
  pub table : HashTable R
  pub clients : Vector ℕ
  pub input : List Event
  pub out : List ℕ
  pub is_thread_running : Bool

module _ {R : Type 0} where
  abbrev pub reply : World R → List ℕ → World R
  reply w text = record w { out = w.out ++ text }

  abbrev pub succeed : World R → List ℕ → World R
  succeed w text = reply w (response_write response_200_ok text)

  unfoldable pub memuncached_bye : World R → World R
  memuncached_bye w = let w' = succeed w (codes "bye.") in record w' { is_thread_running = false }

  -- "%d" prints the `int` that the low half of a `size_t` is.
  unfoldable pub memuncached_stt : World R → World R
  memuncached_stt w = succeed w (
      codes "Client-Count: "
      ++ (print_decimal (to_int32 (pos w.clients.count))
          ++ (codes "\nKey-Count: " ++ print_decimal (to_int32 (pos w.table.count)))))

  unfoldable pub memuncached_ver : World R → World R
  memuncached_ver w = succeed w (codes "1.0")

-- `initial[0] != 0 && initial[1] != '.'`
abbrev pub starts_whole : List ℕ → Bool
starts_whole [] = false
starts_whole (c ∷ []) = true
starts_whole (c ∷ e ∷ s) = not (e == b'.')

module _ {R : Type 0} ⦃d : Double R⦄ where
  -- What `memuncached_get` writes for a cell. A string's reply is measured in an `int`.
  unfoldable pub cell_reply : Option (CacheValue R) → Run (List ℕ)
  cell_reply none = ok (response_write response_404_not_found [])
  cell_reply (some c) =
      if c.type == cache_value_decimal
      then load_decimal c.value >>= (λ z. ok (value_write c.type (print_decimal z)))
      else if c.type == cache_value_real
      then load_real c.value >>= (λ x. ok (value_write c.type (d.print x)))
      else if c.type == cache_value_string
      then load_bytes c.value c.length >>= (λ s.
        if ltb (length (value_write c.type s)) (2 ^ 31)
        then ok (value_write c.type s)
        else fault signed_overflow)
      else ok (response_write response_200_ok [])

  unfoldable pub memuncached_get : World R → List ℕ → Run (World R)
  memuncached_get w key = do
    cell ← hash_table_get w.table key
    text ← cell_reply cell
    ok (reply w text)

  unfoldable pub memuncached_del : World R → List ℕ → Run (World R)
  memuncached_del w key = do
    w' ← memuncached_get w key
    (_, t) ← hash_table_del w'.table key
    ok (record w' { table = t })

  -- `offset == NULL ? 1 : atof(offset)`
  abbrev pub offset_value : Option (List ℕ) → R
  offset_value none = d.of_int (pos 1)
  offset_value (some s) = d.parse s

  -- The cell that INC and DEC make where there was no number.
  unfoldable pub set_initial : HashTable R → List ℕ → Option (List ℕ) → Run (Bool × HashTable R)
  set_initial t key none = hash_table_set t key cache_value_decimal (decimal (pos 1)) 0
  set_initial t key (some s) =
      if starts_whole s
      then hash_table_set t key cache_value_decimal (decimal (atoll s)) 0
      else hash_table_set t key cache_value_real (real (d.parse s)) 0

  -- The part that `memuncached_inc` and `memuncached_dec` share, behind the change of the table.
  unfoldable pub finish_shift :
      World R → List ℕ → Option (List ℕ) → Option (CacheValue R) → Run (World R)
  finish_shift w key initial none = do
    (_, t) ← set_initial w.table key initial
    memuncached_get (record w { table = t }) key
  finish_shift w key initial (some c) = memuncached_get w key

  unfoldable pub memuncached_inc :
      World R → List ℕ → Option (List ℕ) → Option (List ℕ) → Run (World R)
  memuncached_inc w key offset initial = do
    (cell, t) ← hash_table_inc w.table key (offset_value offset)
    finish_shift (record w { table = t }) key initial cell

  unfoldable pub memuncached_dec :
      World R → List ℕ → Option (List ℕ) → Option (List ℕ) → Run (World R)
  memuncached_dec w key offset initial = do
    (cell, t) ← hash_table_dec w.table key (offset_value offset)
    finish_shift (record w { table = t }) key initial cell

  -- The branches on `cache_value_type v_type = *type - '0'`.
  unfoldable pub store_payload : World R → List ℕ → List ℕ → List ℕ → ℕ → Run (World R)
  store_payload w key type payload v_length =
      let v_type = (first type + 256 - b'0') % 256 in
      if v_type == cache_value_decimal
      then (do
        s ← c_string payload
        (_, t) ← hash_table_set w.table key v_type (decimal (atoll s)) 0
        ok (succeed (record w { table = t }) []))
      else if v_type == cache_value_real
      then (do
        s ← c_string payload
        (_, t) ← hash_table_set w.table key v_type (real (d.parse s)) 0
        ok (succeed (record w { table = t }) []))
      else if v_type == cache_value_string
      then (do
        (_, t) ← hash_table_set w.table key v_type (string payload) v_length
        ok (succeed (record w { table = t }) []))
      else ok (
          reply w (
            response_write response_400_bad_request
              (codes "The argument LENGTH must be 0, 1, or 2.")))

  -- From `hash_table_del` on. The two bytes behind the payload are set to zero.
  unfoldable pub replace_value : World R → List ℕ → List ℕ → List ℕ → Run (World R)
  replace_value w key type payload = do
    (_, t) ← hash_table_del w.table key
    let v_length = length payload - 2
    cut ← (if ltb (length payload) 2 then fault out_of_bounds else put payload v_length 0)
    ended ← put cut (v_length + 1) 0
    store_payload (record w { table = t }) key type ended v_length

  -- From the test for an existing key on.
  unfoldable pub finish_set : World R → List ℕ → List ℕ → List ℕ → Bool → Run (World R)
  finish_set w key type payload true = replace_value w key type payload
  finish_set w key type payload false = do
    cell ← hash_table_get w.table key
    elim cell [
      | some c ↦ ok (reply w (response_write response_409_key_exists []))
      | none ↦ replace_value w key type payload
    ]

  -- A payload of `size` bytes: the part that came with the command, and what is received.
  unfoldable pub fill_payload :
      ℕ → World R → List ℕ → List ℕ → List ℕ → ℕ → Bool → ℕ → Run (World R)
  fill_payload fuel w key type chunk chunk_size overwrite size = do
    payload ← copy_chunk (replicate size 0) chunk chunk_size
    (received, events) ← recv_payload fuel payload (size - chunk_size) w.input
    let w' : World R = record w { input = events }
    elim received [
      | none ↦ ok (reply w' (response_write response_500_server_error (codes "Read failed.")))
      | some p ↦ finish_set w' key type p overwrite
    ]

  -- No memory for the payload: the source reports that and goes on with NULL, to a `memcpy` into it
  -- or, past the loop, to the reply for an existing key or a write at `payload[v_length]`.
  unfoldable pub without_payload : World R → List ℕ → ℕ → Bool → Run (World R)
  without_payload w key chunk_size true = fault null_pointer
  without_payload w key chunk_size false = do
    cell ← hash_table_get w.table key
    elim cell [
      | none ↦ fault null_pointer
      | some c ↦
          if ltb 0 chunk_size
          then fault null_pointer
          else ok (
              reply (reply w (response_write response_500_server_error (codes "Calloc failed.")))
                (response_write response_409_key_exists []))
    ]

  unfoldable pub memuncached_set :
      ℕ → World R → List ℕ → List ℕ → List ℕ → List ℕ → ℕ → Bool → Run (World R)
  memuncached_set fuel w key type length' chunk chunk_size overwrite = do
    memory ← payload_size (to_int32 (atoll length'))
    elim memory [
      | none ↦ without_payload w key chunk_size overwrite
      | some size ↦ fill_payload fuel w key type chunk chunk_size overwrite size
    ]

  unfoldable pub memuncached_add :
      ℕ → World R → List ℕ → List ℕ → List ℕ → List ℕ → ℕ → Run (World R)
  memuncached_add fuel w key type length' chunk chunk_size =
      memuncached_set fuel w key type length' chunk chunk_size false
