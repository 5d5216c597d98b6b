-- ===== src/Payload.antt =====
-- connection.c: the payload of `memuncached_set` as memory, and the reading of C strings.
pub mod Receive
use memuncached.Double.{Double}
use memuncached.HashTable.{
  decimal, real, string, CacheValue, HashTable, load_decimal, load_real, load_bytes, hash_table_set,
  hash_table_get, hash_table_del, hash_table_inc, hash_table_dec, cache_value_decimal,
  cache_value_real, cache_value_string,
}
use memuncached.Libc.{atoll, to_int32, print_decimal}
use memuncached.Memory.{put, write}
use memuncached.Network.{Event, failed, bytes, recv}
use memuncached.Prelude.Int.{ℤ, pos, negsuc}
use memuncached.Prelude.{
  ℕ, zero, suc, ◌+◌, ◌-◌, ◌%◌, ◌^◌, Bool, true, false, not, ◌&&◌, ◌||◌, List, [], ◌∷◌, ◌++◌, Option,
  none, some, codes, length, take, replicate, ltb, ◌==◌, if◌then◌else◌,
}
use memuncached.Protocol.{
  response_200_ok, response_400_bad_request, response_404_not_found, response_409_key_exists,
  response_500_server_error, response_write, value_write,
}
use memuncached.Run.{
  Run, ok, fault, out_of_bounds, null_pointer, signed_overflow, out_of_fuel, ◌>>=◌,
}
use memuncached.Vector.{Vector}

-- The text of a C string in memory.
unfoldable pub c_string : List ℕ → Run (List ℕ)
c_string [] = fault out_of_bounds
c_string (c ∷ memory) = if c == 0 then ok [] else c_string memory >>= (λ s. ok (c ∷ s))

-- `*s`
abbrev pub first : List ℕ → ℕ
first [] = 0
first (c ∷ s) = c

-- The bytes that `calloc(v_length + 2)` gives. Below -2 the sum is a `size_t` for which there is no
-- memory.
unfoldable pub payload_size : ℤ → Run (Option ℕ)
payload_size (pos n) = if ltb (n + 2) (2 ^ 31) then ok (some (n + 2)) else fault signed_overflow
payload_size (negsuc zero) = ok (some 1)
payload_size (negsuc (suc zero)) = ok (some 0)
payload_size (negsuc (suc (suc n))) = ok none

-- `memcpy(payload, payload_chunk, payload_chunk_size)`; `chunk` is the memory behind the pointer.
unfoldable pub copy_chunk : List ℕ → List ℕ → ℕ → Run (List ℕ)
copy_chunk payload chunk size =
    if ltb 0 size
    then (if ltb (length chunk) size
        then fault out_of_bounds
        else write payload 0 (take size chunk))
    else ok payload

-- The loop that receives the last `v_len` bytes of the payload; `none` is a failed `recv`.
unfoldable pub recv_payload : ℕ → List ℕ → ℕ → List Event → Run (Option (List ℕ) × List Event)
recv_payload zero payload v_len events = fault out_of_fuel
recv_payload (suc fuel) payload v_len events =
    if v_len == 0
    then ok (some payload, events)
    else (let (received, events') = recv v_len events in
        elim received [
          | failed ↦ ok (none, events')
          | bytes bs ↦ write payload (length payload - v_len) bs >>= λ payload'.
              recv_payload fuel payload' (v_len - length bs) events'
        ])
