-- ===== src/Library/Requests.antt =====
-- libmemuncached.c: the functions of the client, by the names of the source with `client_` for
-- `memuncached_` and `__memuncached_`. What is printed to the socket is appended to `out`. `realloc`
-- and `memory` tell what the calls for memory find; `fuel` is for the loop of `memuncached_recv`.
use memuncached.Connection.{byte, readable}
use memuncached.Libc.{atoi}
use memuncached.Library.{Client, Realloc, memuncached_recv}
use memuncached.Memory.{put}
use memuncached.Payload.{c_string}
use memuncached.Prelude.Int.{ℤ, pos, negsuc}
use memuncached.Prelude.{
  ℕ, ◌+◌, Bool, true, false, ◌&&◌, List, [], ◌++◌, none, some, codes, length, take, drop, ltb, ◌==◌,
  if◌then◌else◌,
}
use memuncached.Run.{Run, ok, fault, out_of_bounds, null_pointer, ◌>>=◌}
use memuncached.Utils.{sstrstr}

-- `memuncached_stt_result_t`
pub record SttResult : Type 0 where
  pub client_count : ℤ
  pub key_count : ℤ

-- The union in `memuncached_value_result_t`, with the member that was stored last.
pub data ResultValue (R : Type 0) : Type 0 where
  nothing : ResultValue R
  as_decimal : ℤ → ResultValue R
  as_real : R → ResultValue R
  as_string : List ℕ → ResultValue R
  freed : ResultValue R

-- `memuncached_value_result_t`. `size` is stored in only for a string.
pub record ValueResult (R : Type 0) : Type 0 where
  pub type : ℕ
  pub value : ResultValue R
  pub size : ℕ

-- An argument behind the named ones.
pub data Vararg (R : Type 0) : Type 0 where
  int_arg : ℤ → Vararg R
  double_arg : R → Vararg R

unfoldable pub send : Client → List ℕ → Client
send c text = record c { out = c.out ++ text }

-- `memuncached_recv(client)`, and whether the code of the response is 200.
unfoldable pub receive_ok : ℕ → (ℕ → Realloc) → Client → Run (Bool × Client)
receive_ok fuel realloc c = do
  (received, c') ← memuncached_recv fuel realloc c
  let is_200 : Bool = elim c'.response.code [ pos n ↦ n == 200 | negsuc n ↦ false ]
  ok (received && is_200, c')

-- The place that `response.body` points to.
unfoldable pub body_place : Client → Run ℕ
body_place c = elim c.response.body [ none ↦ fault null_pointer | some i ↦ ok i ]

-- The text that the C string at the body is.
unfoldable pub body_string : Client → Run (List ℕ)
body_string c = body_place c >>= λ i. c_string (readable (drop i c.buffer))

-- `body_size` bytes from the body on.
unfoldable pub body_bytes : Client → Run (List ℕ)
body_bytes c = do
  i ← body_place c
  let s = readable (drop i c.buffer)
  if ltb (length s) c.response.body_size
      then fault out_of_bounds
      else ok (take c.response.body_size s)

-- `atoi(sstrstr(body, label, body_size) + strlen(label))`
unfoldable pub labelled_number : Client → List ℕ → Run ℤ
labelled_number c label = do
  i ← body_place c
  s ← body_bytes c
  elim (sstrstr s label) [
    | none ↦ fault null_pointer
    | some k ↦ c_string (readable (drop (i + k + length label) c.buffer)) >>= λ t. ok (atoi t)
  ]

-- The result is no NULL pointer here: the `memset` comes before the test for one.
unfoldable pub client_stt : ℕ → (ℕ → Realloc) → Client → Run (Bool × SttResult × Client)
client_stt fuel realloc c = do
  (is_success, c') ← receive_ok fuel realloc (send c (codes "STT\r\n"))
  if is_success
      then (do
        client_count ← labelled_number c' (codes "Client-Count: ")
        key_count ← labelled_number c' (codes "Key-Count: ")
        ok (true, record { client_count = client_count; key_count = key_count }, c'))
      else ok (false, record { client_count = pos 0; key_count = pos 0 }, c')

-- `client->response.body[client->response.body_size] = 0`
unfoldable pub end_body : Client → Run Client
end_body c = do
  i ← body_place c
  cells ← put c.buffer (i + c.response.body_size) (byte 0)
  ok (record c { buffer = cells })

-- `strcpy` into an array of five bytes.
unfoldable pub client_ver : ℕ → (ℕ → Realloc) → Client → Run (Bool × List ℕ × Client)
client_ver fuel realloc c = do
  (is_success, c') ← receive_ok fuel realloc (send c (codes "VER\r\n"))
  if is_success
      then (do
        ended ← end_body c'
        version ← body_string ended
        if ltb (length version) 5 then ok (true, version, ended) else fault out_of_bounds)
      else ok (false, [], c')
