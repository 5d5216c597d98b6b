-- ===== src/Connection.antt =====
-- connection.c: the loops of `handle_connection`. `is_running` stays true; what is logged is left out.
-- `grows` tells for which sizes `realloc` finds memory.
pub mod LineEnds
pub mod Room
pub mod Receiving
pub mod Trimming
pub mod Serving
pub mod Leaving
use memuncached.Commands.{World, reply}
use memuncached.Dispatch.{handle_command}
use memuncached.Double.{Double}
use memuncached.Memory.{at, put, write}
use memuncached.Network.{Event, Received, failed, bytes, recv}
use memuncached.Prelude.{
  ℕ, zero, suc, ◌+◌, ◌-◌, ◌*◌, Bool, true, false, ◌||◌, List, [], ◌∷◌, ◌++◌, map, Option, none,
  some, codes, length, replicate, leb, ◌==◌, if◌then◌else◌,
}
use memuncached.Protocol.{response_500_server_error, response_write}
use memuncached.Run.{Run, ok, fault, null_pointer, out_of_bounds, uninitialised, out_of_fuel, ◌>>=◌}
use memuncached.Utils.{sstrstr}
use memuncached.Vector.{Vector, vector_at_unsafe, vector_remove_unsafe}

-- A byte of the command's memory; `garbage` is what `realloc` adds.
pub data Cell : Type 0 where
  byte : ℕ → Cell
  garbage : Cell

abbrev pub connection_recv_length : ℕ
connection_recv_length = 10

-- How the inner loop ends: with a line, its bytes counted and the bytes behind its end; with a `recv`
-- that returned no byte; or with no memory.
pub data Ending : Type 0 where
  line_end : List Cell → ℕ → ℕ → Ending
  no_byte : Ending
  no_memory : Ending

-- `command`, `command_len` and `command_free_len`, which is above 0 between the rounds.
pub record Buffer : Type 0 where
  pub command : List Cell
  pub command_len : ℕ
  pub command_free_len : ℕ

unfoldable pub fresh_buffer : Buffer
fresh_buffer = record {
  command = replicate connection_recv_length (byte 0);
  command_len = connection_recv_length;
  command_free_len = connection_recv_length;
}

-- `realloc(command, 2 * command_len)`
abbrev pub doubled : Buffer → List Cell
doubled b = b.command ++ replicate b.command_len garbage

-- The growth, when `command_free_len - read_size <= 0`.
unfoldable pub make_room : (ℕ → Bool) → Buffer → ℕ → Option Buffer
make_room grows b read_size =
    if leb b.command_free_len read_size
    then (if grows (b.command_len * 2)
        then some (record {
          command = doubled b;
          command_len = b.command_len * 2;
          command_free_len = b.command_free_len + b.command_len - read_size;
        })
        else none)
    else some (record b { command_free_len = b.command_free_len - read_size })

-- The `memcpy` of what was read.
unfoldable pub append_read : Buffer → List ℕ → Run Buffer
append_read b bs = do
  cells ← write b.command (b.command_len - b.command_free_len - length bs) (map byte bs)
  ok (record b { command = cells })

-- The body of the inner loop once `recv` has returned; `next` is the next round. `recv` returning no
-- byte ends the loop by its condition, so that the two tests of `read_size` in the body fail.
unfoldable pub handle_read :
    (Buffer → Run (Ending × List Event))
    → (ℕ → Bool)
    → Buffer
    → Received
    → List Event
    → Run (Ending × List Event)
handle_read next grows b failed events = ok (no_byte, events)
handle_read next grows b (bytes bs) events =
    if length bs == 0 then ok (no_byte, events) else elim (make_room grows b (length bs)) [
      | none ↦ ok (no_memory, events)
      | some room ↦ append_read room bs >>= λ b'. elim (sstrstr bs (10 ∷ [])) [
        | some end ↦ ok (
          line_end b'.command (b'.command_len - b'.command_free_len) (length bs - (end + 1)),
          events,
        )
        | none ↦ next b'
      ]
    ]

-- The inner loop: the command is received until a line end is in what was read.
unfoldable pub receive_command : ℕ → (ℕ → Bool) → Buffer → List Event → Run (Ending × List Event)
receive_command zero grows b events = fault out_of_fuel
receive_command (suc fuel) grows b events =
    let (received, events') = recv connection_recv_length events in
    handle_read (λ b'. receive_command fuel grows b' events') grows b received events'

-- `c == '\r' || c == '\n'`; the look at garbage is a fault.
unfoldable pub is_line_end : Cell → Run Bool
is_line_end (byte c) = ok ((c == 13) || (c == 10))
is_line_end garbage = fault uninitialised

-- The loop that sets the line ends before `i` to zero. At the first byte it looks at `command[-1]`.
unfoldable pub trim : ℕ → List Cell → Run (List Cell)
trim zero command = fault out_of_bounds
trim (suc i) command = do
  c ← at command i
  ended ← is_line_end c
  if ended then put command i (byte 0) >>= trim i else ok command

-- The bytes that `handle_command` can look at: up to the first that nothing was stored in.
abbrev pub readable : List Cell → List ℕ
readable [] = []
readable (byte c ∷ cells) = c ∷ readable cells
readable (garbage ∷ cells) = []

-- The search of the clients for the thread's own, from index `i` on, `n` of them being left. A client is
-- its thread's number here; the look at a NULL pointer is a fault.
unfoldable pub remove_from : ℕ → ℕ → Vector ℕ → ℕ → Run (Vector ℕ)
remove_from zero i clients id = ok clients
remove_from (suc n) i clients id = do
  c ← vector_at_unsafe clients i
  elim c [
    | none ↦ fault null_pointer
    | some x ↦
        if x == id
        then vector_remove_unsafe clients i >>= (λ r. ok r.1)
        else remove_from n (i + 1) clients id
  ]

unfoldable pub remove_client : Vector ℕ → ℕ → Run (Vector ℕ)
remove_client clients id = remove_from clients.count 0 clients id

module _ {R : Type 0} ⦃d : Double R⦄ where
  -- What follows the inner loop in the body of the outer one.
  unfoldable pub handle_ending : ℕ → World R → Ending → Run (World R)
  handle_ending fuel w no_byte = ok w
  handle_ending fuel w no_memory =
      ok (reply w (response_write response_500_server_error (codes "Realloc failed.")))
  handle_ending fuel w (line_end command command_len payload_chunk_size) = do
    trimmed ← trim command_len command
    handle_command fuel w (readable trimmed) payload_chunk_size

  -- The outer loop.
  unfoldable pub serve : ℕ → (ℕ → Bool) → World R → Run (World R)
  serve zero grows w = fault out_of_fuel
  serve (suc fuel) grows w =
      if w.is_thread_running
      then (do
        (ending, events) ← receive_command fuel grows fresh_buffer w.input
        w' ← handle_ending fuel (record w { input = events }) ending
        serve fuel grows w')
      else ok w

  -- What the thread does from its start to its end. `header` is MEMUNCACHED_HEADER, which the compiler
  -- fills in, and is written with the zero behind it; `locked` is whether `vector_timed_lock` got the
  -- lock within its second.
  unfoldable pub handle_connection : ℕ → (ℕ → Bool) → List ℕ → ℕ → Bool → World R → Run (World R)
  handle_connection fuel grows header id locked w = do
    w' ← serve fuel grows (reply w (header ++ 10 ∷ 0 ∷ []))
    clients ← (if locked then remove_client w'.clients id else ok w'.clients)
    ok (record w' { clients = clients })
