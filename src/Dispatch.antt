-- ===== src/Dispatch.antt =====
-- connection.c: `put_null_terminator_unknown_size`, `GET_NEXT_ARG` and `handle_command`. A `char *` into
-- the command is the memory from there to the end of the allocation. What is logged is left out.
pub mod Words
pub mod Lines
pub mod Branches
pub mod Session
pub mod Keeps
use memuncached.Commands.{
  World, reply, memuncached_add, memuncached_bye, memuncached_dec, memuncached_del, memuncached_get,
  memuncached_inc, memuncached_set, memuncached_stt, memuncached_ver,
}
use memuncached.Payload.{c_string, first}
use memuncached.Double.{Double}
use memuncached.Libc.{same_case}
use memuncached.Prelude.{
  ℕ, Bool, true, false, not, ◌&&◌, ◌||◌, List, [], ◌∷◌, ◌++◌, Option, none, some, codes, ◌==◌,
  if◌then◌else◌,
}
use memuncached.Protocol.{response_400_bad_request, response_write}
use memuncached.Run.{Run, ok, fault, out_of_bounds, ◌>>=◌}
use memuncached.Utils.{str_escape, is_decimal_string, is_real_string}

-- `c == ' ' || c == '\r' || c == '\n'`
unfoldable pub is_delimiter : ℕ → Bool
is_delimiter c = (c == b' ') || ((c == 13) || (c == 10))

-- The first loop: the bytes that it passes, and the memory where it stops.
unfoldable pub pass_word : List ℕ → Run (List ℕ × List ℕ)
pass_word [] = fault out_of_bounds
pass_word (c ∷ itr) =
    if (c == 0) || is_delimiter c
    then ok ([], c ∷ itr)
    else (do (word, rest) ← pass_word itr; ok (c ∷ word, rest))

-- The second loop: the zeros that it leaves, and the memory where it stops.
unfoldable pub zero_delimiters : List ℕ → Run (List ℕ × List ℕ)
zero_delimiters [] = fault out_of_bounds
zero_delimiters (c ∷ itr) =
    if is_delimiter c
    then (do (zeros, rest) ← zero_delimiters itr; ok (0 ∷ zeros, rest))
    else ok ([], c ∷ itr)

-- The memory that the pointer passes, as it is afterwards, and the memory at the returned pointer.
unfoldable pub put_null_terminator_unknown_size : List ℕ → Run (List ℕ × List ℕ)
put_null_terminator_unknown_size itr = do
  (word, behind) ← pass_word itr
  (zeros, rest) ← zero_delimiters behind
  ok (word ++ zeros, rest)

-- `GET_NEXT_ARG(itr)`: the text at the pointer that it gives, or NULL, and the new `itr`. No later
-- call changes the text: they write behind its terminator.
unfoldable pub get_next_arg : List ℕ → Run (Option (List ℕ) × List ℕ)
get_next_arg [] = fault out_of_bounds
get_next_arg (c ∷ itr) = do
  (passed, rest) ← put_null_terminator_unknown_size (c ∷ itr)
  text ← c_string (passed ++ rest)
  ok ((if c == 0 then none else some text), rest)

-- `offset != NULL && (*offset == '-' || !is_real_string(offset))`
unfoldable pub is_bad_offset : Option (List ℕ) → Bool
is_bad_offset none = false
is_bad_offset (some offset) = (first offset == b'-') || not (is_real_string offset)

-- `initial != NULL && !is_real_string(initial)`
unfoldable pub is_bad_initial : Option (List ℕ) → Bool
is_bad_initial none = false
is_bad_initial (some initial) = not (is_real_string initial)

module _ {R : Type 0} where
  -- `REPLY_BAD_REQUEST`
  abbrev pub bad_request : World R → List ℕ → Run (World R)
  bad_request w message = ok (reply w (response_write response_400_bad_request message))

  -- The branches BYE, STT and VER.
  unfoldable pub without_arguments : World R → List ℕ → World R → Run (World R)
  without_arguments w itr done =
      if not (first itr == 0)
      then bad_request w (codes "The command does not take arguments.")
      else ok done

module _ {R : Type 0} ⦃d : Double R⦄ where
  -- The tests on LENGTH in the branches ADD and SET, and the call.
  unfoldable pub with_length :
      ℕ → World R → List ℕ → List ℕ → Option (List ℕ) → List ℕ → ℕ → Bool → Run (World R)
  with_length fuel w key type none itr payload_chunk_size overwrite =
      bad_request w (codes "The argument LENGTH is mandatory.")
  with_length fuel w key type (some length) itr payload_chunk_size overwrite =
      if (first length == b'-') || not (is_decimal_string length)
      then bad_request w (codes "The argument LENGTH must be positive integer.")
      else if overwrite
      then memuncached_set fuel w key type length itr payload_chunk_size true
      else memuncached_add fuel w key type length itr payload_chunk_size

  -- The tests on KEY and TYPE before that.
  unfoldable pub with_type :
      ℕ
      → World R
      → Option (List ℕ)
      → Option (List ℕ)
      → Option (List ℕ)
      → List ℕ
      → ℕ
      → Bool
      → Run (World R)
  with_type fuel w none type length itr payload_chunk_size overwrite =
      bad_request w (codes "The argument KEY is mandatory.")
  with_type fuel w (some key) none length itr payload_chunk_size overwrite =
      bad_request w (codes "The argument TYPE is mandatory.")
  with_type fuel w (some key) (some type) length itr payload_chunk_size overwrite =
      if (first type == b'-') || not (is_decimal_string type)
      then bad_request w (codes "The argument TYPE must be positive integer.")
      else with_length fuel w key type length itr payload_chunk_size overwrite

  -- The branches ADD and SET.
  unfoldable pub handle_store : ℕ → World R → List ℕ → ℕ → Bool → Run (World R)
  handle_store fuel w itr payload_chunk_size overwrite = do
    (key, itr1) ← get_next_arg itr
    (type, itr2) ← get_next_arg itr1
    (length, itr3) ← get_next_arg itr2
    with_type fuel w key type length itr3 payload_chunk_size overwrite

  -- The branches DEC and INC; `increase` is which.
  unfoldable pub with_number :
      World R → Option (List ℕ) → Option (List ℕ) → Option (List ℕ) → Bool → Run (World R)
  with_number w none offset initial increase =
      bad_request w (codes "The argument KEY is mandatory.")
  with_number w (some key) offset initial increase =
      if is_bad_offset offset
      then bad_request w (codes "The argument OFFSET must be positive real number.")
      else if is_bad_initial initial
      then bad_request w (codes "The argument INITIAL must be real number.")
      else if increase
      then memuncached_inc w key offset initial
      else memuncached_dec w key offset initial

  unfoldable pub handle_number : World R → List ℕ → Bool → Run (World R)
  handle_number w itr increase = do
    (key, itr1) ← get_next_arg itr
    (offset, itr2) ← get_next_arg itr1
    (initial, itr3) ← get_next_arg itr2
    with_number w key offset initial increase

  -- The branches DEL and GET.
  unfoldable pub handle_key : World R → List ℕ → (List ℕ → Run (World R)) → Run (World R)
  handle_key w itr then_do = do
    (key, itr1) ← get_next_arg itr
    elim key [ none ↦ bad_request w (codes "The argument KEY is mandatory.") | some k ↦ then_do k ]

  -- The chain of comparisons. The escaped text of an unknown command is logged only, but to make it
  -- writes to memory.
  unfoldable pub handle_name : ℕ → World R → List ℕ → List ℕ → ℕ → Run (World R)
  handle_name fuel w cmd itr payload_chunk_size =
      if same_case cmd (codes "ADD")
      then handle_store fuel w itr payload_chunk_size false
      else if same_case cmd (codes "BYE")
      then without_arguments w itr (memuncached_bye w)
      else if same_case cmd (codes "DEC")
      then handle_number w itr false
      else if same_case cmd (codes "DEL")
      then handle_key w itr (memuncached_del w)
      else if same_case cmd (codes "INC")
      then handle_number w itr true
      else if same_case cmd (codes "GET")
      then handle_key w itr (memuncached_get w)
      else if same_case cmd (codes "SET")
      then handle_store fuel w itr payload_chunk_size true
      else if same_case cmd (codes "STT")
      then without_arguments w itr (memuncached_stt w)
      else if same_case cmd (codes "VER")
      then without_arguments w itr (memuncached_ver w)
      else (do _ ← str_escape cmd; bad_request w (codes "Invalid command."))

  unfoldable pub handle_command : ℕ → World R → List ℕ → ℕ → Run (World R)
  handle_command fuel w command payload_chunk_size = do
    text ← c_string command
    _ ← str_escape text
    (cmd, itr) ← get_next_arg command
    elim cmd [ none ↦ ok w | some name ↦ handle_name fuel w name itr payload_chunk_size ]
