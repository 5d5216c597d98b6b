-- ===== src/Dispatch/Keeps.antt =====
-- About `handle_command` and the table's invariant.
use memuncached.Commands.Keeps.{
  Keeps, done, bind-Keeps, if-Keeps, Option-Keeps, Returns-Keeps, get-Keeps, delete-Keeps,
  store-Keeps,
}
use memuncached.Commands.Counters.{inc-reply, dec-reply}
use memuncached.Commands.{
  World, memuncached_add, memuncached_get, memuncached_del, memuncached_bye, memuncached_stt,
  memuncached_ver,
}
use memuncached.Payload.{c_string}
use memuncached.Dispatch.{
  bad_request, without_arguments, with_length, with_type, handle_store, is_bad_offset,
  is_bad_initial, with_number, handle_number, handle_key, handle_name, handle_command, get_next_arg,
}
use memuncached.Double.{Double}
use memuncached.HashTable.Invariant.{IsValid}
use memuncached.Libc.{same_case}
use memuncached.Prelude.{ℕ, ◌≡◌, Bool, true, false, List, Option, none, some, codes, if◌then◌else◌}
use memuncached.Run.{Run, ok, ◌>>=◌}
use memuncached.Utils.{str_escape}

module _ {R : Type 0} ⦃d : Double R⦄ (fuel : ℕ) (w : World R) (v : IsValid w.table) where
  with_length-Keeps :
      (key type : List ℕ) (length' : Option (List ℕ)) (itr : List ℕ) (n : ℕ) (overwrite : Bool)
      → Keeps (with_length fuel w key type length' itr n overwrite)
  unfolding with_length memuncached_add
  with_length-Keeps key type none itr n overwrite = done _ v
  with_length-Keeps key type (some length') itr n overwrite = if-Keeps _ (done _ v) (
      if-Keeps overwrite (store-Keeps fuel w key type length' itr n true v)
        (store-Keeps fuel w key type length' itr n false v))

  with_type-Keeps :
      (key type length' : Option (List ℕ)) (itr : List ℕ) (n : ℕ) (overwrite : Bool)
      → Keeps (with_type fuel w key type length' itr n overwrite)
  unfolding with_type
  with_type-Keeps none type length' itr n overwrite = done _ v
  with_type-Keeps (some key) none length' itr n overwrite = done _ v
  with_type-Keeps (some key) (some type) length' itr n overwrite =
      if-Keeps _ (done _ v) (with_length-Keeps key type length' itr n overwrite)

  handle_store-Keeps :
      (itr : List ℕ) (n : ℕ) (overwrite : Bool) → Keeps (handle_store fuel w itr n overwrite)
  unfolding handle_store
  handle_store-Keeps itr n overwrite = bind-Keeps (get_next_arg itr) (λ r e.
      bind-Keeps (get_next_arg r.1) (λ r' e'.
        bind-Keeps (get_next_arg r'.1)
          (λ r'' e''. with_type-Keeps r.0 r'.0 r''.0 r''.1 n overwrite)))

  with_number-Keeps :
      (key offset initial : Option (List ℕ)) (increase : Bool)
      → Keeps (with_number w key offset initial increase)
  unfolding with_number
  with_number-Keeps none offset initial increase = done _ v
  with_number-Keeps (some key) offset initial increase =
      if-Keeps (is_bad_offset offset) (done _ v) (
        if-Keeps (is_bad_initial initial) (done _ v) (
          if-Keeps increase (Returns-Keeps (inc-reply w key offset initial v) (λ w' p. p.0.valid))
            (Returns-Keeps (dec-reply w key offset initial v) (λ w' p. p.0.valid))))

  handle_number-Keeps : (itr : List ℕ) (increase : Bool) → Keeps (handle_number w itr increase)
  unfolding handle_number
  handle_number-Keeps itr increase = bind-Keeps (get_next_arg itr) (λ r e.
      bind-Keeps (get_next_arg r.1) (λ r' e'.
        bind-Keeps (get_next_arg r'.1) (λ r'' e''. with_number-Keeps r.0 r'.0 r''.0 increase)))

  handle_key-Keeps :
      (itr : List ℕ) (then_do : List ℕ → Run (World R))
      → ((key : List ℕ) → Keeps (then_do key))
      → Keeps (handle_key w itr then_do)
  unfolding handle_key
  handle_key-Keeps itr then_do h =
      bind-Keeps (get_next_arg itr) (λ r e. Option-Keeps r.0 (done _ v) h)

  without_arguments-Keeps :
      (itr : List ℕ) (w' : World R) → IsValid w'.table → Keeps (without_arguments w itr w')
  unfolding without_arguments
  without_arguments-Keeps itr w' v' = if-Keeps _ (done _ v) (done _ v')

  last_names-Keeps :
      (cmd itr : List ℕ)
      → Keeps (
          if same_case cmd (codes "STT")
          then without_arguments w itr (memuncached_stt w)
          else if same_case cmd (codes "VER")
          then without_arguments w itr (memuncached_ver w)
          else (do _ ← str_escape cmd; bad_request w (codes "Invalid command.")))
  unfolding memuncached_stt memuncached_ver
  last_names-Keeps cmd itr =
      if-Keeps (same_case cmd (codes "STT")) (without_arguments-Keeps itr (memuncached_stt w) v) (
        if-Keeps (same_case cmd (codes "VER")) (without_arguments-Keeps itr (memuncached_ver w) v) (
          bind-Keeps (str_escape cmd) {k = λ s. bad_request w (codes "Invalid command.")}
            (λ s e. done _ v)))

  handle_name-Keeps : (cmd itr : List ℕ) (n : ℕ) → Keeps (handle_name fuel w cmd itr n)
  unfolding handle_name memuncached_bye
  handle_name-Keeps cmd itr n =
      if-Keeps (same_case cmd (codes "ADD")) (handle_store-Keeps itr n false) (
        if-Keeps (same_case cmd (codes "BYE")) (without_arguments-Keeps itr (memuncached_bye w) v) (
          if-Keeps (same_case cmd (codes "DEC")) (handle_number-Keeps itr false) (
            if-Keeps (same_case cmd (codes "DEL"))
              (handle_key-Keeps itr (memuncached_del w) (λ key. delete-Keeps w key v))
              (if-Keeps (same_case cmd (codes "INC")) (handle_number-Keeps itr true) (
                if-Keeps (same_case cmd (codes "GET"))
                  (handle_key-Keeps itr (memuncached_get w) (λ key. get-Keeps w key v))
                  (if-Keeps (same_case cmd (codes "SET")) (handle_store-Keeps itr n true)
                    (last_names-Keeps cmd itr)))))))

  -- Whatever the bytes of a command and of the connection, if handle_command returns, the table that
  -- was valid before is valid after.
  pub handle_command-IsValid :
      (command : List ℕ) (n : ℕ) (w' : World R)
      → handle_command fuel w command n ≡ ok w'
      → IsValid w'.table
  unfolding handle_command
  handle_command-IsValid command n w' e =
      (bind-Keeps (c_string command) (λ text e. bind-Keeps (str_escape text) (λ s e.
          bind-Keeps (get_next_arg command)
            (λ r e. Option-Keeps r.0 (done _ v) (λ name. handle_name-Keeps name r.1 n))))).valid
        w' e
