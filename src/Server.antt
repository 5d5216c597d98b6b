-- ===== src/Server.antt =====
-- server.c: `main`, its loop that accepts clients and the one that closes them, and `handle_sigint`;
-- with the end of the threads, connection.c. A pointer to a `client_connection_t` is an index of `heap`.
-- What is logged is left out, and `malloc` of a client is taken to succeed, as the source does.
pub mod Heap
pub mod Listed
pub mod Unlisted
pub mod Racing
pub mod Ending
pub mod Turns
pub mod Closing
use memuncached.Connection.{remove_client}
use memuncached.HashTable.{HashTable, hash_table_create, hash_table_destroy}
use memuncached.Memory.{at, put}
use memuncached.Prelude.{
  ℕ, zero, suc, ◌+◌, Bool, true, false, not, ◌&&◌, List, [], ◌∷◌, ◌++◌, Option, none, some, length,
  if◌then◌else◌,
}
use memuncached.Run.{Run, ok, fault, null_pointer, released, ◌>>=◌}
use memuncached.Vector.{
  Vector, vector_create, vector_destroy, vector_at_unsafe, vector_insert_unsafe,
  vector_remove_unsafe,
}

-- The memory of a `client_connection_t`, with its `socket_fd`.
pub data Struct : Type 0 where
  live : ℕ → Struct
  gone : Struct

-- What `main` and the threads share. `starting` is the client whose thread runs and that `main` has
-- not inserted yet; `closed` has the descriptors that were closed, in order.
pub record Server : Type 0 where
  pub clients : Vector ℕ
  pub heap : List Struct
  pub starting : Option ℕ
  pub closed : List ℕ
  pub is_running : Bool

-- `client->socket_fd`
unfoldable pub socket_of : List Struct → ℕ → Run ℕ
socket_of heap p = at heap p >>= λ s. elim s [ live fd ↦ ok fd | gone ↦ fault released ]

-- `free(client)`
unfoldable pub free_client : List Struct → ℕ → Run (List Struct)
free_client heap p = socket_of heap p >>= λ _. put heap p gone

-- `close(client->socket_fd)` and `free(client)`
unfoldable pub close_client : Server → ℕ → Run Server
close_client s p = do
  fd ← socket_of s.heap p
  heap ← free_client s.heap p
  ok (record s { heap = heap; closed = s.closed ++ fd ∷ [] })

unfoldable pub handle_sigint : Server → Server
handle_sigint s = record s { is_running = false }

-- What `accept` and `pthread_create` do: a signal may arrive, no descriptor or one is returned, and
-- the thread is spawned or not.
unfoldable pub accept_client : Server → Bool → Option ℕ → Bool → Server
accept_client s sigint accepted spawned =
    let p = length s.heap in
    let s' = if sigint then handle_sigint s else s in
    elim accepted [
      | none ↦ record s' { heap = s.heap ++ gone ∷ [] }
      | some fd ↦
          if spawned
          then record s' { heap = s.heap ++ live fd ∷ []; starting = some p }
          else record s' { heap = s.heap ++ gone ∷ []; closed = s.closed ++ fd ∷ [] }
    ]

-- `vector_insert`; that it fails is logged.
unfoldable pub insert_client : Server → ℕ → Bool → Run Server
insert_client s p enough = do
  (_, clients) ← vector_insert_unsafe enough s.clients p
  ok (record s { clients = clients; starting = none })

-- The end of the thread of a client, whose id is told by the pointer to the client. `locked` is
-- whether `vector_timed_lock` got the lock.
unfoldable pub end_thread : Server → ℕ → Bool → Run Server
end_thread s p locked =
    if s.is_running && locked
    then (do clients ← remove_client s.clients p; close_client (record s { clients = clients }) p)
    else ok s

-- One turn: `main` accepts, or inserts the client that it accepted, or a thread ends.
pub data Turn : Type 0 where
  accepting : Bool → Option ℕ → Bool → Turn
  inserting : Bool → Turn
  ending : ℕ → Bool → Turn

-- `main` accepts while it runs and has no client to insert.
unfoldable pub take_turn : Turn → Server → Run Server
take_turn (accepting sigint accepted spawned) s = elim s.starting [
  | none ↦ ok (if s.is_running then accept_client s sigint accepted spawned else s)
  | some p ↦ ok s
]
take_turn (inserting enough) s = elim s.starting [ none ↦ ok s | some p ↦ insert_client s p enough ]
take_turn (ending p locked) s = end_thread s p locked

unfoldable pub take_turns : List Turn → Server → Run Server
take_turns [] s = ok s
take_turns (t ∷ turns) s = take_turn t s >>= λ s'. take_turns turns s'

-- The loop that closes the clients, from index `i - 1` down. A shut and closed socket is closed.
unfoldable pub shut_clients : ℕ → Server → Run Server
shut_clients zero s = ok s
shut_clients (suc i) s = do
  pointer ← vector_at_unsafe s.clients i
  p ← elim pointer [ none ↦ fault null_pointer | some p ↦ ok p ]
  fd ← socket_of s.heap p
  (_, clients) ← vector_remove_unsafe s.clients i
  heap ← free_client s.heap p
  shut_clients i (record s { clients = clients; heap = heap; closed = s.closed ++ fd ∷ [] })

-- The results of the calls that set the socket up.
pub record Setup : Type 0 where
  pub mutex_init : Bool
  pub socket : Option ℕ
  pub setsockopt : Bool
  pub bind : Bool
  pub listen : Bool

-- How far `main` has come: it has left with an exit code, it is in its loop, or it has ended.
pub data Outcome : Type 0 where
  exited : ℕ → Outcome
  serving : Server → Outcome
  ended : Server → Outcome

abbrev pub memuncached_table_initial_size : ℕ
memuncached_table_initial_size = 1000

unfoldable pub no_clients : Vector ℕ → Server
no_clients clients = record {
  clients = clients;
  heap = [];
  starting = none;
  closed = [];
  is_running = true;
}

module _ {R : Type 0} where
  -- From the end of the accepting loop on.
  unfoldable pub finish : Server → ℕ → HashTable R → Run Server
  finish s socket_fd table = do
    shut ← shut_clients s.clients.count s
    hash_table_destroy table >>= λ _. ok (record shut {
      clients = vector_destroy shut.clients;
      closed = shut.closed ++ socket_fd ∷ [];
    })

  -- `main` goes on to the end when a signal has stopped it and no client is to be inserted.
  unfoldable pub leave_loop : Server → ℕ → HashTable R → Run Outcome
  leave_loop s socket_fd table = elim s.starting [
    | some p ↦ ok (serving s)
    | none ↦
        if s.is_running then ok (serving s) else finish s socket_fd table >>= (λ s'. ok (ended s'))
  ]

  -- `work` is what the handlers do to the table in the meantime. Clients that are NULL are looked at
  -- when the first is inserted, or when `main` closes them.
  unfoldable pub server_main : Setup → List Turn → (HashTable R → HashTable R) → Run Outcome
  server_main setup turns work =
      let table : HashTable R = work (hash_table_create memuncached_table_initial_size) in
      let created : Option (Vector ℕ) = vector_create setup.mutex_init 10 in
      elim setup.socket [
        | none ↦ ok (exited 1)
        | some socket_fd ↦
            if setup.setsockopt && (setup.bind && setup.listen)
            then elim created [
              | none ↦ fault null_pointer
              | some clients ↦
                  take_turns turns (no_clients clients) >>= λ s. leave_loop s socket_fd table
            ]
            else ok (exited 1)
      ]
