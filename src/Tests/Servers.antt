-- ===== src/Tests/Servers.antt =====
-- `main` of the server.
use memuncached.Connection.{remove_client, remove_from}
use memuncached.HashTable.Invariant.{create-IsValid}
use memuncached.HashTable.{HashTable}
use memuncached.Memory.{at, put}
use memuncached.Prelude.Int.{ℤ}
use memuncached.Prelude.{
  ℕ, ◌≡◌, refl, true, false, List, [], ◌∷◌, none, some, arith, drop, replicate,
}
use memuncached.Run.{ok, fault, released, Returns, ◌>>=◌}
use memuncached.Server.Ending.{
  first_server, first_server-IsServer, AllClosed, server_main-AllClosed,
}
use memuncached.Server.Racing.{thread_ends-first}
use memuncached.Server.Turns.{AllPermitted, permit, take_turns-IsServer}
use memuncached.Server.Listed.{IsServer, accept_client-IsServer}
use memuncached.Server.{
  live, gone, Server, Turn, accepting, inserting, ending, Setup, ended, no_clients, socket_of,
  free_client, close_client, handle_sigint, accept_client, insert_client, end_thread, take_turn,
  take_turns, shut_clients, memuncached_table_initial_size, server_main,
}
use memuncached.Vector.{
  Slot, null, element, read, append, vector_at_unsafe, vector_insert_unsafe, take_out,
  vector_remove_unsafe,
}

-- Two clients come, the first leaves, and a signal ends the loop.
abbrev turns : List Turn
turns =
    accepting false (some 5) true
    ∷ inserting true
    ∷ accepting false (some 6) true
    ∷ inserting true
    ∷ ending 0 true
    ∷ accepting true none false
    ∷ []

abbrev with_clients : List (Slot ℕ) → ℕ → Server → Server
with_clients array count s = record s {
  clients = record { array = array; size = 10; count = count };
}

abbrev one_accepted : Server
one_accepted = record first_server { heap = live 5 ∷ []; starting = some 0 }

abbrev one_inserted : Server
one_inserted =
    with_clients (element 0 ∷ replicate 9 null) 1 (record first_server { heap = live 5 ∷ [] })

abbrev two_accepted : Server
two_accepted = record one_inserted { heap = live 5 ∷ live 6 ∷ []; starting = some 1 }

abbrev two_inserted : Server
two_inserted =
    with_clients (element 0 ∷ element 1 ∷ replicate 8 null) 2
      (record first_server { heap = live 5 ∷ live 6 ∷ [] })

abbrev one_left : Server
one_left =
    with_clients (element 1 ∷ replicate 9 null) 1
      (record first_server { heap = gone ∷ live 6 ∷ []; closed = 5 ∷ [] })

abbrev stopped : Server
stopped = record one_left { heap = gone ∷ live 6 ∷ gone ∷ []; is_running = false }

permitted : AllPermitted turns first_server
unfolding take_turn accept_client insert_client end_thread handle_sigint remove_client remove_from
    close_client socket_of free_client vector_at_unsafe vector_insert_unsafe vector_remove_unsafe
    take_out append read at put no_clients
permitted =
    permit (accepting false (some 5) true) (drop 1 turns) first_server one_accepted tt refl (
      permit (inserting true) (drop 2 turns) one_accepted one_inserted (refl, omega arith) refl
        (permit (accepting false (some 6) true) (drop 3 turns) one_inserted two_accepted tt refl (
          permit (inserting true) (drop 4 turns) two_accepted two_inserted (refl, omega arith) refl
            (permit (ending 0 true) (drop 5 turns) two_inserted one_left (refl, λ e. cc) refl
              (permit (accepting true none false) [] one_left stopped tt refl tt)))))

taken : take_turns turns first_server ≡ ok stopped
unfolding take_turns take_turn accept_client insert_client end_thread handle_sigint remove_client
    remove_from close_client socket_of free_client vector_at_unsafe vector_insert_unsafe
    vector_remove_unsafe take_out append read at put no_clients
taken = refl

abbrev setup : Setup
setup = record { mutex_init = true; socket = some 3; setsockopt = true; bind = true; listen = true }

abbrev untouched : HashTable ℤ → HashTable ℤ
untouched t = t

server_main-AllClosed_example :
    Returns
      (server_main setup turns untouched)
      λ o. (s' : Server) × (o ≡ ended s') × AllClosed stopped 3 s'
unfolding no_clients
server_main-AllClosed_example =
    server_main-AllClosed setup 3 turns untouched stopped refl refl refl refl refl
      (create-IsValid memuncached_table_initial_size (omega arith) (omega arith)) permitted taken
      refl refl

take_turns-IsServer_example : Returns (take_turns turns first_server) IsServer
take_turns-IsServer_example = take_turns-IsServer turns first_server permitted first_server-IsServer

-- The thread of the first client ends before the client is inserted.
abbrev accepted : Server
accepted = accept_client first_server false (some 5) true

thread_ends-first_example :
    (take_turns (ending 0 true ∷ inserting true ∷ []) accepted >>= λ s'.
    shut_clients s'.clients.count s')
    ≡ fault released
unfolding accept_client no_clients
thread_ends-first_example =
    thread_ends-first accepted 0
      (accept_client-IsServer first_server false true (some 5) first_server-IsServer refl) refl refl
      (omega arith)
