-- ===== src/Tests/Threads.antt =====
-- The thread of a connection.
use memuncached.Commands.{World}
use memuncached.Connection.Receiving.{GotLine, receive_command-GotLine}
use memuncached.Connection.Room.{fresh-Holds}
use memuncached.Connection.Serving.{serve-closed, serve-blank, serve-line}
use memuncached.Connection.{fresh_buffer, receive_command, serve}
use memuncached.Memory.{put}
use memuncached.Vector.Locked.{
  Request, vector_insert, vector_remove, idle, locking, holding, unlocking, Shared, serve_request,
  serve_all, moved, call, lock, work, Reaches, stay, go, Quiet, mutual_exclusion, serial_order,
}
use memuncached.Vector.{Vector, element, null, append, vector_insert_unsafe}
use memuncached.Dispatch.{handle_command}
use memuncached.Network.{Event, piece, sent}
use memuncached.Prelude.{
  ℕ, none, zero, suc, ◌<◌, ◌==◌, false, some, get_elem?, ◌≡◌, refl, Bool, true, List, [], ◌∷◌, ◌++◌,
  arith, codes,
}
use memuncached.Prelude.Int.{ℤ}
use memuncached.Run.{ok, fault, out_of_bounds, out_of_fuel, Returns, ◌>>=◌}
use memuncached.Tests.Handlers.{before}
use memuncached.Tests.Numbers.{whole_numbers}

abbrev always : ℕ → Bool
always n = true

-- A line in three pieces, the last of which has the first bytes of a payload.
abbrev pieces : List Event
pieces = piece b'S' (codes "ET key 2 ") ∷ piece b'4' [] ∷ piece 13 (10 ∷ codes "ab") ∷ []

receive_command-GotLine_example :
    Returns
      (receive_command 20 always fresh_buffer pieces)
      (GotLine [] (codes "SET key 2 4\r") (codes "ab"))
receive_command-GotLine_example =
    receive_command-GotLine always (λ n. refl) 20 fresh_buffer [] (codes "SET key 2 4\r")
      (codes "ab") pieces fresh-Holds (ground arith) refl (omega arith)

abbrev gone : World ℤ
gone = record before { input = [] }

serve-closed_example : serve 7 always gone ≡ fault out_of_fuel
serve-closed_example = serve-closed always 7 gone refl refl

abbrev silent : World ℤ
silent = record before { input = piece 13 (10 ∷ []) ∷ [] }

serve-blank_example : serve 8 always silent ≡ fault out_of_bounds
serve-blank_example =
    serve-blank always (λ n. refl) 7 silent refl (13 ∷ []) (refl, tt) (refl, tt) refl (omega arith)

abbrev asking : World ℤ
asking = record before { input = piece b'G' (codes "ET k\r\n") ∷ [] }

serve-line_example :
    (rest : List ℕ) × (events : List Event) × (serve 20 always asking ≡ (
      handle_command 19 (record asking { input = events }) (codes "GET " ++ b'k' ∷ 0 ∷ 0 ∷ rest) 0
      >>= λ w'. serve 19 always w'))
    × (sent events ≡ [])
serve-line_example =
    serve-line always (λ n. refl) 19 asking refl (codes "GET ") b'k' (ground arith) refl refl
      (omega arith)

not_first : (k x : ℕ) → k < 1 → get_elem? (7 ∷ 8 ∷ []) k ≡ some x → (x == 8) ≡ false
not_first zero x lt e = ground (arith, e)
not_first (suc k) x lt e = absurd (omega arith)

abbrev roomy : Vector ℕ
roomy = record { array = element 7 ∷ null ∷ []; size = 2; count = 1 }

-- Thread 0 has inserted and has the lock yet, and thread 1 waits for it.
abbrev start : Shared ℕ
start = record { owner = none; vector = roomy; phase = λ t. idle; served = [] }

abbrev inserting : Request ℕ
inserting = vector_insert true 9

abbrev removing : Request ℕ
removing = vector_remove 0

abbrev called : Shared ℕ
called = record start { phase = moved start.phase 0 (locking inserting) }

abbrev locked : Shared ℕ
locked = record called { owner = some 0; phase = moved called.phase 0 (holding inserting) }

abbrev inserted : Vector ℕ
inserted = record { array = element 7 ∷ element 9 ∷ []; size = 2; count = 2 }

abbrev worked : Shared ℕ
worked = record locked {
  vector = inserted;
  phase = moved locked.phase 0 unlocking;
  served = inserting ∷ [];
}

abbrev waiting : Shared ℕ
waiting = record worked { phase = moved worked.phase 1 (locking removing) }

history : Reaches start waiting
unfolding serve_request vector_insert_unsafe append put
history =
    go
      (go (go (go stay (call 0 inserting refl)) (lock 0 inserting refl refl))
        (work 0 inserting inserted refl refl))
      (call 1 removing refl)

start-Quiet : Quiet start
start-Quiet = record { outside = λ t. refl; none_served = refl }

abbrev thread : ℕ
thread = 0

mutual_exclusion_example : thread ≡ thread
mutual_exclusion_example = mutual_exclusion 0 0 start-Quiet history refl refl

serial_order_example : serve_all (inserting ∷ []) roomy ≡ ok inserted
serial_order_example = serial_order start-Quiet history
