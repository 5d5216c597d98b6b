-- ===== src/Network.antt =====
-- A socket as the code sees it: what the peer sends, in the pieces in which the network delivers it,
-- and what was written to it.
use memuncached.Prelude.{ℕ, List, [], ◌∷◌, ◌++◌, take, drop}

-- What a call of `recv` meets: a piece of at least one byte, or an error.
pub data Event : Type 0 where
  piece : ℕ → List ℕ → Event
  broken : Event

-- What a call of `recv` returns: -1, or the bytes that it read, none if the peer has gone.
pub data Received : Type 0 where
  failed : Received
  bytes : List ℕ → Received

-- What is left of a piece when the reader's buffer was smaller.
unfoldable pub rest_of : List ℕ → List Event → List Event
rest_of [] events = events
rest_of (c ∷ cs) events = piece c cs ∷ events

-- `recv` into a buffer of `n` bytes. When all that the peer sent is read, it has closed.
unfoldable pub recv : ℕ → List Event → Received × List Event
unfolding rest_of
recv n [] = (bytes [], [])
recv n (broken ∷ events) = (failed, events)
recv n (piece c cs ∷ events) = (bytes (take n (c ∷ cs)), rest_of (drop n (c ∷ cs)) events)

-- All bytes up to the first error.
abbrev pub sent : List Event → List ℕ
sent [] = []
sent (broken ∷ events) = []
sent (piece c cs ∷ events) = (c ∷ cs) ++ sent events
