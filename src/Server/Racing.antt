-- ===== src/Server/Racing.antt =====
-- A thread that ends before `main` in server.c has inserted its client.
use mathlib.Core.List.{Mem, Nodup, Nodup-cons, mem-cons_self, mem-cons_of_mem}
use memuncached.Connection.Leaving.{remove_client-absent}
use memuncached.Memory.{at}
use memuncached.Prelude.{
  ℕ, zero, suc, ◌^◌, ◌<◌, ◌≡◌, refl, subst, sym, ap, ◌∙◌, true, false, ◌&&◌, inl, inr, Bool-cases,
  ==_iff, List, [], ◌∷◌, ◌++◌, none, some, arith, length, length-append, get_elem?, set, ◌==◌,
  if_true,
}
use memuncached.Run.{ok, fault, released, bind_ok, bind_fault, ◌>>=◌}
use memuncached.Server.Closing.{get_elem?-last}
use memuncached.Server.Heap.{fd_of, is_live-lt}
use memuncached.Server.Listed.{held, IsServer}
use memuncached.Server.Unlisted.{close_client-live}
use memuncached.Server.{
  Struct, gone, Server, ending, inserting, shut_clients, take_turn, take_turns, socket_of,
  end_thread, insert_client,
}
use memuncached.Vector.Contents.{Holds, at-Holds}
use memuncached.Vector.Insert.{insert-Holds}
use memuncached.Vector.{Slot}

get_elem?-Mem : (ps : List ℕ) (k x : ℕ) → get_elem? ps k ≡ some x → Mem x ps
get_elem?-Mem [] k x e = absurd cc
get_elem?-Mem (p ∷ ps) zero x e =
    let same : p ≡ x = ap (λ o. elim o [ some y ↦ y | none ↦ p ]) e in
    subst (λ y. Mem y (p ∷ ps)) same mem-cons_self
get_elem?-Mem (p ∷ ps) (suc k) x e = mem-cons_of_mem p (get_elem?-Mem ps k x e)

socket_of-gone :
    (heap : List Struct) (p : ℕ) → p < length heap → socket_of (set heap p gone) p ≡ fault released
unfolding socket_of at
socket_of-gone [] p h = elim h [ ]
socket_of-gone (s ∷ heap) zero h = refl
socket_of-gone (s ∷ heap) (suc p) h = socket_of-gone heap p (omega arith)

-- The end of the thread finds no client in the vector, and releases its own.
end_unlisted :
    (s : Server) (p : ℕ) (h : IsServer s)
    → s.starting ≡ some p
    → s.is_running ≡ true
    → end_thread s p true
      ≡ ok (record s { heap = set s.heap p gone; closed = s.closed ++ fd_of s.heap p ∷ [] })
unfolding end_thread
end_unlisted s p h e running =
    let distinct : Nodup (p ∷ h.ps) = subst (λ o. Nodup (held o h.ps)) e h.distinct in
    let absent : (k x : ℕ) → get_elem? h.ps k ≡ some x → (x == p) ≡ false = λ k x there.
      elim (Bool-cases (x == p)) [
        | inl same ↦
            let eq : x ≡ p = (==_iff x p).0 same in
            absurd (
              (Nodup-cons.0 distinct).0 (subst (λ y. Mem y h.ps) eq (get_elem?-Mem h.ps k x there)))
        | inr other ↦ other
      ] in
    let alive = h.alive p (subst (λ o. Mem p (held o h.ps)) (sym e) mem-cons_self) in
    let both : (s.is_running && true) ≡ true = ap (λ b. b && true) running in
    if_true _ _ both
    ∙ bind_ok _ (remove_client-absent s.clients h.ps h.rest h.clients p absent)
    ∙ close_client-live s p alive

-- The loop that closes the clients looks at the released client first.
shut-released :
    (s : Server) (ps : List ℕ) (p : ℕ) {rest : List (Slot ℕ)}
    → Holds s.clients (ps ++ p ∷ []) rest
    → socket_of s.heap p ≡ fault released
    → shut_clients s.clients.count s ≡ fault released
unfolding shut_clients
shut-released s ps p h dead =
    let count : s.clients.count ≡ suc (length ps) =
      omega (arith, h.count, length-append ps (p ∷ [])) in
    ap (λ n. shut_clients n s) count
    ∙ bind_ok _ (at-Holds (length ps) p h (get_elem?-last ps p))
    ∙ bind_fault _ dead

-- When the thread of a client ends while main runs and before main has inserted it, with room for
-- the vector, the client is released and inserted afterwards, and the loop that closes the clients
-- then looks at released memory.
pub thread_ends-first :
    (s : Server) (p : ℕ) (h : IsServer s)
    → s.starting ≡ some p
    → s.is_running ≡ true
    → s.clients.size < 2 ^ 60
    → (take_turns (ending p true ∷ inserting true ∷ []) s >>= λ s'.
        shut_clients s'.clients.count s')
      ≡ fault released
unfolding take_turns take_turn insert_client
thread_ends-first s p h e running small =
    let s' : Server = record s {
      heap = set s.heap p gone;
      closed = s.closed ++ fd_of s.heap p ∷ [];
    } in
    let (r, run, (stored, (rest, held'))) = insert-Holds h.rest p h.clients small in
    let alive = h.alive p (subst (λ o. Mem p (held o h.ps)) (sym e) mem-cons_self) in
    let inserted : take_turn (inserting true) s'
        ≡ ok (record s' { clients = r.1; starting = none }) =
      ap (λ o. elim o [ none ↦ ok s' | some q ↦ insert_client s' q true ]) e ∙ bind_ok _ run in
    let turns : take_turns (ending p true ∷ inserting true ∷ []) s
        ≡ ok (record s' { clients = r.1; starting = none }) =
      bind_ok _ (end_unlisted s p h e running) ∙ bind_ok _ inserted in
    bind_ok _ turns
    ∙ shut-released (record s' { clients = r.1; starting = none }) h.ps p held'
        (socket_of-gone s.heap p (is_live-lt s.heap p alive))
