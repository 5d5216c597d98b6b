-- ===== src/Server/Ending.antt =====
-- About `main` in server.c as a whole.
use mathlib.Core.List.{Mem, Nodup, Pairwise, eq-or-mem_of_mem-cons, not-mem-nil, Mem-prop, Perm}
use mathlib.Core.List.Perm as Perm
use mathlib.Core.Logic.Or
use memuncached.HashTable.Invariant.{IsValid, destroy-ok}
use memuncached.HashTable.{HashTable, hash_table_create, hash_table_destroy}
use memuncached.Prelude.{
  ℕ, ◌≡◌, ◌≢◌, refl, subst, sym, ap, ◌∙◌, true, false, inl, inr, Bool-cases, ==_iff, List, [], ◌∷◌,
  ◌++◌, append_assoc, none, some, arith, length, map, set, ◌==◌, if_false, replicate, if◌then◌else◌,
}
use memuncached.Run.{Run, ok, fault, bind_ok, Returns, ◌>>=◌}
use memuncached.Server.Closing.{reversed, length-reversed, freed, Owns, shut_clients-Shut}
use memuncached.Server.Heap.{is_live, fd_of, is_live-set_ne, is_live-set_self}
use memuncached.Server.Turns.{AllPermitted, take_turns-IsServer}
use memuncached.Server.Listed.{behind, held, IsServer}
use memuncached.Server.{
  Struct, gone, Server, Turn, Setup, serving, ended, no_clients, memuncached_table_initial_size,
  shut_clients, finish, leave_loop, take_turns, server_main,
}
use memuncached.Vector.Contents.{Holds}
use memuncached.Vector.{Slot, null, vector_create, vector_destroy}

reversed-append : (ps : List ℕ) (p : ℕ) → reversed (ps ++ p ∷ []) ≡ p ∷ reversed ps
reversed-append [] p = refl
reversed-append (q ∷ ps) p = ap (λ l. l ++ q ∷ []) (reversed-append ps p)

reversed_twice : (ps : List ℕ) → reversed (reversed ps) ≡ ps
reversed_twice [] = refl
reversed_twice (p ∷ ps) = reversed-append (reversed ps) p ∙ ap (λ l. p ∷ l) (reversed_twice ps)

reversed-Perm : (ps : List ℕ) → Perm ps (reversed ps)
reversed-Perm [] = Perm.refl []
reversed-Perm (p ∷ ps) = Perm.trans (Perm.cons p (reversed-Perm ps)) (behind p (reversed ps))

-- When the live structs are among those that are released, none is left.
freed-dead :
    (ps : List ℕ) (heap : List Struct) (p : ℕ)
    → (is_live heap p ≡ true → Mem p ps)
    → is_live (freed heap ps) p ≡ false
freed-dead [] heap p h = elim (Bool-cases (is_live heap p)) [
  | inl e ↦ absurd (not-mem-nil (h e))
  | inr e ↦ e
]
freed-dead (q ∷ ps) heap p h = freed-dead ps (set heap q gone) p (λ e. elim (Bool-cases (q == p)) [
  | inl same ↦
      let eq : q ≡ p = (==_iff q p).0 same in
      absurd (
        ground (
          arith,
          is_live-set_self heap q,
          subst (λ x. is_live (set heap q gone) x ≡ true) (sym eq) e,
        ))
  | inr other ↦
      let n : q ≢ p = λ eq. absurd (ground (arith, other, eq)) in
      Or.elim Mem-prop (eq-or-mem_of_mem-cons (h (sym (is_live-set_ne heap q p n).0 ∙ e)))
        (λ eq. absurd (n (sym eq))) (λ m. m)
])

-- `main` has closed each client's descriptor once, the last of the vector first, and then its own; the
-- vector is empty and released, and no struct is live.
pub record AllClosed (s : Server) (socket_fd : ℕ) (s' : Server) : Type 0 where
  pub ps : List ℕ
  pub before : List (Slot ℕ)
  pub clients : Holds s.clients ps before
  pub distinct : Nodup ps
  pub closed : s'.closed ≡ s.closed ++ (map (fd_of s.heap) (reversed ps) ++ socket_fd ∷ [])
  pub empty : s'.clients.count ≡ 0
  pub released : s'.clients.array ≡ []
  pub dead : (p : ℕ) → is_live s'.heap p ≡ false

module _ {R : Type 0} where
  finish-AllClosed :
      (s : Server) (fd : ℕ) (table : HashTable R)
      → IsServer s
      → s.starting ≡ none
      → hash_table_destroy table ≡ ok tt
      → Returns (finish s fd table) (AllClosed s fd)
  unfolding finish vector_destroy
  finish-AllClosed s fd table h e destroyed =
      let qs = reversed h.ps in
      let order = reversed-Perm h.ps in
      let distinct : Nodup h.ps = subst (λ o. Nodup (held o h.ps)) e h.distinct in
      let owns : Owns s.heap qs = record {
        distinct = Perm.nodup order distinct;
        alive = λ p m.
            h.alive p
              (subst (λ o. Mem p (held o h.ps)) (sym e) (Perm.subset (Perm.symm order) p m));
      } in
      let holds : Holds s.clients (reversed qs) h.rest =
        subst (λ l. Holds s.clients l h.rest) (sym (reversed_twice h.ps)) h.clients in
      let (shut, run, q) = shut_clients-Shut qs s h.rest holds owns in
      let count : s.clients.count ≡ length qs = h.clients.count ∙ sym (length-reversed h.ps) in
      (
        record shut { clients = vector_destroy shut.clients; closed = shut.closed ++ fd ∷ [] },
        ap
              (λ n. shut_clients n s >>= λ t. hash_table_destroy table >>= λ _.
                ok (record t { clients = vector_destroy t.clients; closed = t.closed ++ fd ∷ [] }))
              count
            ∙ bind_ok _ run
            ∙ bind_ok _ destroyed,
        record {
          ps = h.ps;
          before = h.rest;
          clients = h.clients;
          distinct = distinct;
          closed =
              ap (λ l. l ++ fd ∷ []) q.closed
              ∙ append_assoc s.closed (map (fd_of s.heap) qs) (fd ∷ []);
          empty = q.empty.count;
          released = refl;
          dead = λ p.
              ap (λ k. is_live k p) q.heap
              ∙ freed-dead qs s.heap p
                  (λ l. Perm.subset order p (subst (λ o. Mem p (held o h.ps)) e (h.known p l)));
        },
      )

-- The state in which `main` begins to accept.
abbrev pub first_server : Server
first_server = no_clients (record { array = replicate 10 null; size = 10; count = 0 })

pub first_server-IsServer : IsServer first_server
unfolding no_clients
first_server-IsServer = record {
  ps = [];
  rest = replicate 10 null;
  clients = record {
    array = refl;
    count = refl;
    width = refl;
    pos = omega arith;
    small = omega arith;
    free = tt;
  };
  distinct = Pairwise.nil;
  alive = λ p m. absurd (not-mem-nil m);
  known = λ p l. absurd (ground (arith, l));
}

module _ {R : Type 0} where
  leave_loop-ended :
      (s s' : Server) (fd : ℕ) (table : HashTable R)
      → s.starting ≡ none
      → s.is_running ≡ false
      → finish s fd table ≡ ok s'
      → leave_loop s fd table ≡ ok (ended s')
  unfolding leave_loop
  leave_loop-ended s s' fd table starting stopped finished =
      ap
        (λ o. elim o [
          | some p ↦ ok (serving s)
          | none ↦
              if s.is_running then ok (serving s) else finish s fd table >>= (λ t. ok (ended t))
        ])
        starting
      ∙ if_false _ _ stopped
      ∙ bind_ok _ finished

  main_run :
      (setup : Setup) (fd : ℕ) (turns : List Turn) (work : HashTable R → HashTable R)
      (s s' : Server)
      → setup.mutex_init ≡ true
      → setup.socket ≡ some fd
      → setup.setsockopt ≡ true
      → setup.bind ≡ true
      → setup.listen ≡ true
      → take_turns turns first_server ≡ ok s
      → s.starting ≡ none
      → s.is_running ≡ false
      → finish s fd (work (hash_table_create memuncached_table_initial_size)) ≡ ok s'
      → server_main setup turns work ≡ ok (ended s')
  unfolding server_main vector_create
  main_run setup fd turns work s s' em es eo eb el run starting stopped finished =
      let table = work (hash_table_create memuncached_table_initial_size) in
      rw (es, eo, eb, el, em, run) (leave_loop-ended s s' fd table starting stopped finished)

  pub server_main-AllClosed :
      (setup : Setup) (fd : ℕ) (turns : List Turn) (work : HashTable R → HashTable R) (s : Server)
      → setup.mutex_init ≡ true
      → setup.socket ≡ some fd
      → setup.setsockopt ≡ true
      → setup.bind ≡ true
      → setup.listen ≡ true
      → IsValid (work (hash_table_create memuncached_table_initial_size))
      → AllPermitted turns first_server
      → take_turns turns first_server ≡ ok s
      → s.starting ≡ none
      → s.is_running ≡ false
      → Returns
          (server_main setup turns work)
          λ o. (s' : Server) × (o ≡ ended s') × AllClosed s fd s'
  server_main-AllClosed setup fd turns work s em es eo eb el valid allowed run starting stopped =
      let (t, run', h) = take_turns-IsServer turns first_server allowed first_server-IsServer in
      let same : t ≡ s =
        ap (λ (m : Run Server). elim m [ ok u ↦ u | fault f ↦ s ]) (sym run' ∙ run) in
      let table = work (hash_table_create memuncached_table_initial_size) in
      let (s', finished, closed) =
        finish-AllClosed s fd table (subst IsServer same h) starting (destroy-ok valid) in
      (
        ended s',
        main_run setup fd turns work s s' em es eo eb el run starting stopped finished,
        (s', refl, closed),
      )
