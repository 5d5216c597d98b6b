-- ===== src/Server/Closing.antt =====
-- The loop at the end of `main` in server.c that closes the clients.
use mathlib.Core.List.{Mem, Nodup, Nodup-cons, mem-cons_self, mem-cons_of_mem}
use memuncached.Prelude.{
  ℕ, ◌≡◌, ◌≢◌, refl, subst, sym, ap, ◌∙◌, true, List, [], ◌∷◌, ◌++◌, append_assoc, append-nil, some,
  arith, length, length-append, get_elem?, set, map,
}
use memuncached.Run.{bind_ok, Returns}
use memuncached.Server.Heap.{is_live, fd_of, socket_of-live, free_client-live, is_live-set_ne}
use memuncached.Server.{Struct, gone, Server, shut_clients}
use memuncached.Vector.Contents.{Holds, at-Holds}
use memuncached.Vector.Remove.{remove-Holds}
use memuncached.Vector.{Slot, null}

-- A list from its last element to its first.
abbrev pub reversed : List ℕ → List ℕ
reversed [] = []
reversed (p ∷ ps) = reversed ps ++ p ∷ []

pub length-reversed : (ps : List ℕ) → length (reversed ps) ≡ length ps
length-reversed [] = refl
length-reversed (p ∷ ps) = omega (arith, length-append (reversed ps) (p ∷ []), length-reversed ps)

pub get_elem?-last : (ps : List ℕ) (p : ℕ) → get_elem? (ps ++ p ∷ []) (length ps) ≡ some p
get_elem?-last [] p = refl
get_elem?-last (q ∷ ps) p = get_elem?-last ps p

set_past : (ps : List ℕ) (p : ℕ) → set ps (length ps) p ≡ ps
set_past [] p = refl
set_past (q ∷ ps) p = ap (λ l. q ∷ l) (set_past ps p)

-- The heap when the structs have been released.
abbrev pub freed : List Struct → List ℕ → List Struct
freed heap [] = heap
freed heap (p ∷ ps) = freed (set heap p gone) ps

-- The structs are live, and each pointer stands once.
pub record Owns (heap : List Struct) (ps : List ℕ) : Type 0 where
  pub distinct : Nodup ps
  pub alive : (p : ℕ) → Mem p ps → is_live heap p ≡ true

not_first : {p q : ℕ} {ps : List ℕ} → Nodup (p ∷ ps) → Mem q ps → p ≢ q
not_first {p} {q} {ps} n m e = (Nodup-cons.0 n).0 (subst (λ x. Mem x ps) (sym e) m)

pub Owns-rest :
    {heap : List Struct} {p : ℕ} {ps : List ℕ} → Owns heap (p ∷ ps) → Owns (set heap p gone) ps
Owns-rest {heap} {p} {ps} h = record {
  distinct = (Nodup-cons.0 h.distinct).1;
  alive =
      λ q m. (is_live-set_ne heap p q (not_first h.distinct m)).0 ∙ h.alive q (mem-cons_of_mem p m);
}

fds-rest :
    (heap : List Struct) (p : ℕ) (ps : List ℕ)
    → ((q : ℕ) → Mem q ps → p ≢ q)
    → map (fd_of (set heap p gone)) ps ≡ map (fd_of heap) ps
fds-rest heap p [] n = refl
fds-rest heap p (q ∷ ps) n =
    let here = (is_live-set_ne heap p q (n q mem-cons_self)).1 in
    let there = fds-rest heap p ps (λ x m. n x (mem-cons_of_mem q m)) in rw (here, there) refl

-- All clients are closed, the last of the vector first, and their structs released.
pub record Shut (s : Server) (ps : List ℕ) (s' : Server) : Type 0 where
  pub rest : List (Slot ℕ)
  pub empty : Holds s'.clients [] rest
  pub closed : s'.closed ≡ s.closed ++ map (fd_of s.heap) ps
  pub heap : s'.heap ≡ freed s.heap ps

pub shut_clients-Shut :
    (ps : List ℕ) (s : Server) (rest : List (Slot ℕ))
    → Holds s.clients (reversed ps) rest
    → Owns s.heap ps
    → Returns (shut_clients (length ps) s) (Shut s ps)
unfolding shut_clients
shut_clients-Shut [] s rest h o =
    (s, refl, record { rest = rest; empty = h; closed = sym (append-nil s.closed); heap = refl })
shut_clients-Shut (p ∷ ps) s rest h o =
    let n = length-reversed ps in
    let last : get_elem? (reversed ps ++ p ∷ []) (length ps) ≡ some p =
      ap (get_elem? (reversed ps ++ p ∷ [])) (sym n) ∙ get_elem?-last (reversed ps) p in
    let (r, removed, (same, held, perm)) = remove-Holds (reversed ps) p rest h (length ps) p last in
    let kept : set (reversed ps) (length ps) p ≡ reversed ps =
      ap (λ k. set (reversed ps) k p) (sym n) ∙ set_past (reversed ps) p in
    let here = o.alive p mem-cons_self in
    let t : Server = record s {
      clients = r.1;
      heap = set s.heap p gone;
      closed = s.closed ++ fd_of s.heap p ∷ [];
    } in
    let (s', run, q) = shut_clients-Shut ps t (null ∷ rest) (rw kept at held) (Owns-rest o) in
    let fds = fds-rest s.heap p ps (λ x m. not_first o.distinct m) in
    (
      s',
      bind_ok _ (at-Holds (length ps) p h last)
          ∙ bind_ok _ (socket_of-live s.heap p here)
          ∙ bind_ok _ removed
          ∙ bind_ok _ (free_client-live s.heap p here)
          ∙ run,
      record {
        rest = q.rest;
        empty = q.empty;
        closed =
            q.closed
            ∙ append_assoc s.closed (fd_of s.heap p ∷ []) (map (fd_of (set s.heap p gone)) ps)
            ∙ ap (λ l. s.closed ++ fd_of s.heap p ∷ l) fds;
        heap = q.heap;
      },
    )
