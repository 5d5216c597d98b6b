-- ===== src/Server/Listed.antt =====
-- The clients that `main` in server.c and the vector have; what an accepted and an inserted one change.
use mathlib.Core.List.{
  Mem, Nodup, Nodup-cons, mem-cons_self, mem-cons_of_mem, eq-or-mem_of_mem-cons, Perm,
}
use mathlib.Core.List.Perm as Perm
use mathlib.Core.Logic.Or
use mathlib.Core.Bool.{Bool-set}
use memuncached.Prelude.{
  ℕ, ◌^◌, ◌<◌, ◌≡◌, ◌≢◌, refl, subst, sym, ap, ◌∙◌, Bool, true, false, inl, inr, Bool-cases, ==_iff,
  List, [], ◌∷◌, ◌++◌, Option, none, some, arith, length, ◌==◌,
}
use memuncached.Run.{bind_ok, Returns}
use memuncached.Server.Heap.{
  is_live, is_live-lt, is_live-append, is_live-new, is_live-gone, is_live-old,
}
use memuncached.Server.{
  live, gone, Server, Turn, accepting, inserting, ending, handle_sigint, accept_client,
  insert_client,
}
use memuncached.Vector.Contents.{Holds}
use memuncached.Vector.Insert.{insert-Holds}
use memuncached.Vector.{Slot}

-- The clients that `main` and the vector have.
abbrev pub held : Option ℕ → List ℕ → List ℕ
held none ps = ps
held (some p) ps = p ∷ ps

-- The vector holds clients; with the one that is not inserted yet, they are the live ones, each once.
pub record IsServer (s : Server) : Type 0 where
  pub ps : List ℕ
  pub rest : List (Slot ℕ)
  pub clients : Holds s.clients ps rest
  pub distinct : Nodup (held s.starting ps)
  pub alive : (p : ℕ) → Mem p (held s.starting ps) → is_live s.heap p ≡ true
  pub known : (p : ℕ) → is_live s.heap p ≡ true → Mem p (held s.starting ps)

-- What the turns need: memory for the vector, and for the end of a thread that it is the thread of a
-- client that has been inserted and has not left.
abbrev pub Permitted : Turn → Server → Type 0
Permitted (accepting sigint accepted spawned) s = Unit
Permitted (inserting enough) s = (enough ≡ true) × (s.clients.size < 2 ^ 60)
Permitted (ending p locked) s = (is_live s.heap p ≡ true) × (s.starting ≢ some p)

-- A struct that is not live is added.
add_gone :
    (s t : Server)
    → IsServer s
    → t.clients ≡ s.clients
    → t.starting ≡ s.starting
    → t.heap ≡ s.heap ++ gone ∷ []
    → IsServer t
add_gone s t h ec es eh = record {
  ps = h.ps;
  rest = h.rest;
  clients = subst (λ v. Holds v h.ps h.rest) (sym ec) h.clients;
  distinct = subst (λ o. Nodup (held o h.ps)) (sym es) h.distinct;
  alive = λ p m.
      let m' = subst (λ o. Mem p (held o h.ps)) es m in
      ap (λ k. is_live k p) eh
      ∙ is_live-append s.heap gone p (is_live-lt s.heap p (h.alive p m'))
      ∙ h.alive p m';
  known = λ p l.
      subst (λ o. Mem p (held o h.ps)) (sym es)
        (h.known p (is_live-gone s.heap p (sym (ap (λ k. is_live k p) eh) ∙ l)));
}

-- A live struct is added.
module _ (s t : Server) (fd : ℕ) (h : IsServer s) (before : s.starting ≡ none)
    (ec : t.clients ≡ s.clients) (es : t.starting ≡ some (length s.heap))
    (eh : t.heap ≡ s.heap ++ live fd ∷ []) where
  old_alive : (p : ℕ) → Mem p h.ps → is_live s.heap p ≡ true
  old_alive p m = h.alive p (subst (λ o. Mem p (held o h.ps)) (sym before) m)

  new_alive : (p : ℕ) → Mem p (length s.heap ∷ h.ps) → is_live (s.heap ++ live fd ∷ []) p ≡ true
  new_alive p m =
      Or.elim (Bool-set _ _) (eq-or-mem_of_mem-cons m) (λ same. is_live-new s.heap fd p same)
        (λ there.
          is_live-append s.heap (live fd) p (is_live-lt s.heap p (old_alive p there))
          ∙ old_alive p there)

  new_known : (p : ℕ) → is_live (s.heap ++ live fd ∷ []) p ≡ true → Mem p (length s.heap ∷ h.ps)
  new_known p l = elim (Bool-cases (p == length s.heap)) [
    | inl e ↦ subst (λ x. Mem p (x ∷ h.ps)) ((==_iff p (length s.heap)).0 e) mem-cons_self
    | inr e ↦
        let other : p ≢ length s.heap = λ same. absurd (ground (arith, e, same)) in
        mem-cons_of_mem (length s.heap)
          (subst (λ o. Mem p (held o h.ps)) before (h.known p (is_live-old s.heap fd p other l)))
  ]

  add_live : IsServer t
  add_live =
      let n = length s.heap in
      let new : ¬ Mem n h.ps =
        λ m. let lt = is_live-lt s.heap n (old_alive n m) in absurd (omega arith) in
      let others : Nodup h.ps = subst (λ o. Nodup (held o h.ps)) before h.distinct in
      record {
        ps = h.ps;
        rest = h.rest;
        clients = subst (λ v. Holds v h.ps h.rest) (sym ec) h.clients;
        distinct = subst (λ o. Nodup (held o h.ps)) (sym es) (Nodup-cons.1 (new, others));
        alive =
            λ p m. ap (λ k. is_live k p) eh ∙ new_alive p (subst (λ o. Mem p (held o h.ps)) es m);
        known = λ p l.
            subst (λ o. Mem p (held o h.ps)) (sym es)
              (new_known p (sym (ap (λ k. is_live k p) eh) ∙ l));
      }

pub accept_client-IsServer :
    (s : Server) (sigint spawned : Bool) (accepted : Option ℕ)
    → IsServer s
    → s.starting ≡ none
    → IsServer (accept_client s sigint accepted spawned)
unfolding accept_client handle_sigint
accept_client-IsServer s true spawned none h e = add_gone s _ h refl refl refl
accept_client-IsServer s false spawned none h e = add_gone s _ h refl refl refl
accept_client-IsServer s true true (some fd) h e = add_live s _ fd h e refl refl refl
accept_client-IsServer s false true (some fd) h e = add_live s _ fd h e refl refl refl
accept_client-IsServer s true false (some fd) h e = add_gone s _ h refl refl refl
accept_client-IsServer s false false (some fd) h e = add_gone s _ h refl refl refl

-- A list with an element behind it.
pub behind : (p : ℕ) (ps : List ℕ) → Perm (p ∷ ps) (ps ++ p ∷ [])
behind p [] = Perm.refl (p ∷ [])
behind p (q ∷ ps) = Perm.trans (Perm.swap q p ps) (Perm.cons q (behind p ps))

pub insert_client-IsServer :
    (s : Server) (p : ℕ)
    → IsServer s
    → s.starting ≡ some p
    → s.clients.size < 2 ^ 60
    → Returns (insert_client s p true) IsServer
unfolding insert_client
insert_client-IsServer s p h e small =
    let (r, run, (stored, (rest, held'))) = insert-Holds h.rest p h.clients small in
    let order : Perm (p ∷ h.ps) (h.ps ++ p ∷ []) = behind p h.ps in
    (
      record s { clients = r.1; starting = none },
      bind_ok _ run,
      record {
        ps = h.ps ++ p ∷ [];
        rest = rest;
        clients = held';
        distinct = Perm.nodup order (subst (λ o. Nodup (held o h.ps)) e h.distinct);
        alive = λ q m.
            h.alive q
              (subst (λ o. Mem q (held o h.ps)) (sym e) (Perm.subset (Perm.symm order) q m));
        known = λ q l. Perm.subset order q (subst (λ o. Mem q (held o h.ps)) e (h.known q l));
      },
    )
