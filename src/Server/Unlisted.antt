-- ===== src/Server/Unlisted.antt =====
-- The end of the thread of a client that is in the vector.
use memuncached.Server.Listed.{IsServer, held}
use mathlib.Core.List.{
  Mem, Nodup-cons, mem-cons_of_mem, eq-or-mem_of_mem-cons, not-mem-nil, Mem-prop, Perm,
}
use mathlib.Core.List.Perm as Perm
use mathlib.Core.Logic.Or
use mathlib.Core.HLevel.{⊥_prop}
use memuncached.Connection.Leaving.{remove_client-Left}
use memuncached.Connection.{remove_client}
use memuncached.Prelude.{
  ℕ, zero, suc, ◌<◌, ◌≡◌, ◌≢◌, refl, subst, sym, ap, ◌∙◌, Bool, true, false, ◌&&◌, ◌⊎◌, inl, inr,
  Bool-cases, ==_iff, List, [], ◌∷◌, ◌++◌, Option, none, some, arith, get_elem?, set, ◌==◌, if_true,
  if_false,
}
use memuncached.Run.{ok, bind_ok, Returns}
use memuncached.Server.Heap.{
  is_live, fd_of, socket_of-live, free_client-live, is_live-set_ne, is_live-set_self,
}
use memuncached.Server.{gone, Server, close_client, end_thread}
use memuncached.Vector.Contents.{Holds}
use memuncached.Vector.{Slot, null, Vector}

-- The first place of a client in the list.
first_place :
    (ps : List ℕ) (p : ℕ)
    → ((j : ℕ) × (get_elem? ps j ≡ some p)
        × ((k x : ℕ) → k < j → get_elem? ps k ≡ some x → (x == p) ≡ false))
      ⊎ (¬ Mem p ps)
first_place [] p = inr not-mem-nil
first_place (q ∷ ps) p = elim (Bool-cases (q == p)) [
  | inl e ↦ inl (0, ap some ((==_iff q p).0 e), λ k x lt. absurd (omega arith))
  | inr e ↦ elim (first_place ps p) [
    | inl (j, there, no_earlier) ↦ inl (suc j, there, later q ps p j e no_earlier)
    | inr n ↦
        inr (λ m.
          Or.elim ⊥_prop (eq-or-mem_of_mem-cons m) (λ same. absurd (ground (arith, e, same))) n)
  ]
]
  where
    later :
        (q : ℕ) (ps : List ℕ) (p j : ℕ)
        → (q == p) ≡ false
        → ((k x : ℕ) → k < j → get_elem? ps k ≡ some x → (x == p) ≡ false)
        → (k x : ℕ) → k < suc j
        → get_elem? (q ∷ ps) k ≡ some x
        → (x == p) ≡ false
    later q ps p j e n zero x lt there =
        let same : q ≡ x = ap (λ o. elim o [ none ↦ q | some y ↦ y ]) there in
        subst (λ y. (y == p) ≡ false) same e
    later q ps p j e n (suc k) x lt there = n k x (omega arith) there

last_split : (q : ℕ) (ps : List ℕ) → (front : List ℕ) × (y : ℕ) × (q ∷ ps ≡ front ++ y ∷ [])
last_split q [] = ([], q, refl)
last_split q (r ∷ ps) = let (front, y, e) = last_split r ps in (q ∷ front, y, ap (λ l. q ∷ l) e)

split_at_last :
    (ps : List ℕ) (p : ℕ) → Mem p ps → (front : List ℕ) × (y : ℕ) × (ps ≡ front ++ y ∷ [])
split_at_last [] p m = absurd (not-mem-nil m)
split_at_last (q ∷ ps) p m = last_split q ps

held_perm :
    (o : Option ℕ) (p : ℕ) (ps' ps : List ℕ) → Perm (p ∷ ps') ps → Perm (p ∷ held o ps') (held o ps)
held_perm none p ps' ps h = h
held_perm (some q) p ps' ps h = Perm.trans (Perm.swap q p ps') (Perm.cons q h)

-- A client leaves the vector and its struct is released.
release_client :
    (s : Server) (p : ℕ) (h : IsServer s) (v : Vector ℕ) (ps' : List ℕ) (rest' : List (Slot ℕ))
    (closed : List ℕ)
    → Holds v ps' rest'
    → Perm (p ∷ ps') h.ps
    → IsServer (record s { clients = v; heap = set s.heap p gone; closed = closed })
release_client s p h v ps' rest' closed hv perm =
    let order = held_perm s.starting p ps' h.ps perm in
    let apart = Nodup-cons.0 (Perm.nodup (Perm.symm order) h.distinct) in
    let other : (q : ℕ) → Mem q (held s.starting ps') → p ≢ q =
      λ q m e. apart.0 (subst (λ x. Mem x (held s.starting ps')) (sym e) m) in
    record {
      ps = ps';
      rest = rest';
      clients = hv;
      distinct = apart.1;
      alive = λ q m.
          (is_live-set_ne s.heap p q (other q m)).0
          ∙ h.alive q (Perm.subset order q (mem-cons_of_mem p m));
      known = λ q l. stays q l order (Bool-cases (p == q));
    }
  where
    stays :
        (q : ℕ)
        → is_live (set s.heap p gone) q ≡ true
        → Perm (p ∷ held s.starting ps') (held s.starting h.ps)
        → (((p == q) ≡ true) ⊎ ((p == q) ≡ false))
        → Mem q (held s.starting ps')
    stays q l order (inl e) =
        let same : p ≡ q = (==_iff p q).0 e in
        absurd (
          ground (
            arith,
            is_live-set_self s.heap p,
            subst (λ x. is_live (set s.heap p gone) x ≡ true) (sym same) l,
          ))
    stays q l order (inr e) =
        let n : p ≢ q = λ same. absurd (ground (arith, e, same)) in
        Or.elim Mem-prop
          (eq-or-mem_of_mem-cons
            (Perm.subset (Perm.symm order) q (h.known q (sym (is_live-set_ne s.heap p q n).0 ∙ l))))
          (λ same. absurd (n (sym same))) (λ m. m)

leave_vector :
    (s : Server) (p : ℕ) (h : IsServer s)
    → Mem p h.ps
    → (v : Vector ℕ) × (ps' : List ℕ) × (rest' : List (Slot ℕ)) × (remove_client s.clients p ≡ ok v)
      × Holds v ps' rest'
      × Perm (p ∷ ps') h.ps
leave_vector s p h m = elim (first_place h.ps p) [
  | inr n ↦ absurd (n m)
  | inl (j, there, no_earlier) ↦
      let (front, y, e) = split_at_last h.ps p m in
      let holds : Holds s.clients (front ++ y ∷ []) h.rest =
        subst (λ l. Holds s.clients l h.rest) e h.clients in
      let (v, run, (held', perm)) =
        remove_client-Left s.clients front y h.rest holds p j
          (subst (λ l. get_elem? l j ≡ some p) e there)
          (subst (λ l. (k x : ℕ) → k < j → get_elem? l k ≡ some x → (x == p) ≡ false) e
            no_earlier) in
      (
        v,
        set front j y,
        null ∷ h.rest,
        run,
        held',
        subst (λ l. Perm (p ∷ set front j y) l) (sym e) perm,
      )
]

pub close_client-live :
    (s : Server) (p : ℕ)
    → is_live s.heap p ≡ true
    → close_client s p
      ≡ ok (record s { heap = set s.heap p gone; closed = s.closed ++ fd_of s.heap p ∷ [] })
unfolding close_client
close_client-live s p l =
    bind_ok _ (socket_of-live s.heap p l) ∙ bind_ok _ (free_client-live s.heap p l)

not_starting : (o : Option ℕ) (p : ℕ) (ps : List ℕ) → o ≢ some p → Mem p (held o ps) → Mem p ps
not_starting none p ps n m = m
not_starting (some q) p ps n m =
    Or.elim Mem-prop (eq-or-mem_of_mem-cons m) (λ same. absurd (n (ap some (sym same)))) (λ k. k)

pub end_thread-IsServer :
    (s : Server) (p : ℕ) (locked : Bool)
    → IsServer s
    → is_live s.heap p ≡ true
    → s.starting ≢ some p
    → Returns (end_thread s p locked) IsServer
unfolding end_thread
end_thread-IsServer s p locked h l n = elim (Bool-cases (s.is_running && locked)) [
  | inr stays ↦ (s, if_false _ _ stays, h)
  | inl leaves ↦
      let (v, ps', rest', run, hv, perm) =
        leave_vector s p h (not_starting s.starting p h.ps n (h.known p l)) in
      (
        record s {
          clients = v;
          heap = set s.heap p gone;
          closed = s.closed ++ fd_of s.heap p ∷ [];
        },
        if_true _ _ leaves ∙ bind_ok _ run ∙ close_client-live (record s { clients = v }) p l,
        release_client s p h v ps' rest' (s.closed ++ fd_of s.heap p ∷ []) hv perm,
      )
]
