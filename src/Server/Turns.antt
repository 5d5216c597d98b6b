-- ===== src/Server/Turns.antt =====
-- About the loop of `main` in server.c, with the ends of the threads between its turns.
use memuncached.Server.Unlisted.{end_thread-IsServer}
use memuncached.Server.Listed.{IsServer, Permitted, accept_client-IsServer, insert_client-IsServer}
use memuncached.Prelude.{
  ◌≡◌, refl, subst, sym, ap, ◌∙◌, inl, inr, Bool-cases, List, [], ◌∷◌, none, some, if_true,
  if_false, if◌then◌else◌, Option-cases, if◌then◌else◌, Option-cases,
}
use memuncached.Run.{Run, ok, fault, bind_ok, Returns}
use memuncached.Server.{
  Server, Turn, accepting, inserting, ending, accept_client, insert_client, take_turn, take_turns,
}

-- The turns of a list are all permitted, each where it is taken.
abbrev pub AllPermitted : List Turn → Server → Type 0
AllPermitted [] s = Unit
AllPermitted (t ∷ turns) s =
    Permitted t s × ((s' : Server) → take_turn t s ≡ ok s' → AllPermitted turns s')

-- A turn that is taken leads to the next list of turns.
pub permit :
    (t : Turn) (turns : List Turn) (s s' : Server)
    → Permitted t s
    → take_turn t s ≡ ok s'
    → AllPermitted turns s'
    → AllPermitted (t ∷ turns) s
permit t turns s s' allowed run later = (
  allowed,
  λ u e.
      subst (AllPermitted turns)
        (ap (λ (m : Run Server). elim m [ ok v ↦ v | fault f ↦ s' ]) (sym run ∙ e)) later,
)

pub take_turn-IsServer :
    (t : Turn) (s : Server) → Permitted t s → IsServer s → Returns (take_turn t s) IsServer
unfolding take_turn
take_turn-IsServer (ending p locked) s allowed h =
    end_thread-IsServer s p locked h allowed.0 allowed.1
take_turn-IsServer (inserting enough) s allowed h = elim (Option-cases s.starting) [
  | inl e ↦ (s, rw e refl, h)
  | inr (p, e) ↦
      let (s', run, h') = insert_client-IsServer s p h e allowed.1 in
      (
        s',
        ap (λ o. elim o [ none ↦ ok s | some q ↦ insert_client s q enough ]) e
            ∙ ap (insert_client s p) allowed.0
            ∙ run,
        h',
      )
]
take_turn-IsServer (accepting sigint accepted spawned) s allowed h =
    elim (Option-cases s.starting) [
      | inr (p, e) ↦ (s, rw e refl, h)
      | inl e ↦ elim (Bool-cases s.is_running) [
        | inl running ↦ (
          accept_client s sigint accepted spawned,
          ap
                (λ o. elim o [
                  | none ↦ ok (if s.is_running then accept_client s sigint accepted spawned else s)
                  | some q ↦ ok s
                ])
                e
              ∙ ap ok (if_true _ _ running),
          accept_client-IsServer s sigint spawned accepted h e,
        )
        | inr stopped ↦ (
          s,
          ap
                (λ o. elim o [
                  | none ↦ ok (if s.is_running then accept_client s sigint accepted spawned else s)
                  | some q ↦ ok s
                ])
                e
              ∙ ap ok (if_false _ _ stopped),
          h,
        )
      ]
    ]

pub take_turns-IsServer :
    (turns : List Turn) (s : Server)
    → AllPermitted turns s
    → IsServer s
    → Returns (take_turns turns s) IsServer
unfolding take_turns
take_turns-IsServer [] s allowed h = (s, refl, h)
take_turns-IsServer (t ∷ turns) s allowed h =
    let (s', run, h') = take_turn-IsServer t s allowed.0 h in
    let (s'', run', h'') = take_turns-IsServer turns s' (allowed.1 s' run) h' in
    (s'', bind_ok _ run ∙ run', h'')
