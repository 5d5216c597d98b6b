-- ===== src/Commands/Store.antt =====
-- SET and ADD: what the table holds and what is answered once the payload is there.
use memuncached.Commands.{World, reply, succeed, store_payload, replace_value}
use memuncached.Payload.{c_string, first}
use memuncached.Double.{Double}
use memuncached.HashTable.Invariant.{IsValid, bucket}
use memuncached.HashTable.Write.{
  Replaced, Replaced-same, Replaced-trans, Replaced-refl, set-Replaced, del-Replaced,
}
use memuncached.HashTable.{decimal, real, string, CacheValue, HashTable}
use memuncached.Libc.{atoll}
use memuncached.Memory.{put, put-append}
use memuncached.Prelude.{
  ℕ, ◌+◌, ◌-◌, ◌%◌, ◌≡◌, refl, false, List, [], ◌∷◌, ◌++◌, Option, none, some, arith, codes, length,
  length-append, take_all, append_assoc, ltb, ◌==◌, ==_iff, Bool-cases, inl, inr, if◌then◌else◌,
}
use memuncached.Protocol.{response_200_ok, response_400_bad_request, response_write}
use memuncached.Run.{ok, Returns}

-- A text up to its first zero.
abbrev pub before_nul : List ℕ → List ℕ
before_nul [] = []
before_nul (c ∷ s) = if c == 0 then [] else c ∷ before_nul s

pub c_string-before_nul : (s rest : List ℕ) → c_string (s ++ 0 ∷ rest) ≡ ok (before_nul s)
unfolding c_string
c_string-before_nul [] rest = refl
c_string-before_nul (c ∷ s) rest = elim (Bool-cases (c == 0)) [
  | inl end ↦ rw end
  | inr more ↦ rw (more, c_string-before_nul s rest)
]

-- `*type - '0'` as an `unsigned char`
abbrev pub type_of : List ℕ → ℕ
type_of type = (first type + 256 - b'0') % 256

-- What SET answers.
abbrev pub set_text : ℕ → List ℕ
set_text v_type =
    if ltb v_type 3
    then response_write response_200_ok []
    else response_write response_400_bad_request (codes "The argument LENGTH must be 0, 1, or 2.")

second_zero :
    (body : List ℕ) (b : ℕ) → put (body ++ 0 ∷ b ∷ []) (length body + 1) 0 ≡ ok (body ++ 0 ∷ 0 ∷ [])
second_zero body b =
    rw (← append_assoc body (0 ∷ []) (b ∷ []), ← append_assoc body (0 ∷ []) (0 ∷ []))
      (put-append (body ++ 0 ∷ []) (length body + 1) b 0 []
        (omega (arith, length-append body (0 ∷ []))))

module _ {R : Type 0} ⦃d : Double R⦄ where
  -- The cell that SET makes of a payload, if its type is one of the three.
  abbrev pub kept : List ℕ → ℕ → List ℕ → Option (CacheValue R)
  kept key v_type body =
      if v_type == 0
      then some
          (record { key = key; type = 0; value = decimal (atoll (before_nul body)); length = 0 })
      else if v_type == 1
      then some
          (record { key = key; type = 1; value = real (d.parse (before_nul body)); length = 0 })
      else if v_type == 2
      then some (record { key = key; type = 2; value = string body; length = length body })
      else none

  -- `w'` is `w` with `c` in the bucket of `key`, and with `text` written.
  pub record Answered (w : World R) (key : List ℕ) (c : Option (CacheValue R)) (text : List ℕ)
      (w' : World R) : Type 0 where
    pub table : Replaced w.table key c w'.table
    pub out : w'.out ≡ w.out ++ text
    pub input : w'.input ≡ w.input
    pub clients : w'.clients ≡ w.clients
    pub running : w'.is_thread_running ≡ w.is_thread_running

  -- A change of the table alone, and a reply.
  changed-Answered :
      (w : World R) (key : List ℕ) (c : Option (CacheValue R)) (text : List ℕ) (t : HashTable R)
      → Replaced w.table key c t
      → Answered w key c text (reply (record w { table = t }) text)
  changed-Answered w key c text t p = record {
    table = p;
    out = refl;
    input = refl;
    clients = refl;
    running = refl;
  }

  module _ (w : World R) (key type body : List ℕ) (v : IsValid w.table) where
    abbrev Stores : Type 0
    Stores =
        Returns (store_payload w key type (body ++ 0 ∷ 0 ∷ []) (length body))
          λ w'. Answered w key (kept key (type_of type) body) (set_text (type_of type)) w'

    store_decimal : type_of type ≡ 0 → Stores
    unfolding store_payload
    store_decimal e =
        let (r, run, (b, p)) =
          set-Replaced {t = w.table} key 0 (decimal (atoll (before_nul body))) 0 v refl in
        (
          succeed (record w { table = r.1 }) [],
          rw (e, c_string-before_nul body (0 ∷ []), run),
          rw e (changed-Answered w key _ _ r.1 p),
        )

    store_real : type_of type ≡ 1 → Stores
    unfolding store_payload
    store_real e =
        let (r, run, (b, p)) =
          set-Replaced {t = w.table} key 1 (real (d.parse (before_nul body))) 0 v refl in
        (
          succeed (record w { table = r.1 }) [],
          rw (e, c_string-before_nul body (0 ∷ []), run),
          rw e (changed-Answered w key _ _ r.1 p),
        )

    store_string : type_of type ≡ 2 → Stores
    unfolding store_payload
    store_string e =
        let whole = body ++ 0 ∷ 0 ∷ [] in
        let (r, run, (b, p)) =
          set-Replaced {t = w.table} key 2 (string whole) (length body) v
            (refl, omega (arith, length-append body (0 ∷ 0 ∷ []))) in
        (
          succeed (record w { table = r.1 }) [],
          rw (e, run),
          rw e (
              changed-Answered w key _ _ r.1
                (rw (take_all body (0 ∷ 0 ∷ []) (length body) refl) at p)),
        )

    store_other :
        bucket w.table key ≡ none
        → (type_of type == 0) ≡ false
        → (type_of type == 1) ≡ false
        → (type_of type == 2) ≡ false
        → Stores
    unfolding store_payload
    store_other empty n0 n1 n2 =
        let big : ltb (type_of type) 3 ≡ false = ground arith in
        (
          reply w (
              response_write response_400_bad_request
                (codes "The argument LENGTH must be 0, 1, or 2.")),
          rw (n0, n1, n2),
          rw (n0, n1, n2, big)
              (changed-Answered w key none _ w.table (Replaced-refl w.table key v empty)),
        )

    store_payload-Answered : bucket w.table key ≡ none → Stores
    store_payload-Answered empty = elim (Bool-cases (type_of type == 0)) [
      | inl t0 ↦ store_decimal ((==_iff _ _).0 t0)
      | inr n0 ↦ elim (Bool-cases (type_of type == 1)) [
        | inl t1 ↦ store_real ((==_iff _ _).0 t1)
        | inr n1 ↦ elim (Bool-cases (type_of type == 2)) [
          | inl t2 ↦ store_string ((==_iff _ _).0 t2)
          | inr n2 ↦ store_other empty n0 n1 n2
        ]
      ]
    ]

  -- The old cell goes, the two bytes behind the payload become zero, and the cell for it is made.
  pub replace_value-Answered :
      (w : World R) (key type body : List ℕ) (a b : ℕ)
      → IsValid w.table
      → Returns
          (replace_value w key type (body ++ a ∷ b ∷ []))
          λ w'. Answered w key (kept key (type_of type) body) (set_text (type_of type)) w'
  unfolding replace_value
  replace_value-Answered w key type body a b v =
      let (r, run, (_, p)) = del-Replaced {t = w.table} key v in
      let (w', run', q) =
        store_payload-Answered (record w { table = r.1 }) key type body p.valid (Replaced-same p) in
      let n = length-append body (a ∷ b ∷ []) in
      let at_end : length (body ++ a ∷ b ∷ []) - 2 ≡ length body = omega (arith, n) in
      let long : ltb (length (body ++ a ∷ b ∷ [])) 2 ≡ false = ground (arith, n) in
      (
        w',
        rw (run, long, at_end, put-append body (length body) a 0 (b ∷ []) refl, second_zero body b)
            run',
        record {
          table = Replaced-trans p q.table;
          out = q.out;
          input = q.input;
          clients = q.clients;
          running = q.running;
        },
      )
