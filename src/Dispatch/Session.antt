-- ===== src/Dispatch/Session.antt =====
-- Two lines of one connection: SET, then GET with the same key.
use memuncached.Commands.Replies.{bucket_text, get-reply}
use memuncached.Commands.Set.{Delivers, set-Stored, payload_bytes}
use memuncached.Commands.Store.{kept}
use memuncached.Commands.{World, reply}
use memuncached.Payload.{first}
use memuncached.Dispatch.Branches.{line, get-line, set-line}
use memuncached.Dispatch.Lines.{IsArgument}
use memuncached.Dispatch.{is_delimiter, handle_command}
use memuncached.Double.{Double}
use memuncached.HashTable.Invariant.{IsValid, bucket}
use memuncached.HashTable.Write.{Replaced-same}
use memuncached.Libc.{same_case}
use memuncached.Network.{sent}
use memuncached.Prelude.{
  ℕ, zero, suc, ◌+◌, ◌-◌, ◌^◌, ◌≤◌, ◌<◌, ◌≡◌, refl, ap, ◌∙◌, true, false, not, ◌||◌, List, [], ◌∷◌,
  ◌++◌, arith, codes, length, take, ◌==◌,
}
use memuncached.Protocol.{response_200_ok, response_write, value_write}
use memuncached.Run.{Returns, ◌>>=◌}
use memuncached.Utils.{is_decimal_string, isdigit, is_sign, decimal_from}

take-take : (n k : ℕ) (s : List ℕ) → n ≤ k → take n (take k s) ≡ take n s
take-take zero k s h = refl
take-take (suc n) zero s h = absurd (omega arith)
take-take (suc n) (suc k) [] h = refl
take-take (suc n) (suc k) (x ∷ s) h = ap (λ l. x ∷ l) (take-take n k s (omega arith))

module _ {R : Type 0} ⦃d : Double R⦄ where
  pub get-set_line :
      (fuel : ℕ) (w : World R) (set_name get_name key length' rest rest' : List ℕ) (n : ℕ)
      → IsValid w.table
      → IsArgument set_name
      → IsArgument get_name
      → IsArgument key
      → IsArgument length'
      → same_case set_name (codes "SET") ≡ true
      → same_case get_name (codes "GET") ≡ true
      → ((first length' == b'-') || not (is_decimal_string length')) ≡ false
      → Delivers fuel length' (0 ∷ rest) 0 n w.input
      → length (value_write 2 (take n (sent w.input))) < 2 ^ 31
      → Returns
          (handle_command fuel w (line set_name (key ∷ codes "2" ∷ length' ∷ []) rest) 0 >>= λ w'.
            handle_command fuel w' (line get_name (key ∷ []) rest') 0)
          λ w'.
            w'.out
            ≡ (w.out ++ response_write response_200_ok []) ++ value_write 2 (take n (sent w.input))
  unfolding is_decimal_string is_sign decimal_from isdigit
  get-set_line fuel w set_name get_name key length' rest rest' n v hs hg hk hl es eg good delivers
        short =
      let body : take n (payload_bytes (0 ∷ rest) 0 (n + 2 - 0) w.input) ≡ take n (sent w.input) =
        take-take n (n + 2 - 0) (sent w.input) (omega arith) in
      let digit : IsArgument (codes "2") = ((unfold is_delimiter in refl, tt), (omega arith, tt)) in
      let (w', run, (p, o, _)) =
        set-Stored fuel w key (codes "2") length' (0 ∷ rest) 0 n delivers v in
      let same : bucket w'.table key ≡ kept key 2 (take n (sent w.input)) =
        Replaced-same p ∙ ap (kept key 2) body in
      let got = get-reply w' key p.valid (rw same short) in
      (
        reply w' (bucket_text (bucket w'.table key)),
        rw
            (
              set-line fuel w set_name key rest 0 hs hk (codes "2") length' es digit hl refl good,
              run,
              get-line fuel w' get_name key rest' 0 hg hk eg,
            )
            got,
        rw (same, o),
      )
