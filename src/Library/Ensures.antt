-- ===== src/Library/Ensures.antt =====
-- Runs of `memuncached_recv` of which only the good ends matter.
use memuncached.Library.{Realloc, no_memory, in_place, moved}
use memuncached.Prelude.{◌≡◌, refl, subst, ap, Bool, true, false, Option, none, some, if◌then◌else◌}
use memuncached.Run.{Fault, Run, ok, fault, ◌>>=◌}

-- If the run ends well, it is with a value of which `P` holds.
pub record Ensures {A : Type 0} (m : Run A) (P : A → Type 0) : Type 0 where
  pub holds : (a : A) → m ≡ ok a → P a

module _ {A : Type 0} {P : A → Type 0} where
  pub ensures_ok : (a : A) → P a → Ensures (ok a) P
  ensures_ok a h = record {
    holds = λ b e. subst P (ap (λ r. elim r [ ok x ↦ x | fault f ↦ a ]) e) h;
  }

  pub ensures_bind :
      {B : Type 0} (m : Run B) {k : B → Run A}
      → ((b : B) → m ≡ ok b → Ensures (k b) P)
      → Ensures (m >>= k) P
  ensures_bind (ok b) h = h b refl
  ensures_bind (fault f) h = record { holds = λ a e. absurd cc }

  pub ensures_if :
      (b : Bool) {m m' : Run A}
      → (b ≡ true → Ensures m P)
      → (b ≡ false → Ensures m' P)
      → Ensures (if b then m else m') P
  ensures_if true h h' = h refl
  ensures_if false h h' = h' refl

  pub ensures_option :
      {B : Type 0} (o : Option B) {m : Run A} {k : B → Run A}
      → Ensures m P
      → ((b : B) → Ensures (k b) P)
      → Ensures (elim o [ none ↦ m | some b ↦ k b ]) P
  ensures_option none h h' = h
  ensures_option (some b) h h' = h' b

  pub ensures_realloc :
      (r : Realloc) {a b c : Run A}
      → Ensures a P
      → Ensures b P
      → Ensures c P
      → Ensures (elim r [ no_memory ↦ a | in_place ↦ b | moved ↦ c ]) P
  ensures_realloc no_memory h h' h'' = h
  ensures_realloc in_place h h' h'' = h'
  ensures_realloc moved h h' h'' = h''

  pub ensures_bool :
      (b : Bool) {m m' : Run A}
      → Ensures m P
      → Ensures m' P
      → Ensures (elim b [ true ↦ m | false ↦ m' ]) P
  ensures_bool true h h' = h
  ensures_bool false h h' = h'

pub faulted : {A : Type 0} {P : A → Type 0} (f : Fault) → Ensures (fault f) P
faulted f = record { holds = λ a e. absurd cc }
