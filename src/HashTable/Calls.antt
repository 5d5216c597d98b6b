-- ===== src/HashTable/Calls.antt =====
-- Sequences of calls of the table, as the code runs them and as a map from slots to cells would.
use memuncached.Double.{Double}
use memuncached.Fnv.{fnv1a}
use memuncached.HashTable.Invariant.{present, Fits}
use memuncached.HashTable.Shift.{answer, after}
use memuncached.HashTable.Write.{cell_of}
use memuncached.HashTable.{
  Value, CacheValue, HashTable, hash_table_set, hash_table_get, hash_table_del, hash_table_inc,
  hash_table_dec,
}
use memuncached.Prelude.{ℕ, ◌%◌, Bool, true, List, [], ◌∷◌, Option, none, some, ◌==◌, if◌then◌else◌}
use memuncached.Run.{Run, ok, ◌>>=◌}

module _ (R : Type 0) where
  pub data Call : Type 0 where
    set : List ℕ → ℕ → Value R → ℕ → Call
    get : List ℕ → Call
    del : List ℕ → Call
    inc : List ℕ → R → Call
    dec : List ℕ → R → Call

  pub data Reply : Type 0 where
    flag : Bool → Reply
    cell : Option (CacheValue R) → Reply

  -- The table as its callers may think of it.
  abbrev pub Store : Type 0
  Store = ℕ → Option (CacheValue R)

module _ {R : Type 0} ⦃d : Double R⦄ where
  unfoldable pub call : HashTable R → Call R → Run (Reply R × HashTable R)
  call t (set k type value size) = do (b, t') ← hash_table_set t k type value size; ok (flag b, t')
  call t (get k) = do c ← hash_table_get t k; ok (cell c, t)
  call t (del k) = do (b, t') ← hash_table_del t k; ok (flag b, t')
  call t (inc k x) = do (c, t') ← hash_table_inc t k x; ok (cell c, t')
  call t (dec k x) = do (c, t') ← hash_table_dec t k x; ok (cell c, t')

  unfoldable pub run : HashTable R → List (Call R) → Run (List (Reply R) × HashTable R)
  run t [] = ok ([], t)
  run t (c ∷ cs) = do (r, t') ← call t c; (rs, t'') ← run t' cs; ok (r ∷ rs, t'')

  abbrev pub put : Store R → ℕ → Option (CacheValue R) → Store R
  put f i c j = if i == j then c else f j

  -- A call on a map of `size` slots: a key stands for its slot, and nothing else of it is looked at.
  unfoldable pub spec_call : ℕ → Store R → Call R → Reply R × Store R
  spec_call size f (set k type value n) =
      (flag true, put f (fnv1a k % size) (some (cell_of k type value n)))
  spec_call size f (get k) = (cell (f (fnv1a k % size)), f)
  spec_call size f (del k) = (flag (present (f (fnv1a k % size)) == 1), put f (fnv1a k % size) none)
  spec_call size f (inc k x) =
      let i = fnv1a k % size in (cell (answer d.add (f i) x), put f i (after d.add (f i) x))
  spec_call size f (dec k x) =
      let i = fnv1a k % size in (cell (answer d.sub (f i) x), put f i (after d.sub (f i) x))

  unfoldable pub spec_run : ℕ → Store R → List (Call R) → List (Reply R)
  spec_run size f [] = []
  spec_run size f (c ∷ cs) = let (r, f') = spec_call size f c in r ∷ spec_run size f' cs

  abbrev pub CallFits : Call R → Type 0
  CallFits (set k type value size) = Fits type value size
  CallFits c = Unit

  abbrev pub AllFit : List (Call R) → Type 0
  AllFit [] = Unit
  AllFit (c ∷ cs) = CallFits c × AllFit cs
