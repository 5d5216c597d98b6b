-- ===== src/Commands/Replies.antt =====
-- GET and DEL: what the table holds afterwards and what is answered.
use memuncached.Commands.{World, reply, cell_reply, memuncached_get, memuncached_del}
use memuncached.Double.{Double}
use memuncached.HashTable.Invariant.{Matches, CellIsValid, IsValid, bucket, slot, get-bucket}
use memuncached.HashTable.Write.{Replaced, del-Replaced}
use memuncached.HashTable.{
  Value, null, gone, decimal, real, string, load_decimal, load_real, load_bytes, CacheValue,
}
use memuncached.Libc.{print_decimal}
use memuncached.Prelude.{
  ℕ, ◌^◌, ◌<◌, ◌≡◌, refl, true, false, List, [], ◌++◌, Option, none, some, arith, length, take,
  take_all, append-nil, ltb, lt→ltb,
}
use memuncached.Protocol.{response_404_not_found, response_write, value_write}
use memuncached.Run.{ok, Returns}

take_length : {A : Type 0} (s : List A) → take (length s) s ≡ s
take_length s = rw (append-nil s) at (take_all s [] (length s) refl)

module _ {R : Type 0} ⦃d : Double R⦄ where
  -- The text for a value of a valid cell.
  abbrev value_text : Value R → List ℕ
  value_text (decimal z) = value_write 0 (print_decimal z)
  value_text (real x) = value_write 1 (d.print x)
  value_text (string s) = value_write 2 s
  value_text v = []

  -- What GET answers for a bucket.
  abbrev pub bucket_text : Option (CacheValue R) → List ℕ
  bucket_text none = response_write response_404_not_found []
  bucket_text (some c) = value_text c.value

  -- The reply's length fits an `int`, which only a string's is counted in.
  abbrev pub ValueIsShort : Value R → Type 0
  ValueIsShort (string s) = length (value_write 2 s) < 2 ^ 31
  ValueIsShort v = Unit

  abbrev pub IsShort : Option (CacheValue R) → Type 0
  IsShort none = Unit
  IsShort (some c) = ValueIsShort c.value

  value_reply :
      (k : List ℕ) (type : ℕ) (v : Value R) (n : ℕ)
      → Matches type v n
      → ValueIsShort v
      → cell_reply (some (record { key = k; type = type; value = v; length = n }))
        ≡ ok (value_text v)
  unfolding cell_reply load_decimal load_real load_bytes
  value_reply k type null n m h = absurd m
  value_reply k type gone n m h = absurd m
  value_reply k type (decimal z) n m h = rw m
  value_reply k type (real x) n m h = rw m
  value_reply k type (string s) n m h =
      let small : ltb (length (value_write 2 s)) (2 ^ 31) ≡ true = lt→ltb _ _ h in
      let whole : ltb (length s) (length s) ≡ false = ground arith in
      rw (m.0, ← m.1, whole, take_length s, small)

  -- The reply of a valid bucket.
  bucket_reply :
      (c : Option (CacheValue R)) → CellIsValid c → IsShort c → cell_reply c ≡ ok (bucket_text c)
  unfolding cell_reply
  bucket_reply none m h = refl
  bucket_reply (some c) m h = value_reply c.key c.type c.value c.length m h

  -- On a valid table, unless the bucket of the key holds a string whose reply is longer than an int
  -- counts, memuncached_get changes nothing and writes the 404 reply for an empty bucket and the
  -- value reply of its number or string otherwise.
  pub get-reply :
      (w : World R) (key : List ℕ)
      → IsValid w.table
      → IsShort (bucket w.table key)
      → memuncached_get w key ≡ ok (reply w (bucket_text (bucket w.table key)))
  unfolding memuncached_get slot
  get-reply w key v h =
      rw (get-bucket key v, bucket_reply (bucket w.table key) (v.cells (slot w.table key)) h)

  -- On a valid table, unless the bucket of the key holds a string whose reply is longer than an int
  -- counts, memuncached_del writes what memuncached_get does, empties the bucket, and changes no
  -- other.
  pub del-reply :
      (w : World R) (key : List ℕ)
      → IsValid w.table
      → IsShort (bucket w.table key)
      → Returns (memuncached_del w key) λ w'.
        Replaced w.table key none w'.table
        × (w'.out ≡ w.out ++ bucket_text (bucket w.table key))
        × (w'.input ≡ w.input)
  unfolding memuncached_del
  del-reply w key v h =
      let (r, run, (_, p)) = del-Replaced {t = w.table} key v in
      (
        record (reply w (bucket_text (bucket w.table key))) { table = r.1 },
        rw (get-reply w key v h, run),
        (p, refl, refl),
      )
