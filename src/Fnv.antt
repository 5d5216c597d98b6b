-- ===== src/Fnv.antt =====
-- fnv.c: the 64-bit FNV-1a hash of a C string, here the list of its bytes before the terminator.
pub mod Reference
use Prim.Native.Nat.{bit_xor}
use memuncached.Prelude.{ℕ, ◌+◌, ◌-◌, ◌*◌, ◌%◌, ◌^◌, List, [], ◌∷◌, ltb, if◌then◌else◌}

abbrev pub fnv_prime_64 : ℕ
fnv_prime_64 = 1099511628211

abbrev pub fnv_offset_64 : ℕ
fnv_offset_64 = 14695981039346656037

-- `char` is signed, so `*cptr` is extended by its sign when it meets the `uint64_t`.
unfoldable pub widen : ℕ → ℕ
widen c = if ltb c 128 then c else c + (2 ^ 64 - 256)

-- One round of the loop.
unfoldable pub mix : ℕ → ℕ → ℕ
unfolding widen
mix hash c = (bit_xor hash (widen c) * fnv_prime_64) % 2 ^ 64

-- The loop, from the hash of what it has passed.
unfoldable pub fnv1a_from : ℕ → List ℕ → ℕ
unfolding mix
fnv1a_from hash [] = hash
fnv1a_from hash (c ∷ s) = fnv1a_from (mix hash c) s

unfoldable pub fnv1a : List ℕ → ℕ
unfolding fnv1a_from
fnv1a string = fnv1a_from fnv_offset_64 string
