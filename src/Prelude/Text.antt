-- ===== src/Prelude/Text.antt =====
-- C text as lists of bytes: what a quoted literal stands for, and the line end.
use Prim.Native.Char.{code}
use Prim.Native.String.{String}
use Prim.Native.Nat.{ℕ}
use mathlib.Core.List.{List, [], ◌∷◌}

-- The code points of a literal, which are its bytes where it is ASCII.
abbrev pub codes : String → List ℕ
codes String.[] = []
codes (String.◌∷◌ c s) = code c ∷ codes s

-- "\r\n"
abbrev pub crlf : List ℕ
crlf = 13 ∷ 10 ∷ []
