-- ===== src/Common/Codes.antt =====
-- String literals as lists of bytes.
use Prim.Native.Char.{code}
use Prim.Native.String.{String}
use libsvr.Common.{ℕ, List, [], ◌∷◌}

abbrev pub codes : String → List ℕ
codes String.[] = []
codes (String.◌∷◌ c s) = code c ∷ codes s
