-- ===== src/Prelude/Text.antt =====
-- The bytes of a C string literal.
use Prim.Native.Char.{code}
use Prim.Native.String.{String}
use mathlib.Core.List.{List, [], ◌∷◌}
use btdht.Prelude.Bytes.{Byte}

abbrev pub bytes : String → List Byte
bytes String.[] = []
bytes (String.◌∷◌ c s) = code c ∷ bytes s
