-- ===== src/Prelude/Texts.antt =====
-- The parts of an f-string, one after the other.
use Prim.Native.String.{String, ◌++◌}
use mathlib.Core.List.{List, [], ◌∷◌}

abbrev pub joined : List String → String
joined [] = ""
joined (s ∷ ss) = s ++ joined ss
