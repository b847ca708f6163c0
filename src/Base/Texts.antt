-- ===== src/Base/Texts.antt =====
-- Texts put together from their parts, as Python's f-strings do.
use Prim.Native.String.{String, ◌++◌}
use mathlib.Core.List.{List, [], ◌∷◌}

unfoldable pub concat : List String → String
concat [] = ""
concat (part ∷ parts) = part ++ concat parts
