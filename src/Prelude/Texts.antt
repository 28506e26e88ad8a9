-- ===== src/Prelude/Texts.antt =====
-- Texts joined by their characters, so that a literal on the left computes.
use Prim.Native.String.{String}

-- `a + b`, and the parts of an f-string
abbrev pub concat : String → String → String
concat String.[] t = t
concat (String.◌∷◌ c s) t = String.◌∷◌ c (concat s t)
