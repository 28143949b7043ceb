-- ===== src/Prelude/Text.antt =====
-- Texts character by character.
use Prim.Native.Char.{Char}
use Prim.Native.String.{String}

-- The text of one character.
abbrev pub chr : Char → String
chr c = String.◌∷◌ c String.[]

-- `s + t`
unfoldable pub append : String → String → String
append String.[] t = t
append (String.◌∷◌ c s) t = String.◌∷◌ c (append s t)
