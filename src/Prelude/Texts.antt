-- ===== src/Prelude/Texts.antt =====
-- Building texts: f-strings and `str.join`.
use Prim.Native.Nat.{◌+◌}
use Prim.Native.String.{String, ◌++◌, count}
use mathlib.Core.Path.{◌≡◌}
use mathlib.Core.List.{List, [], ◌∷◌}
use text.Mathlib.TextLemmas.{length-append}

-- An f-string, from its parts.
unfoldable pub concat : List String → String
concat [] = ""
concat (s ∷ []) = s
concat (s ∷ ss) = s ++ concat ss

-- sep.join(ss)
unfoldable pub join : String → List String → String
join sep [] = ""
join sep (s ∷ []) = s
join sep (s ∷ ss) = s ++ (sep ++ join sep ss)

unfoldable pub suffixed : String → String → String
suffixed s t = s ++ t

pub count-suffixed : (s t : String) → count (suffixed s t) ≡ count s + count t
unfolding suffixed
count-suffixed s t = length-append s t
