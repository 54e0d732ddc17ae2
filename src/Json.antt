-- ===== src/Json.antt =====
-- JSON values, and `sha256_json` of src/run_farm/farm.py.
use run_farm.Prelude.{String, Bool, false, Option, none, some, [], ◌∷◌, Dict, ◌==◌, string_eq}

-- JSON values as Python objects. Of a number the program reads nothing: its literal stands for it.
mutual
  pub data Value : Type 0 where
    null : Value
    flag : Bool → Value
    number : String → Value
    text : String → Value
    array : Items → Value
    object : Fields → Value

  pub data Items : Type 0 where
    nil : Items
    cons : Value → Items → Items

  pub data Fields : Type 0 where
    end : Fields
    field : String → Value → Fields → Fields

abbrev pub items_of : Fields → Dict String Value
items_of end = []
items_of (field k v fs) = (k, v) ∷ items_of fs

-- `json.dumps`, which answers with a text or raises with a message; the digest; `str`.
pub data Dumped : Type 0 where
  dumped refused : String → Dumped

pub record Hashing : Type 0 where
  pub dumps : Value → Dumped
  pub sha256 : String → String
  pub str : Option Value → String

unfoldable pub sha256_json : Hashing → Value → Dumped
sha256_json h v = elim (h.dumps v) [ dumped s ↦ dumped (h.sha256 s) | refused m ↦ refused m ]

-- `isinstance(x, dict)`, with the dictionary.
abbrev pub as_dict : Value → Option (Dict String Value)
as_dict (object fs) = some (items_of fs)
as_dict _ = none

-- `x == s` for a value that may be missing and a text.
abbrev pub is_text : Option Value → String → Bool
is_text (some (text t)) s = t == s
is_text _ s = false

-- A JSON null is Python's None.
abbrev pub or_none : Value → Option Value
or_none null = none
or_none v = some v
