-- ===== src/Farm/Shapes.antt =====
-- src/run_farm/farm.py: the shapes that `_govern` and `_ingest` read off a shipment, and their texts.
use run_farm.Prelude.{
  String, Bool, true, false, Option, none, some, List, [], ◌∷◌, lookup, is_some, string_eq,
  if◌then◌else◌,
}
use run_farm.Json.{Value, null, object, items_of, as_dict}

abbrev pub conflict_reason : String
conflict_reason = "CONFLICT: rid in corpus with DIFFERENT content — never overwritten"

-- `shipment["products"].get("record", shipment["products"])`
abbrev pub record_of : Value → Value
record_of (object fs) = elim (lookup "record" (items_of fs)) [ none ↦ object fs | some r ↦ r ]
record_of v = v

-- `isinstance(shipment.get(key, {}), dict)`
abbrev pub dict_or_missing : Option Value → Bool
dict_or_missing none = true
dict_or_missing (some v) = is_some (as_dict v)

abbrev pub has_products : Option Value → Bool
has_products none = false
has_products (some v) = is_some (as_dict v)

-- `bad` of `_govern`.
unfoldable pub malformed : Value → Option String
malformed (object fs) =
    let d = items_of fs in
    if has_products (lookup "products" d)
    then (if dict_or_missing (lookup "sidecar" d)
        then (if dict_or_missing (lookup "attested_shas" d)
            then none
            else some "malformed shipment (sidecar/attested_shas not dicts)")
        else some "malformed shipment (sidecar/attested_shas not dicts)")
    else some "malformed shipment (products missing or not a dict)"
malformed _ = some "malformed shipment (products missing or not a dict)"

-- `shipment["products"]`, behind the shape checks.
abbrev pub products_of : Value → Value
products_of (object fs) = elim (lookup "products" (items_of fs)) [ none ↦ null | some p ↦ p ]
products_of _ = null

abbrev pub no_done : String
no_done = "skip signaled but no DONE.json result (possible data loss)"

abbrev pub late_stages : List String
late_stages = "completed" ∷ "shipped" ∷ "verified" ∷ "registered" ∷ []

-- `FLEET_STAGES[:-1]`
abbrev pub early_stages : List String
early_stages = "planned" ∷ "launch-gate" ∷ "completed" ∷ "shipped" ∷ "verified" ∷ []
