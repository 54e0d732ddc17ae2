-- ===== src/Farm/Shipment.antt =====
-- src/run_farm/farm.py: `verify_shipment`.
pub mod Verified
use Prim.Native.String.{slice}
use run_farm.Prelude.{
  ℕ, String, Bool, true, false, not, ◌||◌, ◌&&◌, Option, none, some, List, [], ◌∷◌, ◌++◌, ◌≡◌,
  if◌then◌else◌, Dict, lookup, ◌==◌, string_eq, concat,
}
use run_farm.Json.{
  Value, null, flag, number, text, array, object, Fields, items_of, as_dict, is_text, Hashing,
  Dumped, dumped, refused, sha256_json,
}

abbrev pub contract_keys : List String
contract_keys = "products" ∷ "sidecar" ∷ "attested_shas" ∷ []

-- The shape guard for one key of the contract, from what the shipment has under it.
unfoldable pub dict_violation : String → Option Value → List String
dict_violation key none = concat ("MALFORMED " ∷ key ∷ ": missing" ∷ []) ∷ []
dict_violation key (some (object fs)) = []
dict_violation key (some v) = concat ("MALFORMED " ∷ key ∷ ": not a dict" ∷ []) ∷ []

unfoldable pub key_violation : Dict String Value → String → List String
key_violation shipment key = dict_violation key (lookup key shipment)

unfoldable pub shape_violations : Dict String Value → List String → List String
shape_violations shipment [] = []
shape_violations shipment (key ∷ keys) =
    key_violation shipment key ++ shape_violations shipment keys

-- `shipment.get(key, {})` where the shape is known.
abbrev pub dict_or_empty : Option Value → Dict String Value
dict_or_empty (some (object fs)) = items_of fs
dict_or_empty _ = []

abbrev pub dict_at : String → Dict String Value → Dict String Value
dict_at key shipment = dict_or_empty (lookup key shipment)

module _ (h : Hashing) where
  unfoldable pub product_violation : Dict String Value → String → Value → List String
  product_violation sidecar name obj = elim (sha256_json h obj) [
    | refused m ↦ concat ("UNHASHABLE " ∷ name ∷ ": " ∷ m ∷ []) ∷ []
    | dumped got ↦
        let want = lookup name sidecar in
        if is_text want got
        then []
        else concat (
            "HASH_MISMATCH "
            ∷ name
            ∷ ": sidecar "
            ∷ slice (h.str want) 0 12
            ∷ " != shipped "
            ∷ slice got 0 12
            ∷ [])
          ∷ []
  ]

  unfoldable pub product_violations : Dict String Value → Dict String Value → List String
  product_violations sidecar [] = []
  product_violations sidecar ((name, obj) ∷ products) =
      product_violation sidecar name obj ++ product_violations sidecar products

  unfoldable pub sha_violation : Dict String Value → String → String → List String
  sha_violation attested slot sha =
      let att = lookup slot attested in
      if is_text att sha
      then []
      else concat
          ("SHA_MISMATCH " ∷ slot ∷ ": host ran " ∷ h.str att ∷ ", tag requires " ∷ sha ∷ [])
        ∷ []

  unfoldable pub sha_violations : Dict String Value → Dict String String → List String
  sha_violations attested [] = []
  sha_violations attested ((slot, sha) ∷ required) =
      sha_violation attested slot sha ++ sha_violations attested required

  -- The checks behind the shape guard.
  abbrev pub content_violations : Dict String Value → Dict String String → List String
  content_violations shipment required =
      product_violations (dict_at "sidecar" shipment) (dict_at "products" shipment)
      ++ sha_violations (dict_at "attested_shas" shipment) required

  abbrev pub after_shape : List String → Dict String Value → Dict String String → List String
  after_shape [] shipment required = content_violations shipment required
  after_shape (v ∷ vs) shipment required = v ∷ vs

  unfoldable pub verify_shipment : Value → Dict String String → List String
  verify_shipment (object fs) required =
      after_shape (shape_violations (items_of fs) contract_keys) (items_of fs) required
  verify_shipment _ required = "MALFORMED shipment: not a dict" ∷ []
