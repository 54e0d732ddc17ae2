-- ===== src/Farm/Factory.antt =====
-- src/run_farm/farm.py, leg_params: the parameters of the config of a leg.
--
-- A leg is a JSON object. Its `cfg` is read as an object and its `plan` as an array; what `dict` and
-- `list` make of values of other shapes is left out, as is the aliasing that the copies rule out.
use run_farm.Prelude.{
  ◌≡◌, refl, String, Bool, false, ◌||◌, Option, none, some, List, [], ◌∷◌, ◌++◌, Dict, lookup,
  insert, has, lookup-insert, is_some, ◌==◌, string_eq, any, if◌then◌else◌, arith,
}
use run_farm.Json.{Value, text, array, object, nil, Fields}

abbrev pub value_or : Value → Option Value → Value
value_or v none = v
value_or v (some w) = w

-- `{**d, **e}`: the keys of `d` keep their places.
unfoldable pub overwrite : Dict String Value → Dict String Value → Dict String Value
overwrite [] e = []
overwrite ((k, v) ∷ d) e = (k, value_or v (lookup k e)) ∷ overwrite d e

-- {k: d[k] for k in d if not skip(k)}
unfoldable pub without : (String → Bool) → Dict String Value → Dict String Value
without skip [] = []
without skip ((k, v) ∷ d) = if skip k then without skip d else (k, v) ∷ without skip d

unfoldable pub update : Dict String Value → Dict String Value → Dict String Value
unfolding overwrite without
update d e = overwrite d e ++ without (λ k. has k d) e

abbrev pub base : List String
base = "rid" ∷ "cfg" ∷ "plan" ∷ "gtag" ∷ "required_shas" ∷ []

abbrev pub is_in : List String → String → Bool
is_in ks k = any (λ j. j == k) ks

-- `none` is the KeyError of a leg without `cfg` or `rid`.
-- `leg.get("plan", [])`
abbrev pub or_nil : Option Value → Value
or_nil none = array nil
or_nil (some v) = v

-- The dictionary that is returned, for a `cfg` and a `rid`.
unfoldable pub params_of :
    Dict String Value → String → Fields → List String → Value → Value → Dict String Value
unfolding update without lookup insert
params_of leg gtag required_shas reserved cfg rid =
    let first = ("rid", rid) ∷ ("cfg", cfg) ∷ ("plan", or_nil (lookup "plan" leg)) ∷ [] in
    let others = without (λ k. is_in base k || is_in reserved k) leg in
    insert "required_shas" (object required_shas) (insert "gtag" (text gtag) (update first others))

unfoldable pub leg_params :
    Dict String Value → String → Fields → List String → Option (Dict String Value)
unfolding params_of lookup
leg_params leg gtag required_shas reserved = elim (lookup "cfg" leg) [
  | none ↦ none
  | some cfg ↦ elim (lookup "rid" leg) [
    | none ↦ none
    | some rid ↦ some (params_of leg gtag required_shas reserved cfg rid)
  ]
]

lookup-append :
    (j : String) (d e : Dict String Value)
    → lookup j (d ++ e) ≡ (if has j d then lookup j d else lookup j e)
unfolding lookup has
lookup-append j [] e = refl
lookup-append j ((k, v) ∷ d) e = ground (arith, lookup-append j d e)

lookup-without :
    (skip : String → Bool) (j : String) (d : Dict String Value)
    → lookup j (without skip d) ≡ (if skip j then none else lookup j d)
unfolding lookup without
lookup-without skip j [] = ground arith
lookup-without skip j ((k, v) ∷ d) = grind (arith, string_eq.beq_iff k j, lookup-without skip j d)

value_or_lem :
    (k : String) (v : Value) (e : Dict String Value)
    → some (value_or v (lookup k e)) ≡ (if has k e then lookup k e else some v)
unfolding has
value_or_lem k v e = ground arith

lookup-overwrite :
    (j : String) (d e : Dict String Value)
    → lookup j (overwrite d e)
      ≡ (if has j d then (if has j e then lookup j e else lookup j d) else none)
unfolding lookup overwrite has
lookup-overwrite j [] e = refl
lookup-overwrite j ((k, v) ∷ d) e =
    grind (arith, string_eq.beq_iff k j, lookup-overwrite j d e, value_or_lem k v e)

lookup-update :
    (j : String) (d e : Dict String Value)
    → lookup j (update d e) ≡ (if has j e then lookup j e else lookup j d)
unfolding update has
lookup-update j d e = grind (
  arith,
  lookup-append j (overwrite d e) (without (λ k. has k d) e),
  lookup-overwrite j d e,
  lookup-without (λ k. has k d) j e,
)

-- What each key of the parameters is looked up to.
abbrev pub param_of :
    Dict String Value → String → Fields → List String → Value → Value → String → Option Value
param_of leg gtag required_shas reserved cfg rid k =
    if "required_shas" == k
    then some (object required_shas)
    else if "gtag" == k
    then some (text gtag)
    else if "rid" == k
    then some rid
    else if "cfg" == k
    then some cfg
    else if "plan" == k
    then some (or_nil (lookup "plan" leg))
    else if is_in reserved k
    then none
    else lookup k leg

-- The tests of the keys, by truth values.
by_keys :
    (r g b1 b2 b3 res : Bool) (o l : Option Value) (x1 x2 x3 x4 x5 : Value)
    → o ≡ (if (b1 || (b2 || (b3 || (g || (r || false))))) || res then none else l)
    → (if r
        then some x5
        else if g
        then some x4
        else if is_some o
        then o
        else if b1
        then some x1
        else if b2
        then some x2
        else if b3
        then some x3
        else none)
      ≡ (if r
          then some x5
          else if g
          then some x4
          else if b1
          then some x1
          else if b2
          then some x2
          else if b3
          then some x3
          else if res
          then none
          else l)
by_keys r g b1 b2 b3 res o l x1 x2 x3 x4 x5 e = ground arith

lookup-params_of :
    (leg : Dict String Value) (gtag : String) (required_shas : Fields) (reserved : List String)
    (cfg rid : Value) (k : String)
    → lookup k (params_of leg gtag required_shas reserved cfg rid)
      ≡ param_of leg gtag required_shas reserved cfg rid k
unfolding params_of lookup has
lookup-params_of leg gtag required_shas reserved cfg rid k = rw lookup-insert (
    rw lookup-insert (
      rw lookup-update (
        by_keys ("required_shas" == k) ("gtag" == k) ("rid" == k) ("cfg" == k) ("plan" == k)
          (is_in reserved k) (lookup k (without (λ j. is_in base j || is_in reserved j) leg))
          (lookup k leg) rid cfg (or_nil (lookup "plan" leg)) (text gtag) (object required_shas)
          (lookup-without (λ j. is_in base j || is_in reserved j) k leg))))

-- A leg with a `cfg` and a `rid` has parameters. In them `gtag` and `required_shas` are the campaign's,
-- whatever the leg says under these names; `rid` and `cfg` are the leg's, `plan` is the leg's or empty,
-- a reserved key is missing, unless it is one of these five, and every other key is as in the leg.
pub leg_params_lem :
    (leg : Dict String Value) (gtag : String) (required_shas : Fields) (reserved : List String)
    (cfg rid : Value)
    → lookup "cfg" leg ≡ some cfg
    → lookup "rid" leg ≡ some rid
    → (params : Dict String Value) × (leg_params leg gtag required_shas reserved ≡ some params)
      × ((k : String) → lookup k params ≡ param_of leg gtag required_shas reserved cfg rid k)
unfolding leg_params
leg_params_lem leg gtag required_shas reserved cfg rid c r = (
  params_of leg gtag required_shas reserved cfg rid,
  ground (arith, c, r),
  lookup-params_of leg gtag required_shas reserved cfg rid,
)
