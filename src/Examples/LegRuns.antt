-- ===== src/Examples/LegRuns.antt =====
-- A leg that names its own `gtag`, given to leg_params of src/run_farm/farm.py.
use run_farm.Prelude.{◌≡◌, refl, String, string_eq, some, [], ◌∷◌, Dict, lookup}
use run_farm.Json.{Value, text, object, end, field}
use run_farm.Farm.Factory.{leg_params, params_of, param_of, leg_params_lem}

abbrev spoofing : Dict String Value
spoofing =
    ("rid", text "r1")
    ∷ ("cfg", object end)
    ∷ ("gtag", text "mine")
    ∷ ("name", text "n")
    ∷ ("mu", text "0.1")
    ∷ []

leg_params_test :
    leg_params spoofing "g1" (field "engine" (text "abc") end) ("name" ∷ [])
    ≡ some (
        params_of spoofing "g1"
          (field "engine" (text "abc") end)
          ("name" ∷ [])
          (object end)
          (text "r1"))
unfolding leg_params lookup
leg_params_test = refl

leg_params_lem_example :
    (params : Dict String Value) × (leg_params spoofing "g1"
        (field "engine" (text "abc") end)
        ("name" ∷ [])
      ≡ some params)
    × ((k : String)
        → lookup k params
          ≡ param_of spoofing "g1"
              (field "engine" (text "abc") end)
              ("name" ∷ [])
              (object end)
              (text "r1")
              k)
unfolding lookup
leg_params_lem_example =
    leg_params_lem spoofing "g1" (field "engine" (text "abc") end) ("name" ∷ []) (object end)
      (text "r1") refl refl
