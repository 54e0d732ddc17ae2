-- ===== src/Examples/FarmRuns.antt =====
-- A campaign of src/run_farm/farm.py with one leg, planned, gated and dispatched.
use run_farm.Prelude.{
  ℕ, ◌≡◌, ◌≢◌, ◌↔◌, refl, String, Bool, true, false, Option, none, some, List, [], ◌∷◌, lookup,
  insert, has, string_eq, pair_eq, replicate,
}
use run_farm.Json.{Value, null, text, object, end, field, Hashing, dumped, sha256_json}
use run_farm.Config.{Config}
use run_farm.Driver.{finished}
use run_farm.CutFlow.{new, enter, stage_index, row_fail, ensure, mark_at, mark, drop_leg}
use run_farm.CutFlow.Rows.{Distinct}
use run_farm.CutFlow.Audit.{Op, entering, marking, replay, DropBefore, drop_has_reason}
use run_farm.Farm.Shipment.{
  verify_shipment, shape_violations, key_violation, dict_violation, product_violations,
  product_violation, sha_violations, sha_violation,
}
use run_farm.Farm.Shipment.Verified.{IsVerified, verify_shipment-eq-nil}
use run_farm.Farm.Launch.{hashes}
use run_farm.Farm.Campaign.{Leg, Policy, plan, gate_launch, Campaign, fleet_stages}
use run_farm.Farm.Govern.{govern}
use run_farm.Farm.Gate.{fleet_needs_gate}
use run_farm.Farm.Corpus.{Governed, govern-Governed}
use run_farm.Farm.Growth.{execute_legs, corpus_never_overwritten}
use run_farm.Farm.Dispatch.{Record, Out, execute_fleet}
use run_farm.Farm.Dispatch.Reports.{FleetReport, execute_fleet_reports}

-- Every value has the same dump, and a dump is its own digest.
abbrev hashing : Hashing
hashing = record { dumps = λ v. dumped "{}"; sha256 = λ s. s; str = λ v. "?" }

abbrev shipment : Value
shipment = object (
    field "products" (object (field "record" null end)) (
      field "sidecar" (object (field "record" (text "{}") end))
        (field "attested_shas" (object (field "engine" (text "abc") end)) end)))

abbrev leg : Config
leg = record { config_hash = "h1"; run_name = "run1"; json = null; rid = "leg1" }

abbrev campaign : Campaign ℕ
campaign = record {
  gtag = "tag";
  required_shas = ("engine", "abc") ∷ [];
  world = record {
    store = record { files = []; manifest = [] };
    events = record { lines = []; triggered = [] };
  };
  cf = new fleet_stages;
  configs = leg ∷ [];
  ingested = ("old", "digest") ∷ [];
  gated = true;
  corpus = [];
}

-- The shipment is sound for its tag, and not for another.
verified_run : verify_shipment hashing shipment (("engine", "abc") ∷ []) ≡ []
unfolding verify_shipment shape_violations key_violation dict_violation product_violations
    product_violation sha_violations sha_violation lookup sha256_json
verified_run = refl

verify_shipment-eq-nil_example :
    (verify_shipment hashing shipment (("engine", "abc") ∷ []) ≡ [])
    ↔ IsVerified hashing shipment (("engine", "abc") ∷ [])
verify_shipment-eq-nil_example = verify_shipment-eq-nil hashing shipment (("engine", "abc") ∷ [])

govern-Governed_example :
    Governed hashing campaign "leg1" shipment (govern hashing campaign "leg1" shipment)
govern-Governed_example = govern-Governed hashing campaign "leg1" shipment

old_there : lookup "old" campaign.ingested ≡ some "digest"
unfolding lookup
old_there = refl

corpus_never_overwritten_example :
    lookup "old" (execute_legs hashing campaign ((leg, finished shipment) ∷ [])).ingested
    ≡ some "digest"
corpus_never_overwritten_example =
    corpus_never_overwritten hashing campaign ((leg, finished shipment) ∷ []) "old" "digest"
      old_there

-- The dispatch answers with a run that nobody planned.
abbrev astray : List Config → List Record
astray cs = record { run = some "other"; result = none; skipped = false } ∷ []

execute_fleet_reports_example :
    (true ≡ false → execute_fleet hashing campaign astray ≡ none)
    × (true ≡ true
        → (out : Out) × (k' : Campaign ℕ) × (execute_fleet hashing campaign astray ≡ some (out, k'))
          × FleetReport hashing campaign astray out k')
execute_fleet_reports_example = execute_fleet_reports hashing campaign astray

abbrev ops : List Op
ops = entering "leg1" ∷ marking "leg1" "planned" false "bad config" ∷ []

stages-Distinct : Distinct fleet_stages
stages-Distinct = (
  (refl, (refl, (refl, (refl, (refl, tt))))),
  (
    (refl, (refl, (refl, (refl, tt)))),
    ((refl, (refl, (refl, tt))), ((refl, (refl, tt)), ((refl, tt), (tt, tt)))),
  ),
)

abbrev dropped_row : List (Option Bool)
dropped_row = replicate 6 (some false)

row_there : lookup "leg1" (replay (new fleet_stages) ops).rows ≡ some dropped_row
unfolding lookup insert enter mark ensure stage_index mark_at row_fail has
row_there = refl

drop_has_reason_example : DropBefore (replay (new fleet_stages) ops) "leg1" fleet_stages 3
drop_has_reason_example =
    drop_has_reason fleet_stages ops stages-Distinct "leg1" dropped_row 3 row_there refl

reason_there :
    lookup ("leg1", "planned") (replay (new fleet_stages) ops).reasons ≡ some "bad config"
unfolding lookup insert enter mark ensure stage_index mark_at row_fail has drop_leg
reason_there = refl

abbrev policy : Policy
policy = record {
  preflight = λ cfg. [];
  stage_validate = λ p cfg. [];
  config_factory =
      λ l tag shas. record { config_hash = l.rid; run_name = l.rid; json = null; rid = l.rid };
  hashing = hashing;
}

abbrev plan_of : String → Leg
plan_of rid = record { rid = rid; cfg = []; plan = none; others = [] }

fleet_needs_gate_example :
    (execute_fleet hashing (plan policy campaign (plan_of "a" ∷ [])).1 astray ≡ none)
    × ((execute_fleet hashing (gate_launch campaign []).1 astray ≢ none)
        ↔ ((x : String) → hashes (leg ∷ []) x ≡ hashes [] x))
fleet_needs_gate_example = fleet_needs_gate hashing policy campaign (plan_of "a" ∷ []) [] astray
