-- ===== src/Farm/Campaign.antt =====
-- src/run_farm/farm.py, class FarmCampaign: the state, `plan` and `gate_launch`.
use run_farm.Prelude.{
  ℕ, String, Bool, true, false, Option, none, some, List, [], ◌∷◌, ◌++◌, map, length, Dict, insert,
  has, string_eq, if◌then◌else◌, join, sorted,
}
use run_farm.Json.{Value, Hashing}
use run_farm.Config.{Config}
use run_farm.Registry.Files.{Base}
use run_farm.Registry.Events.{Events}
use run_farm.Driver.{World}
use run_farm.CutFlow.{CutFlow, enter, mark}
use run_farm.Farm.Launch.{launch_gate}

abbrev pub fleet_stages : List String
fleet_stages = "planned" ∷ "launch-gate" ∷ "completed" ∷ "shipped" ∷ "verified" ∷ "registered" ∷ []

-- A leg: `rid` and `cfg`, `plan` if it has one, and its other keys.
pub record Leg : Type 0 where
  pub rid : String
  pub cfg : Dict String Value
  pub plan : Option (List Value)
  pub others : Dict String Value

-- What the caller injects, and the hashing.
pub record Policy : Type 0 where
  pub preflight : Dict String Value → List String
  pub stage_validate : List Value → Dict String Value → List String
  pub config_factory : Leg → String → Dict String String → Config
  pub hashing : Hashing

-- The fields of a FarmCampaign. `corpus` holds what `ingest` was called with, in order.
pub record Campaign (S : Type 0) : Type 0 where
  pub gtag : String
  pub required_shas : Dict String String
  pub world : World (Base S) (Events S)
  pub cf : CutFlow
  pub configs : List Config
  pub ingested : Dict String String
  pub gated : Bool
  pub corpus : List Value

-- The status dictionaries, less their `rid`.
pub data Status : Type 0 where
  registered conflict : Status
  skip_ok lost : String → Status
  rejected : List String → Status

-- ValueError on duplicate rids, or the counts.
pub data Planned : Type 0 where
  duplicate_rids : List String → Planned
  counts : ℕ → ℕ → Planned

abbrev pub is_empty : {A : Type 0} → List A → Bool
is_empty [] = true
is_empty (x ∷ xs) = false

-- `(dups if rid in seen else seen).add(rid)`
unfoldable pub duplicates : Dict String (Unit {0}) → Dict String (Unit {0}) → List Leg → List String
duplicates seen dups [] = map (λ (d : String × Unit {0}). d.0) dups
duplicates seen dups (leg ∷ legs) =
    if has leg.rid seen
    then duplicates seen (insert leg.rid tt dups) legs
    else duplicates (insert leg.rid tt seen) dups legs

-- `preflight(cfg) + stage_validate(leg.get("plan", []), cfg)`
abbrev pub violations : Policy → Leg → List String
violations policy leg =
    policy.preflight leg.cfg
    ++ policy.stage_validate (elim leg.plan [ none ↦ [] | some p ↦ p ]) leg.cfg

module _ {S : Type 0} where
  -- `self.cf.mark`: the stages of FLEET_STAGES do not raise.
  abbrev pub mark_leg : Campaign S → String → String → Bool → String → Campaign S
  mark_leg k rid stage ok reason = record k { cf = (mark k.cf rid stage ok reason).1 }

  abbrev pub enter_leg : Campaign S → String → Campaign S
  enter_leg k rid = record k { cf = enter k.cf rid }

  module _ (policy : Policy) where
    -- One leg of `plan`, behind the duplicate scan: its config if it is valid.
    unfoldable pub plan_leg : Campaign S → Leg → List Config × Campaign S
    plan_leg k leg =
        let pv = violations policy leg in
        let k' = mark_leg (enter_leg k leg.rid) leg.rid "planned" (is_empty pv) (join "; " pv) in
        (if is_empty pv then policy.config_factory leg k'.gtag k'.required_shas ∷ [] else [], k')

    unfoldable pub plan_legs : Campaign S → List Leg → List Config × Campaign S
    plan_legs k [] = ([], k)
    plan_legs k (leg ∷ legs) =
        let (valid, k') = plan_leg k leg in
        let (rest, k'') = plan_legs k' legs in (valid ++ rest, k'')

    abbrev pub plan_checked : Campaign S → List Leg → List String → Planned × Campaign S
    plan_checked k legs [] =
        let (ok, k') = plan_legs k legs in
        (counts (length legs) (length ok), record k' { configs = ok })
    plan_checked k legs (d ∷ ds) = (duplicate_rids (sorted (d ∷ ds)), k)

    unfoldable pub plan : Campaign S → List Leg → Planned × Campaign S
    plan k legs = plan_checked (record k { gated = false }) legs (duplicates [] [] legs)

  unfoldable pub mark_configs : Campaign S → List Config → Bool → String → Campaign S
  mark_configs k [] ok reason = k
  mark_configs k (c ∷ cs) ok reason =
      mark_configs (mark_leg k c.rid "launch-gate" ok reason) cs ok reason

  unfoldable pub gate_launch : Campaign S → List Config → List String × Campaign S
  gate_launch k launched =
      let v = launch_gate k.configs launched in
      let k' = mark_configs k k.configs (is_empty v) (join "; " v) in
      (v, record k' { gated = is_empty v })
