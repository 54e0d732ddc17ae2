-- ===== src/Farm/Gate.antt =====
-- The gate between `plan` and `execute_fleet` of src/run_farm/farm.py.
use run_farm.Prelude.{
  ◌≡◌, ◌≢◌, ◌↔◌, refl, ap, ◌∙◌, String, Bool, true, false, none, List, [], ◌∷◌, string_eq,
  Bool-cases, inl, inr,
}
use run_farm.Json.{Hashing}
use run_farm.Config.{Config}
use run_farm.Farm.Launch.{launch_gate, hashes, launch_gate-eq-nil}
use run_farm.Farm.Campaign.{
  Campaign, Leg, Policy, is_empty, mark_leg, plan_leg, plan_legs, plan_checked, plan, duplicates,
  mark_configs, gate_launch,
}
use run_farm.Farm.Dispatch.{Record, execute_fleet}

is_empty_nil : (v : List String) → is_empty v ≡ true → v ≡ []
is_empty_nil [] e = refl
is_empty_nil (x ∷ v) e = cc

module _ {S : Type 0} where
  configs-mark_configs :
      (k : Campaign S) (cs : List Config) (ok : Bool) (reason : String)
      → (mark_configs k cs ok reason).configs ≡ k.configs
  unfolding mark_configs
  configs-mark_configs k [] ok reason = refl
  configs-mark_configs k (c ∷ cs) ok reason =
      configs-mark_configs (mark_leg k c.rid "launch-gate" ok reason) cs ok reason

  gated-gate_launch :
      (k : Campaign S) (launched : List Config)
      → (gate_launch k launched).1.gated ≡ is_empty (launch_gate k.configs launched)
  unfolding gate_launch
  gated-gate_launch k launched = refl

  gated-plan_legs :
      (policy : Policy) (k : Campaign S) (legs : List Leg)
      → (plan_legs policy k legs).1.gated ≡ k.gated
  unfolding plan_legs plan_leg
  gated-plan_legs policy k [] = refl
  gated-plan_legs policy k (leg ∷ legs) = gated-plan_legs policy (plan_leg policy k leg).1 legs

  gated-plan_checked :
      (policy : Policy) (k : Campaign S) (legs : List Leg) (dups : List String)
      → (plan_checked policy k legs dups).1.gated ≡ k.gated
  gated-plan_checked policy k legs [] = gated-plan_legs policy k legs
  gated-plan_checked policy k legs (d ∷ ds) = refl

  gated-plan :
      (policy : Policy) (k : Campaign S) (legs : List Leg) → (plan policy k legs).1.gated ≡ false
  unfolding plan
  gated-plan policy k legs =
      gated-plan_checked policy (record k { gated = false }) legs (duplicates [] [] legs)

  ungated_none :
      (h : Hashing) (k : Campaign S) (dispatch : List Config → List Record)
      → k.gated ≡ false
      → execute_fleet h k dispatch ≡ none
  unfolding execute_fleet
  ungated_none h k dispatch e = rw e

  gated_some :
      (h : Hashing) (k : Campaign S) (dispatch : List Config → List Record)
      → k.gated ≡ true
      → execute_fleet h k dispatch ≢ none
  unfolding execute_fleet
  gated_some h k dispatch e = rw e λ f. cc

  -- A fleet right after `plan`, whatever was gated before, raises. After `gate_launch` it runs exactly when the
  -- hashes of the configs launched are those of the configs planned.
  pub fleet_needs_gate :
      (h : Hashing) (policy : Policy) (k : Campaign S) (legs : List Leg) (launched : List Config)
      (dispatch : List Config → List Record)
      → (execute_fleet h (plan policy k legs).1 dispatch ≡ none)
        × ((execute_fleet h (gate_launch k launched).1 dispatch ≢ none)
            ↔ ((x : String) → hashes k.configs x ≡ hashes launched x))
  fleet_needs_gate h policy k legs launched dispatch = (
    ungated_none h (plan policy k legs).1 dispatch (gated-plan policy k legs),
    (
      λ runs. elim (Bool-cases (is_empty (launch_gate k.configs launched))) [
        | inl passed ↦
            (launch_gate-eq-nil k.configs launched).0
              (is_empty_nil (launch_gate k.configs launched) passed)
        | inr stopped ↦ absurd (
            runs (
              ungated_none h (gate_launch k launched).1 dispatch
                (gated-gate_launch k launched ∙ stopped)))
      ],
      λ same. gated_some h (gate_launch k launched).1 dispatch (
          gated-gate_launch k launched
          ∙ ap is_empty ((launch_gate-eq-nil k.configs launched).1 same)),
    ),
  )
