-- ===== src/Farm/Dispatch.antt =====
-- src/run_farm/farm.py, class FarmCampaign: `execute_fleet`, over the records of a dispatch.
pub mod Keys
pub mod Framed
pub mod Reports
use Prim.Native.Nat.{max}
use Prim.Native.String.{count}
use run_farm.Prelude.{
  ℕ, zero, suc, ◌+◌, String, Bool, true, false, ◌||◌, Option, none, some, List, [], ◌∷◌, ◌++◌, map,
  Dict, lookup, insert, has, any, ◌==◌, string_eq, if◌then◌else◌, concat, suffixed,
}
use run_farm.Json.{Value, Hashing}
use run_farm.Config.{Config}
use run_farm.Farm.Campaign.{Campaign, Status, lost, rejected, mark_leg, enter_leg}
use run_farm.Farm.Govern.{govern, on_skip, ensure_leg}

-- {"run", "result", "skipped"} of one worker, with `none` for None.
pub record Record : Type 0 where
  pub run : Option String
  pub result : Option Value
  pub skipped : Bool

abbrev pub Out : Type 0
Out = Dict String Status

-- `{c.run_name(): c for c in self.configs}`
unfoldable pub by_name : Dict String Config → List Config → Dict String Config
by_name acc [] = acc
by_name acc (c ∷ cs) = by_name (insert c.run_name c acc) cs

abbrev pub planned_config : List Config → Option String → Option Config
planned_config cs none = none
planned_config cs (some run) = lookup run (by_name [] cs)

abbrev pub run_key : Option String → String
run_key none = "?"
run_key (some run) = run

-- `key in planned_rids or key in out`
unfoldable pub taken : List Config → Out → String → Bool
taken cs out key = any (λ (c : Config). c.rid == key) cs || has key out

-- `while key in planned_rids or key in out: key += ".unplanned"`, with fuel.
unfoldable pub fresh_key : (String → Bool) → ℕ → String → String
fresh_key taken zero key = key
fresh_key taken (suc fuel) key = elim (taken key) [
  | true ↦ fresh_key taken fuel (suffixed key ".unplanned")
  | false ↦ key
]

-- Longer than every rid and every key.
unfoldable pub key_fuel : List Config → Out → ℕ
key_fuel [] [] = 1
key_fuel [] ((k, s) ∷ out) = max (count k + 1) (key_fuel [] out)
key_fuel (c ∷ cs) out = max (count c.rid + 1) (key_fuel cs out)

abbrev pub unplanned_reason : String
unplanned_reason = "unplanned run name from dispatch (protocol violation)"

abbrev pub duplicate_reason : String
duplicate_reason = "duplicate dispatch record (protocol violation)"

abbrev pub no_result_reason : String
no_result_reason = "no result (host lost)"

abbrev pub no_record_reason : String
no_record_reason = "dispatch returned no record for this leg (dropped?)"

abbrev pub reported : {S : Type 0} → Out → String → Status × Campaign S → Out × Campaign S
reported out rid (status, k) = (insert rid status out, k)

module _ {S : Type 0} where
  abbrev pub drop_completed : Campaign S → String → String → Campaign S
  drop_completed k leg reason = mark_leg (enter_leg k leg) leg "completed" false reason

  -- A record whose run is none of the planned ones.
  abbrev pub unplanned : Out → Campaign S → Option String → Out × Campaign S
  unplanned out k run =
      let key = fresh_key (taken k.configs out) (key_fuel k.configs out) (run_key run) in
      (insert key (rejected (unplanned_reason ∷ [])) out, drop_completed k key unplanned_reason)

module _ {S : Type 0} (hashing : Hashing) where
  -- The status of a leg from its first record.
  abbrev pub settle : Campaign S → Config → Bool → Option Value → Status × Campaign S
  settle k c skipped (some shipment) = govern hashing k c.rid shipment
  settle k c true none = on_skip hashing k c.rid c
  settle k c false none =
      (lost no_result_reason, mark_leg k c.rid "completed" false no_result_reason)

  abbrev pub one_record : Out → Campaign S → Record → Option Config → Out × Campaign S
  one_record out k rec none = unplanned out k rec.run
  one_record out k rec (some c) =
      if has c.rid out
      then (out, drop_completed k (suffixed c.rid ".dup") duplicate_reason)
      else reported out c.rid (settle (ensure_leg k c.rid) c rec.skipped rec.result)

  unfoldable pub records : Out → Campaign S → List Record → Out × Campaign S
  records out k [] = (out, k)
  records out k (rec ∷ recs) =
      let (out', k') = one_record out k rec (planned_config k.configs rec.run) in
      records out' k' recs

  -- A planned config that the dispatch never reported.
  unfoldable pub reconcile : Out → Campaign S → List Config → Out × Campaign S
  reconcile out k [] = (out, k)
  reconcile out k (c ∷ cs) =
      if has c.rid out
      then reconcile out k cs
      else reconcile (insert c.rid (lost no_record_reason) out)
          (mark_leg k c.rid "completed" false no_record_reason) cs

  -- `none` is the RuntimeError of a fleet that has not passed its gate. `dispatch` is what the
  -- executor answers for the planned configs.
  unfoldable pub execute_fleet :
      Campaign S → (List Config → List Record) → Option (Out × Campaign S)
  execute_fleet k dispatch =
      if k.gated
      then (let (out, k') = records [] k (dispatch k.configs) in some (reconcile out k' k'.configs))
      else none
