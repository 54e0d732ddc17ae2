-- ===== src/Farm/Dispatch/Framed.antt =====
-- What the handling of a dispatch in src/run_farm/farm.py keeps of a campaign.
use run_farm.Prelude.{
  Bool, true, false, Option, none, some, List, [], ◌∷◌, insert, has, string_eq, suffixed, if_ind,
}
use run_farm.Json.{Value, Hashing}
use run_farm.Config.{Config}
use run_farm.Farm.Campaign.{Campaign, lost, mark_leg, enter_leg}
use run_farm.Farm.Frame.{
  Framed, Framed-refl, Framed-trans, Framed-mark_leg, Framed-enter_leg, Framed-then_mark,
  Framed-govern, Framed-on_skip, Framed-ensure_leg,
}
use run_farm.Farm.Govern.{ensure_leg}
use run_farm.Farm.Dispatch.{
  Record, Out, planned_config, run_key, taken, fresh_key, key_fuel, settle, one_record, records,
  reconcile, unplanned_reason, no_result_reason, no_record_reason, duplicate_reason,
}

module _ {S : Type 0} (h : Hashing) where
  Framed-one_record :
      (out : Out) (k : Campaign S) (rec : Record) (c : Option Config)
      → Framed k (one_record h out k rec c).1
  Framed-one_record out k rec none =
      let key = fresh_key (taken k.configs out) (key_fuel k.configs out) (run_key rec.run) in
      Framed-then_mark k (enter_leg k key) key "completed" false unplanned_reason
        (Framed-enter_leg k key)
  Framed-one_record out k rec (some c) =
      if_ind (λ (r : Out × Campaign S). Framed k r.1) (has c.rid out)
        (λ _.
          Framed-then_mark k (enter_leg k (suffixed c.rid ".dup")) (suffixed c.rid ".dup")
            "completed" false duplicate_reason (Framed-enter_leg k (suffixed c.rid ".dup")))
        (λ _.
          Framed-trans k (ensure_leg k c.rid) _ (Framed-ensure_leg h k c.rid)
            (Framed-settle (ensure_leg k c.rid) c rec.skipped rec.result))
    where
      Framed-settle :
          (k' : Campaign S) (d : Config) (skipped : Bool) (result : Option Value)
          → Framed k' (settle h k' d skipped result).1
      Framed-settle k' d skipped (some shipment) = Framed-govern h k' d.rid shipment
      Framed-settle k' d true none = Framed-on_skip h k' d.rid d
      Framed-settle k' d false none = Framed-mark_leg k' d.rid "completed" false no_result_reason

  pub Framed-records :
      (out : Out) (k : Campaign S) (recs : List Record) → Framed k (records h out k recs).1
  unfolding records
  Framed-records out k [] = Framed-refl k
  Framed-records out k (rec ∷ recs) =
      let r = one_record h out k rec (planned_config k.configs rec.run) in
      Framed-trans k r.1 _ (Framed-one_record out k rec (planned_config k.configs rec.run))
        (Framed-records r.0 r.1 recs)

  pub Framed-reconcile :
      (out : Out) (k : Campaign S) (cs : List Config) → Framed k (reconcile h out k cs).1
  unfolding reconcile
  Framed-reconcile out k [] = Framed-refl k
  Framed-reconcile out k (c ∷ cs) =
      if_ind (λ (r : Out × Campaign S). Framed k r.1) (has c.rid out)
        (λ _. Framed-reconcile out k cs)
        (λ _.
          Framed-trans k (mark_leg k c.rid "completed" false no_record_reason) _
            (Framed-mark_leg k c.rid "completed" false no_record_reason)
            (Framed-reconcile (insert c.rid (lost no_record_reason) out)
              (mark_leg k c.rid "completed" false no_record_reason) cs))
