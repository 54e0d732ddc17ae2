-- ===== src/Farm/Dispatch/Reports.antt =====
-- What `execute_fleet` of src/run_farm/farm.py reports, and what it lets into the corpus.
use mathlib.Core.Path.{subst}
use run_farm.Prelude.{
  ◌≡◌, refl, ◌∙◌, ap, sym, String, Bool, true, false, Option, none, some, List, [], ◌∷◌, Dict,
  lookup, insert, has, ◌==◌, string_eq, arith, lookup-insert, has-insert, if_ind, Bool-cases, inl,
  inr, ◌⊎◌, All, beq_refl,
}
use run_farm.Json.{Value, Hashing}
use run_farm.Config.{Config}
use run_farm.Farm.Campaign.{
  Campaign, Status, registered, conflict, skip_ok, lost, rejected, mark_leg, enter_leg,
}
use run_farm.CutFlow.Inv.{IsSound}
use run_farm.Farm.Frame.{Framed}
use run_farm.Farm.Growth.{Grows, govern-Grows, on_skip-Grows}
use run_farm.Farm.Dispatch.{
  Record, Out, planned_config, run_key, taken, fresh_key, key_fuel, drop_completed, settle,
  reported, one_record, records, reconcile, execute_fleet, unplanned_reason, no_record_reason,
}
use run_farm.Farm.Dispatch.Keys.{fresh_key_free}
use run_farm.Farm.Dispatch.Framed.{Framed-records, Framed-reconcile}

not_taken :
    (cs : List Config) (out : Out) (key : String) → taken cs out key ≡ false → has key out ≡ false
unfolding taken
not_taken cs out key e = ground arith

-- A new key leaves the statuses reported so far.
lookup-insert_new :
    (out : Out) (key x : String) (s t : Status)
    → has key out ≡ false
    → lookup x out ≡ some t
    → lookup x (insert key s out) ≡ some t
unfolding has
lookup-insert_new out key x s t new found =
    ground (arith, lookup-insert key x s out, string_eq.beq_iff key x)

module _ {S : Type 0} (h : Hashing) (start : Dict String String) where
  -- What is in the corpus was there at the start, or is reported as registered.
  abbrev Reported : Out × Campaign S → Type 0
  Reported (out, k) =
      (rid : String)
      → has rid k.ingested ≡ true
      → (has rid start ≡ true) ⊎ (lookup rid out ≡ some registered)

  settle-Grows :
      (k : Campaign S) (c : Config) (skipped : Bool) (result : Option Value)
      → Grows k.ingested c.rid (settle h k c skipped result)
  settle-Grows k c skipped (some shipment) = govern-Grows h k c.rid shipment
  settle-Grows k c true none = on_skip-Grows h k c.rid c
  settle-Grows k c false none = refl

  Reported-insert :
      (out : Out) (k : Campaign S) (key : String) (s : Status) (k' : Campaign S)
      → has key out ≡ false
      → k'.ingested ≡ k.ingested
      → Reported (out, k)
      → Reported (insert key s out, k')
  Reported-insert out k key s k' new same known x there =
      elim (known x (ap (has x) (sym same) ∙ there)) [
        | inl old ↦ inl old
        | inr found ↦ inr (lookup-insert_new out key x s registered new found)
      ]

  reported-Reported :
      (out : Out) (k : Campaign S) (rid : String) (r : Status × Campaign S)
      → has rid out ≡ false
      → Grows k.ingested rid r
      → Reported (out, k)
      → Reported (reported out rid r)
  reported-Reported out k rid (registered, k') new (fresh, (digest, e)) known = λ x there.
      elim (Bool-cases (rid == x)) [
        | inl same ↦ inr (ground (arith, lookup-insert rid x registered out))
        | inr other ↦
            let before : has x k.ingested ≡ true =
              ground (arith, ap (has x) e, has-insert rid x digest k.ingested) in
            elim (known x before) [
              | inl old ↦ inl old
              | inr found ↦ inr (lookup-insert_new out rid x registered registered new found)
            ]
      ]
  reported-Reported out k rid (conflict, k') new g known =
      Reported-insert out k rid conflict k' new g known
  reported-Reported out k rid (skip_ok w, k') new g known =
      Reported-insert out k rid (skip_ok w) k' new g known
  reported-Reported out k rid (lost w, k') new g known =
      Reported-insert out k rid (lost w) k' new g known
  reported-Reported out k rid (rejected w, k') new g known =
      Reported-insert out k rid (rejected w) k' new g known

  one_record-Reported :
      (out : Out) (k : Campaign S) (rec : Record) (c : Option Config)
      → Reported (out, k)
      → Reported (one_record h out k rec c)
  one_record-Reported out k rec none known =
      let key = fresh_key (taken k.configs out) (key_fuel k.configs out) (run_key rec.run) in
      Reported-insert out k key (rejected (unplanned_reason ∷ []))
        (drop_completed k key unplanned_reason)
        (not_taken k.configs out key (fresh_key_free k.configs out (run_key rec.run))) refl known
  one_record-Reported out k rec (some c) known =
      if_ind Reported (has c.rid out) (λ _. known)
        λ new.
          if_ind
            (λ (k' : Campaign S).
              Reported (reported out c.rid (settle h k' c rec.skipped rec.result)))
            (has c.rid k.cf.rows)
            (λ _.
              reported-Reported out k c.rid (settle h k c rec.skipped rec.result) new
                (settle-Grows k c rec.skipped rec.result) known)
            (λ _.
              reported-Reported out (enter_leg k c.rid) c.rid
                (settle h (enter_leg k c.rid) c rec.skipped rec.result) new
                (settle-Grows (enter_leg k c.rid) c rec.skipped rec.result) known)

  records-Reported :
      (out : Out) (k : Campaign S) (recs : List Record)
      → Reported (out, k)
      → Reported (records h out k recs)
  unfolding records
  records-Reported out k [] known = known
  records-Reported out k (rec ∷ recs) known =
      let r = one_record h out k rec (planned_config k.configs rec.run) in
      records-Reported r.0 r.1 recs
        (one_record-Reported out k rec (planned_config k.configs rec.run) known)

  reconcile-Reported :
      (out : Out) (k : Campaign S) (cs : List Config)
      → Reported (out, k)
      → Reported (reconcile h out k cs)
  unfolding reconcile
  reconcile-Reported out k [] known = known
  reconcile-Reported out k (c ∷ cs) known =
      if_ind Reported (has c.rid out) (λ _. reconcile-Reported out k cs known)
        λ new.
          reconcile-Reported (insert c.rid (lost no_record_reason) out)
            (mark_leg k c.rid "completed" false no_record_reason) cs
            (Reported-insert out k c.rid (lost no_record_reason)
              (mark_leg k c.rid "completed" false no_record_reason) new refl known)

  has-reconcile :
      (out : Out) (k : Campaign S) (cs : List Config) (x : String)
      → has x out ≡ true
      → has x (reconcile h out k cs).0 ≡ true
  unfolding reconcile
  has-reconcile out k [] x found = found
  has-reconcile out k (c ∷ cs) x found =
      if_ind (λ (r : Out × Campaign S). has x r.0 ≡ true) (has c.rid out)
        (λ _. has-reconcile out k cs x found)
        (λ _.
          has-reconcile (insert c.rid (lost no_record_reason) out)
            (mark_leg k c.rid "completed" false no_record_reason) cs x
            (ground (arith, has-insert c.rid x (lost no_record_reason) out)))

  reconcile_complete :
      (out : Out) (k : Campaign S) (cs : List Config)
      → All (λ c. has c.rid (reconcile h out k cs).0 ≡ true) cs
  unfolding reconcile
  reconcile_complete out k [] = tt
  reconcile_complete out k (c ∷ cs) =
      if_ind
        (λ (r : Out × Campaign S).
          (has c.rid r.0 ≡ true) × All (λ (d : Config). has d.rid r.0 ≡ true) cs)
        (has c.rid out) (λ found. (has-reconcile out k cs c.rid found, reconcile_complete out k cs))
        (λ _. (
          has-reconcile out' k' cs c.rid
              (ground (arith, has-insert c.rid c.rid (lost no_record_reason) out, beq_refl c.rid)),
          reconcile_complete out' k' cs,
        ))
    where
      out' : Out
      out' = insert c.rid (lost no_record_reason) out

      k' : Campaign S
      k' = mark_leg k c.rid "completed" false no_record_reason

module _ {S : Type 0} (h : Hashing) (k : Campaign S) (dispatch : List Config → List Record) where
  abbrev ran : Out × Campaign S
  ran = records h [] k (dispatch k.configs)

  -- The conclusions about a fleet, from the results and the campaign that it leaves.
  pub record FleetReport (out : Out) (k' : Campaign S) : Type 0 where
    pub every_leg : All (λ c. has c.rid out ≡ true) k.configs
    pub corpus :
        (rid : String)
        → has rid k'.ingested ≡ true
        → (has rid k.ingested ≡ true) ⊎ (lookup rid out ≡ some registered)
    pub same_plan : k'.configs ≡ k.configs
    pub drops_explained : IsSound k.cf → IsSound k'.cf

  report :
      FleetReport
        (reconcile h ran.0 ran.1 ran.1.configs).0
        (reconcile h ran.0 ran.1 ran.1.configs).1
  report = record {
    every_leg =
        subst
          (λ cs.
            All (λ (c : Config). has c.rid (reconcile h ran.0 ran.1 ran.1.configs).0 ≡ true) cs)
          first.configs (reconcile_complete h k.ingested ran.0 ran.1 ran.1.configs);
    corpus =
        reconcile-Reported h k.ingested ran.0 ran.1 ran.1.configs
          (records-Reported h k.ingested [] k (dispatch k.configs) (λ rid there. inl there));
    same_plan = last.configs ∙ first.configs;
    drops_explained = λ v. last.sound (first.sound v);
  }
    where
      first : Framed k ran.1
      first = Framed-records h [] k (dispatch k.configs)

      last : Framed ran.1 (reconcile h ran.0 ran.1 ran.1.configs).1
      last = Framed-reconcile h ran.0 ran.1 ran.1.configs

  -- A fleet that has not passed its gate raises; one that has reports a status for every planned leg
  -- whatever the dispatch answers, the corpus afterwards has only what it had before and the rids that
  -- are reported as registered, the plan stays, and each drop in the cut-flow keeps having its reason.
  pub execute_fleet_reports :
      (k.gated ≡ false → execute_fleet h k dispatch ≡ none)
      × (k.gated ≡ true
          → (out : Out) × (k' : Campaign S) × (execute_fleet h k dispatch ≡ some (out, k'))
            × FleetReport out k')
  unfolding execute_fleet
  execute_fleet_reports = (
    λ closed. rw closed,
    λ gated. (
      (reconcile h ran.0 ran.1 ran.1.configs).0,
      (reconcile h ran.0 ran.1 ran.1.configs).1,
      rw gated,
      report,
    ),
  )
