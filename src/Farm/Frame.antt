-- ===== src/Farm/Frame.antt =====
-- What every step of a campaign (src/run_farm/farm.py) keeps: its plan, its gate, its required digests
-- and a cut-flow in which each drop has its reason.
use run_farm.Prelude.{
  ◌≡◌, refl, ◌∙◌, String, Bool, true, false, Option, none, some, List, [], ◌∷◌, lookup, has, ◌==◌,
  string_eq, suffixed, join, if_ind,
}
use run_farm.Json.{or_none, Value, Hashing, Dumped, dumped, refused, sha256_json}
use run_farm.Config.{Config}
use run_farm.Registry.Files.{register, done}
use run_farm.Driver.{Outcome, skipped, finished, failed}
use run_farm.CutFlow.Inv.{IsSound, enter-IsSound}
use run_farm.CutFlow.Audit.{mark-IsSound}
use run_farm.Farm.Shapes.{early_stages, late_stages, malformed, products_of, conflict_reason}
use run_farm.Farm.Campaign.{Campaign, Status, mark_leg, enter_leg}
use run_farm.Farm.Govern.{
  mark_all, record_conflict, ingest_content, ingest_dumped, ingest, govern_verified, govern_shaped,
  govern, recover, on_skip, ensure_leg, settle_leg, settle_shipment,
}

module _ {S : Type 0} where
  pub record Framed (k k' : Campaign S) : Type 0 where
    pub configs : k'.configs ≡ k.configs
    pub required : k'.required_shas ≡ k.required_shas
    pub gated : k'.gated ≡ k.gated
    pub sound : IsSound k.cf → IsSound k'.cf

  pub Framed-refl : (k : Campaign S) → Framed k k
  Framed-refl k = record { configs = refl; required = refl; gated = refl; sound = λ v. v }

  pub Framed-trans : (k k' k'' : Campaign S) → Framed k k' → Framed k' k'' → Framed k k''
  Framed-trans k k' k'' f g = record {
    configs = g.configs ∙ f.configs;
    required = g.required ∙ f.required;
    gated = g.gated ∙ f.gated;
    sound = λ v. g.sound (f.sound v);
  }

  pub Framed-mark_leg :
      (k : Campaign S) (rid stage : String) (ok : Bool) (reason : String)
      → Framed k (mark_leg k rid stage ok reason)
  Framed-mark_leg k rid stage ok reason = record {
    configs = refl;
    required = refl;
    gated = refl;
    sound = mark-IsSound k.cf rid stage ok reason;
  }

  pub Framed-enter_leg : (k : Campaign S) (rid : String) → Framed k (enter_leg k rid)
  Framed-enter_leg k rid = record {
    configs = refl;
    required = refl;
    gated = refl;
    sound = enter-IsSound k.cf rid;
  }

  pub Framed-then_mark :
      (k k' : Campaign S) (rid stage : String) (ok : Bool) (reason : String)
      → Framed k k'
      → Framed k (mark_leg k' rid stage ok reason)
  Framed-then_mark k k' rid stage ok reason f =
      Framed-trans k k' (mark_leg k' rid stage ok reason) f (Framed-mark_leg k' rid stage ok reason)

  pub Framed-mark_all :
      (k k' : Campaign S) (rid : String) (stages : List String)
      → Framed k k'
      → Framed k (mark_all k' rid stages)
  unfolding mark_all
  Framed-mark_all k k' rid [] f = f
  Framed-mark_all k k' rid (stage ∷ stages) f =
      Framed-mark_all k (mark_leg k' rid stage true "") rid stages
        (Framed-then_mark k k' rid stage true "" f)

  Framed-record_conflict : (k : Campaign S) (rid : String) → Framed k (record_conflict k rid)
  Framed-record_conflict k rid =
      let leg = suffixed rid ".conflict" in
      let k1 = mark_leg k rid "registered" true "" in
      Framed-then_mark k (mark_all (enter_leg k1 leg) leg early_stages) leg "registered" false
        conflict_reason
        (Framed-mark_all k (enter_leg k1 leg) leg early_stages (
          Framed-trans k k1 (enter_leg k1 leg) (Framed-mark_leg k rid "registered" true "")
            (Framed-enter_leg k1 leg)))

  Framed-ingest_content :
      (k : Campaign S) (rid : String) (products : Value) (digest : String) (found : Option String)
      → Framed k (ingest_content k rid products digest found).1
  Framed-ingest_content k rid products digest (some old) =
      if_ind (λ (r : Status × Campaign S). Framed k r.1) (old == digest)
        (λ _. Framed-mark_leg k rid "registered" true "") (λ _. Framed-record_conflict k rid)
  Framed-ingest_content k rid products digest none = record {
    configs = refl;
    required = refl;
    gated = refl;
    sound = mark-IsSound k.cf rid "registered" true "";
  }

  module _ (h : Hashing) where
    Framed-ingest :
        (k : Campaign S) (rid : String) (products : Value) (d : Dumped)
        → Framed k (ingest_dumped h k rid products d).1
    Framed-ingest k rid products (refused m) = Framed-mark_leg k rid "registered" false _
    Framed-ingest k rid products (dumped digest) =
        Framed-ingest_content k rid products digest (lookup rid k.ingested)

    Framed-govern_verified :
        (k : Campaign S) (rid : String) (shipment : Value) (v : List String)
        → Framed k (govern_verified h k rid shipment v).1
    unfolding ingest join
    Framed-govern_verified k rid shipment [] =
        Framed-trans k (mark_leg k rid "verified" true "") _
          (Framed-mark_leg k rid "verified" true "")
          (Framed-ingest (mark_leg k rid "verified" true "") rid (products_of shipment)
            (sha256_json h (products_of shipment)))
    Framed-govern_verified k rid shipment (x ∷ v) = Framed-mark_leg k rid "verified" false _

    pub Framed-govern :
        (k : Campaign S) (rid : String) (shipment : Value) → Framed k (govern h k rid shipment).1
    unfolding govern
    Framed-govern k rid shipment =
        Framed-trans k k1 _ (Framed-mark_leg k rid "completed" true "")
          (by_shape (malformed shipment))
      where
        k1 : Campaign S
        k1 = mark_leg k rid "completed" true ""

        by_shape : (bad : Option String) → Framed k1 (govern_shaped h k1 rid shipment bad).1
        by_shape (some bad) = Framed-mark_leg k1 rid "shipped" false bad
        by_shape none =
            Framed-trans k1 (mark_leg k1 rid "shipped" true "") _
              (Framed-mark_leg k1 rid "shipped" true "")
              (Framed-govern_verified (mark_leg k1 rid "shipped" true "") rid shipment _)

    pub Framed-on_skip :
        (k : Campaign S) (rid : String) (c : Config) → Framed k (on_skip h k rid c).1
    unfolding on_skip
    Framed-on_skip k rid c =
        if_ind (λ (r : Status × Campaign S). Framed k r.1) (has rid k.ingested)
          (λ _. Framed-mark_all k k rid late_stages (Framed-refl k))
          (λ _. Framed-trans k k1 _ stored (by_done (done (register k.world.store c) c)))
      where
        k1 : Campaign S
        k1 = record k { world = record (k.world) { store = register k.world.store c } }

        stored : Framed k k1
        stored = record { configs = refl; required = refl; gated = refl; sound = λ v. v }

        by_done : (found : Option Value) → Framed k1 (recover h k1 rid found).1
        by_done none = Framed-mark_leg k1 rid "completed" false _
        by_done (some shipment) = Framed-govern k1 rid shipment

    pub Framed-ensure_leg : (k : Campaign S) (rid : String) → Framed k (ensure_leg k rid)
    Framed-ensure_leg k rid =
        if_ind (Framed k) (has rid k.cf.rows) (λ _. Framed-refl k) (λ _. Framed-enter_leg k rid)

    pub Framed-settle_leg :
        (k : Campaign S) (c : Config) (outcome : Outcome) → Framed k (settle_leg h k c outcome).1
    unfolding settle_leg
    Framed-settle_leg k c (failed e) = Framed-mark_leg k c.rid "completed" false _
    Framed-settle_leg k c skipped = Framed-on_skip k c.rid c
    Framed-settle_leg k c (finished v) = by_shipment (or_none v)
      where
        by_shipment : (o : Option Value) → Framed k (settle_shipment h k c o).1
        by_shipment none = Framed-on_skip k c.rid c
        by_shipment (some shipment) = Framed-govern k c.rid shipment
