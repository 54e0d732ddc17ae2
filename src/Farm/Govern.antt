-- ===== src/Farm/Govern.antt =====
-- src/run_farm/farm.py, class FarmCampaign: `execute_leg`, `_on_skip`, `_govern`, `_ingest`.
use run_farm.Prelude.{
  String, true, false, Option, none, some, List, [], ◌∷◌, ◌++◌, lookup, insert, has, ◌==◌,
  string_eq, if◌then◌else◌, concat, join, suffixed,
}
use run_farm.Json.{or_none, Value, Hashing, Dumped, dumped, refused, sha256_json}
use run_farm.Config.{Config}
use run_farm.Registry.Files.{file_registry, register, done}
use run_farm.Registry.Events.{jsonl_sink}
use run_farm.Driver.{RunFn, Outcome, skipped, finished, failed, execute_config}
use run_farm.Farm.Shipment.{verify_shipment}
use run_farm.Farm.Shapes.{
  early_stages, conflict_reason, record_of, malformed, products_of, no_done, late_stages,
}
use run_farm.Farm.Campaign.{
  Campaign, Status, registered, conflict, skip_ok, lost, rejected, is_empty, mark_leg, enter_leg,
}

module _ {S : Type 0} where
  -- Every stage but the last.
  unfoldable pub mark_all : Campaign S → String → List String → Campaign S
  mark_all k rid [] = k
  mark_all k rid (stage ∷ stages) = mark_all (mark_leg k rid stage true "") rid stages

  abbrev pub record_conflict : Campaign S → String → Campaign S
  record_conflict k rid =
      let leg = suffixed rid ".conflict" in
      let k' = enter_leg (mark_leg k rid "registered" true "") leg in
      mark_leg (mark_all k' leg early_stages) leg "registered" false conflict_reason

  -- What becomes of products with the hash `content`.
  abbrev pub ingest_content :
      Campaign S → String → Value → String → Option String → Status × Campaign S
  ingest_content k rid products content (some old) =
      if old == content
      then (skip_ok "already in corpus, identical content", mark_leg k rid "registered" true "")
      else (conflict, record_conflict k rid)
  ingest_content k rid products content none = (
    registered,
    mark_leg
        (record k {
          corpus = k.corpus ++ record_of products ∷ [];
          ingested = insert rid content k.ingested;
        })
        rid "registered" true "",
  )

  abbrev pub ensure_leg : Campaign S → String → Campaign S
  ensure_leg k rid = if has rid k.cf.rows then k else enter_leg k rid

  module _ (hashing : Hashing) where
    abbrev pub ingest_dumped : Campaign S → String → Value → Dumped → Status × Campaign S
    ingest_dumped k rid products (refused m) =
        let reason = concat ("unhashable products: " ∷ m ∷ []) in
        (rejected (reason ∷ []), mark_leg k rid "registered" false reason)
    ingest_dumped k rid products (dumped content) =
        ingest_content k rid products content (lookup rid k.ingested)

    unfoldable pub ingest : Campaign S → String → Value → Status × Campaign S
    ingest k rid products = ingest_dumped k rid products (sha256_json hashing products)

    abbrev pub govern_verified : Campaign S → String → Value → List String → Status × Campaign S
    govern_verified k rid shipment v =
        let k' = mark_leg k rid "verified" (is_empty v) (join "; " v) in
        if is_empty v then ingest k' rid (products_of shipment) else (rejected v, k')

    abbrev pub govern_shaped : Campaign S → String → Value → Option String → Status × Campaign S
    govern_shaped k rid shipment (some bad) =
        (rejected (bad ∷ []), mark_leg k rid "shipped" false bad)
    govern_shaped k rid shipment none =
        govern_verified (mark_leg k rid "shipped" true "") rid shipment
          (verify_shipment hashing shipment k.required_shas)

    unfoldable pub govern : Campaign S → String → Value → Status × Campaign S
    govern k rid shipment =
        govern_shaped (mark_leg k rid "completed" true "") rid shipment (malformed shipment)

    abbrev pub recover : Campaign S → String → Option Value → Status × Campaign S
    recover k rid none = (lost no_done, mark_leg k rid "completed" false no_done)
    recover k rid (some shipment) = govern k rid shipment

    -- `registry.register` writes the run directory; the result is read back from DONE.json.
    unfoldable pub on_skip : Campaign S → String → Config → Status × Campaign S
    on_skip k rid c =
        if has rid k.ingested
        then (skip_ok "already complete", mark_all k rid late_stages)
        else (let base = register k.world.store c in
            recover (record k { world = record (k.world) { store = base } }) rid (done base c))

    -- `shipment is None`, a skip or a RunFn that returned None, or a shipment.
    abbrev pub settle_shipment : Campaign S → Config → Option Value → Status × Campaign S
    settle_shipment k c none = on_skip k c.rid c
    settle_shipment k c (some shipment) = govern k c.rid shipment

    -- `execute_leg` behind its runner.
    unfoldable pub settle_leg : Campaign S → Config → Outcome → Status × Campaign S
    settle_leg k c (failed e) =
        (lost e, mark_leg k c.rid "completed" false (concat ("HOST_LOST: " ∷ e ∷ [])))
    settle_leg k c skipped = on_skip k c.rid c
    settle_leg k c (finished v) = settle_shipment k c (or_none v)

    -- With `run=`: the outcome of the injected thunk.
    unfoldable pub execute_leg_by : Campaign S → Config → Outcome → Status × Campaign S
    execute_leg_by k c outcome = settle_leg (ensure_leg k c.rid) c outcome

    -- By default: `execute_config` over the campaign's own registry and sink.
    unfoldable pub execute_leg : Campaign S → Config → RunFn S → Status × Campaign S
    execute_leg k c run_fn =
        let k' = ensure_leg k c.rid in
        let (outcome, w) = execute_config (file_registry S) (jsonl_sink S) run_fn c k'.world in
        settle_leg (record k' { world = w }) c outcome
