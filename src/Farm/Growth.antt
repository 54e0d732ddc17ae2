-- ===== src/Farm/Growth.antt =====
-- How the corpus of src/run_farm/farm.py grows: by `execute_leg`, `_on_skip` and `_govern` alike.
use run_farm.Prelude.{
  ◌≡◌, refl, String, Option, none, some, List, [], ◌∷◌, Dict, lookup, insert, has, string_eq, arith,
  lookup-insert, if_ind,
}
use run_farm.Json.{or_none, Value, Hashing}
use run_farm.Config.{Config}
use run_farm.Registry.Files.{register, done}
use run_farm.Driver.{Outcome, skipped, finished, failed}
use run_farm.Farm.Campaign.{
  Campaign, Status, registered, conflict, skip_ok, lost, rejected, enter_leg,
}
use run_farm.Farm.Govern.{govern, recover, on_skip, settle_leg, settle_shipment, execute_leg_by}
use run_farm.Farm.Shapes.{late_stages}
use run_farm.Farm.Corpus.{Governed, govern-Governed, mark_all-Untouched}

module _ {S : Type 0} where
  -- The bookkeeping changes only with a status `registered`, and then by one new rid.
  abbrev pub Grows : Dict String String → String → Status × Campaign S → Type 0
  Grows old rid (registered, k') =
      (lookup rid old ≡ none) × ((digest : String) × (k'.ingested ≡ insert rid digest old))
  Grows old rid (_, k') = k'.ingested ≡ old

  module _ (h : Hashing) where
    pub govern-Grows :
        (k : Campaign S) (rid : String) (shipment : Value)
        → Grows k.ingested rid (govern h k rid shipment)
    govern-Grows k rid shipment =
        weaken (govern h k rid shipment) (govern-Governed h k rid shipment)
      where
        weaken : (r : Status × Campaign S) → Governed h k rid shipment r → Grows k.ingested rid r
        weaken (registered, k') g = (g.1.fresh, (g.1.digest, g.1.bookkeeping))
        weaken (conflict, k') g = g.0
        weaken (skip_ok _, k') g = g.0
        weaken (lost _, k') g = g.0
        weaken (rejected _, k') g = g.0

    pub on_skip-Grows :
        (k : Campaign S) (rid : String) (c : Config) → Grows k.ingested rid (on_skip h k rid c)
    unfolding on_skip
    on_skip-Grows k rid c =
        if_ind (Grows k.ingested rid) (has rid k.ingested)
          (λ _. (mark_all-Untouched k rid late_stages).0)
          (λ _. by_done (done (register k.world.store c) c))
      where
        k' : Campaign S
        k' = record k { world = record (k.world) { store = register k.world.store c } }

        by_done : (found : Option Value) → Grows k.ingested rid (recover h k' rid found)
        by_done none = refl
        by_done (some shipment) = govern-Grows k' rid shipment

    settle_leg-Grows :
        (k : Campaign S) (c : Config) (outcome : Outcome)
        → Grows k.ingested c.rid (settle_leg h k c outcome)
    unfolding settle_leg
    settle_leg-Grows k c (failed e) = refl
    settle_leg-Grows k c skipped = on_skip-Grows k c.rid c
    settle_leg-Grows k c (finished v) = by_shipment (or_none v)
      where
        by_shipment : (o : Option Value) → Grows k.ingested c.rid (settle_shipment h k c o)
        by_shipment none = on_skip-Grows k c.rid c
        by_shipment (some shipment) = govern-Grows k c.rid shipment

    execute_leg_by-Grows :
        (k : Campaign S) (c : Config) (outcome : Outcome)
        → Grows k.ingested c.rid (execute_leg_by h k c outcome)
    unfolding execute_leg_by
    execute_leg_by-Grows k c outcome =
        if_ind (λ (k' : Campaign S). Grows k.ingested c.rid (settle_leg h k' c outcome))
          (has c.rid k.cf.rows) (λ _. settle_leg-Grows k c outcome)
          (λ _. settle_leg-Grows (enter_leg k c.rid) c outcome)

    Grows-keeps :
        (old : Dict String String) (rid x content : String) (r : Status × Campaign S)
        → Grows old rid r
        → lookup x old ≡ some content
        → lookup x r.1.ingested ≡ some content
    Grows-keeps old rid x content (registered, k') (new, (digest, e)) found =
        rw e (ground (arith, lookup-insert rid x digest old, string_eq.beq_iff rid x))
    Grows-keeps old rid x content (conflict, k') e found = rw e found
    Grows-keeps old rid x content (skip_ok _, k') e found = rw e found
    Grows-keeps old rid x content (lost _, k') e found = rw e found
    Grows-keeps old rid x content (rejected _, k') e found = rw e found

    -- Legs in turn, each with the outcome of its runner.
    abbrev pub execute_legs : Campaign S → List (Config × Outcome) → Campaign S
    execute_legs k [] = k
    execute_legs k ((c, outcome) ∷ legs) = execute_legs (execute_leg_by h k c outcome).1 legs

    -- Whatever legs run with whatever outcomes, a content hash that the corpus has for a rid is never
    -- replaced or removed.
    pub corpus_never_overwritten :
        (k : Campaign S) (legs : List (Config × Outcome)) (rid content : String)
        → lookup rid k.ingested ≡ some content
        → lookup rid (execute_legs k legs).ingested ≡ some content
    corpus_never_overwritten k [] rid content found = found
    corpus_never_overwritten k ((c, outcome) ∷ legs) rid content found =
        corpus_never_overwritten (execute_leg_by h k c outcome).1 legs rid content (
          Grows-keeps k.ingested c.rid rid content (execute_leg_by h k c outcome)
            (execute_leg_by-Grows k c outcome) found)
