-- ===== src/Farm/Corpus.antt =====
-- What `_govern` of src/run_farm/farm.py does to the corpus, on every branch.
use run_farm.Prelude.{
  ◌≡◌, refl, String, true, Option, none, some, List, [], ◌∷◌, ◌++◌, Dict, lookup, insert, ◌==◌,
  string_eq, join, suffixed, if_ind,
}
use run_farm.Json.{Value, Hashing, Dumped, dumped, refused, sha256_json}
use run_farm.Farm.Shipment.{verify_shipment}
use run_farm.Farm.Shipment.Verified.{IsVerified, verify_shipment-eq-nil}
use run_farm.Farm.Shapes.{early_stages, record_of, malformed, products_of}
use run_farm.Farm.Campaign.{
  Campaign, Status, registered, conflict, skip_ok, lost, rejected, mark_leg, enter_leg,
}
use run_farm.Farm.Govern.{
  mark_all, ingest_content, ingest_dumped, ingest, govern_verified, govern_shaped, govern,
}

module _ {S : Type 0} where
  -- The corpus and its bookkeeping are untouched.
  abbrev pub Untouched : Campaign S → Campaign S → Type 0
  Untouched k k' = (k'.ingested ≡ k.ingested) × (k'.corpus ≡ k.corpus)

  pub mark_all-Untouched :
      (k : Campaign S) (rid : String) (stages : List String) → Untouched k (mark_all k rid stages)
  unfolding mark_all
  mark_all-Untouched k rid [] = (refl, refl)
  mark_all-Untouched k rid (stage ∷ stages) =
      mark_all-Untouched (mark_leg k rid stage true "") rid stages

  module _ (h : Hashing) where
    -- A new leg in the corpus: the shipment was verified against the tag, its rid was new, and its
    -- record and its content hash were added.
    pub record Registered (old : Dict String String) (corpus : List Value) (rid : String)
        (products : Value) (k' : Campaign S) : Type 0 where
      pub digest : String
      pub hashed : sha256_json h products ≡ dumped digest
      pub fresh : lookup rid old ≡ none
      pub bookkeeping : k'.ingested ≡ insert rid digest old
      pub stored : k'.corpus ≡ corpus ++ record_of products ∷ []

    abbrev pub Ingested : Campaign S → String → Value → Status × Campaign S → Type 0
    Ingested k rid products (registered, k') = Registered k.ingested k.corpus rid products k'
    Ingested k rid products (_, k') = Untouched k k'

    ingest_content-Ingested :
        (k : Campaign S) (rid : String) (products : Value) (digest : String) (found : Option String)
        → sha256_json h products ≡ dumped digest
        → lookup rid k.ingested ≡ found
        → Ingested k rid products (ingest_content k rid products digest found)
    ingest_content-Ingested k rid products digest (some old) e f =
        if_ind (Ingested k rid products) (old == digest) (λ _. (refl, refl))
          (λ _.
            mark_all-Untouched
              (enter_leg (mark_leg k rid "registered" true "") (suffixed rid ".conflict"))
              (suffixed rid ".conflict") early_stages)
    ingest_content-Ingested k rid products digest none e f = record {
      digest = digest;
      hashed = e;
      fresh = f;
      bookkeeping = refl;
      stored = refl;
    }

    ingest-Ingested :
        (k : Campaign S) (rid : String) (products : Value)
        → Ingested k rid products (ingest h k rid products)
    unfolding ingest
    ingest-Ingested k rid products = by_dump (sha256_json h products) refl
      where
        by_dump :
            (d : Dumped)
            → sha256_json h products ≡ d
            → Ingested k rid products (ingest_dumped h k rid products d)
        by_dump (refused m) e = (refl, refl)
        by_dump (dumped digest) e =
            ingest_content-Ingested k rid products digest (lookup rid k.ingested) e refl

    -- What one governed shipment does: a status `registered` comes with a verified shipment and a new
    -- leg in the corpus, and with every other status the corpus is untouched.
    abbrev pub Governed : Campaign S → String → Value → Status × Campaign S → Type 0
    Governed k rid shipment (registered, k') =
        IsVerified h shipment k.required_shas
        × Registered k.ingested k.corpus rid (products_of shipment) k'
    Governed k rid shipment (_, k') = Untouched k k'

    govern_verified-Governed :
        (k : Campaign S) (rid : String) (shipment : Value) (v : List String)
        → verify_shipment h shipment k.required_shas ≡ v
        → Governed k rid shipment (govern_verified h k rid shipment v)
    unfolding join
    govern_verified-Governed k rid shipment (x ∷ v) e = (refl, refl)
    govern_verified-Governed k rid shipment [] e =
        lift (ingest h k' rid (products_of shipment))
          (ingest-Ingested k' rid (products_of shipment))
      where
        k' : Campaign S
        k' = mark_leg k rid "verified" true ""

        lift :
            (r : Status × Campaign S)
            → Ingested k' rid (products_of shipment) r
            → Governed k rid shipment r
        lift (registered, k'') i = ((verify_shipment-eq-nil h shipment k.required_shas).0 e, i)
        lift (conflict, k'') i = i
        lift (skip_ok _, k'') i = i
        lift (lost _, k'') i = i
        lift (rejected _, k'') i = i

    -- Whatever the shipment: the leg is registered only if the shipment verifies against the
    -- required digests and its rid is new, and then its record is appended and its content hash is
    -- kept; with every other status the corpus and its bookkeeping are as before.
    pub govern-Governed :
        (k : Campaign S) (rid : String) (shipment : Value)
        → Governed k rid shipment (govern h k rid shipment)
    unfolding govern
    govern-Governed k rid shipment = by_shape (malformed shipment)
      where
        by_shape :
            (bad : Option String)
            → Governed k rid shipment
                (govern_shaped h (mark_leg k rid "completed" true "") rid shipment bad)
        by_shape (some bad) = (refl, refl)
        by_shape none =
            govern_verified-Governed
              (mark_leg (mark_leg k rid "completed" true "") rid "shipped" true "") rid shipment _
              refl
