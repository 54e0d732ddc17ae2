-- ===== src/Examples/StoreRuns.antt =====
-- Two runs of one campaign in a MemoryBlobStore of src/run_farm/store.py.
use package.text.Mathlib.Text.{starts_with}
use run_farm.Prelude.{
  ℕ, ◌≡◌, refl, String, true, [], ◌∷◌, Dict, lookup, insert, has, string_eq, sorted,
}
use run_farm.Json.{null, text}
use run_farm.Config.{Config}
use run_farm.Store.{
  Blob, config_blob, manifest_blob, event_blob, key, manifest_key, events_prefix, event_key,
  register, emit, events,
}
use run_farm.Store.Memory.{memory_store, memory_store-IsBlobStore, list_keys}
use run_farm.Store.Contract.{IsClear, KeepsContract, object_registry-KeepsContract}
use run_farm.Store.Stream.{events-emit}

abbrev config : String → Config
config name = record { config_hash = name; run_name = name; json = null; rid = name }

abbrev blobs : Dict String (Blob ℕ)
blobs = ("runs/b/events/0002-f0.json", event_blob null) ∷ []

registered_run :
    register (memory_store (Blob ℕ)) "runs" [] (config "a")
    ≡ ("runs/a/config.json", config_blob null)
      ∷ ("runs/_manifest/a.json", manifest_blob "a" null)
      ∷ []
unfolding register has lookup insert key manifest_key
registered_run = refl

clear : IsClear "runs" (config "a") (config "b")
unfolding manifest_key key
clear = record { no_config = refl; no_done = refl; no_checkpoint = refl }

object_registry-KeepsContract_example :
    KeepsContract (memory_store (Blob ℕ)) "runs" blobs (config "a") (config "b")
object_registry-KeepsContract_example =
    object_registry-KeepsContract (memory_store (Blob ℕ)) (memory_store-IsBlobStore (Blob ℕ)) "runs"
      blobs (config "a") (config "b") clear

events-emit_example :
    (events
        (memory_store (Blob ℕ))
        "runs"
        (emit (memory_store (Blob ℕ)) "runs" "0003-a1" blobs (config "b") (text "x"))
        "b"
      ≡ event_blob null ∷ event_blob (text "x") ∷ [])
    × (starts_with (event_key "runs" "b" "0003-a1") (events_prefix "runs" "b") ≡ true)
unfolding events event_key events_prefix list_keys sorted lookup
events-emit_example = events-emit "runs" "0003-a1" "b" blobs (config "b") (text "x") (λ own. refl)

-- The run "b" is read as before when "a" emits, though every key of "b" is later than the new one.
foreign_run :
    events
      (memory_store (Blob ℕ))
      "runs"
      (emit (memory_store (Blob ℕ)) "runs" "0003-a1" blobs (config "a") (text "x"))
      "b"
    ≡ event_blob null ∷ []
unfolding events emit event_key events_prefix list_keys sorted lookup insert
    run_farm.Store.read_blobs
foreign_run = refl
