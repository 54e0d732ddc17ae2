-- ===== src/Store.antt =====
-- src/run_farm/store.py: the blob store, and the registry of runs and the sink of events over one.
--
-- A blob stands for the bytes that the program writes of it. `base` is the text after its `rstrip("/")`.
use package.text.Mathlib.Text.{starts_with}
use run_farm.Prelude.{
  ℕ, ◌≡◌, String, Bool, true, false, ◌&&◌, Option, none, some, List, [], ◌∷◌, ◌++◌, map, Dict,
  lookup, insert, has, ◌==◌, string_eq, any, keep_if, is_some, concat, join, sorted, if◌then◌else◌,
}
use run_farm.Json.{Value}
use run_farm.Config.{Config}
use run_farm.Registry.{RunRegistry, EventSink}
pub mod Memory
pub mod Keys
pub mod Contract
pub mod Stream

-- What a key holds. `S` is the integrator state.
pub data Blob (S : Type 0) : Type 0 where
  config_blob : Value → Blob S
  manifest_blob : String → Value → Blob S
  checkpoint_blob : S → ℕ → Blob S
  result_blob : Value → Blob S
  event_blob : Value → Blob S
  capture_blob : String → S → Blob S

-- The protocol BlobStore.
pub record BlobStore (B W : Type 0) : Type 0 where
  pub get : W → String → Option B
  pub put : W → String → B → W
  pub exists : W → String → Bool
  pub list : W → String → List String

-- What the docstring of the protocol asks of an implementation: `put` is durable, and `list` returns every
-- key with the prefix.
pub record IsBlobStore {B W : Type 0} (s : BlobStore B W) : Type 0 where
  pub get-put :
      (w : W) (k j : String) (b : B)
      → s.get (s.put w k b) j ≡ (if k == j then some b else s.get w j)
  pub exists-get : (w : W) (k : String) → s.exists w k ≡ is_some (s.get w k)
  pub list_all :
      (w : W) (p k : String) → any (λ j. j == k) (s.list w p) ≡ (s.exists w k && starts_with k p)

module _ (base : String) where
  -- `_key`
  unfoldable pub key : String → String → String
  unfolding join
  key name part = join "/" (base ∷ name ∷ part ∷ [])

  unfoldable pub manifest_key : String → String
  unfolding concat
  manifest_key name = concat (base ∷ "/_manifest/" ∷ name ∷ ".json" ∷ [])

  unfoldable pub events_prefix : String → String
  unfolding concat
  events_prefix name = concat (base ∷ "/" ∷ name ∷ "/events/" ∷ [])

  unfoldable pub event_key : String → String → String
  unfolding concat events_prefix
  event_key name blob_key = concat (events_prefix name ∷ blob_key ∷ ".json" ∷ [])

-- `_load_checkpoint`: the blob under this key is one that `save` put.
abbrev pub load_checkpoint : {S : Type 0} → Option (Blob S) → Option (S × ℕ)
load_checkpoint (some (checkpoint_blob s k)) = some (s, k)
load_checkpoint _ = none

module _ {S W : Type 0} (store : BlobStore (Blob S) W) where
  -- `_read_json_blobs`: a key whose blob is gone is skipped.
  unfoldable pub read_blobs : W → List String → List (Blob S)
  read_blobs w [] = []
  read_blobs w (k ∷ ks) = elim (store.get w k) [
    | none ↦ read_blobs w ks
    | some b ↦ b ∷ read_blobs w ks
  ]

module _ {S W : Type 0} (store : BlobStore (Blob S) W) (base : String) where
  unfoldable pub registered : W → Config → Bool
  registered w c = store.exists w (key base c.run_name "config.json")

  unfoldable pub register : W → Config → W
  unfolding registered
  register w c =
      if registered w c
      then w
      else store.put (store.put w (key base c.run_name "config.json") (config_blob c.json))
          (manifest_key base c.run_name) (manifest_blob c.run_name c.json)

  unfoldable pub is_complete : W → Config → Bool
  is_complete w c = store.exists w (key base c.run_name "DONE.json")

  unfoldable pub load : W → Config → Option (S × ℕ)
  load w c = load_checkpoint (store.get w (key base c.run_name "checkpoint.npz"))

  unfoldable pub save : W → Config → S → ℕ → W
  save w c s k = store.put w (key base c.run_name "checkpoint.npz") (checkpoint_blob s k)

  unfoldable pub finish : W → Config → Value → W
  finish w c v = store.put w (key base c.run_name "DONE.json") (result_blob v)

  unfoldable pub manifest : W → List (Blob S)
  unfolding concat read_blobs
  manifest w = read_blobs store w (sorted (store.list w (concat (base ∷ "/_manifest/" ∷ []))))

  abbrev pub object_registry : RunRegistry S W
  object_registry = record {
    register = register;
    is_complete = is_complete;
    load = load;
    save = save;
    finish = finish;
  }

  -- `emit`, with the key that `_blob_key` makes of the clock and a fresh uuid.
  unfoldable pub emit : String → W → Config → Value → W
  emit blob_key w c v = store.put w (event_key base c.run_name blob_key) (event_blob v)

  unfoldable pub trigger : String → W → Config → S → String → W
  unfolding concat
  trigger blob_key w c s reason =
      store.put w (concat (base ∷ "/" ∷ c.run_name ∷ "/triggered/" ∷ blob_key ∷ ".npz" ∷ []))
        (capture_blob reason s)

  unfoldable pub close : W → Config → W
  close w c = w

  -- `events`
  unfoldable pub events : W → String → List (Blob S)
  unfolding read_blobs events_prefix
  events w name = read_blobs store w (sorted (store.list w (events_prefix base name)))
