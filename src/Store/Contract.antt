-- ===== src/Store/Contract.antt =====
-- The registry of src/run_farm/store.py against the contract of the driver.
use run_farm.Prelude.{
  ℕ, ◌≡◌, ap, beq_refl, String, true, false, some, ◌==◌, string_eq, if◌then◌else◌, arith,
}
use run_farm.Json.{Value}
use run_farm.Config.{Config}
use run_farm.Store.{
  Blob, config_blob, manifest_blob, checkpoint_blob, result_blob, BlobStore, IsBlobStore, key,
  manifest_key, registered, register, is_complete, load, load_checkpoint, save, finish,
}
use run_farm.Store.Keys.{
  key_same, done-config, checkpoint-config, checkpoint-done, done-checkpoint, config-done,
  config-checkpoint,
}

-- The manifest blob of `c` is no blob of the run `d`.
pub record IsClear (base : String) (c d : Config) : Type 0 where
  pub no_config : (manifest_key base c.run_name == key base d.run_name "config.json") ≡ false
  pub no_done : (manifest_key base c.run_name == key base d.run_name "DONE.json") ≡ false
  pub no_checkpoint : (manifest_key base c.run_name == key base d.run_name "checkpoint.npz") ≡ false

-- The contract at one state, for an operation on the run of `c` and a question about that of `d`.
pub record KeepsContract {S W : Type 0} (store : BlobStore (Blob S) W) (base : String) (w : W)
    (c d : Config) : Type 0 where
  pub registered-register :
      registered store base (register store base w c) d
      ≡ (if c.run_name == d.run_name then true else registered store base w d)
  pub register_again : register store base (register store base w c) c ≡ register store base w c
  pub complete-register :
      is_complete store base (register store base w c) d ≡ is_complete store base w d
  pub load-register : load store base (register store base w c) d ≡ load store base w d
  pub registered-save :
      (s : S) (k : ℕ)
      → registered store base (save store base w c s k) d ≡ registered store base w d
  pub complete-save :
      (s : S) (k : ℕ)
      → is_complete store base (save store base w c s k) d ≡ is_complete store base w d
  pub load-save :
      (s : S) (k : ℕ)
      → load store base (save store base w c s k) d
        ≡ (if c.run_name == d.run_name then some (s, k) else load store base w d)
  pub registered-finish :
      (v : Value) → registered store base (finish store base w c v) d ≡ registered store base w d
  pub complete-finish :
      (v : Value)
      → is_complete store base (finish store base w c v) d
        ≡ (if c.run_name == d.run_name then true else is_complete store base w d)
  pub load-finish : (v : Value) → load store base (finish store base w c v) d ≡ load store base w d

module _ {S W : Type 0} (store : BlobStore (Blob S) W) (laws : IsBlobStore store)
    (base : String) where
  exists-put :
      (w : W) (k j : String) (b : Blob S)
      → store.exists (store.put w k b) j ≡ (if k == j then true else store.exists w j)
  exists-put w k j b =
      ground (arith, laws.exists-get (store.put w k b) j, laws.exists-get w j, laws.get-put w k j b)

  -- What a registration leaves of a key that is not the manifest's.
  exists-register :
      (w : W) (c : Config) (j : String)
      → (manifest_key base c.run_name == j) ≡ false
      → store.exists (register store base w c) j ≡ (
          if registered store base w c
          then store.exists w j
          else if key base c.run_name "config.json" == j
          then true
          else store.exists w j)
  unfolding register
  exists-register w c j apart =
      let cfg = store.put w (key base c.run_name "config.json") (config_blob c.json) in
      ground (
        arith,
        exists-put cfg (manifest_key base c.run_name) j (manifest_blob c.run_name c.json),
        exists-put w (key base c.run_name "config.json") j (config_blob c.json),
      )

  get-register :
      (w : W) (c : Config) (j : String)
      → (manifest_key base c.run_name == j) ≡ false
      → (key base c.run_name "config.json" == j) ≡ false
      → store.get (register store base w c) j ≡ store.get w j
  unfolding register
  get-register w c j apart other =
      let cfg = store.put w (key base c.run_name "config.json") (config_blob c.json) in
      ground (
        arith,
        laws.get-put cfg (manifest_key base c.run_name) j (manifest_blob c.run_name c.json),
        laws.get-put w (key base c.run_name "config.json") j (config_blob c.json),
      )

  registered-register :
      (w : W) (c d : Config)
      → IsClear base c d
      → registered store base (register store base w c) d
        ≡ (if c.run_name == d.run_name then true else registered store base w d)
  unfolding registered
  registered-register w c d clear = ground (
    arith,
    exists-register w c (key base d.run_name "config.json"),
    key_same base c.run_name d.run_name "config.json",
    string_eq.beq_iff c.run_name d.run_name,
  )

  register_again :
      (w : W) (c : Config)
      → register store base (register store base w c) c ≡ register store base w c
  unfolding register registered
  register_again w c =
      let cfg = store.put w (key base c.run_name "config.json") (config_blob c.json) in
      ground (
        arith,
        beq_refl (key base c.run_name "config.json"),
        exists-put cfg (manifest_key base c.run_name) (key base c.run_name "config.json")
            (manifest_blob c.run_name c.json),
        exists-put w (key base c.run_name "config.json") (key base c.run_name "config.json")
            (config_blob c.json),
      )

  -- Over any store that keeps its contract, the registry keeps the driver's, for two runs where the manifest
  -- blob of the first is no blob of the second: registering is idempotent and changes no completion or
  -- checkpoint, `load` returns the last `save` of its run, and `finish` completes its run alone.
  pub object_registry-KeepsContract :
      (w : W) (c d : Config) → IsClear base c d → KeepsContract store base w c d
  unfolding registered is_complete load save finish
  object_registry-KeepsContract w c d clear = record {
    registered-register = registered-register w c d clear;
    register_again = register_again w c;
    complete-register = ground (
      arith,
      exists-register w c (key base d.run_name "DONE.json"),
      config-done base c.run_name d.run_name,
    );
    load-register = ap load_checkpoint (
        get-register w c (key base d.run_name "checkpoint.npz") clear.no_checkpoint
          (config-checkpoint base c.run_name d.run_name));
    registered-save = λ s k. ground (
      arith,
      exists-put w (key base c.run_name "checkpoint.npz") (key base d.run_name "config.json")
          (checkpoint_blob s k),
      checkpoint-config base c.run_name d.run_name,
    );
    complete-save = λ s k. ground (
      arith,
      exists-put w (key base c.run_name "checkpoint.npz") (key base d.run_name "DONE.json")
          (checkpoint_blob s k),
      checkpoint-done base c.run_name d.run_name,
    );
    load-save = λ s k. ground (
      arith,
      laws.get-put w (key base c.run_name "checkpoint.npz") (key base d.run_name "checkpoint.npz")
          (checkpoint_blob s k),
      key_same base c.run_name d.run_name "checkpoint.npz",
    );
    registered-finish = λ v. ground (
      arith,
      exists-put w (key base c.run_name "DONE.json") (key base d.run_name "config.json")
          (result_blob v),
      done-config base c.run_name d.run_name,
    );
    complete-finish = λ v. ground (
      arith,
      exists-put w (key base c.run_name "DONE.json") (key base d.run_name "DONE.json")
          (result_blob v),
      key_same base c.run_name d.run_name "DONE.json",
    );
    load-finish = λ v. ground (
      arith,
      laws.get-put w (key base c.run_name "DONE.json") (key base d.run_name "checkpoint.npz")
          (result_blob v),
      done-checkpoint base c.run_name d.run_name,
    );
  }
