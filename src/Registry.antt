-- ===== src/Registry.antt =====
-- src/run_farm/protocols.py, RunRegistry and EventSink: the contract between the driver and a store of runs.
pub mod Files
pub mod Events
use run_farm.Prelude.{
  ℕ, ◌≡◌, String, Bool, true, false, Option, none, some, ◌==◌, string_eq, if◌then◌else◌,
}
use run_farm.Json.{Value}
use run_farm.Config.{Config}

-- A handle is the config that was registered. `S` is the integrator state, `W` the store.
pub record RunRegistry (S W : Type 0) : Type 0 where
  pub register : W → Config → W
  pub is_complete : W → Config → Bool
  pub load : W → Config → Option (S × ℕ)
  pub save : W → Config → S → ℕ → W
  pub finish : W → Config → Value → W

-- What the driver relies on: registering is idempotent and forgets nothing, a checkpoint replaces
-- the last one of its run, and a finish marks its run alone. `registered` is no operation: it says
-- which runs `register` leaves as they are.
pub record IsRegistry {S W : Type 0} (r : RunRegistry S W) : Type 0 where
  pub registered : W → Config → Bool
  pub registered-register :
      (w : W) (c d : Config)
      → registered (r.register w c) d ≡ (if c.run_name == d.run_name then true else registered w d)
  pub registered-save :
      (w : W) (c d : Config) (s : S) (k : ℕ) → registered (r.save w c s k) d ≡ registered w d
  pub registered-finish :
      (w : W) (c d : Config) (v : Value) → registered (r.finish w c v) d ≡ registered w d
  pub register_again : (w : W) (c : Config) → registered w c ≡ true → r.register w c ≡ w
  pub complete-register :
      (w : W) (c d : Config) → r.is_complete (r.register w c) d ≡ r.is_complete w d
  pub load-register : (w : W) (c d : Config) → r.load (r.register w c) d ≡ r.load w d
  pub complete-save :
      (w : W) (c d : Config) (s : S) (k : ℕ) → r.is_complete (r.save w c s k) d ≡ r.is_complete w d
  pub load-save :
      (w : W) (c d : Config) (s : S) (k : ℕ)
      → r.load (r.save w c s k) d ≡ (if c.run_name == d.run_name then some (s, k) else r.load w d)
  pub complete-finish :
      (w : W) (c d : Config) (v : Value)
      → r.is_complete (r.finish w c v) d
        ≡ (if c.run_name == d.run_name then true else r.is_complete w d)
  pub load-finish : (w : W) (c d : Config) (v : Value) → r.load (r.finish w c v) d ≡ r.load w d

-- EventSink: where the records go.
pub record EventSink (S E : Type 0) : Type 0 where
  pub emit : E → Config → Value → E
  pub trigger : E → Config → S → String → E
  pub close : E → Config → E
