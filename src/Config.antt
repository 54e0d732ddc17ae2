-- ===== src/Config.antt =====
-- src/run_farm/protocols.py: what the farm reads of a `RunConfig`.
use run_farm.Prelude.{String}
use run_farm.Json.{Value}

-- `config_hash()`, `run_name()`, `to_json()` and `params["rid"]`.
pub record Config : Type 0 where
  pub config_hash : String
  pub run_name : String
  pub json : Value
  pub rid : String
