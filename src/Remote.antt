-- ===== src/Remote.antt =====
-- src/run_farm/remote.py, `run_one`, and the InProcessExecutor of src/run_farm/local_exec.py over it.
--
-- The import of the RunFn and of the config class by name is left out: both are arguments.
pub mod Dispatch
use run_farm.Prelude.{ℕ, String, Bool, true, false, Option, none, some, List, [], ◌∷◌, is_some, not}
use run_farm.Json.{Value, or_none}
use run_farm.Config.{Config}
use run_farm.Registry.Files.{Base, file_registry}
use run_farm.Registry.Events.{Events, jsonl_sink}
use run_farm.Driver.{RunFn, Outcome, skipped, finished, failed, World, execute_config}
use run_farm.Farm.Dispatch.{Record}

-- `result`: None for a skip and for a RunFn that returned None.
abbrev pub result_of : Option Value → Bool
result_of v = not (is_some v)

abbrev pub record_for : Config → Option Value → Record
record_for c result = record { run = some c.run_name; result = result; skipped = result_of result }

-- A record, or the exception of the RunFn.
pub data Answer (A : Type 0) : Type 0 where
  answers : A → Answer A
  raises : String → Answer A

abbrev pub answer_of : Config → Outcome → Answer Record
answer_of c skipped = answers (record_for c none)
answer_of c (finished v) = answers (record_for c (or_none v))
answer_of c (failed e) = raises e

module _ {S : Type 0} (from_json : Value → Config) (run_fn : RunFn S) where
  unfoldable pub run_one :
      Value → World (Base S) (Events S) → Answer Record × World (Base S) (Events S)
  run_one config_json w =
      let c = from_json config_json in
      let (outcome, w') = execute_config (file_registry S) (jsonl_sink S) run_fn c w in
      (answer_of c outcome, w')

  abbrev pub and_rest :
      Answer Record
      → World (Base S) (Events S)
      → Answer (List Record) × World (Base S) (Events S)
      → Answer (List Record) × World (Base S) (Events S)
  and_rest (raises e) w rest = (raises e, w)
  and_rest (answers r) w (answers rs, w') = (answers (r ∷ rs), w')
  and_rest (answers r) w (raises e, w') = (raises e, w')

  -- InProcessExecutor.run
  unfoldable pub run :
      List Config → World (Base S) (Events S) → Answer (List Record) × World (Base S) (Events S)
  run [] w = (answers [], w)
  run (c ∷ cs) w =
      let (answer, w') = run_one c.json w in let rest = run cs w' in and_rest answer w' rest
