-- ===== src/Worker.antt =====
-- src/run_farm/worker.py: `main`, which runs one config and prints its record as a line.
--
-- The arguments of the command line are those of `run_one`; the output is in lines, stdout before stderr, as `_ssh`
-- of src/run_farm/provider_exec.py joins them.
pub mod Line
use Prim.Native.String.{◌++◌ as appended}
use run_farm.Prelude.{String, Option, none, some, List, [], ◌∷◌, ◌++◌}
use run_farm.Json.{Value, null, flag, text, object, end, field}
use run_farm.Config.{Config}
use run_farm.Registry.Files.{Base}
use run_farm.Registry.Events.{Events}
use run_farm.Driver.{RunFn, World}
use run_farm.Farm.Dispatch.{Record}
use run_farm.Remote.{Answer, answers, raises, run_one}
use run_farm.Hosted.Worker.{result_prefix}

abbrev pub or_null : Option Value → Value
or_null none = null
or_null (some v) = v

abbrev pub name_value : Option String → Value
name_value none = null
name_value (some s) = text s

-- The dictionary that `run_one` returns.
unfoldable pub to_value : Record → Value
to_value r = object (
    field "run" (name_value r.run)
      (field "result" (or_null r.result) (field "skipped" (flag r.skipped) end)))

-- The lines of the process: those of the RunFn, the record, those of stderr. An exception prints no record.
unfoldable pub printed : (Value → String) → List String → List String → Answer Record → List String
printed dumps said errors (raises e) = said ++ errors
printed dumps said errors (answers r) = said ++ appended result_prefix (dumps (to_value r)) ∷ errors

-- `main`, with what `run_one` answers and the lines that it printed.
module _ {S : Type 0} (from_json : Value → Config) (run_fn : RunFn S) (dumps : Value → String) where
  unfoldable pub main :
      List String
      → List String
      → Value
      → World (Base S) (Events S)
      → List String × World (Base S) (Events S)
  main said errors config_json w =
      let (answer, w') = run_one from_json run_fn config_json w in
      (printed dumps said errors answer, w')
