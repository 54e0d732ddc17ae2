-- ===== src/Examples/WorkerRuns.antt =====
-- The line of a worker of src/run_farm/worker.py, read by its executor.
use run_farm.Prelude.{◌≡◌, refl, sym, ◌∙◌, ℕ, String, some, none, List, [], ◌∷◌}
use run_farm.Json.{Value, text, end, object}
use run_farm.Registry.Files.{Base}
use run_farm.Registry.Events.{Events}
use run_farm.Driver.{RunFn, returned, checkpoint, World}
use run_farm.Farm.Dispatch.{Record}
use run_farm.Remote.{answers, record_for, run_one}
use run_farm.Hosted.{Parsing}
use run_farm.Hosted.Worker.{result_line, parsed}
use run_farm.Examples.HostedRuns.{cloud, parsing, settings, config}
use run_farm.Worker.{to_value, main}
use run_farm.Worker.Line.{parsed-main, read_back}

abbrev run_fn : RunFn ℕ
run_fn c resumed = record { calls = checkpoint 7 5 ∷ []; ending = returned (text "ok") }

abbrev fresh : World (Base ℕ) (Events ℕ)
fresh = record {
  store = record { files = []; manifest = [] };
  events = record { lines = []; triggered = [] };
}

abbrev expected : Record
expected = record_for (config "a") (some (text "ok"))

abbrev reading : Parsing
reading = record parsing { loads = λ s. some (to_value expected) }

abbrev dumps : Value → String
dumps v = "{}"

runs : (run_one (λ v. config "a") run_fn (object end) fresh).0 ≡ answers expected
unfolding run_one run_farm.Driver.execute_config run_farm.Registry.Files.is_complete
    run_farm.Prelude.has run_farm.Prelude.lookup run_farm.Registry.Files.register
    run_farm.Prelude.insert
runs = refl

law :
    (r : Record)
    → (run_one (λ v. config "a") run_fn (object end) fresh).0 ≡ answers r
    → reading.loads (dumps (to_value r)) ≡ some (to_value r)
law r e = let same = sym runs ∙ e in cc

parsed-main_example :
    parsed cloud reading settings (config "a") (
      result_line cloud reading settings
        (main (λ v. config "a") run_fn dumps ("step 1" ∷ []) ("warning" ∷ []) (object end) fresh).0)
    ≡ read_back cloud reading settings
        (config "a")
        (run_one (λ v. config "a") run_fn (object end) fresh).0
parsed-main_example =
    parsed-main cloud reading settings (λ v. config "a") run_fn dumps (config "a") ("step 1" ∷ [])
      ("warning" ∷ []) (object end) fresh law refl refl
