-- ===== src/Remote/Dispatch.antt =====
-- The InProcessExecutor of src/run_farm/local_exec.py as the dispatch of a fleet.
use mathlib.Core.Path.{subst}
use run_farm.Prelude.{◌≡◌, refl, sym, ap, String, Option, none, some, List, [], ◌∷◌, map, All}
use run_farm.Json.{Value}
use run_farm.Config.{Config}
use run_farm.Registry.Files.{Base, file_registry}
use run_farm.Registry.Events.{Events, jsonl_sink}
use run_farm.Driver.{
  RunFn, Outcome, skipped, finished, failed, World, execute_config, run_tasks, after_task,
}
use run_farm.Farm.Dispatch.{Record}
use run_farm.Remote.{Answer, answers, raises, answer_of, run_one, and_rest, run}

module _ {S : Type 0} (from_json : Value → Config) (run_fn : RunFn S) where
  -- The records answer the configs one for one, by name.
  abbrev pub Answers : List Config → Answer (List Record) → Type 0
  Answers cs (answers rs) =
      map (λ (r : Record). r.run) rs ≡ map (λ (c : Config). some c.run_name) cs
  Answers cs (raises e) = Unit

  -- What an executor that answers tells the driver's loop.
  abbrev pub Ends : Answer (List Record) → Option String → Type 0
  Ends (answers rs) end = end ≡ none
  Ends (raises e) end = end ≡ some e

  record_of_outcome :
      (c : Config) (cs : List Config) (o : Outcome) (w : World (Base S) (Events S))
      (rest : Answer (List Record) × World (Base S) (Events S))
      (tasks : Option String × World (Base S) (Events S))
      → Answers cs rest.0
      → Ends rest.0 tasks.0
      → rest.1 ≡ tasks.1
      → Answers (c ∷ cs) (and_rest from_json run_fn (answer_of c o) w rest).0
        × Ends
            (and_rest from_json run_fn (answer_of c o) w rest).0
            (after_task (file_registry S) (jsonl_sink S) o w tasks).0
        × ((and_rest from_json run_fn (answer_of c o) w rest).1
            ≡ (after_task (file_registry S) (jsonl_sink S) o w tasks).1)
  record_of_outcome c cs (failed e) w rest tasks a n s = (tt, refl, refl)
  record_of_outcome c cs (finished v) w (answers rs, w') tasks a n s =
      (ap (λ l. some c.run_name ∷ l) a, n, s)
  record_of_outcome c cs (finished v) w (raises e, w') tasks a n s = (tt, n, s)
  record_of_outcome c cs skipped w (answers rs, w') tasks a n s =
      (ap (λ l. some c.run_name ∷ l) a, n, s)
  record_of_outcome c cs skipped w (raises e, w') tasks a n s = (tt, n, s)

  abbrev pub ran : Config → World (Base S) (Events S) → Outcome × World (Base S) (Events S)
  ran c w = execute_config (file_registry S) (jsonl_sink S) run_fn c w

  abbrev pub Refines :
      List Config
      → Answer (List Record) × World (Base S) (Events S)
      → Option String × World (Base S) (Events S)
      → Type 0
  Refines cs r tasks = Answers cs r.0 × Ends r.0 tasks.0 × (r.1 ≡ tasks.1)

  -- For configs that their JSON gives back, the executor does to the store and the events what the driver's
  -- loop over `execute_config` does, and ends as that ends: with the exception of the first RunFn that raises,
  -- or with one record for each config, named after it, in order.
  pub run-Refines :
      (cs : List Config) (w : World (Base S) (Events S))
      → All (λ c. from_json c.json ≡ c) cs
      → Refines cs
          (run from_json run_fn cs w)
          (run_tasks (file_registry S) (jsonl_sink S) run_fn cs w)
  unfolding run run_one run_tasks
  run-Refines [] w h = (refl, refl, refl)
  run-Refines (c ∷ cs) w (e, h) =
      let (o, w') = ran c w in
      let (a, n, s) = run-Refines cs w' h in
      subst
        (λ (d : Config).
          Refines (c ∷ cs)
            (and_rest from_json run_fn (answer_of d (ran d w).0) (ran d w).1
              (run from_json run_fn cs (ran d w).1))
            (after_task (file_registry S) (jsonl_sink S) o w'
              (run_tasks (file_registry S) (jsonl_sink S) run_fn cs w')))
        (sym e)
        (record_of_outcome c cs o w' (run from_json run_fn cs w')
          (run_tasks (file_registry S) (jsonl_sink S) run_fn cs w') a n s)
