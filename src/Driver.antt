-- ===== src/Driver.antt =====
-- src/run_farm/driver.py: `execute_config` and `run_campaign`, over any registry and any sink.
use run_farm.Prelude.{
  ℕ, ◌≡◌, String, Bool, true, false, Option, none, some, List, [], ◌∷◌, if◌then◌else◌,
}
use run_farm.Json.{Value}
use run_farm.Config.{Config}
use run_farm.Registry.{RunRegistry, EventSink}
pub mod Restart
pub mod Alone
pub mod Campaigns

-- A call of the RunFn on its RunContext.
pub data Call (S : Type 0) : Type 0 where
  checkpoint : S → ℕ → Call S
  emit : Value → Call S
  trigger : S → String → Call S

-- How the RunFn ended, a preemption being an exception.
pub data Ending : Type 0 where
  returned : Value → Ending
  raised : String → Ending

pub record Ran (S : Type 0) : Type 0 where
  pub calls : List (Call S)
  pub ending : Ending

-- The physics: what it calls and how it ends, from the config and what it resumes.
abbrev pub RunFn : Type 0 → Type 0
RunFn S = Config → Option (S × ℕ) → Ran S

-- What `execute_config` gives: None, the result, or the exception of the RunFn.
pub data Outcome : Type 0 where
  skipped : Outcome
  finished : Value → Outcome
  failed : String → Outcome

pub record World (W E : Type 0) : Type 0 where
  pub store : W
  pub events : E

-- ProbeAdmission.guard and its like: the report is not read by an executor.
pub data Guard : Type 0 where
  admitted : Guard
  rejected : String → Guard

module _ {S W E : Type 0} (registry : RunRegistry S W) (sink : EventSink S E) where
  abbrev pub call : Config → World W E → Call S → World W E
  call c w (checkpoint s k) = record w { store = registry.save w.store c s k }
  call c w (emit v) = record w { events = sink.emit w.events c v }
  call c w (trigger s reason) = record w { events = sink.trigger w.events c s reason }

  unfoldable pub calls : Config → World W E → List (Call S) → World W E
  calls c w [] = w
  calls c w (x ∷ xs) = calls c (call c w x) xs

  -- `registry.finish` is reached only if the RunFn returned; `sink.close` always.
  abbrev pub conclude : Config → World W E → Ending → Outcome × World W E
  conclude c w (returned v) =
      (finished v, record { store = registry.finish w.store c v; events = sink.close w.events c })
  conclude c w (raised e) = (failed e, record w { events = sink.close w.events c })

  unfoldable pub execute_config : RunFn S → Config → World W E → Outcome × World W E
  execute_config run_fn c w =
      let w' = record w { store = registry.register w.store c } in
      if registry.is_complete w'.store c
      then (skipped, w')
      else (let ran = run_fn c (registry.load w'.store c) in
          conclude c (calls c w' ran.calls) ran.ending)

  abbrev pub after_task :
      Outcome → World W E → Option String × World W E → Option String × World W E
  after_task (failed e) w rest = (some e, w)
  after_task (finished v) w rest = rest
  after_task skipped w rest = rest

  -- `LocalExecutor.run` over the thunks of `run_campaign`: an exception of a task ends the loop.
  unfoldable pub run_tasks : RunFn S → List Config → World W E → Option String × World W E
  run_tasks run_fn [] w = (none, w)
  run_tasks run_fn (c ∷ cs) w =
      let (outcome, w') = execute_config run_fn c w in
      let rest = run_tasks run_fn cs w' in after_task outcome w' rest

  -- `run_campaign` with a LocalExecutor: the host is guarded before any task.
  unfoldable pub run_campaign :
      RunFn S → Guard → List Config → World W E → Option String × World W E
  run_campaign run_fn admitted cs w = run_tasks run_fn cs w
  run_campaign run_fn (rejected why) cs w = (some why, w)
