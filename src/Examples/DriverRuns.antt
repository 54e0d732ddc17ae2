-- ===== src/Examples/DriverRuns.antt =====
-- Runs of src/run_farm/driver.py over the file registry of src/run_farm/reference.py.
use run_farm.Prelude.{
  ℕ, ◌≡◌, ◌≢◌, refl, String, true, false, Option, none, [], ◌∷◌, All, lookup, insert, has,
  string_eq, pair_eq,
}
use run_farm.Json.{null, text}
use run_farm.Config.{Config}
use run_farm.Registry.{IsRegistry}
use run_farm.Registry.Files.{
  Base, file_registry, file_registry-IsRegistry, register, is_complete, load, save, finish,
}
use run_farm.Registry.Events.{Events, jsonl_sink, emit, close}
use run_farm.Driver.{
  checkpoint, returned, raised, RunFn, Outcome, failed, World, admitted, calls, execute_config,
  run_tasks, run_campaign,
}
use run_farm.Driver.Restart.{last_checkpoint, resume_after_failure}
use run_farm.Driver.Alone.{Untouched, execute_config-Untouched}
use run_farm.Driver.Campaigns.{run_campaign_again}
use run_farm.Remote.{run}
use run_farm.Remote.Dispatch.{Refines, run-Refines}
use run_farm.Admission.{HostReport, ProbeAdmission, guard}
use run_farm.Admission.Gate.{IsFit, guarded_campaign}

abbrev config : String → Config
config name = record { config_hash = name; run_name = name; json = null; rid = name }

-- It writes a checkpoint and returns.
abbrev good : RunFn ℕ
good c resumed = record { calls = checkpoint 7 5 ∷ []; ending = returned (text "done") }

-- It writes two checkpoints and is preempted.
abbrev preempted : RunFn ℕ
preempted c resumed = record {
  calls = checkpoint 7 5 ∷ checkpoint 9 6 ∷ [];
  ending = raised "preempted";
}

abbrev start : World (Base ℕ) (Events ℕ)
start = record {
  store = record { files = []; manifest = [] };
  events = record { lines = []; triggered = [] };
}

abbrev once : Outcome × World (Base ℕ) (Events ℕ)
once = execute_config (file_registry ℕ) (jsonl_sink ℕ) good (config "a") start

once_ends : (e : String) → once.0 ≢ failed e
unfolding execute_config register is_complete load save finish calls has lookup insert emit close
once_ends e = λ h. cc

abbrev cut : Outcome × World (Base ℕ) (Events ℕ)
cut = execute_config (file_registry ℕ) (jsonl_sink ℕ) preempted (config "a") start

start_incomplete : is_complete start.store (config "a") ≡ false
unfolding is_complete has lookup
start_incomplete = refl

resume_after_failure_example :
    (cut.0 ≡ failed "preempted")
    × (is_complete cut.1.store (config "a") ≡ false)
    × (load cut.1.store (config "a")
        ≡ last_checkpoint (checkpoint 7 5 ∷ checkpoint 9 6 ∷ []) (load start.store (config "a")))
resume_after_failure_example =
    resume_after_failure (file_registry ℕ) (jsonl_sink ℕ) (file_registry-IsRegistry ℕ) preempted
      (config "a") start "preempted" start_incomplete refl

names_differ : (config "a").run_name ≢ (config "b").run_name
names_differ = λ h. let same : false ≡ true = (string_eq.beq_iff "a" "b").1 h in cc

execute_config-Untouched_example : Untouched ℕ (config "b") start once.1
execute_config-Untouched_example =
    execute_config-Untouched ℕ good (config "a") (config "b") start names_differ

abbrev campaign : Option String × World (Base ℕ) (Events ℕ)
campaign =
    run_campaign (file_registry ℕ) (jsonl_sink ℕ) good admitted (config "a" ∷ config "b" ∷ []) start

campaign_ends : campaign.0 ≡ none
unfolding run_campaign run_tasks execute_config register is_complete load save finish calls has
    lookup insert emit close
campaign_ends = refl

run_campaign_again_example :
    All (λ c. is_complete campaign.1.store c ≡ true) (config "a" ∷ config "b" ∷ [])
    × (run_campaign
          (file_registry ℕ)
          (jsonl_sink ℕ)
          preempted
          admitted
          (config "a" ∷ config "b" ∷ [])
          campaign.1
        ≡ (none, campaign.1))
run_campaign_again_example =
    run_campaign_again (file_registry ℕ) (jsonl_sink ℕ) (file_registry-IsRegistry ℕ) good preempted
      (config "a" ∷ config "b" ∷ []) start campaign_ends

file_registry-IsRegistry_example : IsRegistry (file_registry ℕ)
file_registry-IsRegistry_example = file_registry-IsRegistry ℕ

run-Refines_example :
    Refines
      (λ v. config "a")
      good
      (config "a" ∷ [])
      (run (λ v. config "a") good (config "a" ∷ []) start)
      (run_tasks (file_registry ℕ) (jsonl_sink ℕ) good (config "a" ∷ []) start)
run-Refines_example = run-Refines (λ v. config "a") good (config "a" ∷ []) start (refl, tt)

abbrev laptop : HostReport
laptop = record {
  has_gpu = false;
  device_name = "cpu";
  free_mem = 0;
  outbound = 100;
  probe_ok = true;
}

abbrev fleet_host : ProbeAdmission
fleet_host = record { min_mem = 4; min_mbps = 1; require_gpu = true }

guarded_campaign_example :
    (IsFit fleet_host laptop
      → run_campaign
          (file_registry ℕ)
          (jsonl_sink ℕ)
          good
          (guard fleet_host laptop)
          (config "a" ∷ [])
          start
        ≡ run_tasks (file_registry ℕ) (jsonl_sink ℕ) good (config "a" ∷ []) start)
    × ((IsFit fleet_host laptop → ⊥)
        → (run_campaign
              (file_registry ℕ)
              (jsonl_sink ℕ)
              good
              (guard fleet_host laptop)
              (config "a" ∷ [])
              start).1
            ≡ start
          × (run_campaign
              (file_registry ℕ)
              (jsonl_sink ℕ)
              good
              (guard fleet_host laptop)
              (config "a" ∷ [])
              start).0
            ≢ none)
guarded_campaign_example =
    guarded_campaign (file_registry ℕ) (jsonl_sink ℕ) good fleet_host laptop (config "a" ∷ []) start
