-- ===== src/Driver/Campaigns.antt =====
-- Campaigns of src/run_farm/driver.py, run to the end and run again.
use mathlib.Core.Path.{subst}
use run_farm.Prelude.{
  ◌≡◌, ◌≢◌, refl, sym, ap, ◌∙◌, String, true, Option, none, List, [], ◌∷◌, string_eq, arith,
  Bool-cases, inl, inr, All,
}
use run_farm.Config.{Config}
use run_farm.Registry.{RunRegistry, IsRegistry, EventSink}
use run_farm.Driver.{
  Call, Ending, returned, raised, RunFn, Outcome, skipped, finished, failed, World, calls, conclude,
  execute_config, run_tasks, after_task, admitted, run_campaign,
}
use run_farm.Driver.Restart.{
  Settled, calls-kept, execute_config-Settled, skip-Settled, opened, attempt, ran,
}

module _ {S W E : Type 0} (registry : RunRegistry S W) (sink : EventSink S E)
    (laws : IsRegistry registry) where
  calls-Settled :
      (c d : Config) (xs : List (Call S)) (w : World W E)
      → Settled registry sink laws w.store d
      → Settled registry sink laws (calls registry sink c w xs).store d
  calls-Settled c d xs w h = ground (arith, calls-kept registry sink laws c d xs w)

  conclude-keeps :
      (c d : Config) (w : World W E) (ending : Ending)
      → Settled registry sink laws w.store d
      → Settled registry sink laws (conclude registry sink c w ending).1.store d
  conclude-keeps c d w (returned v) h =
      ground (arith, laws.registered-finish w.store c d v, laws.complete-finish w.store c d v)
  conclude-keeps c d w (raised e) h = h

  -- What is settled stays so.
  execute_config-keeps :
      (run_fn : RunFn S) (c d : Config) (w : World W E)
      → Settled registry sink laws w.store d
      → Settled registry sink laws (execute_config registry sink run_fn c w).1.store d
  unfolding execute_config
  execute_config-keeps run_fn c d w h =
      elim (Bool-cases (registry.is_complete (opened registry sink laws w c).store c)) [
        | inl done ↦ rw done first
        | inr open_run ↦ rw open_run (
            conclude-keeps c d (ran registry sink laws run_fn c w)
              (attempt registry sink laws run_fn c w).ending
              (calls-Settled c d (attempt registry sink laws run_fn c w).calls
                (opened registry sink laws w c) first))
      ]
    where
      first : Settled registry sink laws (opened registry sink laws w c).store d
      first =
          ground (arith, laws.registered-register w.store c d, laws.complete-register w.store c d)

  run_tasks-keeps :
      (run_fn : RunFn S) (cs : List Config) (d : Config) (w : World W E)
      → Settled registry sink laws w.store d
      → Settled registry sink laws (run_tasks registry sink run_fn cs w).1.store d
  unfolding run_tasks
  run_tasks-keeps run_fn [] d w h = h
  run_tasks-keeps run_fn (c ∷ cs) d w h =
      after (execute_config registry sink run_fn c w).0
        (run_tasks registry sink run_fn cs (execute_config registry sink run_fn c w).1) kept
        (run_tasks-keeps run_fn cs d (execute_config registry sink run_fn c w).1 kept)
    where
      kept : Settled registry sink laws (execute_config registry sink run_fn c w).1.store d
      kept = execute_config-keeps run_fn c d w h

      after :
          (o : Outcome) (rest : Option String × World W E)
          → Settled registry sink laws (execute_config registry sink run_fn c w).1.store d
          → Settled registry sink laws rest.1.store d
          → Settled registry sink laws
              (after_task registry sink o (execute_config registry sink run_fn c w).1 rest).1.store
              d
      after (failed e) rest k r = k
      after (finished v) rest k r = r
      after skipped rest k r = r

  after_task-eq-none :
      (o : Outcome) (w : World W E) (rest : Option String × World W E)
      → (after_task registry sink o w rest).0 ≡ none
      → ((e : String) → o ≢ failed e) × (after_task registry sink o w rest ≡ rest)
  after_task-eq-none (failed e) w rest h = absurd (cc)
  after_task-eq-none (finished v) w rest h = (λ e. cc, refl)
  after_task-eq-none skipped w rest h = (λ e. cc, refl)

  run_tasks-Settled :
      (run_fn : RunFn S) (cs : List Config) (w : World W E)
      → (run_tasks registry sink run_fn cs w).0 ≡ none
      → All (Settled registry sink laws (run_tasks registry sink run_fn cs w).1.store) cs
  unfolding run_tasks
  run_tasks-Settled run_fn [] w e = tt
  run_tasks-Settled run_fn (c ∷ cs) w e =
      let w' = (execute_config registry sink run_fn c w).1 in
      let (ok, same) =
        after_task-eq-none (execute_config registry sink run_fn c w).0 w'
          (run_tasks registry sink run_fn cs w') e in
      subst (λ (r : Option String × World W E). All (Settled registry sink laws r.1.store) (c ∷ cs))
        (sym same)
        (
          run_tasks-keeps run_fn cs c w' (execute_config-Settled registry sink laws run_fn c w ok),
          run_tasks-Settled run_fn cs w'
              (ap (λ (r : Option String × World W E). r.0) (sym same) ∙ e),
        )

  run_tasks-skips :
      (run_fn : RunFn S) (cs : List Config) (w : World W E)
      → All (Settled registry sink laws w.store) cs
      → run_tasks registry sink run_fn cs w ≡ (none, w)
  unfolding run_tasks
  run_tasks-skips run_fn [] w h = refl
  run_tasks-skips run_fn (c ∷ cs) w h =
      rw (skip-Settled registry sink laws run_fn c w h.0) (run_tasks-skips run_fn cs w h.1)

  -- A campaign that ended without an exception has a result for every config, and running it again,
  -- with whatever RunFn, changes nothing.
  pub run_campaign_again :
      (run_fn again : RunFn S) (cs : List Config) (w : World W E)
      → (run_campaign registry sink run_fn admitted cs w).0 ≡ none
      → All
          (λ c.
            registry.is_complete (run_campaign registry sink run_fn admitted cs w).1.store c ≡ true)
          cs
        × (run_campaign registry sink again admitted cs
              (run_campaign registry sink run_fn admitted cs w).1
            ≡ (none, (run_campaign registry sink run_fn admitted cs w).1))
  unfolding run_campaign
  run_campaign_again run_fn again cs w e = (
    completes cs (run_tasks-Settled run_fn cs w e),
    run_tasks-skips again cs _ (run_tasks-Settled run_fn cs w e),
  )
    where
      completes :
          (ds : List Config)
          → All (Settled registry sink laws (run_tasks registry sink run_fn cs w).1.store) ds
          → All
              (λ c. registry.is_complete (run_tasks registry sink run_fn cs w).1.store c ≡ true)
              ds
      completes [] h = tt
      completes (d ∷ ds) h = (h.0.1, completes ds h.1)
