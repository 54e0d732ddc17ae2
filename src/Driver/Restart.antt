-- ===== src/Driver/Restart.antt =====
-- Skips, restarts and reruns of src/run_farm/driver.py, over any registry that keeps its contract.
use run_farm.Prelude.{
  ℕ, ◌≡◌, ◌≢◌, refl, ap, ◌∙◌, String, true, false, Option, some, List, [], ◌∷◌, string_eq, beq_refl,
  arith, Bool-cases, inl, inr,
}
use run_farm.Config.{Config}
use run_farm.Registry.{RunRegistry, IsRegistry, EventSink}
use run_farm.Driver.{
  Call, checkpoint, emit, trigger, Ending, returned, raised, Ran, RunFn, skipped, failed, World,
  call, calls, conclude, execute_config,
}

-- The state that a restart resumes from: the last checkpoint among the calls, or the one before.
abbrev pub last_checkpoint : {S : Type 0} → List (Call S) → Option (S × ℕ) → Option (S × ℕ)
last_checkpoint [] before = before
last_checkpoint (checkpoint s k ∷ xs) before = last_checkpoint xs (some (s, k))
last_checkpoint (emit v ∷ xs) before = last_checkpoint xs before
last_checkpoint (trigger s reason ∷ xs) before = last_checkpoint xs before

module _ {S W E : Type 0} (registry : RunRegistry S W) (sink : EventSink S E)
    (laws : IsRegistry registry) where
  -- The run has a directory and a result.
  abbrev pub Settled : W → Config → Type 0
  Settled w c = (laws.registered w c ≡ true) × (registry.is_complete w c ≡ true)

  pub calls-kept :
      (c d : Config) (xs : List (Call S)) (w : World W E)
      → (laws.registered (calls registry sink c w xs).store d ≡ laws.registered w.store d)
        × (registry.is_complete (calls registry sink c w xs).store d
            ≡ registry.is_complete w.store d)
  unfolding calls
  calls-kept c d [] w = (refl, refl)
  calls-kept c d (checkpoint s k ∷ xs) w = ground (
    arith,
    calls-kept c d xs (call registry sink c w (checkpoint s k)),
    laws.registered-save w.store c d s k,
    laws.complete-save w.store c d s k,
  )
  calls-kept c d (emit v ∷ xs) w = calls-kept c d xs (call registry sink c w (emit v))
  calls-kept c d (trigger s r ∷ xs) w = calls-kept c d xs (call registry sink c w (trigger s r))

  load-calls :
      (c : Config) (xs : List (Call S)) (w : World W E)
      → registry.load (calls registry sink c w xs).store c
        ≡ last_checkpoint xs (registry.load w.store c)
  unfolding calls
  load-calls c [] w = refl
  load-calls c (checkpoint s k ∷ xs) w = ground (
    arith,
    load-calls c xs (call registry sink c w (checkpoint s k)),
    laws.load-save w.store c c s k,
    beq_refl c.run_name,
  )
  load-calls c (emit v ∷ xs) w = load-calls c xs (call registry sink c w (emit v))
  load-calls c (trigger s r ∷ xs) w = load-calls c xs (call registry sink c w (trigger s r))

  abbrev pub opened : World W E → Config → World W E
  opened w c = record w { store = registry.register w.store c }

  abbrev pub attempt : RunFn S → Config → World W E → Ran S
  attempt run_fn c w = run_fn c (registry.load (opened w c).store c)

  -- The world when the RunFn ends.
  abbrev pub ran : RunFn S → Config → World W E → World W E
  ran run_fn c w = calls registry sink c (opened w c) (attempt run_fn c w).calls

  conclude-Settled :
      (c : Config) (w : World W E) (ending : Ending)
      → laws.registered w.store c ≡ true
      → ((e : String) → (conclude registry sink c w ending).0 ≢ failed e)
      → Settled (conclude registry sink c w ending).1.store c
  conclude-Settled c w (returned v) r ok = ground (
    arith,
    laws.registered-finish w.store c c v,
    laws.complete-finish w.store c c v,
    beq_refl c.run_name,
  )
  conclude-Settled c w (raised e) r ok = absurd (ok e refl)

  registered-ran :
      (run_fn : RunFn S) (c : Config) (w : World W E)
      → laws.registered (ran run_fn c w).store c ≡ true
  registered-ran run_fn c w = ground (
    arith,
    calls-kept c c (attempt run_fn c w).calls (opened w c),
    laws.registered-register w.store c c,
    beq_refl c.run_name,
  )

  -- A run that did not fail is settled.
  pub execute_config-Settled :
      (run_fn : RunFn S) (c : Config) (w : World W E)
      → ((e : String) → (execute_config registry sink run_fn c w).0 ≢ failed e)
      → Settled (execute_config registry sink run_fn c w).1.store c
  unfolding execute_config
  execute_config-Settled run_fn c w =
      elim (Bool-cases (registry.is_complete (opened w c).store c)) [
        | inl done ↦
            rw done λ ok. ground (arith, laws.registered-register w.store c c, beq_refl c.run_name)
        | inr open_run ↦ rw open_run (
            conclude-Settled c (ran run_fn c w) (attempt run_fn c w).ending
              (registered-ran run_fn c w))
      ]

  -- Running a settled config, with whatever RunFn, is skipped and changes nothing.
  pub skip-Settled :
      (run_fn : RunFn S) (c : Config) (w : World W E)
      → Settled w.store c
      → execute_config registry sink run_fn c w ≡ (skipped, w)
  unfolding execute_config
  skip-Settled run_fn c w (r, done) = rw (laws.register_again w.store c r, done)

  -- Re-submitting a run that finished or was skipped is a no-op, whatever the RunFn: it is skipped,
  -- and the registry and the records stay as they are.
  pub execute_config_again :
      (run_fn again : RunFn S) (c : Config) (w : World W E)
      → ((e : String) → (execute_config registry sink run_fn c w).0 ≢ failed e)
      → execute_config registry sink again c (execute_config registry sink run_fn c w).1
        ≡ (skipped, (execute_config registry sink run_fn c w).1)
  execute_config_again run_fn again c w ok =
      skip-Settled again c _ (execute_config-Settled run_fn c w ok)

  -- A run that was not complete and whose RunFn raises is left incomplete, without a result, and the
  -- next attempt loads the last checkpoint that the RunFn wrote, or the one from before.
  pub resume_after_failure :
      (run_fn : RunFn S) (c : Config) (w : World W E) (e : String)
      → registry.is_complete w.store c ≡ false
      → (run_fn c (registry.load w.store c)).ending ≡ raised e
      → ((execute_config registry sink run_fn c w).0 ≡ failed e)
        × (registry.is_complete (execute_config registry sink run_fn c w).1.store c ≡ false)
        × (registry.load (execute_config registry sink run_fn c w).1.store c
            ≡ last_checkpoint (run_fn c (registry.load w.store c)).calls (registry.load w.store c))
  unfolding execute_config
  resume_after_failure run_fn c w e incomplete failure =
      rw (laws.complete-register w.store c c, laws.load-register w.store c c, incomplete, failure)
        (
          refl,
          (calls-kept c c (run_fn c (registry.load w.store c)).calls (opened w c)).1
              ∙ laws.complete-register w.store c c
              ∙ incomplete,
          load-calls c (run_fn c (registry.load w.store c)).calls (opened w c)
              ∙ ap (last_checkpoint (run_fn c (registry.load w.store c)).calls)
                  (laws.load-register w.store c c),
        )
