-- ===== src/Driver/Alone.antt =====
-- What `execute_config` of src/run_farm/driver.py leaves alone, over the file registry and the event files.
use run_farm.Prelude.{
  Dict, insert, has, ◌≡◌, ◌≢◌, refl, ◌∙◌, String, false, List, [], ◌∷◌, ◌==◌, string_eq, pair_eq,
  lookup, lookup-insert, arith, if_ind,
}
use run_farm.Config.{Config}
use run_farm.Registry.Files.{
  File, config, result, Base, file_registry, register, is_complete, load, save, finish,
}
use run_farm.Registry.Events.{Events, jsonl_sink}
use run_farm.Driver.{
  Call, checkpoint, emit, trigger, Ending, returned, raised, RunFn, Outcome, World, call, calls,
  conclude, execute_config,
}

lookup_other :
    {B : Type 0} (a b : String) (x : B) (d : Dict String B)
    → (a == b) ≡ false
    → lookup b (insert a x d) ≡ lookup b d
lookup_other a b x d ne = ground (arith, ne, lookup-insert a b x d)

module _ (S : Type 0) where
  -- Whatever stands in the directory of the run `d` is as it was: each of its files, and its lines of events
  -- and of triggers.
  abbrev pub Untouched : Config → World (Base S) (Events S) → World (Base S) (Events S) → Type 0
  Untouched d w w' =
      ((name : String)
        → lookup (d.run_name, name) w'.store.files ≡ lookup (d.run_name, name) w.store.files)
      × (lookup d.run_name w'.events.lines ≡ lookup d.run_name w.events.lines)
      × (lookup d.run_name w'.events.triggered ≡ lookup d.run_name w.events.triggered)

  Untouched-trans :
      (d : Config) (u v w : World (Base S) (Events S))
      → Untouched d u v
      → Untouched d v w
      → Untouched d u w
  Untouched-trans d u v w (p, q, r) (p', q', r') = (λ name. p' name ∙ p name, q' ∙ q, r' ∙ r)

  module _ (c d : Config) (ne : (c.run_name == d.run_name) ≡ false) where
    insert_elsewhere :
        (f name : String) (x : File S) (files : Dict (String × String) (File S))
        → lookup (d.run_name, name) (insert (c.run_name, f) x files)
          ≡ lookup (d.run_name, name) files
    insert_elsewhere f name x files =
        ground (arith, ne, lookup-insert (c.run_name, f) (d.run_name, name) x files)

    opened-Untouched :
        (w : World (Base S) (Events S)) → Untouched d w (record w { store = register w.store c })
    unfolding register
    opened-Untouched w = (
      λ name.
          if_ind
            (λ (b : Base S).
              lookup (d.run_name, name) b.files ≡ lookup (d.run_name, name) w.store.files)
            (has (c.run_name, "config.json") w.store.files) (λ _. refl)
            (λ _. insert_elsewhere "config.json" name (config c.json) w.store.files),
      refl,
      refl,
    )

    call-Untouched :
        (w : World (Base S) (Events S)) (x : Call S)
        → Untouched d w (call (file_registry S) (jsonl_sink S) c w x)
    unfolding save run_farm.Registry.Events.emit run_farm.Registry.Events.trigger
    call-Untouched w (checkpoint s k) = (
      λ name. insert_elsewhere "checkpoint.npz" name (File.checkpoint s k) w.store.files,
      refl,
      refl,
    )
    call-Untouched w (emit v) =
        (λ name. refl, lookup_other c.run_name d.run_name _ w.events.lines ne, refl)
    call-Untouched w (trigger s reason) =
        (λ name. refl, refl, lookup_other c.run_name d.run_name _ w.events.triggered ne)

    calls-Untouched :
        (xs : List (Call S)) (w : World (Base S) (Events S))
        → Untouched d w (calls (file_registry S) (jsonl_sink S) c w xs)
    unfolding calls
    calls-Untouched [] w = (λ name. refl, refl, refl)
    calls-Untouched (x ∷ xs) w =
        let w' = call (file_registry S) (jsonl_sink S) c w x in
        Untouched-trans d w w' (calls (file_registry S) (jsonl_sink S) c w' xs) (call-Untouched w x)
          (calls-Untouched xs w')

    conclude-Untouched :
        (w : World (Base S) (Events S)) (ending : Ending)
        → Untouched d w (conclude (file_registry S) (jsonl_sink S) c w ending).1
    unfolding finish run_farm.Registry.Events.close
    conclude-Untouched w (returned v) =
        (λ name. insert_elsewhere "DONE.json" name (result v) w.store.files, refl, refl)
    conclude-Untouched w (raised e) = (λ name. refl, refl, refl)

  -- A run, whatever its RunFn does and however it ends, leaves each file in the directory of every other run as it
  -- was, and the other run's events and triggers.
  pub execute_config-Untouched :
      (run_fn : RunFn S) (c d : Config) (w : World (Base S) (Events S))
      → c.run_name ≢ d.run_name
      → Untouched d w (execute_config (file_registry S) (jsonl_sink S) run_fn c w).1
  unfolding execute_config
  execute_config-Untouched run_fn c d w differs =
      let ne : (c.run_name == d.run_name) ≡ false =
        ground (arith, string_eq.beq_iff c.run_name d.run_name, differs) in
      let w' : World (Base S) (Events S) = record w { store = register w.store c } in
      let ran = run_fn c (load w'.store c) in
      let end = calls (file_registry S) (jsonl_sink S) c w' ran.calls in
      if_ind (λ (r : Outcome × World (Base S) (Events S)). Untouched d w r.1)
        (is_complete w'.store c) (λ _. opened-Untouched c d ne w)
        (λ _.
          Untouched-trans d w w' (conclude (file_registry S) (jsonl_sink S) c end ran.ending).1
            (opened-Untouched c d ne w)
            (Untouched-trans d w' end (conclude (file_registry S) (jsonl_sink S) c end ran.ending).1
              (calls-Untouched c d ne ran.calls w') (conclude-Untouched c d ne end ran.ending)))
