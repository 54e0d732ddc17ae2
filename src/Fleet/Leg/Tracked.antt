-- ===== src/Fleet/Leg/Tracked.antt =====
-- The registry of live rentals of src/run_farm/fleet.py, over the legs of a run.
use run_farm.Prelude.{◌≡◌, String, Option, List, [], ◌∷◌, insert, string_eq, if_ind}
use run_farm.Fleet.{FleetLeg, Raised, Try, gives, raises, Site, Paths, Settings}
use run_farm.Fleet.Leg.{Pool, State, run_leg}
use run_farm.Fleet.Leg.Returns.{run_leg-untracks, end_ind}
use run_farm.Fleet.Leg.Run.{Results, drain, is_budget, run_legs, with_pool, run_pending}

module _ {P : Type 0} (site : Site P) (paths : Paths) (settings : Settings) where
  abbrev Untracked : Option Raised × Results × State P → Type 0
  Untracked r = r.2.live ≡ []

  drain-untracks :
      (pool : Pool) (legs : List FleetLeg) (s : State P)
      → s.live ≡ []
      → (drain site paths settings pool legs s).live ≡ []
  unfolding drain
  drain-untracks pool [] s e = e
  drain-untracks pool (leg ∷ legs) s e =
      let (end, pool', s') = run_leg site paths settings leg pool.refills pool.queue s in
      drain-untracks pool' legs s'
        (run_leg-untracks site paths settings leg pool.refills pool.queue s e)

  run_legs-untracks :
      (results : Results) (pool : Pool) (legs : List FleetLeg) (s : State P)
      → s.live ≡ []
      → Untracked (run_legs site paths settings results pool legs s)
  unfolding run_legs
  run_legs-untracks results pool [] s e = e
  run_legs-untracks results pool (leg ∷ legs) s e =
      let (end, pool', s') = run_leg site paths settings leg pool.refills pool.queue s in
      let e' = run_leg-untracks site paths settings leg pool.refills pool.queue s e in
      end_ind Untracked end
        (λ x.
          if_ind (λ (t : State P). t.live ≡ []) (is_budget x) (λ _. e')
            (λ _. drain-untracks pool' legs s' e'))
        (λ r. run_legs-untracks (insert r.label r results) pool' legs s' e')

  with_pool-untracks :
      (results : Results) (legs : List FleetLeg) (answer : Try (List String)) (s : State P)
      → s.live ≡ []
      → Untracked (with_pool site paths settings results legs answer s)
  with_pool-untracks results legs (raises x) s e = e
  with_pool-untracks results legs (gives os) s e = run_legs-untracks results _ legs s e

  -- The legs of a run leave no host tracked.
  pub run_pending-untracks :
      (results : Results) (legs : List FleetLeg) (s : State P)
      → s.live ≡ []
      → Untracked (run_pending site paths settings results legs s)
  run_pending-untracks results [] s e = e
  run_pending-untracks results (leg ∷ legs) s e =
      with_pool-untracks results (leg ∷ legs) (site.offers s.world).0 _ e
