-- ===== src/Fleet/Leg/Run.antt =====
-- src/run_farm/fleet.py: `run` and the sweep after it.
use run_farm.Prelude.{
  String, Bool, true, false, not, ◌&&◌, Option, none, some, List, [], ◌∷◌, map, Dict, lookup,
  insert, any, keep_if, ◌==◌, string_eq, if◌then◌else◌,
}
use run_farm.Fleet.{
  Try, gives, raises, Raised, host_probe_failed, timed_out, rent_unavailable, budget_exceeded,
  leak_risk, other, FleetLeg, skip, LegResult, Site, Paths, Settings,
}
use run_farm.Fleet.Host.{complete}
use run_farm.Fleet.Leg.{Pool, State, LegEnd, result, halted, run_leg}

-- How `run` ends: with the results, with the ValueError for labels, or with an exception that left a leg or the
-- first question for offers.
pub data RunEnd : Type 0 where
  reports : List LegResult → RunEnd
  bad_labels : RunEnd
  raised : Raised → RunEnd

abbrev pub Results : Type 0
Results = Dict String LegResult

-- `len(set(labels)) == len(labels)`
unfoldable pub unique : List String → Bool
unique [] = true
unique (l ∷ ls) = not (any (λ k. k == l) ls) && unique ls

abbrev pub skipped : FleetLeg → LegResult
skipped leg = record {
  label = leg.label;
  status = skip;
  host_id = none;
  detail = "output already present";
}

-- `[results[leg.label] for leg in legs]`; `none` is a KeyError.
unfoldable pub collect : Results → List FleetLeg → Option (List LegResult)
collect results [] = some []
collect results (leg ∷ legs) = elim (lookup leg.label results) [
  | none ↦ none
  | some r ↦ elim (collect results legs) [ none ↦ none | some rs ↦ some (r ∷ rs) ]
]

abbrev pub on_end {ℓ} : {A : Type ℓ} → LegEnd → (Raised → A) → (LegResult → A) → A
on_end (halted e) stop go = stop e
on_end (result r) stop go = go r

-- isinstance(e, BudgetExceeded)
abbrev pub is_budget : Raised → Bool
is_budget (budget_exceeded m) = true
is_budget (host_probe_failed m) = false
is_budget (timed_out m) = false
is_budget (rent_unavailable m) = false
is_budget (leak_risk m) = false
is_budget (other m) = false

module _ {P : Type 0} (site : Site P) (paths : Paths) (settings : Settings) where
  -- The legs that are complete, and those that remain.
  unfoldable pub skips : Results → P → List FleetLeg → Results
  skips results p [] = results
  skips results p (leg ∷ legs) =
      if complete site paths settings p leg
      then skips (insert leg.label (skipped leg) results) p legs
      else skips results p legs

  abbrev pub pending : P → List FleetLeg → List FleetLeg
  pending p = keep_if (λ leg. not (complete site paths settings p leg))

  -- The legs that the executor still runs after an exception has left its loop. Their ends are not read.
  unfoldable pub drain : Pool → List FleetLeg → State P → State P
  drain pool [] s = s
  drain pool (leg ∷ legs) s =
      let (end, pool', s') = run_leg site paths settings leg pool.refills pool.queue s in
      drain pool' legs s'

  -- BudgetExceeded cancels the legs that have not started; after another exception they run.
  abbrev pub after_exception : Raised → Pool → List FleetLeg → State P → State P
  after_exception e pool legs s = if is_budget e then s else drain pool legs s

  -- The pending legs in turn.
  unfoldable pub run_legs :
      Results → Pool → List FleetLeg → State P → Option Raised × Results × State P
  run_legs results pool [] s = (none, results, s)
  run_legs results pool (leg ∷ legs) s =
      let (end, pool', s') = run_leg site paths settings leg pool.refills pool.queue s in
      on_end end (λ e. (some e, results, after_exception e pool' legs s'))
        (λ r. run_legs (insert r.label r results) pool' legs s')

  -- The pool is made with a first question for offers.
  abbrev pub with_pool :
      Results → List FleetLeg → Try (List String) → State P → Option Raised × Results × State P
  with_pool results legs (raises e) s = (some e, results, s)
  with_pool results legs (gives os) s =
      run_legs results (record { queue = os; refills = settings.max_refills }) legs s

  abbrev pub run_pending : Results → List FleetLeg → State P → Option Raised × Results × State P
  run_pending results [] s = (none, results, s)
  run_pending results (leg ∷ legs) s =
      let (answer, w) = site.offers s.world in
      with_pool results (leg ∷ legs) answer (record s { world = w })

  -- `_destroy_live`
  unfoldable pub destroy_live : Dict String Bool → P → P
  destroy_live [] p = p
  destroy_live ((iid, held) ∷ live) p = destroy_live live (site.destroy p iid)

  -- `_reconcile_stranded`
  abbrev pub reconcile_stranded : State P → State P
  reconcile_stranded s = record s { world = destroy_live s.live s.world }

  -- `none` is a KeyError.
  abbrev pub ended : List FleetLeg → Option Raised → Results → Option RunEnd
  ended legs (some e) results = some (raised e)
  ended legs none results = elim (collect results legs) [
    | none ↦ none
    | some rs ↦ some (reports rs)
  ]

  unfoldable pub run : List FleetLeg → State P → Option RunEnd × State P
  run [] s = (some (reports []), s)
  run (first ∷ rest) s =
      let legs = first ∷ rest in
      if unique (map (λ (leg : FleetLeg). leg.label) legs)
      then (let (halt, results, s') =
            run_pending (skips [] s.world legs) (pending s.world legs) s in
          (ended legs halt results, reconcile_stranded s'))
      else (some bad_labels, s)
