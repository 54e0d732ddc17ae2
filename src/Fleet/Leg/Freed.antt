-- ===== src/Fleet/Leg/Freed.antt =====
-- The hosts held and tracked when `run` of src/run_farm/fleet.py ends, and the leaks that it reports.
use mathlib.Core.Path.{subst}
use run_farm.Prelude.{
  ◌≡◌, refl, sym, ◌⊎◌, inl, inr, String, Bool, true, false, not, Option, none, some, List, [], ◌∷◌,
  Dict, lookup, insert, lookup-insert, any, string_eq, beq_refl, if_ind, arith,
}
use run_farm.Fleet.{FleetLeg, Raised, leak, LegResult, Try, gives, raises, Site, Paths, Settings}
use run_farm.Fleet.Host.{complete}
use run_farm.Fleet.Leg.{Pool, State, LegEnd, result, halted, run_leg}
use run_farm.Fleet.Leg.Released.{IsBracket}
use run_farm.Fleet.Leg.Labels.{EndNamed, run_leg-Named}
use run_farm.Fleet.Leg.Returns.{SomeLeak, LegSettled, run_leg-Settled}
use run_farm.Fleet.Leg.Tracked.{run_pending-untracks}
use run_farm.Fleet.Leg.Reports.{labels, named}
use run_farm.Fleet.Leg.Noted.{
  any_leak, Noted, collect_leak, unique_head, any-keep_if, unique-keep_if,
}
use run_farm.Fleet.Leg.Run.{
  Results, RunEnd, reports, bad_labels, raised, skips, pending, drain, after_exception, is_budget,
  run_legs, with_pool, run_pending, collect, ended, destroy_live, reconcile_stranded, unique, run,
  on_end,
}

module _ {P : Type 0} (site : Site P) (paths : Paths) (settings : Settings) (Idle : P → Type 0)
    (Held : String → P → Type 0) (laws : IsBracket site Idle Held) where
  abbrev Leak : Type 0
  Leak = SomeLeak site paths settings

  drain-Settled :
      (pool : Pool) (legs : List FleetLeg) (s : State P)
      → Idle s.world ⊎ Leak
      → Idle (drain site paths settings pool legs s).world ⊎ Leak
  unfolding drain
  drain-Settled pool legs s (inr some_leak) = inr some_leak
  drain-Settled pool [] s (inl idle) = inl idle
  drain-Settled pool (leg ∷ legs) s (inl idle) =
      let (end, pool', s') = run_leg site paths settings leg pool.refills pool.queue s in
      drain-Settled pool' legs s' (
        either (run_leg site paths settings leg pool.refills pool.queue s)
          (run_leg-Settled site paths settings Idle Held laws leg pool.refills pool.queue s idle))
    where
      either :
          (r : LegEnd × Pool × State P)
          → LegSettled site paths settings Idle Held laws r
          → Idle r.2.world ⊎ Leak
      either r (inl i) = inl i
      either r (inr (leaked, some_leak)) = inr some_leak

  -- A leak is noted among the results, under the label of a leg that is not to come.
  abbrev Before : List FleetLeg → List FleetLeg → Results → Type 0
  Before all legs results =
      (x : String) × (r : LegResult) × (lookup x results ≡ some r)
      × (r.status ≡ leak)
      × (any (named x) all ≡ true)
      × (any (named x) legs ≡ false)

  -- What holds before the legs that are to come.
  abbrev Inv : List FleetLeg → List FleetLeg → Results → P → Type 0
  Inv all legs results p = Idle p ⊎ (Before all legs results × Leak)

  -- What holds after the last.
  abbrev Out : List FleetLeg → Option Raised × Results × State P → Type 0
  Out all r = Idle r.2.world ⊎ (Leak × (r.0 ≡ none → Noted all r.1))

  next-Inv :
      (all legs : List FleetLeg) (leg : FleetLeg) (results : Results) (r : LegResult) (pool : Pool)
      (s s' : State P)
      → unique (labels (leg ∷ legs)) ≡ true
      → any (named leg.label) all ≡ true
      → r.label ≡ leg.label
      → (Idle s.world → LegSettled site paths settings Idle Held laws (result r, pool, s'))
      → Inv all (leg ∷ legs) results s.world
      → Inv all legs (insert r.label r results) s'.world
  next-Inv all legs leg results r pool s s' distinct asked own settled (inl idle) =
      either (settled idle)
    where
      either :
          LegSettled site paths settings Idle Held laws (result r, pool, s')
          → Inv all legs (insert r.label r results) s'.world
      either (inl i) = inl i
      either (inr (leaked, some_leak)) = inr (
        (
          leg.label,
          r,
          ground (arith, lookup-insert r.label leg.label r results, own, beq_refl leg.label),
          leaked,
          asked,
          (unique_head leg legs distinct).0,
        ),
        some_leak,
      )
  next-Inv all legs leg results r pool s s' distinct asked own settled
        (inr ((x, q, found, leaked, there, apart), some_leak)) =
      inr (
        (
          x,
          q,
          ground (arith, lookup-insert r.label x r results, own, apart, found),
          leaked,
          there,
          ground (arith, apart),
        ),
        some_leak,
      )

  end-Out :
      (all legs : List FleetLeg) (leg : FleetLeg) (results : Results) (end : LegEnd) (pool : Pool)
      (s s' : State P)
      → unique (labels (leg ∷ legs)) ≡ true
      → any (named leg.label) all ≡ true
      → EndNamed site paths settings leg (end, pool, s')
      → (Idle s.world → LegSettled site paths settings Idle Held laws (end, pool, s'))
      → Inv all (leg ∷ legs) results s.world
      → ((r : LegResult)
          → Inv all legs (insert r.label r results) s'.world
          → Out all (run_legs site paths settings (insert r.label r results) pool legs s'))
      → Out all (
          on_end end
            (λ e. (some e, results, after_exception site paths settings e pool legs s'))
            (λ r. run_legs site paths settings (insert r.label r results) pool legs s'))
  end-Out all legs leg results (result r) pool s s' distinct asked own settled inv next =
      next r (next-Inv all legs leg results r pool s s' distinct asked own settled inv)
  end-Out all legs leg results (halted e) pool s s' distinct asked own settled
        (inr (before, some_leak)) next =
      inr (some_leak, λ h. cc)
  end-Out all legs leg results (halted e) pool s s' distinct asked own settled (inl idle) next =
      after (
        if_ind (λ (t : State P). Idle t.world ⊎ Leak) (is_budget e) (λ _. inl (kept (settled idle)))
          (λ _. drain-Settled pool legs s' (inl (kept (settled idle)))))
    where
      kept : LegSettled site paths settings Idle Held laws (halted e, pool, s') → Idle s'.world
      kept (inl i) = i
      kept (inr (leaked, some_leak)) = absurd leaked

      after :
          Idle (after_exception site paths settings e pool legs s').world ⊎ Leak
          → Out all (some e, results, after_exception site paths settings e pool legs s')
      after (inl i) = inl i
      after (inr some_leak) = inr (some_leak, λ h. cc)

  run_legs-Out :
      (all : List FleetLeg) (results : Results) (pool : Pool) (legs : List FleetLeg) (s : State P)
      → unique (labels legs) ≡ true
      → ((x : String) → any (named x) legs ≡ true → any (named x) all ≡ true)
      → Inv all legs results s.world
      → Out all (run_legs site paths settings results pool legs s)
  unfolding run_legs
  run_legs-Out all results pool [] s distinct asked (inl idle) = inl idle
  run_legs-Out all results pool [] s distinct asked
        (inr ((x, q, found, leaked, there, apart), some_leak)) =
      inr (some_leak, λ h. (x, q, found, leaked, there))
  run_legs-Out all results pool (leg ∷ legs) s distinct asked inv =
      let (end, pool', s') = run_leg site paths settings leg pool.refills pool.queue s in
      end-Out all legs leg results end pool' s s' distinct
        (asked leg.label (ground (arith, beq_refl leg.label)))
        (run_leg-Named site paths settings leg pool.refills pool.queue s)
        (run_leg-Settled site paths settings Idle Held laws leg pool.refills pool.queue s) inv
        (λ r inv'.
          run_legs-Out all (insert r.label r results) pool' legs s'
            (unique_head leg legs distinct).1 (λ x h. asked x (ground (arith, h))) inv')

  with_pool-Out :
      (all : List FleetLeg) (results : Results) (legs : List FleetLeg) (answer : Try (List String))
      (s : State P)
      → unique (labels legs) ≡ true
      → ((x : String) → any (named x) legs ≡ true → any (named x) all ≡ true)
      → Idle s.world
      → Out all (with_pool site paths settings results legs answer s)
  with_pool-Out all results legs (raises e) s distinct asked idle = inl idle
  with_pool-Out all results legs (gives os) s distinct asked idle =
      run_legs-Out all results _ legs s distinct asked (inl idle)

  run_pending-Out :
      (all : List FleetLeg) (results : Results) (legs : List FleetLeg) (s : State P)
      → unique (labels legs) ≡ true
      → ((x : String) → any (named x) legs ≡ true → any (named x) all ≡ true)
      → Idle s.world
      → Out all (run_pending site paths settings results legs s)
  run_pending-Out all results [] s distinct asked idle = inl idle
  run_pending-Out all results (leg ∷ legs) s distinct asked idle =
      with_pool-Out all results (leg ∷ legs) (site.offers s.world).0 _ distinct asked
        (laws.offers_idle s.world idle)

  -- What a run that may have left a host held says: it reports a leak, or an exception leaves it; and the site
  -- raises LeakRisk somewhere.
  abbrev pub Told : Option RunEnd → Type 0
  Told (some (reports rs)) = (any_leak rs ≡ true) × Leak
  Told (some bad_labels) = ⊥
  Told (some (raised e)) = Leak
  Told none = Leak

  collected-Told :
      (legs : List FleetLeg) (results : Results) (found : Option (List LegResult))
      → collect results legs ≡ found
      → Leak
      → Noted legs results
      → Told (elim found as (λ _. Option RunEnd) [ none ↦ none | some rs ↦ some (reports rs) ])
  collected-Told legs results none e some_leak noted = some_leak
  collected-Told legs results (some rs) e some_leak (x, r, found, leaked, there) =
      (collect_leak results legs x r rs found leaked there e, some_leak)

  ended-Told :
      (legs : List FleetLeg) (halt : Option Raised) (results : Results)
      → Leak
      → (halt ≡ none → Noted legs results)
      → Told (ended site paths settings legs halt results)
  ended-Told legs (some e) results some_leak noted = some_leak
  ended-Told legs none results some_leak noted =
      collected-Told legs results (collect results legs) refl some_leak (noted refl)

  -- No host is tracked, and none is held, or it is told.
  abbrev pub Free : Option RunEnd × State P → Type 0
  Free r = (r.1.live ≡ []) × (Idle r.1.world ⊎ Told r.0)

  reconciled-Free :
      (legs : List FleetLeg) (r : Option Raised × Results × State P)
      → r.2.live ≡ []
      → Out legs r
      → Free (ended site paths settings legs r.0 r.1, reconcile_stranded site paths settings r.2)
  unfolding destroy_live
  reconciled-Free legs r e (inl idle) = (
    e,
    inl (
        subst (λ (l : Dict String Bool). Idle (destroy_live site paths settings l r.2.world))
          (sym e) idle),
  )
  reconciled-Free legs r e (inr (some_leak, noted)) =
      (e, inr (ended-Told legs r.0 r.1 some_leak noted))

  -- `run`, begun with no host held and none tracked, whatever the legs and the exceptions, ends with none tracked, and
  -- with none held, or else there is a rent or a close of the site that raises LeakRisk, and one of the results is
  -- LEAK, if it returns results. The hypothesis is `IsBracket`: what each call does to the hosts held, where a rent
  -- or a close that raises LeakRisk may leave them in any state.
  pub run-Free :
      (legs : List FleetLeg) (s : State P)
      → Idle s.world
      → s.live ≡ []
      → Free (run site paths settings legs s)
  unfolding run
  run-Free [] s idle e = (e, inl idle)
  run-Free (first ∷ rest) s idle e =
      let legs = first ∷ rest in
      let before = skips site paths settings [] s.world legs in
      let todo = pending site paths settings s.world legs in
      let waits = λ (leg : FleetLeg). not (complete site paths settings s.world leg) in
      if_ind Free (unique (labels legs))
        (λ distinct.
          reconciled-Free legs (run_pending site paths settings before todo s)
            (run_pending-untracks site paths settings before todo s e)
            (run_pending-Out legs before todo s (unique-keep_if waits legs distinct)
              (λ x h. any-keep_if waits x legs h) idle))
        (λ _. (e, inl idle))
