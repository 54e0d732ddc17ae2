-- ===== src/Fleet/Leg/Leaves.antt =====
-- The exceptions that leave `_run_leg` and `run` of src/run_farm/fleet.py.
use run_farm.Prelude.{
  ℕ, zero, suc, ◌≡◌, refl, ◌⊎◌, inl, inr, String, Option, none, some, List, [], ◌∷◌, insert,
  string_eq,
}
use run_farm.Fleet.{
  FleetLeg, Raised, host_probe_failed, timed_out, rent_unavailable, budget_exceeded, leak_risk,
  other, LegResult, Try, gives, raises, Site, Paths, Settings,
}
use run_farm.Fleet.Leg.{
  Pool, State, LegEnd, result, halted, attempt, judge, drained, run_leg, on_verdict, on_offers,
}
use run_farm.Fleet.Leg.Run.{Results, run_legs, with_pool, run_pending, on_end}

module _ {P : Type 0} (site : Site P) (paths : Paths) (settings : Settings) where
  -- What may leave a run: BudgetExceeded, or what a question for offers raised.
  abbrev pub Leaves : Raised → Type 0
  Leaves e = ((m : String) × (e ≡ budget_exceeded m)) ⊎ ((p : P) × ((site.offers p).0 ≡ raises e))

  abbrev LegLeaves : LegEnd × Pool × State P → Type 0
  LegLeaves (result r, pool, s) = Unit
  LegLeaves (halted e, pool, s) = Leaves e

  judge-Leaves :
      (leg : FleetLeg) (offer : String) (body : Try LegResult) (pool : Pool) (s : State P)
      (again : LegEnd × Pool × State P)
      → LegLeaves again
      → LegLeaves
          (on_verdict (judge site paths settings leg offer body) (λ end. (end, pool, s)) again)
  judge-Leaves leg offer (gives r) pool s again next = tt
  judge-Leaves leg offer (raises (budget_exceeded m)) pool s again next = inl (m, refl)
  judge-Leaves leg offer (raises (host_probe_failed m)) pool s again next = next
  judge-Leaves leg offer (raises (timed_out m)) pool s again next = next
  judge-Leaves leg offer (raises (rent_unavailable m)) pool s again next = next
  judge-Leaves leg offer (raises (leak_risk m)) pool s again next = tt
  judge-Leaves leg offer (raises (other m)) pool s again next = tt

  offers-Leaves :
      (p : P) (answer : Try (List String)) (pool pool' : Pool) (s s' : State P) (leg : FleetLeg)
      (next : String → List String → LegEnd × Pool × State P)
      → (site.offers p).0 ≡ answer
      → ((offer : String) (rest : List String) → LegLeaves (next offer rest))
      → LegLeaves (
          on_offers answer
            (λ e. (halted e, pool, s))
            (drained site paths settings leg, pool', s')
            next)
  offers-Leaves p (raises e) pool pool' s s' leg next asked k = inr (p, asked)
  offers-Leaves p (gives []) pool pool' s s' leg next asked k = tt
  offers-Leaves p (gives (o ∷ os)) pool pool' s s' leg next asked k = k o os

  run_leg-Leaves :
      (leg : FleetLeg) (n : ℕ) (os : List String) (s : State P)
      → LegLeaves (run_leg site paths settings leg n os s)
  unfolding run_leg
  run_leg-Leaves leg n (offer ∷ os) s =
      judge-Leaves leg offer (attempt site paths settings leg offer s).0 _
        (attempt site paths settings leg offer s).1
        (run_leg site paths settings leg n os (attempt site paths settings leg offer s).1)
        (run_leg-Leaves leg n os (attempt site paths settings leg offer s).1)
  run_leg-Leaves leg zero [] s = tt
  run_leg-Leaves leg (suc n) [] s =
      offers-Leaves s.world (site.offers s.world).0 _ _ _ _ leg _ refl (λ offer rest.
        run_leg-Leaves leg n (offer ∷ rest) (record s { world = (site.offers s.world).1 }))

  abbrev pub RunLeaves : Option Raised × Results × State P → Type 0
  RunLeaves (none, results, s) = Unit
  RunLeaves (some e, results, s) = Leaves e

  end-Leaves :
      (end : LegEnd) (pool : Pool) (s : State P) (results : Results) (after : Raised → State P)
      (next : LegResult → Option Raised × Results × State P)
      → LegLeaves (end, pool, s)
      → ((r : LegResult) → RunLeaves (next r))
      → RunLeaves (on_end end (λ e. (some e, results, after e)) next)
  end-Leaves (halted e) pool s results after next h k = h
  end-Leaves (result r) pool s results after next h k = k r

  run_legs-Leaves :
      (results : Results) (pool : Pool) (legs : List FleetLeg) (s : State P)
      → RunLeaves (run_legs site paths settings results pool legs s)
  unfolding run_legs
  run_legs-Leaves results pool [] s = tt
  run_legs-Leaves results pool (leg ∷ legs) s =
      let (end, pool', s') = run_leg site paths settings leg pool.refills pool.queue s in
      end-Leaves end pool' s' results _ _ (run_leg-Leaves leg pool.refills pool.queue s)
        (λ r. run_legs-Leaves (insert r.label r results) pool' legs s')

  with_pool-Leaves :
      (p : P) (results : Results) (legs : List FleetLeg) (answer : Try (List String)) (s : State P)
      → (site.offers p).0 ≡ answer
      → RunLeaves (with_pool site paths settings results legs answer s)
  with_pool-Leaves p results legs (raises e) s asked = inr (p, asked)
  with_pool-Leaves p results legs (gives os) s asked = run_legs-Leaves results _ legs s

  pub run_pending-Leaves :
      (results : Results) (legs : List FleetLeg) (s : State P)
      → RunLeaves (run_pending site paths settings results legs s)
  run_pending-Leaves results [] s = tt
  run_pending-Leaves results (leg ∷ legs) s =
      with_pool-Leaves s.world results (leg ∷ legs) (site.offers s.world).0 _ refl
