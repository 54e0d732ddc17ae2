-- ===== src/Fleet/Leg/Labels.antt =====
-- The label of a result of `_run_leg` in src/run_farm/fleet.py.
use run_farm.Prelude.{
  ℕ, zero, suc, ◌≡◌, refl, String, List, [], ◌∷◌, string_eq, nat_beq, if_ind, arith,
}
use run_farm.Fleet.{
  FleetLeg, host_probe_failed, timed_out, rent_unavailable, budget_exceeded, leak_risk, other,
  LegResult, Try, gives, raises, and_then, Site, Paths, Settings,
}
use run_farm.Fleet.Host.{concluded, after_command, on_host, host_dead, fetch, wait_ready, ship}
use run_farm.Fleet.Host.Deadline.{stop_ind}
use run_farm.Fleet.Leg.{
  Pool, State, LegEnd, result, halted, use_host, attempt, judge, leave, run_leg, on_verdict,
}
use run_farm.Fleet.Leg.Returns.{offers_ind}

module _ {P : Type 0} (site : Site P) (paths : Paths) (settings : Settings) (leg : FleetLeg) where
  abbrev Mine : Try LegResult × P → Type 0
  Mine (gives r, p) = r.label ≡ leg.label
  Mine (raises e, p) = Unit

  concluded-label :
      (host : String) (p : P) → (concluded site paths settings host leg p).label ≡ leg.label
  unfolding concluded
  concluded-label host p = ground arith

  and_then-Mine :
      {A : Type 0} (r : Try A × P) (f : A → P → Try LegResult × P)
      → ((a : A) (p : P) → Mine (f a p))
      → Mine (and_then r f)
  and_then-Mine (gives a, p) f k = k a p
  and_then-Mine (raises e, p) f k = tt

  after_command-Mine :
      (host : String) (r : (ℕ × String) × P) → Mine (after_command site paths settings host leg r)
  unfolding after_command
  after_command-Mine host r =
      if_ind Mine (nat_beq r.0.0 0)
        (λ _.
          and_then-Mine (fetch site paths settings host leg r.1) _
            (λ u p'. concluded-label host p'))
        (λ _. stop_ind Mine (host_dead site paths settings r.1 host).0 tt refl)

  on_host-Mine : (host : String) (p : P) → Mine (on_host site paths settings host leg p)
  unfolding on_host
  on_host-Mine host p = and_then-Mine (wait_ready site paths settings host p) _ (λ u p1.
      and_then-Mine (ship site paths settings host leg.ship p1) _
        (λ v p2. after_command-Mine host _))

  abbrev Named : Try LegResult → Type 0
  Named (gives r) = r.label ≡ leg.label
  Named (raises e) = Unit

  leave-Named :
      (p : P) (body : Try LegResult) (exit : Try (Unit {0}))
      → Mine (body, p)
      → Named (leave site paths settings body exit)
  leave-Named p (gives r) (gives u) h = h
  leave-Named p (raises e) (gives u) h = tt
  leave-Named p body (raises e) h = tt

  attempt-Named : (offer : String) (s : State P) → Named (attempt site paths settings leg offer s).0
  unfolding attempt use_host
  attempt-Named offer s = by_rent (site.rent s.world offer).0
    where
      by_rent :
          (r : Try String)
          → (λ (x : Try LegResult × State P). Named x.0)
              (elim r as (λ _. Try LegResult × State P) [
                | raises e ↦ (raises e, record s { world = (site.rent s.world offer).1 })
                | gives host ↦
                    use_host site paths settings leg host
                      (record s { world = (site.rent s.world offer).1 })
              ])
      by_rent (raises e) = tt
      by_rent (gives host) =
          let (body, w) = on_host site paths settings host leg (site.rent s.world offer).1 in
          leave-Named w body (site.close w host).0 (on_host-Mine host (site.rent s.world offer).1)

  -- If a leg ends with a result, it has the label of the leg.
  abbrev pub EndNamed : LegEnd × Pool × State P → Type 0
  EndNamed (result r, pool, s) = r.label ≡ leg.label
  EndNamed (halted e, pool, s) = Unit

  judge-Named :
      (offer : String) (body : Try LegResult) (pool : Pool) (s : State P)
      (again : LegEnd × Pool × State P)
      → Named body
      → EndNamed again
      → EndNamed
          (on_verdict (judge site paths settings leg offer body) (λ end. (end, pool, s)) again)
  judge-Named offer (gives r) pool s again h next = h
  judge-Named offer (raises (budget_exceeded m)) pool s again h next = tt
  judge-Named offer (raises (host_probe_failed m)) pool s again h next = next
  judge-Named offer (raises (timed_out m)) pool s again h next = next
  judge-Named offer (raises (rent_unavailable m)) pool s again h next = next
  judge-Named offer (raises (leak_risk m)) pool s again h next = refl
  judge-Named offer (raises (other m)) pool s again h next = refl

  pub run_leg-Named :
      (n : ℕ) (os : List String) (s : State P) → EndNamed (run_leg site paths settings leg n os s)
  unfolding run_leg
  run_leg-Named n (offer ∷ os) s =
      let s' = (attempt site paths settings leg offer s).1 in
      judge-Named offer (attempt site paths settings leg offer s).0 _ s'
        (run_leg site paths settings leg n os s') (attempt-Named offer s)
        (run_leg-Named n os (attempt site paths settings leg offer s).1)
  run_leg-Named zero [] s = refl
  run_leg-Named (suc n) [] s =
      offers_ind EndNamed (site.offers s.world).0 (λ e. tt) refl
        (λ offer rest.
          run_leg-Named n (offer ∷ rest) (record s { world = (site.offers s.world).1 }))
