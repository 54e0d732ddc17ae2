-- ===== src/Fleet/Leg/Returns.antt =====
-- The hosts held and tracked by `_run_leg` of src/run_farm/fleet.py.
use run_farm.Prelude.{
  ℕ, zero, suc, ◌≡◌, refl, ap, ◌∙◌, ◌⊎◌, inl, inr, String, Bool, true, false, List, [], ◌∷◌, Dict,
  insert, erase, string_eq, beq_refl, Bool-cases, arith,
}
use run_farm.Fleet.{
  FleetLeg, Raised, host_probe_failed, timed_out, rent_unavailable, budget_exceeded, leak_risk,
  other, leak, LegResult, Try, gives, raises, Site, Paths, Settings,
}
use run_farm.Fleet.Host.{on_host}
use run_farm.Fleet.Leg.{
  Pool, State, LegEnd, result, halted, Verdict, settles, fails_over, use_host, attempt, judge,
  leave, run_leg, on_verdict, on_offers,
}
use run_farm.Fleet.Leg.Released.{IsBracket, on_host-Held, is_leak, leaks, LeakRaised, is_leak_lem}
use run_farm.Fleet.Leg.Run.{on_end}

erase-insert_nil : (host : String) → erase host (insert host true []) ≡ []
unfolding erase insert
erase-insert_nil host = ground (arith, beq_refl host)

pub verdict_ind {ℓ κ} :
    {A : Type ℓ} (Q : A → Type κ) (v : Verdict) {f : LegEnd → A} {x : A}
    → ((end : LegEnd) → Q (f end))
    → Q x
    → Q (on_verdict v f x)
verdict_ind Q (settles end) hf hx = hf end
verdict_ind Q fails_over hf hx = hx

pub offers_ind {ℓ κ} :
    {A : Type ℓ} (Q : A → Type κ) (answer : Try (List String)) {f : Raised → A} {x : A}
    {g : String → List String → A}
    → ((e : Raised) → Q (f e))
    → Q x
    → ((o : String) (rest : List String) → Q (g o rest))
    → Q (on_offers answer f x g)
offers_ind Q (raises e) hf hx hg = hf e
offers_ind Q (gives []) hf hx hg = hx
offers_ind Q (gives (o ∷ os)) hf hx hg = hg o os

pub end_ind {ℓ κ} :
    {A : Type ℓ} (Q : A → Type κ) (end : LegEnd) {f : Raised → A} {g : LegResult → A}
    → ((e : Raised) → Q (f e))
    → ((r : LegResult) → Q (g r))
    → Q (on_end end f g)
end_ind Q (halted e) hf hg = hf e
end_ind Q (result r) hf hg = hg r

module _ {P : Type 0} (site : Site P) (paths : Paths) (settings : Settings) where
  attempt-untracks :
      (leg : FleetLeg) (offer : String) (s : State P)
      → s.live ≡ []
      → (attempt site paths settings leg offer s).1.live ≡ []
  unfolding attempt use_host
  attempt-untracks leg offer s e = by_rent (site.rent s.world offer).0
    where
      by_rent :
          (r : Try String)
          → (elim r as (λ _. Try LegResult × State P) [
            | raises x ↦ (raises x, record s { world = (site.rent s.world offer).1 })
            | gives host ↦
                use_host site paths settings leg host
                  (record s { world = (site.rent s.world offer).1 })
          ]).1.live
            ≡ []
      by_rent (raises x) = e
      by_rent (gives host) =
          ap (λ (l : Dict String Bool). erase host (insert host true l)) e ∙ erase-insert_nil host

  -- A leg leaves no host tracked.
  pub run_leg-untracks :
      (leg : FleetLeg) (n : ℕ) (os : List String) (s : State P)
      → s.live ≡ []
      → (run_leg site paths settings leg n os s).2.live ≡ []
  unfolding run_leg
  run_leg-untracks leg n (offer ∷ os) s e =
      let e' = attempt-untracks leg offer s e in
      verdict_ind (λ (r : LegEnd × Pool × State P). r.2.live ≡ [])
        (judge site paths settings leg offer (attempt site paths settings leg offer s).0)
        (λ end. e') (run_leg-untracks leg n os (attempt site paths settings leg offer s).1 e')
  run_leg-untracks leg zero [] s e = e
  run_leg-untracks leg (suc n) [] s e =
      offers_ind (λ (r : LegEnd × Pool × State P). r.2.live ≡ []) (site.offers s.world).0 (λ x. e) e
        (λ offer rest.
          run_leg-untracks leg n (offer ∷ rest) (record s { world = (site.offers s.world).1 }) e)

  -- The site raises LeakRisk somewhere, from a rent or a close.
  abbrev pub SomeLeak : Type 0
  SomeLeak =
      ((p : P) × (offer : String) × LeakRaised (site.rent p offer).0)
      ⊎ ((p : P) × (host : String) × LeakRaised (site.close p host).0)

module _ {P : Type 0} (site : Site P) (paths : Paths) (settings : Settings) (Idle : P → Type 0)
    (Held : String → P → Type 0) (laws : IsBracket site Idle Held) where
  -- No host is held, or the answer is LeakRisk.
  abbrev Settled : Try LegResult × P → Type 0
  Settled r = Idle r.1 ⊎ (LeakRaised r.0 × SomeLeak site paths settings)

  leave-Settled :
      (host : String) (p : P) (body : Try LegResult) (exit : Try (Unit {0}))
      → (site.close p host).0 ≡ exit
      → (leaks exit ≡ false → Idle (site.close p host).1)
      → Settled (leave site paths settings body exit, (site.close p host).1)
  leave-Settled host p body (gives u) e f = inl (f refl)
  leave-Settled host p body (raises x) e f = elim (Bool-cases (is_leak x)) [
    | inl leaking ↦
        let (m, same) = is_leak_lem x leaking in
        inr ((m, ap raises same), inr (p, host, (m, e ∙ ap raises same)))
    | inr safe ↦ inl (f safe)
  ]

  attempt-Settled :
      (leg : FleetLeg) (offer : String) (s : State P)
      → Idle s.world
      → Settled (
        (attempt site paths settings leg offer s).0,
        (attempt site paths settings leg offer s).1.world,
      )
  unfolding attempt use_host
  attempt-Settled leg offer s idle = by_rent (site.rent s.world offer).0 refl
    where
      by_rent :
          (r : Try String)
          → (site.rent s.world offer).0 ≡ r
          → (λ (x : Try LegResult × State P). Settled (x.0, x.1.world))
              (elim r as (λ _. Try LegResult × State P) [
                | raises e ↦ (raises e, record s { world = (site.rent s.world offer).1 })
                | gives host ↦
                    use_host site paths settings leg host
                      (record s { world = (site.rent s.world offer).1 })
              ])
      by_rent (raises x) eq = elim (Bool-cases (is_leak x)) [
        | inl leaking ↦
            let (m, same) = is_leak_lem x leaking in
            inr ((m, ap raises same), inl (s.world, offer, (m, eq ∙ ap raises same)))
        | inr safe ↦ inl (laws.rent_refused s.world offer x idle eq safe)
      ]
      by_rent (gives host) eq =
          let p1 = (site.rent s.world offer).1 in
          let p4 = (on_host site paths settings host leg p1).1 in
          leave-Settled host p4 (on_host site paths settings host leg p1).0 (site.close p4 host).0
            refl
            (laws.close_idle host p4 (
              on_host-Held site paths settings Idle Held laws host leg p1
                (laws.rent_opens s.world offer host idle eq)))

  -- The leg is reported as a leak.
  abbrev pub EndLeak : LegEnd → Type 0
  EndLeak (result r) = r.status ≡ leak
  EndLeak (halted e) = ⊥

  -- No host is held, or the leg is reported as a leak, and the site raised LeakRisk.
  abbrev pub LegSettled : LegEnd × Pool × State P → Type 0
  LegSettled r = Idle r.2.world ⊎ (EndLeak r.0 × SomeLeak site paths settings)

  judge-Settled :
      (leg : FleetLeg) (offer : String) (body : Try LegResult) (pool : Pool) (s : State P)
      (again : LegEnd × Pool × State P)
      → Settled (body, s.world)
      → (Idle s.world → LegSettled again)
      → LegSettled
          (on_verdict (judge site paths settings leg offer body) (λ end. (end, pool, s)) again)
  judge-Settled leg offer body pool s again (inl idle) next =
      verdict_ind LegSettled (judge site paths settings leg offer body) (λ end. inl idle)
        (next idle)
  judge-Settled leg offer (raises (leak_risk m)) pool s again (inr (raised, some_leak)) next =
      inr (refl, some_leak)
  judge-Settled leg offer (raises (budget_exceeded m)) pool s again (inr (raised, some_leak)) next =
      cc
  judge-Settled leg offer (raises (host_probe_failed m)) pool s again (inr (raised, some_leak))
        next =
      cc
  judge-Settled leg offer (raises (timed_out m)) pool s again (inr (raised, some_leak)) next = cc
  judge-Settled leg offer (raises (rent_unavailable m)) pool s again (inr (raised, some_leak))
        next =
      cc
  judge-Settled leg offer (raises (other m)) pool s again (inr (raised, some_leak)) next = cc
  judge-Settled leg offer (gives r) pool s again (inr (raised, some_leak)) next = cc

  pub run_leg-Settled :
      (leg : FleetLeg) (n : ℕ) (os : List String) (s : State P)
      → Idle s.world
      → LegSettled (run_leg site paths settings leg n os s)
  unfolding run_leg
  run_leg-Settled leg n (offer ∷ os) s idle =
      judge-Settled leg offer (attempt site paths settings leg offer s).0 _
        (attempt site paths settings leg offer s).1
        (run_leg site paths settings leg n os (attempt site paths settings leg offer s).1)
        (attempt-Settled leg offer s idle)
        (λ idle'. run_leg-Settled leg n os (attempt site paths settings leg offer s).1 idle')
  run_leg-Settled leg zero [] s idle = inl idle
  run_leg-Settled leg (suc n) [] s idle =
      let idle' = laws.offers_idle s.world idle in
      offers_ind LegSettled (site.offers s.world).0 (λ e. inl idle') (inl idle')
        (λ offer rest.
          run_leg-Settled leg n (offer ∷ rest) (record s { world = (site.offers s.world).1 }) idle')
