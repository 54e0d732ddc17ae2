-- ===== src/Fleet/Leg/Released.antt =====
-- The time between rent and close in src/run_farm/fleet.py: what the steps on a host keep.
use run_farm.Prelude.{
  ℕ, zero, suc, ◌-◌, ltb, leb, nat_beq, ◌≡◌, String, Bool, true, false, refl, not, ◌||◌, Option,
  none, some, List, [], ◌∷◌, ◌==◌, string_eq, if_ind,
}
use run_farm.Fleet.{
  FleetLeg, Raised, host_probe_failed, timed_out, rent_unavailable, budget_exceeded, leak_risk,
  other, LegResult, Try, gives, raises, and_then, Site, Paths, Settings,
}
use run_farm.Fleet.Host.{
  host_dead, fast_fail, poll, truthy, wait_loop, wait_ready, shipped, ship, restore, command_loop,
  run_command, fetch, fetch_loop, beside, after_command, on_host, ssh_transport_rc,
}
use run_farm.Fleet.Host.Deadline.{stop_ind}

-- LeakRisk, which says that a host was perhaps not given back.
abbrev pub is_leak : Raised → Bool
is_leak (leak_risk m) = true
is_leak (host_probe_failed m) = false
is_leak (timed_out m) = false
is_leak (rent_unavailable m) = false
is_leak (budget_exceeded m) = false
is_leak (other m) = false

abbrev pub leaks : {A : Type 0} → Try A → Bool
leaks (gives a) = false
leaks (raises e) = is_leak e

-- The answer is LeakRisk.
abbrev pub LeakRaised : {A : Type 0} → Try A → Type 0
LeakRaised r = (m : String) × (r ≡ raises (leak_risk m))

pub is_leak_lem : (e : Raised) → is_leak e ≡ true → (m : String) × (e ≡ leak_risk m)
is_leak_lem (leak_risk m) h = (m, refl)
is_leak_lem (host_probe_failed m) h = cc
is_leak_lem (timed_out m) h = cc
is_leak_lem (rent_unavailable m) h = cc
is_leak_lem (budget_exceeded m) h = cc
is_leak_lem (other m) h = cc

-- What holds when no host is held, and when one is. Of LeakRisk nothing is said: after it a host may be held.
pub record IsBracket {P : Type 0} (site : Site P) (Idle : P → Type 0) (Held : String → P → Type 0)
    : Type 0 where
  pub offers_idle : (p : P) → Idle p → Idle (site.offers p).1
  pub rent_opens :
      (p : P) (offer host : String)
      → Idle p
      → (site.rent p offer).0 ≡ gives host
      → Held host (site.rent p offer).1
  pub rent_refused :
      (p : P) (offer : String) (e : Raised)
      → Idle p
      → (site.rent p offer).0 ≡ raises e
      → is_leak e ≡ false
      → Idle (site.rent p offer).1
  pub ready_held : (h : String) (p : P) → Held h p → Held h (site.ready p h).1
  pub dead_held : (h : String) (p : P) → Held h p → Held h (site.dead_reason p h).1
  pub scp_held : (h : String) (p : P) (a b : String) → Held h p → Held h (site.scp_up p h a b).1
  pub ssh_held :
      (h : String) (p : P) (leg : FleetLeg) (t : ℕ) → Held h p → Held h (site.ssh p h leg t).1
  pub pull_held : (h : String) (p : P) (leg : FleetLeg) → Held h p → Held h (site.pull p h leg).1
  pub sleep_held : (h : String) (p : P) (n : ℕ) → Held h p → Held h (site.sleep p n)
  pub close_idle :
      (h : String) (p : P) → Held h p → leaks (site.close p h).0 ≡ false → Idle (site.close p h).1

pub and_then-keeps :
    {P A B : Type 0} (Q : P → Type 0) (r : Try A × P) (f : A → P → Try B × P)
    → Q r.1
    → ((a : A) (p : P) → Q p → Q (f a p).1)
    → Q (and_then r f).1
and_then-keeps Q (gives a, p) f h k = k a p h
and_then-keeps Q (raises e, p) f h k = h

module _ {P : Type 0} (site : Site P) (paths : Paths) (settings : Settings) (Idle : P → Type 0)
    (Held : String → P → Type 0) (laws : IsBracket site Idle Held) (h : String) where
  fast_fail-Held :
      (r : Try (Option String) × P) → Held h r.1 → Held h (fast_fail site paths settings r).1
  fast_fail-Held (gives reason, p) k = by_reason (truthy reason)
    where
      by_reason :
          (o : Option String)
          → Held h
              (elim o as (λ _. Try Bool × P) [
                | none ↦ (gives false, p)
                | some why ↦ (raises (Raised.host_probe_failed why), p)
              ]).1
      by_reason none = k
      by_reason (some why) = k
  fast_fail-Held (raises e, p) k = k

  poll-Held : (p : P) → Held h p → Held h (poll site paths settings p h).1
  poll-Held p k = and_then-keeps (Held h) (site.ready p h) _ (laws.ready_held h p k) (λ ready p' k'.
      if_ind (λ (r : Try Bool × P). Held h r.1) ready (λ _. k')
        (λ _. fast_fail-Held (site.dead_reason p' h) (laws.dead_held h p' k')))

  wait_loop-Held :
      (fuel deadline : ℕ) (p : P)
      → Held h p
      → Held h (wait_loop site paths settings fuel deadline h p).1
  unfolding wait_loop
  wait_loop-Held zero deadline p k = k
  wait_loop-Held (suc fuel) deadline p k =
      if_ind (λ (r : Try (Unit {0}) × P). Held h r.1) (ltb (site.clock p) deadline)
        (λ _.
          and_then-keeps (Held h) (poll site paths settings p h) _ (poll-Held p k) (λ ready p' k'.
            if_ind (λ (r : Try (Unit {0}) × P). Held h r.1) ready (λ _. k')
              (λ _.
                wait_loop-Held fuel deadline (site.sleep p' settings.ready_poll_s)
                  (laws.sleep_held h p' settings.ready_poll_s k'))))
        (λ _. k)

  shipped-Held : (r : (ℕ × String) × P) → Held h r.1 → Held h (shipped site paths settings r).1
  shipped-Held ((rc, out), p) k =
      if_ind (λ (r : Try (Unit {0}) × P). Held h r.1) (nat_beq rc 0) (λ _. k) (λ _. k)

  ship-Held : (srcs : List String) (p : P) → Held h p → Held h (ship site paths settings h srcs p).1
  unfolding ship
  ship-Held [] p k = k
  ship-Held (src ∷ srcs) p k =
      and_then-keeps (Held h) (shipped site paths settings (site.scp_up p h src _)) _
        (shipped-Held (site.scp_up p h src _) (laws.scp_held h p src _ k))
        (λ u p' k'. ship-Held srcs p' k')

  restore-Held : (leg : FleetLeg) (p : P) → Held h p → Held h (restore site paths settings h leg p)
  unfolding restore
  restore-Held leg p k =
      if_ind (Held h)
        (leg.fetch == "" || not (site.has_output p leg.label (paths.base_name leg.fetch))) (λ _. k)
        (λ _. laws.scp_held h p _ _ k)

  host_dead-Held : (p : P) → Held h p → Held h (host_dead site paths settings p h).1
  unfolding host_dead
  host_dead-Held p k = laws.dead_held h p k

  command_loop-Held :
      (more deadline : ℕ) (leg : FleetLeg) (p : P)
      → Held h p
      → Held h (command_loop site paths settings more deadline h leg p).1
  unfolding command_loop
  command_loop-Held zero deadline leg p k = k
  command_loop-Held (suc more) deadline leg p k =
      if_ind Q (leb deadline (site.clock p)) (λ _. k)
        (λ _.
          let (answer, p') = site.ssh p h leg (deadline - site.clock p) in
          let k' = laws.ssh_held h p leg (deadline - site.clock p) k in
          if_ind Q (not (nat_beq answer.0 ssh_transport_rc) || nat_beq more 0) (λ _. k')
            (λ _.
              let k'' = host_dead-Held p' k' in
              stop_ind Q (host_dead site paths settings p' h).0 k''
                (command_loop-Held more deadline leg _ (laws.sleep_held h _ _ k''))))
    where
      Q : (ℕ × String) × P → Type 0
      Q r = Held h r.1

  fetch-Held : (leg : FleetLeg) (p : P) → Held h p → Held h (fetch site paths settings h leg p).1
  unfolding fetch
  fetch-Held leg p k =
      if_ind (λ (r : Try (Unit {0}) × P). Held h r.1) (leg.fetch == "") (λ _. k)
        (λ _. laws.pull_held h p leg k)

  after_command-Held :
      (leg : FleetLeg) (r : (ℕ × String) × P)
      → Held h r.1
      → Held h (after_command site paths settings h leg r).1
  unfolding after_command
  after_command-Held leg ((rc, out), p) k =
      if_ind Q (nat_beq rc 0)
        (λ _.
          and_then-keeps (Held h) (fetch site paths settings h leg p) _ (fetch-Held leg p k)
            (λ u p' k'. k'))
        (λ _.
          stop_ind Q (host_dead site paths settings p h).0 (host_dead-Held p k)
            (host_dead-Held p k))
    where
      Q : Try LegResult × P → Type 0
      Q r = Held h r.1

  fetch_loop-Held :
      (n : ℕ) (leg : FleetLeg) (p : P)
      → Held h p
      → Held h (fetch_loop site paths settings n h leg p)
  unfolding fetch_loop
  fetch_loop-Held zero leg p k = k
  fetch_loop-Held (suc n) leg p k =
      fetch_loop-Held n leg (fetch site paths settings h leg p).1 (fetch-Held leg p k)

  beside-Held :
      (leg : FleetLeg) (r : (ℕ × String) × P)
      → Held h r.1
      → Held h (beside site paths settings h leg r).1
  unfolding beside
  beside-Held leg r k =
      if_ind (Held h) leg.resumable (λ _. fetch_loop-Held (site.pulls r.1 h) leg r.1 k) (λ _. k)

  pub on_host-Held :
      (leg : FleetLeg) (p : P) → Held h p → Held h (on_host site paths settings h leg p).1
  unfolding on_host wait_ready run_command
  on_host-Held leg p k =
      and_then-keeps (Held h) (wait_ready site paths settings h p) _ (wait_loop-Held _ _ p k)
        (λ u p1 k1.
          and_then-keeps (Held h) (ship site paths settings h leg.ship p1) _
            (ship-Held leg.ship p1 k1)
            (λ v p2 k2.
              let k3 = if_ind (Held h) leg.resumable (λ _. restore-Held leg p2 k2) (λ _. k2) in
              after_command-Held leg
                (beside site paths settings h leg (run_command site paths settings h leg _))
                (beside-Held leg (run_command site paths settings h leg _)
                  (command_loop-Held _ _ leg _ k3))))
