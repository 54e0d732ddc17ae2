-- ===== src/Hosted/Released.antt =====
-- The time between rent and close in ProviderExecutor.run of src/run_farm/provider_exec.py: the host is given back.
use run_farm.Prelude.{
  take, ◌+◌, ap, ◌⊎◌, inl, inr, Bool-cases, ◌≡◌, refl, String, Bool, true, false, List, [], ◌∷◌,
  if_ind,
}
use run_farm.Config.{Config}
use run_farm.Fleet.{Raised, leak_risk, Try, gives, raises}
use run_farm.Fleet.Leg.Released.{and_then-keeps, is_leak, leaks, LeakRaised, is_leak_lem}
use run_farm.Hosted.{Cloud, Parsing, Settings, Result}
use run_farm.Hosted.Worker.{host_dead, wait_engine_ready, run_config, has_error}
use run_farm.Hosted.Run.{
  End, raised, leave, fails_over, add_record, after_record, run_configs, on_host, use_host, attempt,
  judge, try_offers, on_offers, run,
}
use run_farm.Hosted.Single.{death_ind}
use run_farm.Hosted.Held.{IsTenancy, host_dead-Held, run_config-Held, ready_loop-Held, Keeps}

module _ {P : Type 0} (cloud : Cloud P) (parsing : Parsing) (settings : Settings)
    (Idle : P → Type 0) (Held : String → P → Type 0) (laws : IsTenancy cloud Idle Held) where
  add_record-Held :
      (h : String) (r : Result) (rs : Try (List Result) × P)
      → Held h rs.1
      → Held h (add_record cloud parsing settings r rs).1
  add_record-Held h r (gives rs, p) k = k
  add_record-Held h r (raises e, p) k = k

  after_record-Held :
      (h : String) (r : Result) (b : Try Bool) (p : P) (next : P → Try (List Result) × P)
      → Held h p
      → ((q : P) → Held h q → Held h (next q).1)
      → Held h (after_record cloud parsing settings h r b p next).1
  unfolding host_dead
  after_record-Held h r (raises e) p next k f = k
  after_record-Held h r (gives false) p next k f = add_record-Held h r (next p) (f p k)
  after_record-Held h r (gives true) p next k f =
      let q = (host_dead cloud parsing settings p h).1 in
      let kq = host_dead-Held cloud parsing settings Idle Held laws h p k in
      death_ind (Keeps cloud parsing settings Idle Held laws {A = Try (List Result)} h)
        (host_dead cloud parsing settings p h).0 (λ why. kq) (add_record-Held h r (next q) (f q kq))

  run_configs-Held :
      (h : String) (cs : List Config) (p : P)
      → Held h p
      → Held h (run_configs cloud parsing settings h cs p).1
  unfolding run_configs
  run_configs-Held h [] p k = k
  run_configs-Held h (c ∷ cs) p k =
      let (r, p') = run_config cloud parsing settings h c p in
      after_record-Held h r (has_error cloud parsing settings r) p'
        (λ q. run_configs cloud parsing settings h cs q)
        (run_config-Held cloud parsing settings Idle Held laws h c p k)
        (λ q kq. run_configs-Held h cs q kq)

  on_host-Held :
      (h : String) (cs : List Config) (p : P)
      → Held h p
      → Held h (on_host cloud parsing settings h cs p).1
  unfolding on_host wait_engine_ready
  on_host-Held h cs p k =
      and_then-keeps (Held h) (wait_engine_ready cloud parsing settings h p) _
        (ready_loop-Held cloud parsing settings Idle Held laws (settings.ready_timeout + 1)
          (cloud.clock p + settings.ready_timeout) h p k)
        (λ u p1 k1.
          and_then-keeps (Held h) (run_configs cloud parsing settings h cs p1) _
            (run_configs-Held h cs p1 k1) (λ rs p2 k2. laws.scp_held h p2 k2))

  -- No host is held, or the answer is LeakRisk.
  abbrev Settled : Try (List Result) × P → Type 0
  Settled r = Idle r.1 ⊎ LeakRaised r.0

  leave-Settled :
      (p : P) (body : Try (List Result)) (exit : Try (Unit {0}))
      → (leaks exit ≡ false → Idle p)
      → Settled (leave cloud parsing settings body exit, p)
  leave-Settled p body (gives u) f = inl (f refl)
  leave-Settled p body (raises e) f = elim (Bool-cases (is_leak e)) [
    | inl leaking ↦ let (m, same) = is_leak_lem e leaking in inr (m, ap raises same)
    | inr safe ↦ inl (f safe)
  ]

  use_host-Settled :
      (cs : List Config) (r : Try String × P)
      → ((host : String) → r.0 ≡ gives host → Held host r.1)
      → ((e : Raised) → r.0 ≡ raises e → is_leak e ≡ false → Idle r.1)
      → Settled (use_host cloud parsing settings cs r)
  unfolding use_host
  use_host-Settled cs (raises e, p) opens refused = elim (Bool-cases (is_leak e)) [
    | inl leaking ↦ let (m, same) = is_leak_lem e leaking in inr (m, ap raises same)
    | inr safe ↦ inl (refused e refl safe)
  ]
  use_host-Settled cs (gives host, p) opens refused =
      let (body, p') = on_host cloud parsing settings host cs p in
      leave-Settled (cloud.close p' host).1 body (cloud.close p' host).0 (
        laws.close_idle host (on_host cloud parsing settings host cs p).1
          (on_host-Held host cs p (opens host refl)))

  attempt-Settled :
      (cs : List Config) (offer : String) (p : P)
      → Idle p
      → Settled (attempt cloud parsing settings cs offer p)
  unfolding attempt
  attempt-Settled cs offer p i =
      use_host-Settled cs (cloud.rent p offer) (λ host e. laws.rent_opens p offer host i e)
        (λ e h safe. laws.rent_refused p offer e i h safe)

  -- The end is one by LeakRisk.
  abbrev pub LeakEnd : End → Type 0
  LeakEnd end = (m : String) × (end ≡ raised (leak_risk m))

  -- No host is held, or the end is LeakRisk.
  abbrev pub Ended : End × P → Type 0
  Ended r = Idle r.1 ⊎ LeakEnd r.0

  judge-Ended :
      (r : Try (List Result)) (p : P) (next : End × P)
      → Settled (r, p)
      → (Idle p → Ended next)
      → Ended (judge cloud parsing settings r p next)
  judge-Ended (gives rs) p next (inl i) k = inl i
  judge-Ended (gives rs) p next (inr (m, e)) k = cc
  judge-Ended (raises e) p next (inl i) k = if_ind Ended (fails_over e) (λ _. k i) (λ _. inl i)
  judge-Ended (raises e) p next (inr (m, same)) k =
      let leaking : e ≡ leak_risk m = cc in
      let stays : fails_over e ≡ false = ap fails_over leaking in
      if_ind Ended (fails_over e) (λ goes_on. cc) (λ _. inr (m, ap raised leaking))

  try_offers-Ended :
      (cs : List Config) (os : List String) (p : P)
      → Idle p
      → Ended (try_offers cloud parsing settings cs os p)
  unfolding try_offers
  try_offers-Ended cs [] p i = inl i
  try_offers-Ended cs (o ∷ os) p i =
      let (r, p') = attempt cloud parsing settings cs o p in
      judge-Ended r p' (try_offers cloud parsing settings cs os p') (attempt-Settled cs o p i)
        (λ i'. try_offers-Ended cs os p' i')

  on_offers-Ended :
      (cs : List Config) (answer : Try (List String)) (p : P)
      → Idle p
      → Ended (on_offers cloud parsing settings cs answer p)
  unfolding try_offers
  on_offers-Ended cs (raises e) p i = inl i
  on_offers-Ended cs (gives []) p i = inl i
  on_offers-Ended cs (gives (o ∷ os)) p i =
      try_offers-Ended cs (take settings.max_attempts (o ∷ os)) p i

  -- `run`, begun with no host held, ends with none held, whether it returns records or raises, and wherever on
  -- a host or between the offers it raises, or else it ends with LeakRisk. The hypothesis is `IsTenancy`: what each call does to the hosts held, where a close
  -- or a rent that raises LeakRisk may leave them in any state.
  pub run-Idle :
      (given : Bool) (cs : List Config) (p : P)
      → Idle p
      → Ended (run cloud parsing settings given cs p)
  unfolding run
  run-Idle true cs p i = inl i
  run-Idle false [] p i = inl i
  run-Idle false (c ∷ cs) p i =
      on_offers-Ended (c ∷ cs) (cloud.offers p).0 (cloud.offers p).1 (laws.offers_idle p i)
