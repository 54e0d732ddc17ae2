-- ===== src/Hosted/Held.antt =====
-- The steps on a rented host in src/run_farm/provider_exec.py: what they keep while it is held.
use Prim.Native.Nat.{min}
use package.text.Mathlib.Text.{find?}
use run_farm.Prelude.{
  ℕ, zero, suc, ◌+◌, ◌-◌, ◌*◌, ◌≡◌, String, Bool, false, not, ◌&&◌, ◌||◌, is_some, nat_beq, ltb,
  leb, if_ind,
}
use run_farm.Config.{Config}
use run_farm.Fleet.{Raised, Try, gives, raises}
use run_farm.Fleet.Leg.Released.{is_leak, leaks}
use run_farm.Hosted.{Cloud, Parsing, Settings, ready_command, worker_command}
use run_farm.Hosted.Worker.{
  ssh_transport_rc, worker_probe, host_dead, ready_loop, gone_loop, worker_gone, back_off,
  worker_loop, run_worker, run_config,
}
use run_farm.Hosted.Single.{death_ind}

-- What holds when no host is held, and while one is. Of LeakRisk nothing is said: after it a host may be held.
pub record IsTenancy {P : Type 0} (cloud : Cloud P) (Idle : P → Type 0) (Held : String → P → Type 0)
    : Type 0 where
  pub offers_idle : (p : P) → Idle p → Idle (cloud.offers p).1
  pub rent_opens :
      (p : P) (offer host : String)
      → Idle p
      → (cloud.rent p offer).0 ≡ gives host
      → Held host (cloud.rent p offer).1
  pub rent_refused :
      (p : P) (offer : String) (e : Raised)
      → Idle p
      → (cloud.rent p offer).0 ≡ raises e
      → is_leak e ≡ false
      → Idle (cloud.rent p offer).1
  pub dead_held : (h : String) (p : P) → Held h p → Held h (cloud.dead_reason p h).1
  pub scp_held : (h : String) (p : P) → Held h p → Held h (cloud.scp_down p h)
  pub ssh_held :
      (h : String) (p : P) (cmd : String) (t : ℕ) → Held h p → Held h (cloud.ssh p h cmd t).1
  pub sleep_held : (h : String) (p : P) (n : ℕ) → Held h p → Held h (cloud.sleep p n)
  pub close_idle :
      (h : String) (p : P) → Held h p → leaks (cloud.close p h).0 ≡ false → Idle (cloud.close p h).1

module _ {P : Type 0} (cloud : Cloud P) (parsing : Parsing) (settings : Settings)
    (Idle : P → Type 0) (Held : String → P → Type 0) (laws : IsTenancy cloud Idle Held) where
  abbrev pub Keeps : {A : Type 0} → String → A × P → Type 0
  Keeps h r = Held h r.1

  pub host_dead-Held :
      (h : String) (p : P) → Held h p → Held h (host_dead cloud parsing settings p h).1
  unfolding host_dead
  host_dead-Held h p k = laws.dead_held h p k

  pub ready_loop-Held :
      (fuel deadline : ℕ) (h : String) (p : P)
      → Held h p
      → Held h (ready_loop cloud parsing settings fuel deadline h p).1
  unfolding ready_loop
  ready_loop-Held zero deadline h p k = k
  ready_loop-Held (suc fuel) deadline h p k =
      let p' = (cloud.ssh p h (ready_command parsing settings) 30).1 in
      let k' = laws.ssh_held h p (ready_command parsing settings) 30 k in
      if_ind (Keeps {A = Try (Unit {0})} h) (ltb (cloud.clock p) deadline)
        (λ _.
          if_ind (Keeps {A = Try (Unit {0})} h)
            (nat_beq (cloud.ssh p h (ready_command parsing settings) 30).0.0 0) (λ _. k')
            (λ _. ready_loop-Held fuel deadline h (cloud.sleep p' 10) (laws.sleep_held h p' 10 k')))
        (λ _. k)

  gone_loop-Held :
      (fuel deadline : ℕ) (h : String) (p : P)
      → Held h p
      → Held h (gone_loop cloud parsing settings fuel deadline h p).1
  unfolding gone_loop
  gone_loop-Held zero deadline h p k = k
  gone_loop-Held (suc fuel) deadline h p k =
      let t = min 30 (deadline - cloud.clock p) in
      let p' = (cloud.ssh p h worker_probe t).1 in
      let k' = laws.ssh_held h p worker_probe t k in
      let nap = min settings.reattach_backoff_s (deadline - cloud.clock p') in
      if_ind (Keeps {A = Bool} h) (leb deadline (cloud.clock p)) (λ _. k)
        (λ _.
          if_ind (Keeps {A = Bool} h)
            (nat_beq (cloud.ssh p h worker_probe t).0.0 0
              && is_some (find? (cloud.ssh p h worker_probe t).0.1 "GONE"))
            (λ _. k')
            (λ _.
              if_ind (Keeps {A = Bool} h) (nat_beq nap 0) (λ _. k')
                (λ _.
                  gone_loop-Held fuel deadline h (cloud.sleep p' nap)
                    (laws.sleep_held h p' nap k'))))

  worker_gone-Held :
      (h : String) (budget : ℕ) (p : P)
      → Held h p
      → Held h (worker_gone cloud parsing settings h budget p).1
  unfolding worker_gone
  worker_gone-Held h budget p k = gone_loop-Held (budget + 1) (cloud.clock p + budget) h p k

  back_off-Held :
      (h : String) (deadline : ℕ) (p : P)
      → Held h p
      → Held h (back_off cloud parsing settings deadline p)
  back_off-Held h deadline p k =
      let nap = min settings.reattach_backoff_s (deadline - cloud.clock p) in
      if_ind (Held h) (nat_beq nap 0) (λ _. k) (λ _. laws.sleep_held h p nap k)

  worker_loop-Held :
      (more tries deadline : ℕ) (last h cmd : String) (p : P)
      → Held h p
      → Held h (worker_loop cloud parsing settings more tries last deadline h cmd p).1
  unfolding worker_loop
  worker_loop-Held zero tries deadline last h cmd p k = k
  worker_loop-Held (suc more) tries deadline last h cmd p k =
      let left = deadline - cloud.clock p in
      let p' = (cloud.ssh p h cmd left).1 in
      let k' = laws.ssh_held h p cmd left k in
      let p'' = (host_dead cloud parsing settings p' h).1 in
      let k'' = host_dead-Held h p' k' in
      let budget = min (settings.reattach_backoff_s * 3) (deadline - cloud.clock p'') in
      let q = (worker_gone cloud parsing settings h budget p'').1 in
      let kq = worker_gone-Held h budget p'' k'' in
      if_ind (Keeps {A = ℕ × String} h) (leb deadline (cloud.clock p)) (λ _. k)
        (λ _.
          if_ind (Keeps {A = ℕ × String} h)
            (not (nat_beq (cloud.ssh p h cmd left).0.0 ssh_transport_rc) || nat_beq more 0)
            (λ _. k')
            (λ _.
              death_ind (Keeps {A = ℕ × String} h) (host_dead cloud parsing settings p' h).0
                (λ why. k'')
                (if_ind (Keeps {A = ℕ × String} h)
                  (worker_gone cloud parsing settings h budget p'').0
                  (λ _.
                    worker_loop-Held more (tries + 1) deadline (cloud.ssh p h cmd left).0.1 h cmd
                      (back_off cloud parsing settings deadline q) (back_off-Held h deadline q kq))
                  (λ _. kq))))

  pub run_config-Held :
      (h : String) (c : Config) (p : P)
      → Held h p
      → Held h (run_config cloud parsing settings h c p).1
  unfolding run_config run_worker
  run_config-Held h c p k =
      worker_loop-Held (1 + settings.reattach_attempts) 0 (cloud.clock p + settings.run_timeout)
        "no attempt ran" h (worker_command parsing settings c) p k
