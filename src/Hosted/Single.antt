-- ===== src/Hosted/Single.antt =====
-- No second worker beside a first, in `_run_worker` of src/run_farm/provider_exec.py.
use Prim.Native.Nat.{min}
use package.text.Mathlib.Text.{find?}
use run_farm.Prelude.{
  and_true, ℕ, zero, suc, ◌+◌, ◌-◌, ◌*◌, ◌≡◌, String, Bool, true, false, not, ◌&&◌, ◌||◌, Option,
  none, some, is_some, nat_beq, leb, if_ind,
}
use run_farm.Hosted.{Cloud, Parsing, Settings}
use run_farm.Hosted.Worker.{
  ssh_transport_rc, worker_probe, host_dead, gone_loop, worker_gone, back_off, worker_loop,
  run_worker, on_death,
}

-- `Clean` says that no worker was started beside another, `Alone` that none runs on the host. Only the start of a
-- worker on a host where none runs is known to be clean; a probe that says GONE shows that none runs.
pub record IsBox {P : Type 0} (cloud : Cloud P) (host cmd : String) (Clean Alone : P → Type 0)
    : Type 0 where
  pub start : (p : P) (t : ℕ) → Clean p → Alone p → Clean (cloud.ssh p host cmd t).1
  pub probe : (p : P) (t : ℕ) → Clean p → Clean (cloud.ssh p host worker_probe t).1
  pub gone :
      (p : P) (t : ℕ)
      → nat_beq (cloud.ssh p host worker_probe t).0.0 0 ≡ true
      → is_some (find? (cloud.ssh p host worker_probe t).0.1 "GONE") ≡ true
      → Alone (cloud.ssh p host worker_probe t).1
  pub ask : (p : P) → Clean p → Clean (cloud.dead_reason p host).1
  pub rest : (p : P) (n : ℕ) → Clean p → Clean (cloud.sleep p n)
  pub rest_alone : (p : P) (n : ℕ) → Alone p → Alone (cloud.sleep p n)

pub death_ind :
    {A : Type 0} (Q : A → Type 0) (dead : Option String) {stop : String → A} {go : A}
    → ((why : String) → Q (stop why))
    → Q go
    → Q (on_death dead stop go)
death_ind Q none s g = g
death_ind Q (some why) s g = s why

module _ {P : Type 0} (cloud : Cloud P) (parsing : Parsing) (settings : Settings)
    (host cmd : String) (Clean Alone : P → Type 0) (box : IsBox cloud host cmd Clean Alone) where
  -- What an answer of `_worker_gone` says.
  abbrev Found : Bool × P → Type 0
  Found r = Clean r.1 × (r.0 ≡ true → Alone r.1)

  Found-false : (p : P) → Clean p → Found (false, p)
  Found-false p k = (k, λ h. cc)

  gone_loop-Found :
      (fuel deadline : ℕ) (p : P)
      → Clean p
      → Found (gone_loop cloud parsing settings fuel deadline host p)
  unfolding gone_loop
  gone_loop-Found zero deadline p k = Found-false p k
  gone_loop-Found (suc fuel) deadline p k =
      if_ind Found (leb deadline (cloud.clock p)) (λ _. Found-false p k)
        (λ _.
          let t = min 30 (deadline - cloud.clock p) in
          let p' = (cloud.ssh p host worker_probe t).1 in
          let nap = min settings.reattach_backoff_s (deadline - cloud.clock p') in
          if_ind Found
            (nat_beq (cloud.ssh p host worker_probe t).0.0 0
              && is_some (find? (cloud.ssh p host worker_probe t).0.1 "GONE"))
            (λ e.
              let (z, g) =
                and_true (nat_beq (cloud.ssh p host worker_probe t).0.0 0)
                  (is_some (find? (cloud.ssh p host worker_probe t).0.1 "GONE")) e in
              (box.probe p t k, λ _. box.gone p t z g))
            (λ _.
              if_ind Found (nat_beq nap 0) (λ _. Found-false p' (box.probe p t k))
                (λ _.
                  gone_loop-Found fuel deadline (cloud.sleep p' nap)
                    (box.rest p' nap (box.probe p t k)))))

  worker_gone-Found :
      (budget : ℕ) (p : P) → Clean p → Found (worker_gone cloud parsing settings host budget p)
  unfolding worker_gone
  worker_gone-Found budget p k = gone_loop-Found (budget + 1) (cloud.clock p + budget) p k

  back_off-Alone :
      (deadline : ℕ) (p : P)
      → Clean p
      → Alone p
      → Clean (back_off cloud parsing settings deadline p)
        × Alone (back_off cloud parsing settings deadline p)
  back_off-Alone deadline p k a =
      let nap = min settings.reattach_backoff_s (deadline - cloud.clock p) in
      if_ind (λ q. Clean q × Alone q) (nat_beq nap 0) (λ _. (k, a))
        (λ _. (box.rest p nap k, box.rest_alone p nap a))

  host_dead-Clean : (p : P) → Clean p → Clean (host_dead cloud parsing settings p host).1
  unfolding host_dead
  host_dead-Clean p k = box.ask p k

  abbrev Kept : (ℕ × String) × P → Type 0
  Kept r = Clean r.1

  worker_loop-Clean :
      (more tries deadline : ℕ) (last : String) (p : P)
      → Clean p
      → Alone p
      → Clean (worker_loop cloud parsing settings more tries last deadline host cmd p).1
  unfolding worker_loop
  worker_loop-Clean zero tries deadline last p k a = k
  worker_loop-Clean (suc more) tries deadline last p k a =
      let left = deadline - cloud.clock p in
      let p' = (cloud.ssh p host cmd left).1 in
      let k' = box.start p left k a in
      let p'' = (host_dead cloud parsing settings p' host).1 in
      let k'' = host_dead-Clean p' k' in
      let budget = min (settings.reattach_backoff_s * 3) (deadline - cloud.clock p'') in
      let (kq, aq) = worker_gone-Found budget p'' k'' in
      if_ind Kept (leb deadline (cloud.clock p)) (λ _. k)
        (λ _.
          if_ind Kept
            (not (nat_beq (cloud.ssh p host cmd left).0.0 ssh_transport_rc) || nat_beq more 0)
            (λ _. k')
            (λ _.
              death_ind Kept (host_dead cloud parsing settings p' host).0 (λ why. k'')
                (if_ind Kept (worker_gone cloud parsing settings host budget p'').0
                  (λ g.
                    let (kb, ab) =
                      back_off-Alone deadline (worker_gone cloud parsing settings host budget p'').1
                        kq (aq g) in
                    worker_loop-Clean more (tries + 1) deadline (cloud.ssh p host cmd left).0.1
                      (back_off cloud parsing settings deadline
                        (worker_gone cloud parsing settings host budget p'').1)
                      kb ab)
                  (λ _. kq))))

  -- `_run_worker`, begun on a host where no worker runs, starts none beside another, however often it tries
  -- again. The hypothesis is `IsBox`: what the start, the probe and a pause do to the host.
  pub run_worker-Clean :
      (p : P) → Clean p → Alone p → Clean (run_worker cloud parsing settings host cmd p).1
  unfolding run_worker
  run_worker-Clean p k a =
      worker_loop-Clean (1 + settings.reattach_attempts) 0 (cloud.clock p + settings.run_timeout)
        "no attempt ran" p k a
