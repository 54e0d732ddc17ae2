-- ===== src/Hosted/Fuel.antt =====
-- The fuel of the waiting loops of ProviderExecutor in src/run_farm/provider_exec.py.
use Prim.Native.Nat.{min}
use package.text.Mathlib.Text.{find?}
use run_farm.Prelude.{
  ℕ, zero, suc, ◌+◌, ◌-◌, ◌≤◌, ◌<◌, ◌≡◌, refl, ap, String, Bool, true, false, ◌&&◌, is_some,
  nat_beq, ltb, leb, if◌then◌else◌, arith, Bool-cases, inl, inr,
}
use run_farm.Fleet.{Try, gives}
use run_farm.Hosted.{Cloud, Parsing, Settings, ready_command}
use run_farm.Hosted.Worker.{worker_probe, ready_loop, wait_engine_ready, gone_loop, worker_gone}

nap_positive : (n : ℕ) → nat_beq n 0 ≡ false → 1 ≤ n
nap_positive n h = ground arith

ltb_lt : (a b : ℕ) → ltb a b ≡ true → a < b
ltb_lt a b h = ground arith

leb_gt : (a b : ℕ) → leb a b ≡ false → b < a
leb_gt a b h = ground arith

module _ {P : Type 0} (cloud : Cloud P) (parsing : Parsing) (settings : Settings)
    (ssh_ahead : (p : P) (host cmd : String) (t : ℕ)
      → cloud.clock p ≤ cloud.clock (cloud.ssh p host cmd t).1)
    (sleep_ahead : (p : P) (n : ℕ) → cloud.clock p + n ≤ cloud.clock (cloud.sleep p n)) where
  gone_loop-fuel :
      (fuel fuel' deadline : ℕ) (host : String) (p : P)
      → deadline - cloud.clock p < fuel
      → deadline - cloud.clock p < fuel'
      → gone_loop cloud parsing settings fuel deadline host p
        ≡ gone_loop cloud parsing settings fuel' deadline host p
  unfolding gone_loop
  gone_loop-fuel zero fuel' deadline host p h h' = absurd (omega (arith, h))
  gone_loop-fuel (suc fuel) zero deadline host p h h' = absurd (omega (arith, h'))
  gone_loop-fuel (suc fuel) (suc fuel') deadline host p h h' =
      let t = min 30 (deadline - cloud.clock p) in
      let p' = (cloud.ssh p host worker_probe t).1 in
      let nap = min settings.reattach_backoff_s (deadline - cloud.clock p') in
      elim (Bool-cases (leb deadline (cloud.clock p))) [
        | inl over ↦ rw over refl
        | inr left ↦ rw left (elim (Bool-cases (nat_beq nap 0)) [
          | inl short ↦ rw short refl
          | inr long ↦
              let later = ssh_ahead p host worker_probe t in
              let s = sleep_ahead p' nap in
              let positive = nap_positive nap long in
              let within = leb_gt deadline (cloud.clock p) left in
              rw long (
                ap
                  (λ (x : Bool × P).
                    if nat_beq (cloud.ssh p host worker_probe t).0.0 0
                      && is_some (find? (cloud.ssh p host worker_probe t).0.1 "GONE")
                    then (true, p')
                    else x)
                  (gone_loop-fuel fuel fuel' deadline host (cloud.sleep p' nap)
                    (omega (arith, h, later, s, positive, within))
                    (omega (arith, h', later, s, positive, within))))
        ])
      ]

  ready_loop-fuel :
      (fuel fuel' deadline : ℕ) (host : String) (p : P)
      → deadline - cloud.clock p < fuel
      → deadline - cloud.clock p < fuel'
      → ready_loop cloud parsing settings fuel deadline host p
        ≡ ready_loop cloud parsing settings fuel' deadline host p
  unfolding ready_loop
  ready_loop-fuel zero fuel' deadline host p h h' = absurd (omega (arith, h))
  ready_loop-fuel (suc fuel) zero deadline host p h h' = absurd (omega (arith, h'))
  ready_loop-fuel (suc fuel) (suc fuel') deadline host p h h' =
      let cmd = ready_command parsing settings in
      let p' = (cloud.ssh p host cmd 30).1 in
      elim (Bool-cases (ltb (cloud.clock p) deadline)) [
        | inl waiting ↦
            let later = ssh_ahead p host cmd 30 in
            let s = sleep_ahead p' 10 in
            let within = ltb_lt (cloud.clock p) deadline waiting in
            rw waiting (
              ap
                (λ (x : Try (Unit {0}) × P).
                  if nat_beq (cloud.ssh p host cmd 30).0.0 0 then (gives tt, p') else x)
                (ready_loop-fuel fuel fuel' deadline host (cloud.sleep p' 10)
                  (omega (arith, h, later, s, within)) (omega (arith, h', later, s, within))))
        | inr over ↦ rw over refl
      ]

  -- The fuel of `_wait_engine_ready` and of `_worker_gone` is enough: with any other that exceeds the time to wait
  -- each loop ends in the same way, given that no ssh turns the clock back and that a sleep lasts as long as asked.
  pub waits_fuel :
      (fuel budget : ℕ) (host : String) (p : P)
      → settings.ready_timeout < fuel
      → budget < fuel
      → (wait_engine_ready cloud parsing settings host p
          ≡ ready_loop cloud parsing settings fuel (cloud.clock p + settings.ready_timeout) host p)
        × (worker_gone cloud parsing settings host budget p
            ≡ gone_loop cloud parsing settings fuel (cloud.clock p + budget) host p)
  unfolding wait_engine_ready worker_gone
  waits_fuel fuel budget host p h k = (
    ready_loop-fuel (settings.ready_timeout + 1) fuel (cloud.clock p + settings.ready_timeout) host
        p (omega arith) (omega (arith, h)),
    gone_loop-fuel (budget + 1) fuel (cloud.clock p + budget) host p (omega arith)
        (omega (arith, k)),
  )
