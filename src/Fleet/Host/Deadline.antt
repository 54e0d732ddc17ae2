-- ===== src/Fleet/Host/Deadline.antt =====
-- The one deadline of `_run_command` in src/run_farm/fleet.py.
use Prim.Native.Nat.{min}
use run_farm.Prelude.{
  ℕ, zero, suc, ◌+◌, ◌-◌, ◌≤◌, ◌≡◌, String, false, not, ◌||◌, Option, none, some, leb, nat_beq,
  if_ind, arith,
}
use run_farm.Fleet.{FleetLeg, Site, Paths, Settings}
use run_farm.Fleet.Host.{host_dead, command_loop, run_command, ssh_transport_rc, stop_if, attempts}

not_yet : (a b : ℕ) → leb a b ≡ false → b ≤ a
not_yet a b h = ground arith

pub stop_ind {ℓ κ} :
    {A : Type ℓ} (Q : A → Type κ) (dead : Option String) {x y : A}
    → Q x
    → Q y
    → Q (stop_if dead x y)
stop_ind Q none hx hy = hy
stop_ind Q (some why) hx hy = hx

module _ {P : Type 0} (site : Site P) (paths : Paths) (settings : Settings) (grace delay late : ℕ)
    (ssh_bound : (p : P) (host : String) (leg : FleetLeg) (t : ℕ)
      → site.clock (site.ssh p host leg t).1 ≤ site.clock p + t + grace)
    (dead_bound : (p : P) (host : String)
      → site.clock (site.dead_reason p host).1 ≤ site.clock p + delay)
    (sleep_bound : (p : P) (n : ℕ) → site.clock (site.sleep p n) ≤ site.clock p + n + late) where
  abbrev In : ℕ → (ℕ × String) × P → Type 0
  In deadline r = site.clock r.1 ≤ deadline + grace + delay + late

  -- The clock after a nap that is cut to the deadline.
  nap_bound :
      (deadline : ℕ) (p : P)
      → site.clock p ≤ deadline + grace + delay
      → site.clock (site.sleep p (min settings.reattach_backoff_s (deadline - site.clock p)))
        ≤ deadline + grace + delay + late
  nap_bound deadline p h =
      omega (arith, h, sleep_bound p (min settings.reattach_backoff_s (deadline - site.clock p)))

  asked_bound :
      (p : P) (host : String)
      → site.clock (host_dead site paths settings p host).1 ≤ site.clock p + delay
  unfolding host_dead
  asked_bound p host = dead_bound p host

  command_loop-In :
      (more deadline : ℕ) (host : String) (leg : FleetLeg) (p : P)
      → site.clock p ≤ deadline + grace + delay + late
      → In deadline (command_loop site paths settings more deadline host leg p)
  unfolding command_loop
  command_loop-In zero deadline host leg p h = h
  command_loop-In (suc more) deadline host leg p h =
      if_ind (In deadline) (leb deadline (site.clock p)) (λ e. h)
        (λ e.
          let (answer, p') = site.ssh p host leg (deadline - site.clock p) in
          let spent : site.clock p' ≤ deadline + grace = omega (
            arith,
            ssh_bound p host leg (deadline - site.clock p),
            not_yet deadline (site.clock p) e,
          ) in
          if_ind (In deadline) (not (nat_beq answer.0 ssh_transport_rc) || nat_beq more 0)
            (λ o. omega (arith, spent))
            (λ o.
              let asked : site.clock (host_dead site paths settings p' host).1
                  ≤ deadline + grace + delay =
                omega (arith, spent, asked_bound p' host) in
              stop_ind (In deadline) (host_dead site paths settings p' host).0
                (omega (arith, asked))
                (command_loop-In more deadline host leg _ (nap_bound deadline _ asked))))

  -- However often the channel dies and is opened again, the command ends within one `run_timeout` and one each of
  -- three delays: given that ssh ends at most `grace` after the time it is given (the reader of a streamed command
  -- is still waited for then), that a question to the provider takes at most `delay`, and that a sleep ends at
  -- most `late` after the time asked for.
  pub run_command_deadline :
      (host : String) (leg : FleetLeg) (p : P)
      → site.clock (run_command site paths settings host leg p).1
        ≤ site.clock p + settings.run_timeout + grace + delay + late
  unfolding run_command
  run_command_deadline host leg p =
      command_loop-In (attempts site paths settings leg) (site.clock p + settings.run_timeout) host
        leg p (omega arith)
