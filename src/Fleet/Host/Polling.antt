-- ===== src/Fleet/Host/Polling.antt =====
-- The fuel of the polling loop of `_wait_ready` in src/run_farm/fleet.py.
use run_farm.Prelude.{
  ℕ, zero, suc, ◌+◌, ◌-◌, ◌≤◌, ◌<◌, ◌≡◌, refl, ap, String, Bool, true, false, Option, none, some,
  ltb, if◌then◌else◌, arith, Bool-cases, inl, inr,
}
use run_farm.Fleet.{host_probe_failed, Try, gives, raises, and_then, Site, Paths, Settings}
use run_farm.Fleet.Host.{fast_fail, poll, truthy, wait_loop, wait_ready}

and_then-cong :
    {P A B : Type 0} (Q : P → Type 0) (r : Try A × P) (f g : A → P → Try B × P)
    → Q r.1
    → ((a : A) (p : P) → Q p → f a p ≡ g a p)
    → and_then r f ≡ and_then r g
and_then-cong Q (gives a, p) f g h k = k a p h
and_then-cong Q (raises e, p) f g h k = refl

ltb-lt : (a b : ℕ) → ltb a b ≡ true → a < b
ltb-lt a b h = ground arith

module _ {P : Type 0} (site : Site P) (paths : Paths) (settings : Settings)
    (ready_ahead : (p : P) (host : String) → site.clock p ≤ site.clock (site.ready p host).1)
    (dead_ahead : (p : P) (host : String) → site.clock p ≤ site.clock (site.dead_reason p host).1)
    (sleep_ahead : (p : P) (n : ℕ) → site.clock p + n ≤ site.clock (site.sleep p n))
    (poll_positive : 1 ≤ settings.ready_poll_s) where
  fast_fail-ahead :
      (start : ℕ) (r : Try (Option String) × P)
      → start ≤ site.clock r.1
      → start ≤ site.clock (fast_fail site paths settings r).1
  fast_fail-ahead start (gives reason, p) h = by_reason (truthy reason)
    where
      by_reason :
          (o : Option String)
          → start
            ≤ site.clock
                (elim o as (λ _. Try Bool × P) [
                  | none ↦ (gives false, p)
                  | some why ↦ (raises (host_probe_failed why), p)
                ]).1
      by_reason none = h
      by_reason (some why) = h
  fast_fail-ahead start (raises e, p) h = h

  poll-ahead :
      (p : P) (host : String) → site.clock p ≤ site.clock (poll site paths settings p host).1
  poll-ahead p host = by_ready (site.ready p host) (ready_ahead p host)
    where
      by_ready :
          (r : Try Bool × P)
          → site.clock p ≤ site.clock r.1
          → site.clock p
            ≤ site.clock
                (and_then r (λ ready p'.
                  if ready
                  then (gives true, p')
                  else fast_fail site paths settings (site.dead_reason p' host))).1
      by_ready (gives true, p') h = h
      by_ready (gives false, p') h =
          fast_fail-ahead (site.clock p) (site.dead_reason p' host)
            (omega (arith, h, dead_ahead p' host))
      by_ready (raises e, p') h = h

  wait_loop-fuel :
      (fuel fuel' deadline : ℕ) (host : String) (p : P)
      → deadline - site.clock p < fuel
      → deadline - site.clock p < fuel'
      → wait_loop site paths settings fuel deadline host p
        ≡ wait_loop site paths settings fuel' deadline host p
  unfolding wait_loop
  wait_loop-fuel zero fuel' deadline host p h h' = absurd (omega (arith, h))
  wait_loop-fuel (suc fuel) zero deadline host p h h' = absurd (omega (arith, h'))
  wait_loop-fuel (suc fuel) (suc fuel') deadline host p h h' =
      elim (Bool-cases (ltb (site.clock p) deadline)) [
        | inl waiting ↦ rw waiting (
            and_then-cong (λ p'. site.clock p ≤ site.clock p') (poll site paths settings p host) _ _
              (poll-ahead p host)
              (λ ready p' later.
                let n = settings.ready_poll_s in
                let less = ltb-lt (site.clock p) deadline waiting in
                let s = sleep_ahead p' n in
                ap (λ (x : Try (Unit {0}) × P). if ready then (gives tt, p') else x)
                  (wait_loop-fuel fuel fuel' deadline host (site.sleep p' n)
                    (omega (arith, h, later, s, poll_positive, less))
                    (omega (arith, h', later, s, poll_positive, less)))))
        | inr over ↦ rw over refl
      ]

  -- The fuel of `wait_ready` is enough: with any other that exceeds the timeout the loop ends in the same way,
  -- given that no operation turns the clock back, that a sleep lasts as long as asked, and that the interval of the
  -- polling is at least a second.
  pub wait_ready-fuel :
      (fuel : ℕ) (host : String) (p : P)
      → settings.ready_timeout < fuel
      → wait_ready site paths settings host p
        ≡ wait_loop site paths settings fuel (site.clock p + settings.ready_timeout) host p
  unfolding wait_ready
  wait_ready-fuel fuel host p h =
      wait_loop-fuel (settings.ready_timeout + 1) fuel (site.clock p + settings.ready_timeout) host
        p (omega arith) (omega (arith, h))
