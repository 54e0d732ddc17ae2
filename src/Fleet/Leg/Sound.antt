-- ===== src/Fleet/Leg/Sound.antt =====
-- What a result OK of src/run_farm/fleet.py stands for.
use run_farm.Prelude.{
  ℕ, zero, suc, ◌≡◌, ◌≢◌, refl, ap, sym, ◌∙◌, nat_beq_iff, String, true, false, ◌||◌, none, List,
  [], ◌∷◌, ◌==◌, string_eq, nat_beq, if_ind, arith,
}
use run_farm.Fleet.{
  FleetLeg, host_probe_failed, timed_out, rent_unavailable, budget_exceeded, leak_risk, other, ok_,
  run_fail, LegResult, Try, gives, raises, and_then, Site, Paths, Settings, marker,
}
use run_farm.Fleet.Host.{
  concluded, after_command, on_host, complete, validate_artifacts, payload_verdict, host_dead,
  fetch, beside, wait_ready, ship, run_command,
}
use run_farm.Fleet.Host.Deadline.{stop_ind}
use run_farm.Fleet.Leg.{
  Pool, State, LegEnd, result, halted, use_host, attempt, judge, leave, run_leg, on_verdict,
  says_leak,
}
use run_farm.Fleet.Leg.Returns.{offers_ind}

module _ {P : Type 0} (site : Site P) (paths : Paths) (settings : Settings) (leg : FleetLeg) where
  -- In the world `p` the output is in place, intact, and passes the verdict of the leg.
  abbrev pub Delivered : P → Type 0
  Delivered p =
      ((complete site paths settings p leg || marker paths leg == "") ≡ true)
      × (validate_artifacts site paths settings p leg ≡ none)
      × (payload_verdict site paths settings p leg ≡ none)

  -- If the answer is a result OK.
  abbrev pub IfOk : Try LegResult → Type 0 → Type 0
  IfOk (gives r) Q = r.status ≡ ok_ → Q
  IfOk (raises e) Q = Unit

  concluded-Delivered :
      (host : String) (p : P)
      → (concluded site paths settings host leg p).status ≡ ok_
      → Delivered p
  unfolding concluded
  concluded-Delivered host p e = ground (arith, e)

  -- From the world `pb` to `p4`: the command exited with 0, and then the output was fetched.
  abbrev pub Commanded : String → P → P → Type 0
  Commanded host pb p4 =
      (out : String) × (pc : P) × (run_command site paths settings host leg pb ≡ ((0, out), pc))
      × (fetch site paths settings host leg pc ≡ (gives tt, p4))

  -- From `p1` to `p4`: the host became ready, took what is shipped, and did the command. Each of these steps
  -- begins in the world that the one before it left.
  abbrev pub Worked : String → P → P → Type 0
  Worked host p1 p4 =
      (pa : P) × (pb : P) × (wait_ready site paths settings host p1 ≡ (gives tt, pa))
      × (ship site paths settings host leg.ship pa ≡ (gives tt, pb))
      × Commanded host pb p4

  -- A step that raises nothing gives its answer to the next.
  and_then-Ok :
      {A : Type 0} (Q : P → Type 0) (r : Try A × P) (f : A → P → Try LegResult × P)
      → ((a : A) (p : P) → r ≡ (gives a, p) → IfOk (f a p).0 (Q (f a p).1))
      → IfOk (and_then r f).0 (Q (and_then r f).1)
  and_then-Ok Q (gives a, p) f k = k a p refl
  and_then-Ok Q (raises e, p) f k = tt

  not_ok : (host out : String) → run_fail ≢ ok_
  not_ok host out = λ e. cc

  after_command-Ok :
      (host : String) (pb : P) (r : (ℕ × String) × P)
      → run_command site paths settings host leg pb ≡ r
      → IfOk (after_command site paths settings host leg r).0 (
          Commanded host pb (after_command site paths settings host leg r).1
          × Delivered (after_command site paths settings host leg r).1)
  unfolding after_command
  after_command-Ok host pb ((rc, out), pc) ran =
      if_ind Q (nat_beq rc 0)
        (λ zero_rc.
          let exited = ran ∙ ap (λ n. ((n, out), pc)) ((nat_beq_iff rc 0).0 zero_rc) in
          and_then-Ok (λ p4. Commanded host pb p4 × Delivered p4)
            (fetch site paths settings host leg pc) _
            (λ u p4 fetched ok. ((out, pc, exited, fetched), concluded-Delivered host p4 ok)))
        (λ _. stop_ind Q (host_dead site paths settings pc host).0 tt (λ e. cc))
    where
      Q : Try LegResult × P → Type 0
      Q x = IfOk x.0 (Commanded host pb x.1 × Delivered x.1)

  beside_plain :
      (host : String) (r : (ℕ × String) × P)
      → leg.resumable ≡ false
      → beside site paths settings host leg r ≡ r
  unfolding beside
  beside_plain host r plain = ground (arith, plain)

  Done : String → P → P → Type 0
  Done host p1 p4 = Worked host p1 p4 × Delivered p4

  prepared-Ok :
      (host : String) (p1 pa pb : P) (r : Try LegResult × P)
      → wait_ready site paths settings host p1 ≡ (gives tt, pa)
      → ship site paths settings host leg.ship pa ≡ (gives tt, pb)
      → IfOk r.0 (Commanded host pb r.1 × Delivered r.1)
      → IfOk r.0 (Done host p1 r.1)
  unfolding Done
  prepared-Ok host p1 pa pb (gives r, p4) ready shipped h =
      λ ok. ((pa, pb, ready, shipped, (h ok).0), (h ok).1)
  prepared-Ok host p1 pa pb (raises e, p4) ready shipped h = tt

  on_host-Ok :
      (host : String) (p1 : P)
      → leg.resumable ≡ false
      → IfOk
          (on_host site paths settings host leg p1).0
          (Done host p1 (on_host site paths settings host leg p1).1)
  unfolding on_host
  on_host-Ok host p1 plain =
      and_then-Ok (Done host p1) (wait_ready site paths settings host p1) _ (λ u pa ready.
        and_then-Ok (Done host p1) (ship site paths settings host leg.ship pa) _ (λ v pb shipped.
          if_ind
            (λ p3.
              let ran = run_command site paths settings host leg p3 in
              let r =
                after_command site paths settings host leg
                  (beside site paths settings host leg ran) in
              IfOk r.0 (Done host p1 r.1))
            leg.resumable (λ resumes. cc)
            (λ _.
              let ran = run_command site paths settings host leg pb in
              let joined = beside site paths settings host leg ran in
              prepared-Ok host p1 pa pb (after_command site paths settings host leg joined) ready
                shipped (after_command-Ok host pb joined (sym (beside_plain host ran plain))))))

  -- An offer was rented, the host did its work, the output was then as it should be, and closing the host, without
  -- an exception, left the world `w`.
  abbrev pub Finished : P → Type 0
  Finished w =
      (p0 : P) × (offer : String) × (host : String) × (p1 : P) × (site.rent p0 offer
        ≡ (gives host, p1))
      × ((p4 : P) × Worked host p1 p4 × Delivered p4 × (site.close p4 host ≡ (gives tt, w)))

  leave-Ok :
      (p0 : P) (offer host : String) (p1 p4 : P) (body : Try LegResult) (exit : Try (Unit {0}))
      → site.rent p0 offer ≡ (gives host, p1)
      → (site.close p4 host).0 ≡ exit
      → IfOk body (Done host p1 p4)
      → IfOk (leave site paths settings body exit) (Finished (site.close p4 host).1)
  unfolding Done
  leave-Ok p0 offer host p1 p4 (gives r) (gives u) rented e h = λ ok. (
    p0,
    offer,
    host,
    p1,
    rented,
    (p4, (h ok).0, (h ok).1, ap (λ x. (x, (site.close p4 host).1)) e),
  )
  leave-Ok p0 offer host p1 p4 (raises x) (gives u) rented e h = tt
  leave-Ok p0 offer host p1 p4 body (raises x) rented e h = tt

  use_host-Ok :
      (p0 : P) (offer host : String) (s : State P)
      → leg.resumable ≡ false
      → site.rent p0 offer ≡ (gives host, s.world)
      → IfOk
          (use_host site paths settings leg host s).0
          (Finished (use_host site paths settings leg host s).1.world)
  unfolding use_host
  use_host-Ok p0 offer host s plain rented =
      leave-Ok p0 offer host s.world (on_host site paths settings host leg s.world).1
        (on_host site paths settings host leg s.world).0
        (site.close (on_host site paths settings host leg s.world).1 host).0 rented refl
        (on_host-Ok host s.world plain)

  attempt-Ok :
      (offer : String) (s : State P)
      → leg.resumable ≡ false
      → IfOk
          (attempt site paths settings leg offer s).0
          (Finished (attempt site paths settings leg offer s).1.world)
  unfolding attempt
  attempt-Ok offer s plain = by_rent (site.rent s.world offer).0 refl
    where
      by_rent :
          (r : Try String)
          → (site.rent s.world offer).0 ≡ r
          → (λ (x : Try LegResult × State P). IfOk x.0 (Finished x.1.world))
              (elim r as (λ _. Try LegResult × State P) [
                | raises e ↦ (raises e, record s { world = (site.rent s.world offer).1 })
                | gives host ↦
                    use_host site paths settings leg host
                      (record s { world = (site.rent s.world offer).1 })
              ])
      by_rent (raises e) rented = tt
      by_rent (gives host) rented =
          use_host-Ok s.world offer host (record s { world = (site.rent s.world offer).1 }) plain
            (ap (λ r. (r, (site.rent s.world offer).1)) rented)

  -- If a leg ends with a result OK.
  abbrev pub EndOk : LegEnd × Pool × State P → Type 0
  EndOk (result r, pool, s) = r.status ≡ ok_ → Finished s.world
  EndOk (halted e, pool, s) = Unit

  judge-Ok :
      (offer : String) (body : Try LegResult) (pool : Pool) (s : State P)
      (again : LegEnd × Pool × State P)
      → IfOk body (Finished s.world)
      → EndOk again
      → EndOk (on_verdict (judge site paths settings leg offer body) (λ end. (end, pool, s)) again)
  judge-Ok offer (gives r) pool s again h next = h
  judge-Ok offer (raises (budget_exceeded m)) pool s again h next = tt
  judge-Ok offer (raises (host_probe_failed m)) pool s again h next = next
  judge-Ok offer (raises (timed_out m)) pool s again h next = next
  judge-Ok offer (raises (rent_unavailable m)) pool s again h next = next
  judge-Ok offer (raises (leak_risk m)) pool s again h next = λ e. cc
  judge-Ok offer (raises (other m)) pool s again h next = λ e.
      absurd (if_ind (λ st. st ≢ ok_) (says_leak site paths settings m) (λ _ x. cc) (λ _ x. cc) e)

  -- A leg that is not resumable ends with OK only if, at the end of the run of the leg, an offer was rented, the host
  -- that it gave became ready and took what is shipped, the command exited with 0 on it, the output was fetched and was
  -- then in place, intact and past its verdict, and the host was closed without an exception, each of these steps in
  -- the world that the one before it left, up to the world in which the leg ended. Nothing is said of a resumable leg,
  -- of which another thread fetches beside the command.
  pub run_leg-Ok :
      (n : ℕ) (os : List String) (s : State P)
      → leg.resumable ≡ false
      → EndOk (run_leg site paths settings leg n os s)
  unfolding run_leg
  run_leg-Ok n (offer ∷ os) s plain =
      judge-Ok offer (attempt site paths settings leg offer s).0 _
        (attempt site paths settings leg offer s).1
        (run_leg site paths settings leg n os (attempt site paths settings leg offer s).1)
        (attempt-Ok offer s plain)
        (run_leg-Ok n os (attempt site paths settings leg offer s).1 plain)
  run_leg-Ok zero [] s plain = λ e. cc
  run_leg-Ok (suc n) [] s plain =
      offers_ind EndOk (site.offers s.world).0 (λ e. tt) (λ e. cc)
        (λ offer rest.
          run_leg-Ok n (offer ∷ rest) (record s { world = (site.offers s.world).1 }) plain)
