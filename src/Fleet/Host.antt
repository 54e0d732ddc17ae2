-- ===== src/Fleet/Host.antt =====
-- src/run_farm/fleet.py: the steps of a leg on a rented host.
pub mod Deadline
pub mod Polling
use Prim.Native.Nat.{min}
use run_farm.Prelude.{
  ℕ, zero, suc, ◌+◌, ◌-◌, String, Bool, true, false, not, ◌&&◌, ◌||◌, Option, none, some, List, [],
  ◌∷◌, ◌==◌, string_eq, nat_beq, ltb, leb, if◌then◌else◌, suffixed,
}
use run_farm.Fleet.{
  FleetLeg, Raised, host_probe_failed, Status, ok_, no_result, run_fail, bad_artifacts, LegResult,
  Try, gives, raises, and_then, Site, Paths, Settings, marker,
}

-- A reason that is not the empty text.
abbrev pub truthy : Option String → Option String
truthy none = none
truthy (some s) = if s == "" then none else some s

-- If there is a reason to stop.
abbrev pub stop_if {ℓ} : {A : Type ℓ} → Option String → A → A → A
stop_if (some why) stop go = stop
stop_if none stop go = go

abbrev pub ssh_transport_rc : ℕ
ssh_transport_rc = 255

module _ {P : Type 0} (site : Site P) (paths : Paths) (settings : Settings) where
  -- `_host_dead`: what cannot be read is not confirmed dead.
  abbrev pub swallowed : Try (Option String) → Option String
  swallowed (gives r) = r
  swallowed (raises e) = none

  unfoldable pub host_dead : P → String → Option String × P
  host_dead p host = (truthy (swallowed (site.dead_reason p host).0), (site.dead_reason p host).1)

  -- The body of the polling loop: `true` ends it.
  abbrev pub fast_fail : Try (Option String) × P → Try Bool × P
  fast_fail (gives reason, p) = elim (truthy reason) [
    | none ↦ (gives false, p)
    | some why ↦ (raises (host_probe_failed why), p)
  ]
  fast_fail (raises e, p) = (raises e, p)

  abbrev pub poll : P → String → Try Bool × P
  poll p host =
      and_then (site.ready p host)
        (λ ready p'. if ready then (gives true, p') else fast_fail (site.dead_reason p' host))

  -- `while time.monotonic() < deadline`, with fuel.
  unfoldable pub wait_loop : ℕ → ℕ → String → P → Try (Unit {0}) × P
  wait_loop zero deadline host p = (raises (host_probe_failed "worker not ready"), p)
  wait_loop (suc fuel) deadline host p =
      if ltb (site.clock p) deadline
      then and_then (poll p host) (λ ready p'.
        if ready
        then (gives tt, p')
        else wait_loop fuel deadline host (site.sleep p' settings.ready_poll_s))
      else (raises (host_probe_failed "worker not ready"), p)

  -- `_wait_ready`
  unfoldable pub wait_ready : String → P → Try (Unit {0}) × P
  wait_ready host p =
      wait_loop (settings.ready_timeout + 1) (site.clock p + settings.ready_timeout) host p

  abbrev pub shipped : (ℕ × String) × P → Try (Unit {0}) × P
  shipped ((rc, out), p) =
      if nat_beq rc 0 then (gives tt, p) else (raises (host_probe_failed out), p)

  -- `_ship`
  unfoldable pub ship : String → List String → P → Try (Unit {0}) × P
  ship host [] p = (gives tt, p)
  ship host (src ∷ srcs) p =
      and_then (shipped (site.scp_up p host src (suffixed settings.remote_work_dir "/")))
        (λ u p'. ship host srcs p')

  -- `_restore`: the exit code of the copy is not read.
  unfoldable pub restore : String → FleetLeg → P → P
  restore host leg p =
      if leg.fetch == "" || not (site.has_output p leg.label (paths.base_name leg.fetch))
      then p
      else (site.scp_up p host (paths.base_name leg.fetch)
          (paths.parent settings.remote_work_dir leg.fetch)).1

  -- The loop of `_run_command`, with the attempts that remain. The deadline is one for all of them.
  unfoldable pub command_loop : ℕ → ℕ → String → FleetLeg → P → (ℕ × String) × P
  command_loop zero deadline host leg p = ((ssh_transport_rc, "no attempt ran"), p)
  command_loop (suc more) deadline host leg p =
      if leb deadline (site.clock p)
      then ((124, "run_timeout exhausted"), p)
      else (let ((rc, out), p') = site.ssh p host leg (deadline - site.clock p) in
          if not (nat_beq rc ssh_transport_rc) || nat_beq more 0
          then ((rc, out), p')
          else (let (dead, p'') = host_dead p' host in
              stop_if dead ((rc, out), p'')
                (command_loop more deadline host leg
                  (site.sleep p'' (min settings.reattach_backoff_s (deadline - site.clock p''))))))

  abbrev pub attempts : FleetLeg → ℕ
  attempts leg = 1 + (if leg.reattachable then settings.reattach_attempts else 0)

  -- `_run_command`
  unfoldable pub run_command : String → FleetLeg → P → (ℕ × String) × P
  run_command host leg p =
      command_loop (attempts leg) (site.clock p + settings.run_timeout) host leg p

  -- `_fetch`
  unfoldable pub fetch : String → FleetLeg → P → Try (Unit {0}) × P
  fetch host leg p = if leg.fetch == "" then (gives tt, p) else site.pull p host leg

  -- `_complete`
  unfoldable pub complete : P → FleetLeg → Bool
  complete p leg = not (marker paths leg == "") && site.has_output p leg.label (marker paths leg)

  -- `_validate_artifacts`
  unfoldable pub validate_artifacts : P → FleetLeg → Option String
  validate_artifacts p leg =
      if not settings.validate_artifacts || leg.fetch == "" then none else site.damage p leg

  -- `_payload_verdict`: a verdict that raises is a verdict.
  abbrev pub judged : Try (Option String) → Option String
  judged (gives why) = why
  judged (raises e) = some "verdict check raised"

  unfoldable pub payload_verdict : P → FleetLeg → Option String
  payload_verdict p leg = if leg.has_verdict then judged (site.verdict p leg) else none

  abbrev pub result : FleetLeg → Status → String → String → LegResult
  result leg status host detail = record {
    label = leg.label;
    status = status;
    host_id = some host;
    detail = detail;
  }

  -- After the final fetch.
  unfoldable pub concluded : String → FleetLeg → P → LegResult
  concluded host leg p =
      if complete p leg || marker paths leg == ""
      then elim (validate_artifacts p leg) [
        | some bad ↦ result leg bad_artifacts host bad
        | none ↦ elim (payload_verdict p leg) [
          | some why ↦ result leg run_fail host why
          | none ↦ result leg ok_ host ""
        ]
      ]
      else result leg no_result host ""

  -- After the command.
  unfoldable pub after_command : String → FleetLeg → (ℕ × String) × P → Try LegResult × P
  after_command host leg ((rc, out), p) =
      if nat_beq rc 0
      then and_then (fetch host leg p) (λ u p'. (gives (concluded host leg p'), p'))
      else (let (dead, p') = host_dead p host in
          stop_if dead (raises (host_probe_failed "died mid-run"), p')
            (gives (result leg run_fail host out), p'))

  -- `_fetch_loop`, of which each pull may fail.
  unfoldable pub fetch_loop : ℕ → String → FleetLeg → P → P
  fetch_loop zero host leg p = p
  fetch_loop (suc n) host leg p = fetch_loop n host leg (fetch host leg p).1

  -- The thread that a resumable leg starts beside its command. Its pulls stand here one after the other where it
  -- is joined; one that outlasts the join is left out.
  unfoldable pub beside : String → FleetLeg → (ℕ × String) × P → (ℕ × String) × P
  beside host leg r =
      (r.0, if leg.resumable then fetch_loop (site.pulls r.1 host) host leg r.1 else r.1)

  -- What `_run_leg` does while it holds the host.
  unfoldable pub on_host : String → FleetLeg → P → Try LegResult × P
  on_host host leg p = and_then (wait_ready host p) (λ u p1.
      and_then (ship host leg.ship p1) (λ v p2.
        let p3 = if leg.resumable then restore host leg p2 else p2 in
        after_command host leg (beside host leg (run_command host leg p3))))
