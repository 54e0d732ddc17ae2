-- ===== src/Examples/FleetRuns.antt =====
-- A cloud whose first offer is taken and whose first ssh channel dies, and src/run_farm/fleet.py on it.
use Prim.Native.Nat.{min}
use run_farm.Prelude.{
  ℕ, zero, suc, ◌+◌, ◌-◌, ◌≤◌, ◌≡◌, refl, String, Bool, true, false, none, some, List, [], ◌∷◌,
  ◌==◌, string_eq, if◌then◌else◌, arith, lookup, suffixed, insert, erase, has,
}
use run_farm.Fleet.{
  FleetLeg, rent_unavailable, timed_out, leak_risk, ok_, skip, leak, Try, gives, raises, Site,
  Paths, Settings, marker,
}
use run_farm.Fleet.Host.{
  host_dead, wait_loop, wait_ready, ship, restore, command_loop, run_command, fetch, complete,
  validate_artifacts, payload_verdict, concluded, after_command, on_host, beside, fetch_loop,
}
use run_farm.Fleet.Host.Deadline.{run_command_deadline}
use run_farm.Fleet.Host.Polling.{wait_ready-fuel}
use run_farm.Fleet.Leg.{State, use_host, attempt, run_leg}
use run_farm.Fleet.Leg.Run.{
  reports, bad_labels, raised, unique, skips, run_legs, destroy_live, collect, run,
}
use run_farm.Fleet.Leg.Released.{IsBracket}
use run_farm.Fleet.Leg.Freed.{Free, run-Free}
use run_farm.Fleet.Leg.Sound.{EndOk, run_leg-Ok}
use run_farm.Fleet.Leg.Reports.{Answered, labels, run_answers}

-- The time, the hosts held, the ssh calls made, and the labels whose output is here.
record World : Type 0 where
  now : ℕ
  held : ℕ
  calls : ℕ
  here : List (String × Bool)

abbrev rc_of : ℕ → ℕ
rc_of zero = 255
rc_of (suc n) = 0

abbrev ssh_in : World → ℕ → (ℕ × String) × World
ssh_in w t = ((rc_of w.calls, "out"), record w { now = w.now + min 1 t; calls = w.calls + 1 })

abbrev rent_in : World → String → Try String × World
rent_in w offer =
    if offer == "taken"
    then (raises (rent_unavailable "race"), w)
    else (gives "host", record w { held = w.held + 1 })

abbrev site : Site World
site = record {
  offers = λ w. (gives ("taken" ∷ "free" ∷ "free" ∷ []), w);
  rent = rent_in;
  close = λ w host. (gives tt, record w { held = w.held - 1 });
  destroy = λ w host. w;
  dead_reason = λ w host. (gives none, w);
  ready = λ w host. (gives true, w);
  scp_up = λ w host a b. ((0, ""), w);
  ssh = λ w host leg t. ssh_in w t;
  pull = λ w host leg. (gives tt, record w { here = (leg.label, true) ∷ w.here });
  pulls = λ w host. 1;
  clock = λ w. w.now;
  sleep = λ w n. record w { now = w.now + n };
  has_output = λ w label path. has label w.here;
  damage = λ w leg. none;
  verdict = λ w leg. gives none;
}

abbrev paths : Paths
paths = record { base_name = λ s. s; parent = λ a b. a; upper = λ s. s }

abbrev settings : Settings
settings = record {
  remote_work_dir = "/workspace";
  rent_timeout = 600;
  ready_timeout = 3;
  ready_poll_s = 1;
  run_timeout = 100;
  validate_artifacts = true;
  max_refills = 3;
  reattach_attempts = 2;
  reattach_backoff_s = 20;
}

abbrev leg : String → FleetLeg
leg label = record {
  label = label;
  command = "run";
  ship = "driver.py" ∷ [];
  fetch = "out";
  done_when = "";
  stream_progress = false;
  resumable = false;
  reattachable = true;
  has_verdict = true;
}

abbrev start : State World
start = record {
  world = record { now = 0; held = 0; calls = 0; here = ("b", true) ∷ [] };
  live = [];
}

abbrev two_legs : List FleetLeg
two_legs = leg "a" ∷ leg "b" ∷ []

-- One leg fails over to the next offer and opens its channel twice, the other is skipped.
fleet_run :
    (run site paths settings two_legs start).0
    ≡ some (
        reports (
          record { label = "a"; status = ok_; host_id = some "host"; detail = "" }
          ∷ record { label = "b"; status = skip; host_id = none; detail = "output already present" }
          ∷ []))
unfolding run unique complete marker has lookup run_legs run_leg attempt use_host on_host wait_ready
    wait_loop ship after_command run_command command_loop host_dead concluded fetch payload_verdict
    restore beside fetch_loop validate_artifacts collect destroy_live skips erase insert suffixed
fleet_run = refl

abbrev Idle : World → Type 0
Idle w = w.held ≡ 0

abbrev Held : String → World → Type 0
Held host w = w.held ≡ 1

-- The same cloud, on which no teardown is confirmed.
abbrev leaky : Site World
leaky = record site { close = λ w host. (raises (leak_risk "not confirmed"), w) }

leaky-IsBracket : IsBracket leaky Idle Held
leaky-IsBracket = record {
  offers_idle = λ w h. h;
  rent_opens = λ w offer host h e. ground (arith, h, e);
  rent_refused = λ w offer x h e safe. ground (arith, h, e);
  ready_held = λ host w h. h;
  dead_held = λ host w h. h;
  scp_held = λ host w a b h. h;
  ssh_held = λ host w l t h. h;
  pull_held = λ host w l h. h;
  sleep_held = λ host w n h. h;
  close_idle = λ host w h safe. cc;
}

-- Its leak is a result, and the host is held.
leak_run :
    ((run leaky paths settings (leg "a" ∷ []) start).0
      ≡ some (
          reports (
            record { label = "a"; status = leak; host_id = some "free"; detail = "not confirmed" }
            ∷ [])))
    × ((run leaky paths settings (leg "a" ∷ []) start).1.world.held ≡ 1)
unfolding run unique complete marker has lookup run_legs run_leg attempt use_host on_host wait_ready
    wait_loop ship after_command run_command command_loop host_dead concluded fetch payload_verdict
    restore beside fetch_loop validate_artifacts collect destroy_live skips erase insert suffixed
leak_run = (refl, refl)

-- A cloud that cannot be asked for offers.
abbrev silent : Site World
silent = record site { offers = λ w. (raises (timed_out "offers"), w) }

silent_run :
    run silent paths settings (leg "a" ∷ []) start ≡ (some (raised (timed_out "offers")), start)
unfolding run unique complete marker has lookup run_legs run_leg attempt use_host on_host wait_ready
    wait_loop ship after_command run_command command_loop host_dead concluded fetch payload_verdict
    restore beside fetch_loop validate_artifacts collect destroy_live skips erase insert suffixed
silent_run = refl

run-Free_example :
    Free leaky paths settings Idle Held leaky-IsBracket (run leaky paths settings two_legs start)
run-Free_example = run-Free leaky paths settings Idle Held leaky-IsBracket two_legs start refl refl

run_leg-Ok_example :
    EndOk site paths settings
      (leg "a")
      (run_leg site paths settings (leg "a") 3 ("taken" ∷ "free" ∷ []) start)
run_leg-Ok_example = run_leg-Ok site paths settings (leg "a") 3 ("taken" ∷ "free" ∷ []) start refl

run_answers_example :
    (unique (labels two_legs) ≡ true
      → Answered site paths settings two_legs (run site paths settings two_legs start).0)
    × (unique (labels two_legs) ≡ false
        → run site paths settings two_legs start ≡ (some bad_labels, start))
run_answers_example = run_answers site paths settings two_legs start

run_command_deadline_example :
    site.clock (run_command site paths settings "host" (leg "a") start.world).1
    ≤ 0 + 100 + 0 + 0 + 0
run_command_deadline_example =
    run_command_deadline site paths settings 0 0 0 (λ w host l t. omega arith)
      (λ w host. omega arith) (λ w n. omega arith) "host" (leg "a") start.world

wait_ready-fuel_example :
    wait_ready site paths settings "host" start.world
    ≡ wait_loop site paths settings 100 (0 + 3) "host" start.world
wait_ready-fuel_example =
    wait_ready-fuel site paths settings (λ w host. omega arith) (λ w host. omega arith)
      (λ w n. omega arith) (omega arith) 100 "host" start.world (omega arith)
