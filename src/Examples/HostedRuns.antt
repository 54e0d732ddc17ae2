-- ===== src/Examples/HostedRuns.antt =====
-- A campaign on one rented host, as src/run_farm/provider_exec.py runs it: a lost channel, a reattach, an offer lost.
use package.text.Mathlib.Text.{find?}
use run_farm.Prelude.{
  ℕ, zero, suc, ◌+◌, ◌-◌, ◌≡◌, refl, String, true, false, none, some, List, [], ◌∷◌, ◌==◌,
  string_eq, is_some, if◌then◌else◌, arith, Bool-cases, inl, inr,
}
use run_farm.Json.{object, end}
use run_farm.Config.{Config}
use run_farm.Fleet.{Try, gives, raises, rent_unavailable, leak_risk}
use run_farm.Hosted.{Cloud, Parsing, Settings, Result, reported, failed, envify, worker_command}
use run_farm.Hosted.Worker.{
  worker_probe, ready_loop, wait_engine_ready, gone_loop, worker_gone, run_worker, last_chars,
  result_line,
}
use run_farm.Hosted.Run.{End, results, all_failed, raised, run}
use run_farm.Hosted.Single.{IsBox, run_worker-Clean}
use run_farm.Hosted.Held.{IsTenancy}
use run_farm.Hosted.Released.{Ended, run-Idle}
use run_farm.Hosted.Ends.{Explained, run-Explained}

-- The time, the hosts held, the workers running, those started beside another, and the commands given.
pub record Town : Type 0 where
  now : ℕ
  held : ℕ
  running : ℕ
  clashes : ℕ
  calls : ℕ

-- The first command loses its channel and leaves its worker at work for a second more; the later ones end.
abbrev rc_after : ℕ → ℕ
rc_after zero = 255
rc_after (suc n) = 0

abbrev left_running : ℕ → ℕ
left_running zero = 1
left_running (suc n) = 0

abbrev probe_answer : ℕ → String
probe_answer zero = "GONE"
probe_answer (suc n) = "ALIVE"

abbrev ssh_in : Town → String → (ℕ × String) × Town
ssh_in w cmd =
    if cmd == worker_probe then ((0, probe_answer w.running), record w { now = w.now + 1 }) else (
      (rc_after w.calls, "__RESULT__ {}"),
      record w {
        now = w.now + 1;
        calls = w.calls + 1;
        clashes = w.clashes + w.running;
        running = left_running w.calls;
      },
    )

abbrev rent_in : Town → String → Try String × Town
rent_in w offer =
    if offer == "taken"
    then (raises (rent_unavailable "race"), w)
    else (gives "host", record w { held = w.held + 1 })

abbrev pub cloud : Cloud Town
cloud = record {
  offers = λ w. (gives ("taken" ∷ "free" ∷ []), w);
  rent = rent_in;
  close = λ w host. (gives tt, record w { held = w.held - 1 });
  dead_reason = λ w host. (gives none, w);
  ssh = λ w host cmd t. ssh_in w cmd;
  scp_down = λ w host. w;
  clock = λ w. w.now;
  sleep = λ w n. record w { now = w.now + n; running = w.running - n };
}

abbrev pub parsing : Parsing
parsing = record {
  digits = λ n. "n";
  quote = λ s. s;
  split_lines = λ s. s ∷ [];
  loads = λ s. some (object end);
  is_true = λ v. is_some v;
  module_of = λ s. s;
  to_json = λ c. c.run_name;
  class_of = λ c. "Config";
}

abbrev pub settings : Settings
settings = record {
  run_fn_ref = "engine:run";
  engine_module = some "engine";
  config_class = none;
  remote_python = "python3";
  remote_work_dir = "work";
  ready_timeout = 60;
  run_timeout = 100;
  max_attempts = 3;
  remote_env = ("XLA_FLAGS", "a b") ∷ ("A", "1") ∷ [];
  reattach_attempts = 2;
  reattach_backoff_s = 5;
}

abbrev pub config : String → Config
config name = record { config_hash = "h"; run_name = name; json = object end; rid = name }

abbrev start : Town
start = record { now = 0; held = 0; running = 0; clashes = 0; calls = 0 }

-- The variables of the environment are sorted.
envify_test : envify parsing settings "cmd" ≡ "env A=1 XLA_FLAGS=a b cmd"
unfolding envify run_farm.Prelude.concat run_farm.Prelude.join run_farm.Prelude.sorted
    run_farm.Prelude.lookup
envify_test = refl

run_test : run cloud parsing settings false (config "a" ∷ config "b" ∷ []) start ≡ (
  results (reported (object end) ∷ reported (object end) ∷ []),
  record { now = 14; held = 0; running = 0; clashes = 0; calls = 4 },
)
unfolding run run_farm.Hosted.Run.attempt run_farm.Hosted.Run.use_host run_farm.Hosted.Run.on_host
    wait_engine_ready ready_loop run_farm.Hosted.ready_command run_farm.Hosted.Run.run_configs
    run_farm.Hosted.Worker.has_error run_farm.Hosted.Worker.run_config run_worker
    run_farm.Hosted.Worker.worker_loop worker_command run_farm.Hosted.Run.try_offers envify
    run_farm.Prelude.concat run_farm.Prelude.join run_farm.Prelude.sorted run_farm.Prelude.lookup
    result_line
run_test = refl

abbrev Clean : Town → Type 0
Clean w = w.clashes ≡ 0

abbrev Alone : Town → Type 0
Alone w = w.running ≡ 0

gone_shows : (n : ℕ) → is_some (find? (probe_answer n) "GONE") ≡ true → n ≡ 0
gone_shows zero h = refl
gone_shows (suc n) h = cc

cloud-IsBox : IsBox cloud "host" "work" Clean Alone
cloud-IsBox = record {
  start = λ w t k a. omega (arith, k, a);
  probe = λ w t k. k;
  gone = λ w t z g. gone_shows w.running g;
  ask = λ w k. k;
  rest = λ w n k. k;
  rest_alone = λ w n a. omega (arith, a);
}

-- The second attempt waits until the first worker has ended.
run_worker_test :
    (run_worker cloud parsing settings "host" "work" start).1
    ≡ record { now = 14; held = 0; running = 0; clashes = 0; calls = 2 }
unfolding run_worker run_farm.Hosted.Worker.worker_loop run_farm.Hosted.Worker.host_dead worker_gone
    gone_loop
run_worker_test = refl

run_worker-Clean_example : Clean (run_worker cloud parsing settings "host" "work" start).1
run_worker-Clean_example =
    run_worker-Clean cloud parsing settings "host" "work" Clean Alone cloud-IsBox start refl refl

abbrev Idle : Town → Type 0
Idle w = w.held ≡ 0

abbrev Held : String → Town → Type 0
Held host w = w.held ≡ 1

ssh_in-Held : (w : Town) (cmd : String) → w.held ≡ 1 → (ssh_in w cmd).1.held ≡ 1
ssh_in-Held w cmd h = elim (Bool-cases (cmd == worker_probe)) [ inl e ↦ rw e h | inr e ↦ rw e h ]

abbrev two : List Config
two = config "a" ∷ config "b" ∷ []

-- The same cloud, on which no teardown is confirmed.
abbrev leaky : Cloud Town
leaky = record cloud { close = λ w host. (raises (leak_risk "not confirmed"), w) }

leaky-IsTenancy : IsTenancy leaky Idle Held
leaky-IsTenancy = record {
  offers_idle = λ w h. h;
  rent_opens = λ w offer host h e. ground (arith, h, e);
  rent_refused = λ w offer x h e safe. ground (arith, h, e);
  dead_held = λ host w h. h;
  scp_held = λ host w h. h;
  ssh_held = λ host w cmd t h. ssh_in-Held w cmd h;
  sleep_held = λ host w n h. h;
  close_idle = λ host w h safe. cc;
}

-- The records are lost to LeakRisk, and the host is still held.
leak_test : run leaky parsing settings false (config "a" ∷ config "b" ∷ []) start ≡ (
  raised (leak_risk "not confirmed"),
  record { now = 14; held = 1; running = 0; clashes = 0; calls = 4 },
)
unfolding run run_farm.Hosted.Run.attempt run_farm.Hosted.Run.use_host run_farm.Hosted.Run.on_host
    wait_engine_ready ready_loop run_farm.Hosted.ready_command run_farm.Hosted.Run.run_configs
    run_farm.Hosted.Worker.has_error run_farm.Hosted.Worker.run_config run_worker
    run_farm.Hosted.Worker.worker_loop worker_command run_farm.Hosted.Run.try_offers envify
    run_farm.Prelude.concat run_farm.Prelude.join run_farm.Prelude.sorted run_farm.Prelude.lookup
    result_line
leak_test = refl

run-Idle_example :
    Ended leaky parsing settings Idle Held leaky-IsTenancy
      (run leaky parsing settings false two start)
run-Idle_example = run-Idle leaky parsing settings Idle Held leaky-IsTenancy false two start refl

run-Explained_example :
    Explained
      (gives ("taken" ∷ "free" ∷ []))
      false
      two
      (run cloud parsing settings false two start).0
run-Explained_example = run-Explained cloud parsing settings false two start
