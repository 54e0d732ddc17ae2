-- ===== src/Examples/GauntletRuns.antt =====
-- The checks of src/run_farm/gauntlet.py on a machine with a key, a payload and a provider.
use run_farm.Prelude.{
  ℕ, ◌+◌, ◌≡◌, refl, String, Bool, true, false, not, ◌||◌, Option, none, some, List, [], ◌∷◌, ◌==◌,
  string_eq, map, length, take, All, if◌then◌else◌,
}
use run_farm.Json.{end, object}
use run_farm.Config.{Config}
use run_farm.Fleet.{FleetLeg, Paths}
use run_farm.Gauntlet.{
  Fallible, returns, throws, CheckResult, blocking, Check, Verdict, cleared, blocked, run_gauntlet,
  require_gauntlet,
}
use run_farm.Gauntlet.Checks.{Desk, Vendor}
use run_farm.Gauntlet.Markers.{remote_env_pinned, missing, wrong}
use run_farm.Gauntlet.Completed.{Handle, Archive, registry_markers_intended}
use run_farm.Gauntlet.Launch.{Launch, standard_gauntlet, registry_gauntlet}
use run_farm.Gauntlet.Cleared.{AllClear, Justified, require_gauntlet-Justified}
use run_farm.Gauntlet.Ready.{Ready, standard_gauntlet-Ready}
use run_farm.Gauntlet.Told.{Tells, Placed, Fresh, Answered, registry_markers-Tells}

-- The state counts the calls that change it.
abbrev desk_with : Fallible (List String) → Desk ℕ
desk_with problems = record {
  exists = λ n path. path == "key" || path == "key.pub";
  mode = λ n path. 384;
  keygen = λ n path. some (0, "SHA256:abc");
  keygen_of_text = λ n s. some (0, if s == "ours" then "SHA256:abc" else "SHA256:def");
  words = λ s. s ∷ [];
  ssh = λ n host. ((0, ""), n + 1);
  validate_flat = λ n. (problems, n + 1);
  write_probe = λ n path. (returns tt, n + 1);
}

abbrev desk : Desk ℕ
desk = desk_with (returns [])

abbrev vendor : Vendor ℕ
vendor = record {
  name = "vast";
  has_method = λ m. not (m == "logs");
  registered_ssh_keys = some (λ n. (returns ("theirs" ∷ "ours" ∷ []), n + 1));
  offers = λ n. (returns (300000 ∷ 250000 ∷ []), n + 1);
}

abbrev paths : Paths
paths = record { base_name = λ s. s; parent = λ a b. a; upper = λ s. s }

abbrev leg : FleetLeg
leg = record {
  label = "a";
  command = "run";
  ship = [];
  fetch = "out";
  done_when = "done";
  stream_progress = false;
  resumable = false;
  reattachable = false;
  has_verdict = false;
}

abbrev launch : Launch
launch = record {
  key = "key";
  out_dir = "out";
  payload = true;
  legs = leg ∷ [];
  required = "offers" ∷ "rent" ∷ "destroy" ∷ [];
  optional = "logs" ∷ [];
  minimum = 1;
}

-- The names of the checks that block, and how many there are.
abbrev names : Verdict → List String × ℕ
names (cleared rs) = ([], length rs)
names (blocked rs bs) = (map (λ r. r.name) bs, length rs)

-- A provider that has another key.
abbrev other : Vendor ℕ
other = record vendor { registered_ssh_keys = some (λ n. (returns ("theirs" ∷ []), n + 1)) }

-- A launch that is ready; a payload that raises and a key that is not registered, both found in one run; a skip.
outcomes_test :
    (names (require_gauntlet (standard_gauntlet desk vendor paths launch []) [] 0).0 ≡ ([], 7))
    × (names
          (require_gauntlet
            (standard_gauntlet (desk_with (throws "no file")) other paths launch [])
            []
            0).0
        ≡ ("payload-closed" ∷ "ssh-key-registered" ∷ [], 7))
    × (names
          (require_gauntlet
            (standard_gauntlet desk other paths launch [])
            ("ssh-key-registered" ∷ [])
            0).0
        ≡ ([], 7))
unfolding require_gauntlet run_gauntlet standard_gauntlet run_farm.Gauntlet.unskipped
    run_farm.Gauntlet.Launch.all_checks run_farm.Gauntlet.is_in run_farm.Gauntlet.run_check
    run_farm.Gauntlet.Checks.ssh_key_present run_farm.Prelude.suffixed
    run_farm.Gauntlet.Checks.out_dir_writable run_farm.Gauntlet.Checks.provider_capable
    run_farm.Gauntlet.Checks.payload_closed run_farm.Gauntlet.Markers.resume_markers_intended
    run_farm.Fleet.marker run_farm.Prelude.join run_farm.Gauntlet.Checks.ssh_key_registered
    run_farm.Gauntlet.Checks.fingerprint run_farm.Gauntlet.Checks.cheapest
    run_farm.Gauntlet.Checks.first_digest run_farm.Gauntlet.Checks.offers_available
    run_farm.Gauntlet.Checks.present run_farm.Gauntlet.Checks.text_fingerprint
    run_farm.Prelude.concat
outcomes_test = (refl, refl, refl)

env_test :
    (missing (("A", "1") ∷ []) (("A", "2") ∷ ("B", "3") ∷ []) ≡ "B" ∷ [])
    × (wrong (("A", "1") ∷ []) (("A", "2") ∷ ("B", "3") ∷ []) ≡ "A" ∷ [])
unfolding missing run_farm.Prelude.has run_farm.Prelude.lookup wrong
env_test = (refl, refl)

require_gauntlet-Justified_example :
    Justified 7
      (AllClear [] (standard_gauntlet desk other paths launch []) 0)
      (require_gauntlet (standard_gauntlet desk other paths launch []) [] 0).0
unfolding standard_gauntlet run_farm.Gauntlet.unskipped run_farm.Gauntlet.Launch.all_checks
    require_gauntlet run_gauntlet run_farm.Gauntlet.is_in
require_gauntlet-Justified_example =
    require_gauntlet-Justified (standard_gauntlet desk other paths launch []) [] 0

-- The results of the launch that passes.
abbrev results : List CheckResult
results = (run_gauntlet (standard_gauntlet desk vendor paths launch []) [] 0).0

results_come :
    (require_gauntlet (standard_gauntlet desk vendor paths launch []) [] 0).0 ≡ cleared results
unfolding require_gauntlet run_gauntlet standard_gauntlet run_farm.Gauntlet.unskipped
    run_farm.Gauntlet.Launch.all_checks run_farm.Gauntlet.is_in run_farm.Gauntlet.run_check
    run_farm.Gauntlet.Checks.ssh_key_present run_farm.Prelude.suffixed
    run_farm.Gauntlet.Checks.out_dir_writable run_farm.Gauntlet.Checks.provider_capable
    run_farm.Gauntlet.Checks.payload_closed run_farm.Gauntlet.Markers.resume_markers_intended
    run_farm.Fleet.marker run_farm.Prelude.join run_farm.Gauntlet.Checks.ssh_key_registered
    run_farm.Gauntlet.Checks.fingerprint run_farm.Gauntlet.Checks.cheapest
    run_farm.Gauntlet.Checks.first_digest run_farm.Gauntlet.Checks.offers_available
    run_farm.Gauntlet.Checks.present run_farm.Gauntlet.Checks.text_fingerprint
    run_farm.Prelude.concat
results_come = refl

standard_gauntlet-Ready_example : Ready desk vendor paths launch 0
standard_gauntlet-Ready_example =
    standard_gauntlet-Ready desk vendor paths launch 0 results results_come

abbrev config : String → Config
config name = record { config_hash = "h"; run_name = name; json = object end; rid = name }

abbrev archive : Archive ℕ
archive = record {
  is_complete = λ n h. returns (h.dir == "out/done");
  base = some "out";
  resolve = λ n path. some path;
  age = λ n dir. some "2.0h";
  digits = λ n. "n";
}

abbrev configs : List Config
configs = config "new" ∷ config "done" ∷ config "late" ∷ []

done_test : registry_markers_intended archive none "out" 2 configs 0 ≡ record {
  name = "registry-markers-intended";
  passed = false;
  detail = "SKIPPED as already complete: done, 2.0h old (n more not examined)";
  proves = "names every config the registry already considers complete";
  fatal = false;
}
unfolding registry_markers_intended run_farm.Gauntlet.Completed.base_mismatch
    run_farm.Gauntlet.Completed.scan run_farm.Gauntlet.Completed.handle run_farm.Prelude.join
    run_farm.Prelude.concat
done_test = refl

registry_markers-Tells_example :
    Tells archive none "out" 0
      (Placed archive none "out" 0 1 × All (Fresh archive none "out" 0) (config "new" ∷ []))
      (Placed archive none "out" 0 1 × All (Answered archive none "out" 0) (config "new" ∷ []))
      (registry_markers_intended archive none "out" 1 configs 0)
registry_markers-Tells_example = registry_markers-Tells archive none "out" 0 1 configs
