-- ===== src/Examples/LandingRuns.antt =====
-- A leg of src/run_farm/fleet.py whose output is fetched, published and verified.
use run_farm.Prelude.{
  ℕ, ◌≡◌, refl, String, Bool, true, false, not, nat_beq, Option, none, some, List, [], ◌∷◌, Dict,
  lookup, insert, string_eq, list_eq, ◌==◌, if◌then◌else◌,
}
use run_farm.Arrival.{FilePath, Kind, file, directory, leaf, branch, Entries, end, entry, publish}
use run_farm.Arrival.Files.{Disk, ZipRead, members, bad_zip, read, loaded}
use run_farm.Fleet.{FleetLeg, LegResult, Status, bad_artifacts, ok_, gives, Site, Paths, Settings}
use run_farm.Fleet.Leg.{State, run_leg}
use run_farm.Fleet.Landing.{Local, pull, has_output, target, damage, wired}
use run_farm.Fleet.Landing.Intact.{EndIntact, run_leg-Intact}

-- The state is the output of the one leg.
abbrev Output : Type 0
Output = Dict FilePath (Kind ℕ)

-- A copy lands a directory with an archive of the given content, of which only 1 reads well.
abbrev zip_of : ℕ → ZipRead
zip_of content = if nat_beq content 1 then members 1 else bad_zip "not a zip file"

abbrev content_of : Option (Kind ℕ) → ℕ
content_of none = 0
content_of (some directory) = 0
content_of (some (file c)) = c

abbrev disk_of : Output → Disk
disk_of files = record {
  exists = λ p. true;
  is_dir = λ p. p == "out";
  is_file = λ p. not (p == "out");
  size = λ p. 7;
  name = λ p. p;
  suffixes = λ p. ".npz" ∷ [];
  child = λ root rel. rel;
  rglob = λ root pat. "field.npz" ∷ [];
  zip = λ p. zip_of (content_of (lookup ("out" ∷ p ∷ []) files));
  gzip = λ p. none;
  tar = λ p. none;
  read_text = λ p. read "{}";
  strip = λ s. s;
  json_error = λ s. none;
  npy = λ p. loaded;
  lower = λ s. s;
}

abbrev local_with : ℕ → Local Output ℕ
local_with content = record {
  scp_down = λ p host leg. (entry "out" (branch (entry "field.npz" (leaf content) end)) end, p);
  output = λ p label. p;
  store = λ p label files. files;
  parts = λ s. s ∷ [];
  leg_dir = λ label. label;
  disk = disk_of;
  summary = λ r. "damaged";
}

abbrev site : Site Output
site = record {
  offers = λ w. (gives ("free" ∷ []), w);
  rent = λ w offer. (gives "host", w);
  close = λ w host. (gives tt, w);
  destroy = λ w host. w;
  dead_reason = λ w host. (gives none, w);
  ready = λ w host. (gives true, w);
  scp_up = λ w host a b. ((0, ""), w);
  ssh = λ w host leg t. ((0, "done"), w);
  pull = λ w host leg. (gives tt, w);
  pulls = λ w host. 1;
  clock = λ w. 0;
  sleep = λ w n. w;
  has_output = λ w label path. false;
  damage = λ w leg. none;
  verdict = λ w leg. gives none;
}

abbrev paths : Paths
paths = record { base_name = λ s. s; parent = λ a b. a; upper = λ s. s }

abbrev settings : Settings
settings = record {
  remote_work_dir = "/workspace";
  rent_timeout = 600;
  ready_timeout = 3;
  ready_poll_s = 1;
  run_timeout = 100;
  validate_artifacts = true;
  max_refills = 3;
  reattach_attempts = 2;
  reattach_backoff_s = 20;
}

abbrev leg : FleetLeg
leg = record {
  label = "a";
  command = "run";
  ship = [];
  fetch = "out";
  done_when = "";
  stream_progress = false;
  resumable = false;
  reattachable = true;
  has_verdict = true;
}

abbrev start : State Output
start = record { world = []; live = [] }

abbrev pulled : ℕ → Output
pulled content = (pull (local_with content) paths [] "host" leg).1

-- A whole archive, and one that was cut.
damage_test :
    (has_output (local_with 1) paths (pulled 1) "a" "out" ≡ true)
    × (damage (local_with 1) paths (pulled 1) leg ≡ none)
    × (damage (local_with 2) paths (pulled 2) leg ≡ some "damaged")
unfolding has_output lookup pull publish run_farm.Fleet.marker insert damage
    run_farm.Arrival.Report.is_ok run_farm.Arrival.Report.verify_report target
    run_farm.Prelude.sorted run_farm.Arrival.Report.visit run_farm.Arrival.Files.is_residue
    run_farm.Arrival.Files.verifier_for run_farm.Arrival.Files.verify_file
damage_test = (refl, refl, refl)

run_leg-Intact_example :
    EndIntact
      (local_with 1)
      site
      paths
      settings
      leg
      (run_leg (wired (local_with 1) paths site) paths settings leg 1 ("free" ∷ []) start)
run_leg-Intact_example =
    run_leg-Intact (local_with 1) site paths settings leg 1 ("free" ∷ []) start refl refl refl
