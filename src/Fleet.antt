-- ===== src/Fleet.antt =====
-- src/run_farm/fleet.py: legs, results, and what an executor calls outside the file.
--
-- `P` is the state of everything outside: the cloud, the hosts, the local files, the clock. Times are whole
-- seconds. The texts of messages are kept where the program reads them, and shortened elsewhere.
pub mod Host
pub mod Leg
pub mod Landing
use run_farm.Prelude.{
  ℕ, String, Bool, true, false, not, ◌||◌, Option, none, some, List, [], ◌∷◌, Dict, ◌==◌, string_eq,
  if◌then◌else◌,
}

pub record FleetLeg : Type 0 where
  pub label : String
  pub command : String
  pub ship : List String
  pub fetch : String
  pub done_when : String
  pub stream_progress : Bool
  pub resumable : Bool
  pub reattachable : Bool
  pub has_verdict : Bool

-- What an operation raises.
pub data Raised : Type 0 where
  host_probe_failed timed_out rent_unavailable budget_exceeded leak_risk other : String → Raised

pub data Status : Type 0 where
  ok_ skip no_result run_fail bad_artifacts no_offers leak error : Status

pub record LegResult : Type 0 where
  pub label : String
  pub status : Status
  pub host_id : Option String
  pub detail : String

-- LegResult.ok
abbrev pub is_ok : Status → Bool
is_ok ok_ = true
is_ok skip = true
is_ok _ = false

-- An answer, or an exception.
pub data Try (A : Type 0) : Type 0 where
  gives : A → Try A
  raises : Raised → Try A

abbrev pub and_then : {P A B : Type 0} → Try A × P → (A → P → Try B × P) → Try B × P
and_then (gives a, p) f = f a p
and_then (raises e, p) f = (raises e, p)

-- The provider, ssh and scp, the readiness probe, the clock, and the local output of a leg: `has_output` is
-- whether a path under the leg's directory exists, `damage` the summary of `verify_report` when it is not
-- ok, and `verdict` the call of `FleetLeg.verdict`. `pulls` is how often the thread of a resumable leg fetched while
-- its command ran.
pub record Site (P : Type 0) : Type 0 where
  pub offers : P → Try (List String) × P
  pub rent : P → String → Try String × P
  pub close : P → String → Try (Unit {0}) × P
  pub destroy : P → String → P
  pub dead_reason : P → String → Try (Option String) × P
  pub ready : P → String → Try Bool × P
  pub scp_up : P → String → String → String → (ℕ × String) × P
  pub ssh : P → String → FleetLeg → ℕ → (ℕ × String) × P
  pub pull : P → String → FleetLeg → Try (Unit {0}) × P
  pub pulls : P → String → ℕ
  pub clock : P → ℕ
  pub sleep : P → ℕ → P
  pub has_output : P → String → String → Bool
  pub damage : P → FleetLeg → Option String
  pub verdict : P → FleetLeg → Try (Option String)

-- `os.path.basename(path.rstrip("/"))` and the remote directory that `_restore` lands in; `str.upper`.
pub record Paths : Type 0 where
  pub base_name : String → String
  pub parent : String → String → String
  pub upper : String → String

pub record Settings : Type 0 where
  pub remote_work_dir : String
  pub rent_timeout : ℕ
  pub ready_timeout : ℕ
  pub ready_poll_s : ℕ
  pub run_timeout : ℕ
  pub validate_artifacts : Bool
  pub max_refills : ℕ
  pub reattach_attempts : ℕ
  pub reattach_backoff_s : ℕ

-- `FleetLeg.marker`
unfoldable pub marker : Paths → FleetLeg → String
marker paths leg =
    if leg.done_when == ""
    then (if leg.fetch == "" then "" else paths.base_name leg.fetch)
    else leg.done_when
