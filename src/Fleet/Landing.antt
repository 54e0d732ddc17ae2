-- ===== src/Fleet/Landing.antt =====
-- src/run_farm/fleet.py: what `_fetch` lands by `publish`, and what `_validate_artifacts` asks `verify_report`.
--
-- The copies go to a staging directory of their own, which is gone in the end and never under a leg's directory, so
-- only the tree that lands in it is a value here.
pub mod Intact
pub mod Fetched
use run_farm.Prelude.{
  String, Bool, true, false, not, ◌&&◌, Option, none, some, List, [], ◌∷◌, Dict, lookup, is_some,
  ◌==◌, list_eq, string_eq, if◌then◌else◌,
}
use run_farm.Arrival.{FilePath, Kind, Entries, publish}
use run_farm.Arrival.Files.{Disk}
use run_farm.Arrival.Report.{ArrivalReport, is_ok, verify_report}
use run_farm.Fleet.{FleetLeg, Raised, other, Try, gives, raises, Site, Paths, marker}

-- The local side of a fleet: what a copy from a host lands, which may be a part; what is under the directory of a
-- leg, and how that is written; the parts of a relative path; and how the files read.
pub record Local (P C : Type 0) : Type 0 where
  pub scp_down : P → String → FleetLeg → Entries C × P
  pub output : P → String → Dict FilePath (Kind C)
  pub store : P → String → Dict FilePath (Kind C) → P
  pub parts : String → FilePath
  pub leg_dir : String → String
  pub disk : P → Disk
  pub summary : ArrivalReport → String

module _ {P C : Type 0} (local_side : Local P C) (paths : Paths) where
  abbrev pub published : Bool → Try (Unit {0})
  published true = gives tt
  published false = raises (other "OSError")

  -- `_fetch` of a leg that has something to fetch.
  unfoldable pub pull : P → String → FleetLeg → Try (Unit {0}) × P
  pull p host leg =
      let (staged, p') = local_side.scp_down p host leg in
      let (done, dest) =
        publish (local_side.parts (marker paths leg)) staged (local_side.output p' leg.label) in
      (published done, local_side.store p' leg.label dest)

  -- `(self._leg_dir(leg) / path).exists()`
  unfoldable pub has_output : P → String → String → Bool
  has_output p label path = is_some (lookup (local_side.parts path) (local_side.output p label))

  -- The directory that `_validate_artifacts` walks.
  unfoldable pub target : P → FleetLeg → String
  target p leg =
      let disk = local_side.disk p in
      let dir = local_side.leg_dir leg.label in
      let fetched = disk.child dir (paths.base_name leg.fetch) in
      if disk.exists fetched then fetched else dir

  unfoldable pub damage : P → FleetLeg → Option String
  damage p leg =
      let report = verify_report (local_side.disk p) (target p leg) [] ("*" ∷ []) in
      if is_ok report then none else some (local_side.summary report)

  -- The site with this local side.
  abbrev pub wired : Site P → Site P
  wired site = record site { pull = pull; has_output = has_output; damage = damage }
