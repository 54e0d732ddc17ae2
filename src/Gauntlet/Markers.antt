-- ===== src/Gauntlet/Markers.antt =====
-- src/run_farm/gauntlet.py: the checks of what is skipped as done, of the environment, the budget and the RunFn.
--
-- A check that only reads is a function of the state `P`. The texts are shortened as in Checks.
use package.text.Mathlib.Text.{find?}
use run_farm.Prelude.{
  ℕ, ◌+◌, String, Bool, true, false, not, ◌&&◌, Option, none, some, List, [], ◌∷◌, ◌==◌, string_eq,
  Dict, lookup, has, leb, map, keep_if, join, concat, sorted, is_some, if◌then◌else◌,
}
use run_farm.Fleet.{FleetLeg, Paths, marker}
use run_farm.Gauntlet.{Fallible, returns, throws, CheckResult}
use run_farm.Gauntlet.Checks.{Desk, passing, failing}

-- RemoteEnvPinned: the required variables that are not set, and those that are set to another value.
unfoldable pub missing : Dict String String → Dict String String → List String
missing actual required = map (λ e. e.0) (keep_if (λ e. not (has e.0 actual)) required)

abbrev pub differs : String → Option String → Bool
differs v none = false
differs v (some w) = not (w == v)

unfoldable pub wrong : Dict String String → Dict String String → List String
wrong actual required = map (λ e. e.0) (keep_if (λ e. differs e.1 (lookup e.0 actual)) required)

abbrev pub on_env : Bool → List String → List String → CheckResult
on_env fatal [] [] =
    passing "remote-env-pinned" "the executor ships these variables to the worker" "pinned"
on_env fatal absent bad =
    failing "remote-env-pinned" "the executor ships these variables to the worker" fatal (
      concat ("missing: " ∷ join ", " (sorted absent) ∷ " | wrong: " ∷ join "; " (sorted bad) ∷ []))

unfoldable pub remote_env_pinned : Dict String String → Dict String String → Bool → CheckResult
remote_env_pinned actual required fatal =
    on_env fatal (missing actual required) (wrong actual required)

-- CapClearsWorstCase
unfoldable pub cap_clears_worst_case : ℕ → ℕ → ℕ → CheckResult
cap_clears_worst_case cap worst spent =
    if leb (spent + worst) cap
    then passing "cap-clears-worst-case" "the cap is above the worst-case estimate" "cap is enough"
    else failing "cap-clears-worst-case" "the cap is above the worst-case estimate" false
        "cap is BELOW"

-- ResumeMarkersIntended: the labels of the legs that are skipped, and of those without a marker.
module _ {P : Type 0} (desk : Desk P) (paths : Paths) (out_dir : String) where
  abbrev pub marked : P → FleetLeg → Bool
  marked p leg =
      not (marker paths leg == "")
      && desk.exists p (join "/" (out_dir ∷ leg.label ∷ marker paths leg ∷ []))

  abbrev pub on_marks : List String → List String → CheckResult
  on_marks [] [] =
      passing "resume-markers-intended" "names every leg that will be skipped" "no leg pre-skips"
  on_marks skips unmarked =
      failing "resume-markers-intended" "names every leg that will be skipped" false (
        concat
          ("SKIPPED: " ∷ join "; " skips ∷ " | no done_when marker: " ∷ join ", " unmarked ∷ []))

  unfoldable pub resume_markers_intended : List FleetLeg → P → CheckResult
  resume_markers_intended legs p =
      on_marks (map (λ leg. leg.label) (keep_if (marked p) legs))
        (map (λ leg. leg.label) (keep_if (λ leg. marker paths leg == "") legs))

-- RunFnImportable: `find` imports a module and reads an attribute, and says whether it is callable.
abbrev pub on_attribute : String → Fallible Bool → CheckResult
on_attribute ref (throws e) =
    failing "runfn-importable" "imports and is callable in THIS interpreter" true e
on_attribute ref (returns false) =
    failing "runfn-importable" "imports and is callable in THIS interpreter" true
      (concat (ref ∷ " is not callable" ∷ []))
on_attribute ref (returns true) =
    passing "runfn-importable" "imports and is callable in THIS interpreter"
      (concat (ref ∷ " resolves" ∷ []))

-- `_load_attr`: `split` is `ref.split(":", 1)` of a text that has the mark.
unfoldable pub load_attr :
    (String → String × String) → (String → String → Fallible Bool) → String → Fallible Bool
load_attr split find ref =
    if is_some (find? ref ":")
    then find (split ref).0 (split ref).1
    else throws "ref must be 'module:name'"

unfoldable pub runfn_importable :
    (String → String × String) → (String → String → Fallible Bool) → String → CheckResult
runfn_importable split find ref = on_attribute ref (load_attr split find ref)
