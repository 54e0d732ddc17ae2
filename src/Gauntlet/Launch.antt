-- ===== src/Gauntlet/Launch.antt =====
-- src/run_farm/gauntlet.py: the checks that a fleet's launch and a registry campaign are put to.
use run_farm.Prelude.{ℕ, String, Bool, true, false, Option, none, some, List, [], ◌∷◌, ◌++◌}
use run_farm.Config.{Config}
use run_farm.Fleet.{FleetLeg, Paths}
use run_farm.Gauntlet.{Fallible, returns, CheckResult, Check, unskipped}
use run_farm.Gauntlet.Checks.{
  Desk, Vendor, ssh_key_present, ssh_key_registered, payload_closed, out_dir_writable,
  offers_available, provider_capable,
}
use run_farm.Gauntlet.Markers.{resume_markers_intended, runfn_importable}
use run_farm.Gauntlet.Completed.{Archive, registry_markers_intended}

-- What a fleet's launch is checked for; `payload` is whether a payload is given.
pub record Launch : Type 0 where
  pub key : String
  pub out_dir : String
  pub payload : Bool
  pub legs : List FleetLeg
  pub required : List String
  pub optional : List String
  pub minimum : ℕ

abbrev pub reads : {P : Type 0} → String → (P → CheckResult) → Check P
reads name f = record { name = name; call = λ p. (returns (f p), p) }

-- A check that changes the state and raises nothing.
abbrev pub acts : {P : Type 0} → String → (P → CheckResult × P) → Check P
acts name f = record { name = name; call = λ p. (returns (f p).0, (f p).1) }

abbrev pub tries : {P : Type 0} → String → (P → Fallible CheckResult × P) → Check P
tries name f = record { name = name; call = f }

abbrev pub only_if {ℓ} : {A : Type ℓ} → Bool → A → List A
only_if true a = a ∷ []
only_if false a = []

-- if xs:
abbrev pub is_some_leg : List FleetLeg → Bool
is_some_leg [] = false
is_some_leg (leg ∷ legs) = true

module _ {P : Type 0} (desk : Desk P) (vendor : Vendor P) (paths : Paths) (launch : Launch) where
  abbrev pub key_check : Check P
  key_check = reads "ssh-key-present" (ssh_key_present desk launch.key)

  abbrev pub dir_check : Check P
  dir_check = acts "out-dir-writable" (out_dir_writable desk launch.out_dir)

  abbrev pub method_check : Check P
  method_check =
      reads "provider-capable" (λ p. provider_capable vendor launch.required launch.optional)

  abbrev pub payload_check : Check P
  payload_check = tries "payload-closed" (payload_closed desk)

  abbrev pub resume_check : Check P
  resume_check =
      reads "resume-markers-intended"
        (resume_markers_intended desk paths launch.out_dir launch.legs)

  abbrev pub registered_check : Check P
  registered_check = tries "ssh-key-registered" (ssh_key_registered desk vendor launch.key)

  abbrev pub offers_check : Check P
  offers_check = tries "offers-available" (offers_available vendor launch.minimum)

  unfoldable pub all_checks : List (Check P)
  all_checks =
      key_check ∷ dir_check ∷ method_check ∷ []
      ++ (only_if launch.payload payload_check
          ++ (only_if (is_some_leg launch.legs) resume_check
              ++ (registered_check ∷ offers_check ∷ [])))

  unfoldable pub standard_gauntlet : List String → List (Check P)
  standard_gauntlet skip = unskipped skip all_checks

-- `registry_gauntlet`, with a RunFn reference or none.
module _ {P : Type 0} (desk : Desk P) (archive : Archive P) (split : String → String × String)
    (find : String → String → Fallible Bool) where
  abbrev pub runfn_checks : Option String → List (Check P)
  runfn_checks none = []
  runfn_checks (some ref) = reads "runfn-importable" (λ p. runfn_importable split find ref) ∷ []

  unfoldable pub registry_gauntlet :
      String → Option String → ℕ → List Config → List String → List (Check P)
  registry_gauntlet out_dir run_fn_ref limit configs skip = unskipped skip (
      acts "out-dir-writable" (out_dir_writable desk out_dir)
      ∷ (runfn_checks run_fn_ref
          ++ reads "registry-markers-intended"
              (registry_markers_intended archive none out_dir limit configs)
            ∷ []))
