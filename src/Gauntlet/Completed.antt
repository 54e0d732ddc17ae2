-- ===== src/Gauntlet/Completed.antt =====
-- RegistryMarkersIntended of src/run_farm/gauntlet.py: which configs a campaign will skip.
use run_farm.Prelude.{
  ℕ, zero, suc, ◌-◌, String, Bool, true, false, Option, none, some, List, [], ◌∷◌, ◌==◌, string_eq,
  length, concat, join, map, nat_beq, take, if◌then◌else◌,
}
use run_farm.Config.{Config}
use run_farm.Gauntlet.{Fallible, returns, throws, CheckResult}
use run_farm.Gauntlet.Checks.{passing, failing}

pub record Handle : Type 0 where
  pub config : Config
  pub dir : String
  pub name : String

-- The registry that is asked, and the file system: `base` where the registry has one, `resolve` (`none` is an
-- OSError), and the age of a directory that exists, as a text. `digits` is `str` of a number.
pub record Archive (P : Type 0) : Type 0 where
  pub is_complete : P → Handle → Fallible Bool
  pub base : Option String
  pub resolve : P → String → Option String
  pub age : P → String → Option String
  pub digits : ℕ → String

-- The configs that the registry has as complete, or the handle that it raised for.
pub data Scan : Type 0 where
  found : List Handle → Scan
  stopped : Handle → String → Scan

abbrev pub registry_name : String
registry_name = "registry-markers-intended"

abbrev pub registry_proves : String
registry_proves = "names every config the registry already considers complete"

module _ {P : Type 0} (archive : Archive P) (handle_for : Option (Config → Handle))
    (out_dir : String) where
  abbrev pub plain : Config → Handle
  plain c = record { config = c; dir = join "/" (out_dir ∷ c.run_name ∷ []); name = c.run_name }

  -- `_handle`
  abbrev pub made : Option (Config → Handle) → Config → Handle
  made none c = plain c
  made (some f) c = f c

  unfoldable pub handle : Config → Handle
  handle c = made handle_for c

  abbrev pub apart : String → Option String → Option String → Option String
  apart base (some a) (some b) = if a == b then none else some base
  apart base (some a) none = none
  apart base none b = none

  -- `_base_mismatch`
  abbrev pub mismatch_of : P → Option (Config → Handle) → Option String → Option String
  mismatch_of p (some f) base = none
  mismatch_of p none none = none
  mismatch_of p none (some base) = apart base (archive.resolve p base) (archive.resolve p out_dir)

  unfoldable pub base_mismatch : P → Option String
  base_mismatch p = mismatch_of p handle_for archive.base

  abbrev pub and_found : Handle → Fallible Bool → Scan → Scan
  and_found h (throws e) rest = stopped h e
  and_found h (returns false) rest = rest
  and_found h (returns true) (found hs) = found (h ∷ hs)
  and_found h (returns true) (stopped g e) = stopped g e

  unfoldable pub scan : List Config → P → Scan
  scan [] p = found []
  scan (c ∷ cs) p = and_found (handle c) (archive.is_complete p (handle c)) (scan cs p)

  abbrev pub aged : P → Handle → String
  aged p h = elim (archive.age p h.dir) [
    | none ↦ h.name
    | some t ↦ concat (h.name ∷ ", " ∷ t ∷ " old" ∷ [])
  ]

  -- `more` configs are not examined.
  abbrev pub tail : ℕ → String
  tail zero = ""
  tail (suc n) = concat (" (" ∷ archive.digits (suc n) ∷ " more not examined)" ∷ [])

  abbrev pub on_scan : P → ℕ → Scan → CheckResult
  on_scan p more (stopped h e) =
      failing registry_name registry_proves true
        (concat ("registry.is_complete raised for " ∷ h.name ∷ ": " ∷ e ∷ []))
  on_scan p more (found []) =
      passing registry_name registry_proves (concat ("no config pre-skips" ∷ tail more ∷ []))
  on_scan p more (found (h ∷ hs)) = failing registry_name registry_proves false (
      concat ("SKIPPED as already complete: " ∷ join "; " (map (aged p) (h ∷ hs)) ∷ tail more ∷ []))

  abbrev pub on_base : P → Option String → ℕ → List Config → CheckResult
  on_base p (some base) limit cs =
      failing registry_name registry_proves true
        (concat (out_dir ∷ " is not the registry's base " ∷ base ∷ []))
  on_base p none limit cs = on_scan p (length cs - limit) (scan (take limit cs) p)

  -- A limit of 0 stands for each that is not positive.
  unfoldable pub registry_markers_intended : ℕ → List Config → P → CheckResult
  registry_markers_intended limit cs p =
      if nat_beq limit 0
      then failing registry_name registry_proves true "examines nothing"
      else on_base p (base_mismatch p) limit cs
