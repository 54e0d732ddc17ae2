-- ===== src/Arrival/Report.antt =====
-- src/run_farm/arrival.py: `verify_report`.
use run_farm.Prelude.{
  String, Bool, true, false, not, ◌&&◌, Option, none, some, List, [], ◌∷◌, ◌++◌, string_eq, any,
  sorted, if◌then◌else◌,
}
use run_farm.Arrival.Files.{
  ArrivalProblem, Disk, Verifier, damaged, verifier_for, verify_file, is_residue,
}

pub record ArrivalReport : Type 0 where
  pub problems : List ArrivalProblem
  pub verified : List String
  pub unverifiable : List String

abbrev pub no_report : ArrivalReport
no_report = record { problems = []; verified = []; unverifiable = [] }

-- `report.problems.append`
abbrev pub note : Option ArrivalProblem → ArrivalReport → ArrivalReport
note none r = r
note (some p) r = record r { problems = r.problems ++ p ∷ [] }

abbrev pub harmless : String → String → String → Option ArrivalProblem
harmless p kind detail = some (record { path = p; kind = kind; detail = detail; fatal = false })

abbrev pub is_empty : List String → Bool
is_empty [] = true
is_empty (x ∷ xs) = false

-- ArrivalReport.ok
unfoldable pub is_ok : ArrivalReport → Bool
is_ok r = not (any (λ p. p.fatal) r.problems)

module _ (disk : Disk) where
  abbrev pub filed : Option Verifier → String → ArrivalReport → ArrivalReport
  filed none p r = record r { unverifiable = r.unverifiable ++ p ∷ [] }
  filed (some v) p r = record r { verified = r.verified ++ p ∷ [] }

  -- One path of the walk.
  unfoldable pub visit : String → ArrivalReport → ArrivalReport
  visit p r =
      if not (disk.is_file p)
      then r
      else if is_residue disk p
      then note (harmless p "tmp_residue" "leftover temp file") r
      else filed (verifier_for disk p) p (note (verify_file disk p) r)

  unfoldable pub walk : List String → ArrivalReport → ArrivalReport
  walk [] r = r
  walk (p ∷ ps) r = walk ps (visit p r)

  unfoldable pub walks : String → List String → ArrivalReport → ArrivalReport
  unfolding walk
  walks root [] r = r
  walks root (pat ∷ pats) r = walks root pats (walk (sorted (disk.rglob root pat)) r)

  unfoldable pub required : String → List String → ArrivalReport → ArrivalReport
  required root [] r = r
  required root (rel ∷ rels) r = required root rels (
      note
        (if disk.exists (disk.child root rel)
          then none
          else damaged (disk.child root rel) "missing" "required artifact absent")
        r)

  -- The warning of a tree without files.
  abbrev pub warn_if_empty : String → ArrivalReport → ArrivalReport
  warn_if_empty root r =
      if is_empty r.verified && is_empty r.unverifiable
      then note (harmless root "empty" "fetch produced no files") r
      else r

  unfoldable pub verify_report : String → List String → List String → ArrivalReport
  unfolding walks required
  verify_report root require patterns =
      if not (disk.exists root)
      then note (damaged root "missing" "output root does not exist") no_report
      else if not (disk.is_dir root)
      then note (damaged root "missing" "output root is not a directory") no_report
      else warn_if_empty root (walks root patterns (required root require no_report))
