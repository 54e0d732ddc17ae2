-- ===== src/Gauntlet.antt =====
-- src/run_farm/gauntlet.py: the checks before a launch, how they run, and what stops a launch.
pub mod Checks
pub mod Markers
pub mod Completed
pub mod Told
pub mod Launch
pub mod Cleared
pub mod Facts
pub mod Ready
use run_farm.Prelude.{
  String, Bool, true, false, not, ◌&&◌, List, [], ◌∷◌, any, ◌==◌, string_eq, keep_if, if◌then◌else◌,
}

-- What a call returns, or the text of the exception.
pub data Fallible (A : Type 0) : Type 0 where
  returns : A → Fallible A
  throws : String → Fallible A

pub record CheckResult : Type 0 where
  pub name : String
  pub passed : Bool
  pub detail : String
  pub proves : String
  pub fatal : Bool

-- CheckResult.blocking
abbrev pub blocking : CheckResult → Bool
blocking r = not r.passed && r.fatal

-- A check, with its name, on the state `P` of the machine and the providers.
pub record Check (P : Type 0) : Type 0 where
  pub name : String
  pub call : P → Fallible CheckResult × P

-- name in skip
unfoldable pub is_in : String → List String → Bool
is_in s xs = any (λ x. s == x) xs

abbrev pub skipped : String → CheckResult
skipped name = record {
  name = name;
  passed = true;
  detail = "SKIPPED by caller — not verified here";
  proves = "nothing. A skip proves only that someone chose to accept this risk out-of-band.";
  fatal = false;
}

abbrev pub settled : String → Fallible CheckResult → CheckResult
settled name (returns r) = r
settled name (throws e) = record {
  name = name;
  passed = false;
  detail = e;
  proves = "";
  fatal = true;
}

-- How `require_gauntlet` ends: with the results, or with GauntletError, which has them all and those that block.
pub data Verdict : Type 0 where
  cleared : List CheckResult → Verdict
  blocked : List CheckResult → List CheckResult → Verdict

abbrev pub verdict : List CheckResult → Verdict
verdict rs = if any blocking rs then blocked rs (keep_if blocking rs) else cleared rs

module _ {P : Type 0} where
  -- One check, or the record of its skip.
  unfoldable pub run_check : List String → Check P → P → CheckResult × P
  run_check skip c p =
      if is_in c.name skip
      then (skipped c.name, p)
      else (let (answer, p') = c.call p in (settled c.name answer, p'))

  unfoldable pub run_gauntlet : List (Check P) → List String → P → List CheckResult × P
  run_gauntlet [] skip p = ([], p)
  run_gauntlet (c ∷ cs) skip p =
      let (r, p') = run_check skip c p in let (rs, q) = run_gauntlet cs skip p' in (r ∷ rs, q)

  unfoldable pub require_gauntlet : List (Check P) → List String → P → Verdict × P
  require_gauntlet cs skip p = let (rs, q) = run_gauntlet cs skip p in (verdict rs, q)

  -- [c for c in checks if c.name not in skip]
  unfoldable pub unskipped : List String → List (Check P) → List (Check P)
  unskipped skip cs = keep_if (λ c. not (is_in c.name skip)) cs
