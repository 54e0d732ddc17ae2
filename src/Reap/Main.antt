-- ===== src/Reap/Main.antt =====
-- src/run_farm/reap.py: `main`, its gates and exit codes, and `_parse_duration`.
--
-- What is printed is left out, and so is the choice of the provider by its name.
use Prim.Native.String.{len}
use package.text.Mathlib.Text.{get?}
use run_farm.Prelude.{
  ℕ, ◌-◌, ◌*◌, String, Bool, true, false, not, ◌&&◌, ◌||◌, Option, none, some, List, [], ◌∷◌, Dict,
  lookup, ltb, is_some, string_eq, if◌then◌else◌, ◌==◌,
}
use run_farm.Ledger.{Line}
use run_farm.Reap.Leaks.{members, leaked_ids}
use run_farm.Reap.Destroy.{Instance, Provider, Texts}
use run_farm.Reap.{Options, Report, Reaped, reap}

abbrev pub dur_units : Dict String ℕ
dur_units = ("s", 1) ∷ ("m", 60) ∷ ("h", 3600) ∷ ("d", 86400) ∷ []

abbrev pub scaled : ℕ → Option ℕ → Option ℕ
scaled unit none = none
scaled unit (some n) = some (n * unit)

-- `secs > 0`, or the ValueError, which is `none`.
abbrev pub positive : Option ℕ → Option ℕ
positive none = none
positive (some n) = if ltb 0 n then some n else none

-- The unit that the text ends in.
abbrev pub unit_of : String → Option ℕ
unit_of s = elim (get? s (len s - 1) (len s)) [ none ↦ none | some u ↦ lookup u dur_units ]

abbrev pub seconds_of : Texts → String → Option ℕ
seconds_of t s = elim (unit_of s) [
  | none ↦ t.float s
  | some unit ↦ elim (get? s 0 (len s - 1)) [
    | none ↦ none
    | some digits ↦ scaled unit (t.float digits)
  ]
]

-- `strip` is `str.strip`, and `none` the ValueError.
unfoldable pub parse_duration : Texts → (String → String) → String → Option ℕ
parse_duration t strip s = positive (seconds_of t (t.lower (strip s)))

-- The parsed command line; `ledger` is what the file holds.
pub record Args : Type 0 where
  pub ledger : Option (List Line)
  pub label : Option String
  pub older_than : Option String
  pub include_in_use : Bool
  pub all_scope : Bool
  pub yes : Bool
  pub retries : ℕ

-- The exit code, and what `main` left.
pub record Exit (P : Type 0) : Type 0 where
  pub code : ℕ
  pub provider : P
  pub ledger : Option (List Line)

-- `--older-than` of an empty text is none at all; `none` is the ValueError.
abbrev pub older_of : Texts → (String → String) → Option String → Option (Option ℕ)
older_of t strip none = some none
older_of t strip (some s) =
    if s == ""
    then some none
    else elim (parse_duration t strip s) [ none ↦ none | some n ↦ some (some n) ]

abbrev pub is_empty {ℓ} : {A : Type ℓ} → List A → Bool
is_empty [] = true
is_empty (x ∷ xs) = false

abbrev pub has_leaks : Option (List Line) → Bool
has_leaks none = false
has_leaks (some lines) = not (is_empty (members (leaked_ids lines)))

-- An unscoped destroy that is not explicit.
abbrev pub refuses_unscoped : Args → Bool
refuses_unscoped a = a.yes && (not (is_some a.ledger) && (not (is_some a.label) && not a.all_scope))

-- A destroy by label alone that is not explicit.
abbrev pub refuses_label : Args → Option ℕ → Bool
refuses_label a older =
    a.yes
    && (is_some a.label
        && (not (is_some a.ledger) && (not (is_some older) && not a.include_in_use)))

abbrev pub options_of : Args → Option ℕ → Options
options_of a older = record {
  scope = record { ledger = a.ledger; label = a.label; older_than = older };
  dry_run = not a.yes;
  retries = a.retries;
  close_ledger = true;
}

abbrev pub code_of : Report → ℕ
code_of r = if r.dry_run then 0 else if is_empty r.swept.failed then 0 else 1

abbrev pub exit_of : {P : Type 0} → Reaped P → Exit P
exit_of r = record { code = code_of r.report; provider = r.provider; ledger = r.ledger }

module _ {P : Type 0} (t : Texts) (strip : String → String) (provider : Provider P) where
  -- From the gates on.
  abbrev pub gated : P → Args → Option ℕ → List Instance → ℕ → ℕ → Exit P
  gated p a older live at now =
      if refuses_unscoped a || refuses_label a older
      then record { code = 2; provider = p; ledger = a.ledger }
      else exit_of (reap t provider p (options_of a older) live at now)

  abbrev pub listed : P → Args → Option ℕ → List Instance → ℕ → ℕ → Exit P
  listed p a older live at now =
      if is_empty live && not (a.yes && has_leaks a.ledger)
      then record { code = 0; provider = p; ledger = a.ledger }
      else gated p a older live at now

  unfoldable pub main : P → Args → ℕ → ℕ → Exit P
  main p a at now = elim (older_of t strip a.older_than) [
    | none ↦ record { code = 2; provider = p; ledger = a.ledger }
    | some older ↦ let (live, p') = provider.list_instances p in listed p' a older live at now
  ]
