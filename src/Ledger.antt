-- ===== src/Ledger.antt =====
-- src/run_farm/ledger.py, RentalLedger: append-only receipts of rentals.
--
-- Times are whole seconds, prices millionths of a dollar an hour, and amounts the products of the two:
-- 3600 millionths of a dollar are one unit of `est_cost`. The roundings of the program are left out.
-- An instance id stands as its text, a number read from a row having its digits.
pub mod Open
use run_farm.Prelude.{
  ℕ, ◌+◌, String, Bool, true, false, Option, none, some, List, [], ◌∷◌, ◌++◌, Dict, lookup, insert,
  ◌==◌, string_eq, if◌then◌else◌, keep_if, count_if,
}

pub record Row : Type 0 where
  pub ts : Option ℕ
  pub event : String
  pub instance_id : Option String
  pub offer_id : Option String
  pub provider : Option String
  pub dph : Option ℕ
  pub outcome : Option String
  pub verify : Option String
  pub billed_s : Option ℕ
  pub est_cost : Option ℕ
  pub cost_unknown : Bool
  pub billed_s_upper_bound : Option ℕ
  pub est_cost_upper_bound : Option ℕ
  pub reconciled : Bool

-- A line that is not blank: a row, or text that is no JSON.
pub data Line : Type 0 where
  row : Row → Line
  garbled : String → Line

-- `record`, at the time `now`.
unfoldable pub record_row : List Line → ℕ → Row → List Line
record_row lines now r = lines ++ row (record r { ts = some now }) ∷ []

-- `events`; `none` is the JSONDecodeError.
unfoldable pub events : List Line → Option (List Row)
events [] = some []
events (garbled s ∷ lines) = none
events (row r ∷ lines) = elim (events lines) [ none ↦ none | some rs ↦ some (r ∷ rs) ]

-- How reap.py reads the file: what is no JSON is skipped.
unfoldable pub rows : List Line → List Row
rows [] = []
rows (garbled s ∷ lines) = rows lines
rows (row r ∷ lines) = r ∷ rows lines

abbrev pub is_event : String → Row → Bool
is_event name r = r.event == name

abbrev pub or_zero : Option ℕ → ℕ
or_zero none = 0
or_zero (some n) = n

unfoldable pub total : (Row → Option ℕ) → List Row → ℕ
total field [] = 0
total field (r ∷ rs) = or_zero (field r) + total field rs

abbrev pub outcome_of : Row → String
outcome_of r = elim r.outcome [ none ↦ "?" | some o ↦ o ]

unfoldable pub tally : Dict String ℕ → List Row → Dict String ℕ
tally acc [] = acc
tally acc (r ∷ rs) = tally (insert (outcome_of r) (or_zero (lookup (outcome_of r) acc) + 1) acc) rs

pub record Summary : Type 0 where
  pub rentals : ℕ
  pub by_outcome : Dict String ℕ
  pub total_billed : ℕ
  pub total_est_cost : ℕ

unfoldable pub summary : List Row → Summary
summary evs =
    let destroyed = keep_if (is_event "destroyed") evs in
    record {
      rentals = count_if (is_event "rented") evs;
      by_outcome = tally [] destroyed;
      total_billed = total (λ r. r.billed_s) destroyed;
      total_est_cost = total (λ r. r.est_cost) destroyed;
    }
