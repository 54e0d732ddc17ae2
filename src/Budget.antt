-- ===== src/Budget.antt =====
-- src/run_farm/budget.py: the spend in flight and the cap.
use run_farm.Prelude.{
  ℕ, ◌+◌, ◌-◌, ◌*◌, String, Bool, true, false, Option, none, some, List, [], ◌∷◌, Dict, lookup,
  insert, has, ◌==◌, string_eq, leb, if◌then◌else◌,
}
use run_farm.Ledger.{Row, is_event, or_zero, summary}
pub mod Cap

-- The loop over the events: `rented` by id, the last row of an id counting, and `destroyed`.
pub record Flight : Type 0 where
  pub rented : Dict String Row
  pub destroyed : Dict String (Unit {0})

abbrev pub note_event : Flight → Row → Option String → Flight
note_event f e none = f
note_event f e (some iid) =
    if is_event "rented" e
    then record f { rented = insert iid e f.rented }
    else if is_event "destroyed" e
    then record f { destroyed = insert iid tt f.destroyed }
    else f

unfoldable pub flight : Flight → List Row → Flight
flight f [] = f
flight f (e ∷ es) = flight (note_event f e e.instance_id) es

abbrev pub started : ℕ → Row → ℕ
started now e = elim e.ts [ none ↦ now | some t ↦ t ]

-- dph x elapsed, elapsed being no less than 0.
abbrev pub burn : ℕ → Row → ℕ
burn now e = or_zero e.dph * (now - started now e)

unfoldable pub burning : ℕ → Dict String (Unit {0}) → Dict String Row → ℕ
burning now destroyed [] = 0
burning now destroyed ((iid, e) ∷ rented) =
    if has iid destroyed
    then burning now destroyed rented
    else burn now e + burning now destroyed rented

abbrev pub no_flight : Flight
no_flight = record { rented = []; destroyed = [] }

unfoldable pub in_flight : List Row → ℕ → ℕ
in_flight evs now = let f = flight no_flight evs in burning now f.destroyed f.rented

-- CappedProvider.
unfoldable pub spent : List Row → ℕ → ℕ
spent evs now = (summary evs).total_est_cost + in_flight evs now

-- What `rent` of the capped provider does: it raises BudgetExceeded, or enters the inner `rent`.
pub data Rented (R : Type 0) : Type 0 where
  budget_exceeded : ℕ → Rented R
  inner : R → Rented R

unfoldable pub capped_rent {ℓ} :
    {P : Type ℓ} {R : Type 0} → ℕ → List Row → ℕ → (P → R × P) → P → Rented R × P
capped_rent cap evs now rent p = elim (leb cap (spent evs now)) [
  | true ↦ (budget_exceeded (spent evs now), p)
  | false ↦ (inner (rent p).0, (rent p).1)
]
