-- ===== src/Reap.antt =====
-- src/run_farm/reap.py: `reap`, from the listing to the closed ledger.
pub mod Leaks
pub mod Destroy
pub mod Select
pub mod Main
pub mod Sets
pub mod Closing
pub mod Closed
pub mod Targets
pub mod Gates
pub mod Retries
pub mod Accounts
use run_farm.Prelude.{
  ℕ, ◌+◌, ◌-◌, String, Bool, true, false, not, ◌&&◌, ◌||◌, Option, none, some, List, [], ◌∷◌, ◌++◌,
  map, length, Dict, lookup, has, ltb, is_some, sorted, if◌then◌else◌, string_eq,
}
use run_farm.Ledger.{Row, Line}
use run_farm.Reap.Leaks.{
  Ids, members, of_list, minus, leaked_ids, rent_rows, rent_of, close_ledger_rows, close_grace,
}
use run_farm.Reap.Destroy.{Instance, Provider, Texts, Swept, nothing_swept, price, destroy_all}
use run_farm.Reap.Select.{Scope, targets}

pub record Options : Type 0 where
  pub scope : Scope
  pub dry_run : Bool
  pub retries : ℕ
  pub close_ledger : Bool

pub record Report : Type 0 where
  pub live : ℕ
  pub targeted : ℕ
  pub swept : Swept
  pub closed : List String
  pub dph_reclaimed : ℕ
  pub dry_run : Bool

-- The provider, the ledger file if there is one in scope, and the report.
pub record Reaped (P : Type 0) : Type 0 where
  pub provider : P
  pub ledger : Option (List Line)
  pub report : Report

unfoldable pub prices : List Instance → ℕ
prices [] = 0
prices (i ∷ is) = price i + prices is

-- Older than the grace period, a row with no time counting as old.
abbrev pub past_grace : ℕ → Dict String Row → String → Bool
past_grace now rents iid =
    ltb close_grace (now - elim (rent_of rents iid).ts [ none ↦ 0 | some ts ↦ ts ])

unfoldable pub keep_past_grace : ℕ → Dict String Row → Ids → Ids
keep_past_grace now rents [] = []
keep_past_grace now rents ((iid, u) ∷ s) =
    if past_grace now rents iid
    then (iid, u) ∷ keep_past_grace now rents s
    else keep_past_grace now rents s

-- Leaked, not in the listing, not killed by this call, and past the grace period.
unfoldable pub vanished : List Line → List Instance → Ids → ℕ → Ids
vanished lines live killed now =
    keep_past_grace now (rent_rows lines)
      (minus (minus (leaked_ids lines) (of_list (map (λ (i : Instance). i.id) live))) killed)

abbrev pub killed_ids : Swept → Ids
killed_ids s = of_list (s.destroyed ++ s.gone)

-- The ledger after the sweep, and the ids of the rows written.
unfoldable pub close : List Line → List Instance → Swept → ℕ → List Line × List String
close lines live s now =
    let killed = killed_ids s in
    let lost = vanished lines live killed now in
    (
      close_ledger_rows lines killed lost (rent_rows lines) now,
      sorted (members killed) ++ sorted (members lost),
    )

abbrev pub close_if :
    Bool → Option (List Line) → List Instance → Swept → ℕ → Option (List Line) × List String
close_if true (some lines) live s now =
    let (lines', closed) = close lines live s now in (some lines', closed)
close_if _ ledger live s now = (ledger, [])

module _ {P : Type 0} (t : Texts) (provider : Provider P) where
  -- The listing is fetched again for a real destroy by label or age.
  abbrev pub refetches : Options → Bool
  refetches o =
      not o.dry_run
      && (not (is_some o.scope.ledger) && (is_some o.scope.label || is_some o.scope.older_than))

  abbrev pub listing : P → Options → List Instance → List Instance × P
  listing p o live = if refetches o then provider.list_instances p else (live, p)

  abbrev pub sweep : P → Options → List Instance → List Instance → ℕ → Reaped P
  sweep p o live targeted now =
      let (swept, p') = destroy_all t provider o.retries p nothing_swept targeted in
      let (ledger, closed) = close_if o.close_ledger o.scope.ledger live swept now in
      record {
        provider = p';
        ledger = ledger;
        report = record {
          live = length live;
          targeted = length targeted;
          swept = swept;
          closed = closed;
          dph_reclaimed = swept.reclaimed;
          dry_run = false;
        };
      }

  abbrev pub dry : P → Options → List Instance → List Instance → Reaped P
  dry p o live targeted = record {
    provider = p;
    ledger = o.scope.ledger;
    report = record {
      live = length live;
      targeted = length targeted;
      swept = nothing_swept;
      closed = [];
      dph_reclaimed = prices targeted;
      dry_run = true;
    };
  }

  -- `reap` over a listing, which it may fetch again. The clock is read once for the ages, `at`, and
  -- once for the closing, `now`.
  unfoldable pub reap : P → Options → List Instance → ℕ → ℕ → Reaped P
  reap p o snapshot at now =
      let (live, p') = listing p o snapshot in
      let targeted = targets t at o.scope live in
      if o.dry_run then dry p' o live targeted else sweep p' o live targeted now
