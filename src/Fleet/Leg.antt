-- ===== src/Fleet/Leg.antt =====
-- src/run_farm/fleet.py: the offer pool, `_run_leg`, and `run`.
--
-- The legs of a run share the pool, the provider and the registry of live rentals. Here they run one
-- after the other, as with `max_parallel=1`; the jitter, the signals and the log are left out.
use package.text.Mathlib.Text.{find?}
use run_farm.Prelude.{
  ℕ, zero, suc, String, Bool, true, false, not, ◌&&◌, ◌||◌, Option, none, some, List, [], ◌∷◌, ◌++◌,
  map, Dict, lookup, insert, erase, has, is_some, ◌==◌, string_eq, any, if◌then◌else◌,
}
use run_farm.Fleet.{
  FleetLeg, Raised, host_probe_failed, timed_out, rent_unavailable, budget_exceeded, leak_risk,
  other, Status, ok_, skip, no_offers, leak, error, LegResult, Try, gives, raises, Site, Paths,
  Settings,
}
use run_farm.Fleet.Host.{on_host, complete}
pub mod Run
pub mod Released
pub mod Returns
pub mod Sound
pub mod Labels
pub mod Reports
pub mod Leaves
pub mod Noted
pub mod Tracked
pub mod Freed

-- `_OfferPool`: the queue, and the refills that remain.
pub record Pool : Type 0 where
  pub queue : List String
  pub refills : ℕ

-- The world, and `_live`.
pub record State (P : Type 0) : Type 0 where
  pub world : P
  pub live : Dict String Bool

-- How a leg ends: with its result, or with an exception that leaves `_run_leg`, which is BudgetExceeded or one that
-- the question for more offers raised.
pub data LegEnd : Type 0 where
  result : LegResult → LegEnd
  halted : Raised → LegEnd

-- What an attempt on one offer does to the loop of `_run_leg`.
pub data Verdict : Type 0 where
  settles : LegEnd → Verdict
  fails_over : Verdict

abbrev pub on_verdict {ℓ} : {A : Type ℓ} → Verdict → (LegEnd → A) → A → A
on_verdict (settles end) settled again = settled end
on_verdict fails_over settled again = again

abbrev pub on_offers {ℓ} :
    {A : Type ℓ} → Try (List String) → (Raised → A) → A → (String → List String → A) → A
on_offers (raises e) stop none_left next = stop e
on_offers (gives []) stop none_left next = none_left
on_offers (gives (o ∷ os)) stop none_left next = next o os

module _ {P : Type 0} (site : Site P) (paths : Paths) (settings : Settings) where
  -- `_OfferPool.get`
  abbrev pub pop : List String → ℕ → Option String × Pool
  pop [] refills = (none, record { queue = []; refills = refills })
  pop (o ∷ os) refills = (some o, record { queue = os; refills = refills })

  -- A refill counts also if the question for offers raises.
  abbrev pub refill : Try (List String) → ℕ → P → Try (Option String) × Pool × P
  refill (raises e) n p = (raises e, record { queue = []; refills = n }, p)
  refill (gives os) n p = let (offer, pool) = pop os n in (gives offer, pool, p)

  abbrev pub get_from : List String → ℕ → P → Try (Option String) × Pool × P
  get_from (o ∷ os) n p = (gives (some o), record { queue = os; refills = n }, p)
  get_from [] zero p = (gives none, record { queue = []; refills = 0 }, p)
  get_from [] (suc n) p = refill (site.offers p).0 n (site.offers p).1

  unfoldable pub get : Pool → P → Try (Option String) × Pool × P
  get pool p = get_from pool.queue pool.refills p

  abbrev pub track : String → State P → State P
  track host s = record s { live = insert host true s.live }

  abbrev pub untrack : String → State P → State P
  untrack host s = record s { live = erase host s.live }

  -- The exit of `with provider.rent(...)`: what it raises replaces what the body gave or raised.
  abbrev pub leave : Try LegResult → Try (Unit {0}) → Try LegResult
  leave body (gives u) = body
  leave body (raises e) = raises e

  -- The host is tracked, used, untracked, and then left.
  unfoldable pub use_host : FleetLeg → String → State P → Try LegResult × State P
  use_host leg host s =
      let (body, w) = on_host site paths settings host leg (track host s).world in
      let s' = untrack host (record (track host s) { world = w }) in
      let (exit, w') = site.close s'.world host in (leave body exit, record s' { world = w' })

  unfoldable pub attempt : FleetLeg → String → State P → Try LegResult × State P
  attempt leg offer s = elim (site.rent s.world offer).0 [
    | raises e ↦ (raises e, record s { world = (site.rent s.world offer).1 })
    | gives host ↦ use_host leg host (record s { world = (site.rent s.world offer).1 })
  ]

  abbrev pub failed_with : FleetLeg → String → Status → String → Verdict
  failed_with leg offer status detail = settles (
      result (record { label = leg.label; status = status; host_id = some offer; detail = detail }))

  -- `isinstance(e, LeakRisk) or "LEAK" in msg.upper()`
  abbrev pub says_leak : String → Bool
  says_leak message = is_some (find? (paths.upper message) "LEAK")

  -- The `except` clauses.
  abbrev pub caught : FleetLeg → String → Raised → Verdict
  caught leg offer (budget_exceeded m) = settles (halted (budget_exceeded m))
  caught leg offer (host_probe_failed m) = fails_over
  caught leg offer (timed_out m) = fails_over
  caught leg offer (rent_unavailable m) = fails_over
  caught leg offer (leak_risk m) = failed_with leg offer leak m
  caught leg offer (other m) = failed_with leg offer (if says_leak m then leak else error) m

  abbrev pub judge : FleetLeg → String → Try LegResult → Verdict
  judge leg offer (gives r) = settles (result r)
  judge leg offer (raises e) = caught leg offer e

  abbrev pub drained : FleetLeg → LegEnd
  drained leg = result (record {
    label = leg.label;
    status = no_offers;
    host_id = none;
    detail = "offer pool drained";
  })

  -- `_run_leg`: the refills that remain, and the queue.
  unfoldable pub run_leg : FleetLeg → ℕ → List String → State P → LegEnd × Pool × State P
  run_leg leg n (offer ∷ os) s =
      let (body, s') = attempt leg offer s in
      on_verdict (judge leg offer body) (λ end. (end, record { queue = os; refills = n }, s'))
        (run_leg leg n os s')
  run_leg leg zero [] s = (drained leg, record { queue = []; refills = 0 }, s)
  run_leg leg (suc n) [] s =
      let (answer, w) = site.offers s.world in
      on_offers answer (λ e. (halted e, record { queue = []; refills = n }, record s { world = w }))
        (drained leg, record { queue = []; refills = n }, record s { world = w })
        (λ offer rest. run_leg leg n (offer ∷ rest) (record s { world = w }))
