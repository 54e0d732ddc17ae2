-- ===== src/Reap/Leaks.antt =====
-- src/run_farm/reap.py: `leaked_ids`, `_rent_rows` and `_close_ledger_rows`.
use run_farm.Prelude.{
  ℕ, ◌-◌, ◌*◌, String, Bool, true, false, not, ◌&&◌, ◌||◌, Option, none, some, List, [], ◌∷◌, ◌++◌,
  Dict, lookup, insert, has, ◌==◌, string_eq, if◌then◌else◌, sorted, nat_beq,
}
use run_farm.Ledger.{Row, Line, rows, record_row, is_event}

-- Sets of ids.
abbrev pub Ids : Type 0
Ids = Dict String (Unit {0})

abbrev pub add : String → Ids → Ids
add iid s = insert iid tt s

unfoldable pub members : Ids → List String
members [] = []
members ((iid, u) ∷ s) = iid ∷ members s

unfoldable pub of_list : List String → Ids
of_list [] = []
of_list (iid ∷ ids) = add iid (of_list ids)

-- s - t
unfoldable pub minus : Ids → Ids → Ids
minus [] t = []
minus ((iid, u) ∷ s) t = if has iid t then minus s t else (iid, u) ∷ minus s t

pub record Seen : Type 0 where
  pub seen : Ids
  pub confirmed_gone : Ids

abbrev pub is_seen : Row → Bool
is_seen r = is_event "rented" r || is_event "running" r

-- `ev.get("verify") == "gone"`
abbrev pub verified_gone : Row → Bool
verified_gone r = elim r.verify [ none ↦ false | some v ↦ v == "gone" ]

abbrev pub note_row : Seen → Row → Option String → Seen
note_row s r none = s
note_row s r (some iid) =
    if is_seen r
    then record s { seen = add iid s.seen }
    else if is_event "destroyed" r && verified_gone r
    then record s { confirmed_gone = add iid s.confirmed_gone }
    else s

unfoldable pub scan : Seen → List Row → Seen
scan s [] = s
scan s (r ∷ rs) = scan (note_row s r r.instance_id) rs

abbrev pub nothing_seen : Seen
nothing_seen = record { seen = []; confirmed_gone = [] }

unfoldable pub leaked_ids : List Line → Ids
leaked_ids lines = let s = scan nothing_seen (rows lines) in minus s.seen s.confirmed_gone

-- The grace period of a rent that has not surfaced in the listing yet.
abbrev pub close_grace : ℕ
close_grace = 120

abbrev pub note_rent : Dict String Row → Row → Option String → Dict String Row
note_rent out r none = out
note_rent out r (some iid) = if is_event "rented" r then insert iid r out else out

unfoldable pub rent_rows_of : Dict String Row → List Row → Dict String Row
rent_rows_of out [] = out
rent_rows_of out (r ∷ rs) = rent_rows_of (note_rent out r r.instance_id) rs

unfoldable pub rent_rows : List Line → Dict String Row
rent_rows lines = rent_rows_of [] (rows lines)

-- A number is true unless it is 0.
abbrev pub truthy : Option ℕ → Option ℕ
truthy none = none
truthy (some n) = if nat_beq n 0 then none else some n

abbrev pub no_row : Row
no_row = record {
  ts = none;
  event = "";
  instance_id = none;
  offer_id = none;
  provider = none;
  dph = none;
  outcome = none;
  verify = none;
  billed_s = none;
  est_cost = none;
  cost_unknown = false;
  billed_s_upper_bound = none;
  est_cost_upper_bound = none;
  reconciled = false;
}

-- `rents.get(iid) or {}`
abbrev pub rent_of : Dict String Row → String → Row
rent_of rents iid = elim (lookup iid rents) [ none ↦ no_row | some r ↦ r ]

-- `round(now - ts, 1) if ts else None`
abbrev pub billed_until : ℕ → Row → Option ℕ
billed_until now rent = elim (truthy rent.ts) [ none ↦ none | some ts ↦ some (now - ts) ]

-- billed x dph, if both are there and not 0.
abbrev pub cost_of : Option ℕ → Option ℕ → Option ℕ
cost_of billed dph = elim (truthy billed) [
  | none ↦ none
  | some b ↦ elim (truthy dph) [ none ↦ none | some d ↦ some (b * d) ]
]

-- The `destroyed` row that the driver never wrote.
unfoldable pub closing_row : Dict String Row → ℕ → Bool → String → Row
closing_row rents now known iid =
    let rent = rent_of rents iid in
    let billed = billed_until now rent in
    let cost = cost_of billed rent.dph in
    record {
      ts = none;
      event = "destroyed";
      instance_id = elim rent.instance_id [ none ↦ some iid | some i ↦ some i ];
      offer_id = rent.offer_id;
      provider = rent.provider;
      dph = none;
      outcome = some "ok";
      verify = some "gone";
      billed_s = if known then billed else none;
      est_cost = if known then elim cost [ none ↦ some 0 | some c ↦ some c ] else some 0;
      cost_unknown = not known;
      billed_s_upper_bound = if known then none else billed;
      est_cost_upper_bound = if known then none else cost;
      reconciled = true;
    }

unfoldable pub close_rows :
    Dict String Row → ℕ → (String → Bool) → List Line → List String → List Line
close_rows rents now killed lines [] = lines
close_rows rents now killed lines (iid ∷ ids) =
    close_rows rents now killed (record_row lines now (closing_row rents now (killed iid) iid)) ids

-- `sorted(destroyed) + sorted(vanished)`
unfoldable pub close_ledger_rows : List Line → Ids → Ids → Dict String Row → ℕ → List Line
close_ledger_rows lines killed vanished rents now =
    close_rows rents now (λ iid. has iid killed) lines
      (sorted (members killed) ++ sorted (members vanished))
