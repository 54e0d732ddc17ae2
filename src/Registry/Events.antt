-- ===== src/Registry/Events.antt =====
-- src/run_farm/reference.py, JsonlEventSink.
use run_farm.Prelude.{
  String, Option, none, some, List, [], ◌∷◌, ◌++◌, Dict, lookup, insert, string_eq,
}
use run_farm.Json.{Value}
use run_farm.Config.{Config}
use run_farm.Registry.{EventSink}

-- By run: events.jsonl, and the captures under triggered/. A capture is numbered by how many there
-- are, and none is ever removed, so the numbers are the places in the list.
pub record Events (S : Type 0) : Type 0 where
  pub lines : Dict String (List Value)
  pub triggered : Dict String (List (String × S))

abbrev or_empty : {A : Type 0} → Option (List A) → List A
or_empty none = []
or_empty (some xs) = xs

module _ {S : Type 0} where
  unfoldable pub emit : Events S → Config → Value → Events S
  emit e c v = record e {
    lines = insert c.run_name (or_empty (lookup c.run_name e.lines) ++ v ∷ []) e.lines;
  }

  unfoldable pub trigger : Events S → Config → S → String → Events S
  trigger e c s reason = record e {
    triggered =
        insert c.run_name (or_empty (lookup c.run_name e.triggered) ++ (reason, s) ∷ [])
          e.triggered;
  }

  unfoldable pub close : Events S → Config → Events S
  close e c = e

abbrev pub jsonl_sink : (S : Type 0) → EventSink S (Events S)
jsonl_sink S = record { emit = emit; trigger = trigger; close = close }
