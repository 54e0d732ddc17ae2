-- ===== src/Ledger/Open.antt =====
-- Which rows say what of an id, in a ledger of src/run_farm/ledger.py.
use run_farm.Prelude.{String, Bool, false, ◌&&◌, none, some, ◌==◌, string_eq}
use run_farm.Ledger.{Row, is_event}

-- The row is about the id.
abbrev pub is_about : String → Row → Bool
is_about iid r = elim r.instance_id [ none ↦ false | some i ↦ i == iid ]

abbrev pub rents : String → Row → Bool
rents iid r = is_about iid r && is_event "rented" r

abbrev pub destroys : String → Row → Bool
destroys iid r = is_about iid r && is_event "destroyed" r
