-- ===== src/Reap/Select.antt =====
-- src/run_farm/reap.py: `_label_of`, `_instance_age_s` and the filters of `reap`.
use run_farm.Prelude.{
  ℕ, ◌-◌, String, Bool, false, Option, none, some, List, [], ◌∷◌, lookup, has, keep_if, leb, ◌==◌,
  string_eq, if◌then◌else◌,
}
use run_farm.Ledger.{Line}
use run_farm.Reap.Leaks.{leaked_ids}
use run_farm.Reap.Destroy.{Raw, number, text, Instance, Texts}

-- `_label_of(i) == label`
unfoldable pub has_label : String → Instance → Bool
has_label label i = elim (lookup "label" i.raw) [
  | none ↦ false
  | some v ↦ elim v [ text l ↦ l == label | number n ↦ false ]
]

abbrev pub age_fields : List String
age_fields = "start_date" ∷ "created_at" ∷ "start_time" ∷ []

-- The first field that is there and not empty.
unfoldable pub start_field : List (String × Raw) → List String → Option Raw
start_field raw [] = none
start_field raw (k ∷ ks) = elim (lookup k raw) [
  | none ↦ start_field raw ks
  | some v ↦ elim v [
    | number n ↦ some (number n)
    | text s ↦ if s == "" then start_field raw ks else some (text s)
  ]
]

-- The start in epoch seconds: a number, a text of one, or an ISO date.
unfoldable pub start_seconds : Texts → Raw → Option ℕ
start_seconds t (number n) = some n
start_seconds t (text s) = elim (t.float s) [ some n ↦ some n | none ↦ t.from_iso s ]

unfoldable pub instance_age : Texts → ℕ → Instance → Option ℕ
instance_age t now i = elim (start_field i.raw age_fields) [
  | none ↦ none
  | some v ↦ elim (start_seconds t v) [ none ↦ none | some ts ↦ some (now - ts) ]
]

-- An unknown age is never old enough.
unfoldable pub is_old : Texts → ℕ → ℕ → Instance → Bool
is_old t now older_than i = elim (instance_age t now i) [
  | none ↦ false
  | some age ↦ leb older_than age
]

-- The scope of a call: `ledger`, `label`, `older_than`.
pub record Scope : Type 0 where
  pub ledger : Option (List Line)
  pub label : Option String
  pub older_than : Option ℕ

abbrev pub by_ledger : Option (List Line) → List Instance → List Instance
by_ledger none is = is
by_ledger (some lines) is = keep_if (λ (i : Instance). has i.id (leaked_ids lines)) is

abbrev pub by_label : Option String → List Instance → List Instance
by_label none is = is
by_label (some label) is = keep_if (has_label label) is

abbrev pub by_age : Texts → ℕ → Option ℕ → List Instance → List Instance
by_age t now none is = is
by_age t now (some older_than) is = keep_if (is_old t now older_than) is

-- The filters, each narrowing what the one before left.
unfoldable pub targets : Texts → ℕ → Scope → List Instance → List Instance
targets t now s live = by_age t now s.older_than (by_label s.label (by_ledger s.ledger live))
