-- ===== src/Worker/Line.antt =====
-- The line that `main` of src/run_farm/worker.py prints, as `_run_config` of src/run_farm/provider_exec.py reads it.
use Prim.Native.String.{len, slice, ◌++◌ as appended}
use package.text.Mathlib.Text.{starts_with}
use package.text.Mathlib.TextPositions.{starts_with-append, slice-append_right, len-append}
use run_farm.Prelude.{
  and_true, ◌≡◌, refl, ◌∙◌, ap, String, Bool, true, not, none, some, List, [], ◌∷◌, ◌++◌, all,
  Bool-cases, inl, inr,
}
use run_farm.Json.{Value}
use run_farm.Config.{Config}
use run_farm.Registry.Files.{Base}
use run_farm.Registry.Events.{Events}
use run_farm.Driver.{RunFn, World}
use run_farm.Farm.Dispatch.{Record}
use run_farm.Remote.{Answer, answers, raises, run_one}
use run_farm.Hosted.{Cloud, Parsing, Settings, Result, reported, failed}
use run_farm.Hosted.Worker.{result_prefix, result_line, parsed}
use run_farm.Worker.{to_value, printed, main}

-- A line that is no record.
abbrev pub plain : String → Bool
plain line = not (starts_with line result_prefix)

cut_prefix : (s t : String) → slice (appended s t) (len s) (len (appended s t)) ≡ t
cut_prefix s t = rw (len-append s t) (slice-append_right s t)

module _ {P : Type 0} (cloud : Cloud P) (parsing : Parsing) (settings : Settings) where
  plain_first :
      (line : String) (lines : List String)
      → plain line ≡ true
      → result_line cloud parsing settings (line ∷ lines) ≡ result_line cloud parsing settings lines
  unfolding result_line
  plain_first line lines h = elim (Bool-cases (starts_with line result_prefix)) [
    | inl marked ↦ cc (rw marked at h)
    | inr unmarked ↦ rw unmarked refl
  ]

  plain_lines :
      (said lines : List String)
      → all plain said ≡ true
      → result_line cloud parsing settings (said ++ lines)
        ≡ result_line cloud parsing settings lines
  plain_lines [] lines h = refl
  plain_lines (line ∷ said) lines h =
      let (first, rest) = and_true (plain line) (all plain said) h in
      plain_first line (said ++ lines) first ∙ plain_lines said lines rest

  no_line :
      (said : List String) → all plain said ≡ true → result_line cloud parsing settings said ≡ none
  unfolding result_line
  no_line [] h = refl
  no_line (line ∷ said) h =
      let (first, rest) = and_true (plain line) (all plain said) h in
      plain_first line said first ∙ no_line said rest

  marked_first :
      (t : String) (lines : List String)
      → result_line cloud parsing settings (appended result_prefix t ∷ lines) ≡ some t
  unfolding result_line
  marked_first t lines =
      rw (starts_with-append result_prefix t) (ap some (cut_prefix result_prefix t))

  -- What the executor makes of an answer of `run_one`.
  abbrev pub read_back : Config → Answer Record → Result
  read_back c (answers r) = reported (to_value r)
  read_back c (raises e) = failed c.run_name "rc"

  read-printed :
      (c : Config) (dumps : Value → String) (said errors : List String) (answer : Answer Record)
      → ((r : Record) → answer ≡ answers r → parsing.loads (dumps (to_value r)) ≡ some (to_value r))
      → all plain said ≡ true
      → all plain errors ≡ true
      → parsed cloud parsing settings c
          (result_line cloud parsing settings (printed dumps said errors answer))
        ≡ read_back c answer
  unfolding printed
  read-printed c dumps said errors (answers r) law quiet calm =
      rw (plain_lines said (appended result_prefix (dumps (to_value r)) ∷ errors) quiet)
        (rw (marked_first (dumps (to_value r)) errors) (rw (law r refl, parsed) refl))
  read-printed c dumps said errors (raises e) law quiet calm =
      rw (plain_lines said errors quiet) (rw (no_line errors calm) refl)

module _ {P S : Type 0} (cloud : Cloud P) (parsing : Parsing) (settings : Settings)
    (from_json : Value → Config) (run_fn : RunFn S) (dumps : Value → String) where
  -- The executor reads from the lines of a worker the record that `run_one` returned there, whatever the RunFn
  -- printed before it and whatever stderr has after it, as long as none of these lines begins as a record does; of a
  -- worker that ended by an exception it makes a record of an error under the config's name. Given that `json.loads`
  -- reads what `json.dumps` wrote of the record.
  pub parsed-main :
      (c : Config) (said errors : List String) (config_json : Value) (w : World (Base S) (Events S))
      → ((r : Record)
          → (run_one from_json run_fn config_json w).0 ≡ answers r
          → parsing.loads (dumps (to_value r)) ≡ some (to_value r))
      → all plain said ≡ true
      → all plain errors ≡ true
      → parsed cloud parsing settings c (
          result_line cloud parsing settings
            (main from_json run_fn dumps said errors config_json w).0)
        ≡ read_back cloud parsing settings c (run_one from_json run_fn config_json w).0
  unfolding main
  parsed-main c said errors config_json w law quiet calm =
      read-printed cloud parsing settings c dumps said errors
        (run_one from_json run_fn config_json w).0 law quiet calm
