-- ===== src/Examples/MultiRuns.antt =====
-- A campaign of src/run_farm/multi.py over two executors, one of which fails.
use run_farm.Prelude.{
  ◌≡◌, refl, String, false, none, some, List, [], ◌∷◌, lookup, insert, map, string_eq, option_eq,
}
use run_farm.Json.{null}
use run_farm.Config.{Config}
use run_farm.Multi.{
  Record, records, raised, Executor, Assignment, stream_multi, merge_record, merge_records,
  merge_runs, run_multi, append_at, deal, split_configs,
}
use run_farm.Multi.Merge.{Tells, times, last_of, all_records, run_multi-Tells}
use run_farm.Multi.Weights.{pos, negsuc, split}
use run_farm.Multi.Apportioned.{Splits, split-Splits}

abbrev config : String → Config
config name = record { config_hash = name; run_name = name; json = null; rid = name }

abbrev ran : Config → Record
ran c = record { run = some c.run_name; skipped = false; provider = "?"; payload = null }

abbrev vast : Executor
vast = record { name = "vast"; run = λ cs. records (map ran cs) }

abbrev modal : Executor
modal = record { name = "modal"; run = λ cs. raised "quota" }

abbrev three : List Config
three = config "a" ∷ config "b" ∷ config "c" ∷ []

-- Round robin over two.
split_run :
    split_configs three (vast ∷ modal ∷ [])
    ≡ some ((config "a" ∷ config "c" ∷ []) ∷ (config "b" ∷ []) ∷ [])
unfolding split_configs deal append_at
split_run = refl

-- Shares of 2.25 and 0.75: the one that is left over goes to the larger remainder.
weighted_run :
    split three (vast ∷ modal ∷ []) (some (pos 3 ∷ pos 1 ∷ []))
    ≡ some ((config "a" ∷ config "b" ∷ []) ∷ (config "c" ∷ []) ∷ [])
unfolding split run_farm.Multi.Weights.sum run_farm.Multi.Weights.slices
    run_farm.Multi.Weights.counts run_farm.Multi.Weights.bump
weighted_run = refl

-- A negative weight is refused, though the sum is positive.
negative_run : split three (vast ∷ modal ∷ []) (some (pos 3 ∷ negsuc 0 ∷ [])) ≡ none
unfolding split
negative_run = refl

split-Splits_example :
    Splits three
      (vast ∷ modal ∷ [])
      (some (pos 3 ∷ pos 1 ∷ []))
      (split three (vast ∷ modal ∷ []) (some (pos 3 ∷ pos 1 ∷ [])))
split-Splits_example = split-Splits three (vast ∷ modal ∷ []) (some (pos 3 ∷ pos 1 ∷ []))

-- The run "a" is given to both.
abbrev overlapping : List Assignment
overlapping =
    (vast, config "a" ∷ config "b" ∷ []) ∷ (modal, config "c" ∷ []) ∷ (vast, config "a" ∷ []) ∷ []

overlap_run : (run_multi overlapping).duplicates ≡ (some "a", "vast" ∷ "vast" ∷ []) ∷ []
unfolding run_multi stream_multi merge_runs merge_records merge_record lookup insert
overlap_run = refl

run_multi-Tells_example :
    Tells
      (some "a")
      (times (some "a") (all_records (stream_multi overlapping)))
      (last_of (some "a") none (all_records (stream_multi overlapping)))
      (run_multi overlapping)
run_multi-Tells_example = run_multi-Tells overlapping (some "a")
