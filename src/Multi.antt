-- ===== src/Multi.antt =====
-- src/run_farm/multi.py: one campaign over several executors, split and merged.
--
-- The executors run side by side; the model takes their slices in the order in which they end. Of a record the
-- merge reads `run` and `provider`; the rest of it is `payload`.
pub mod Weights
pub mod Apportioned
pub mod Merge
pub mod Split
use run_farm.Prelude.{
  ℕ, zero, suc, ◌+◌, ◌-◌, ◌%◌, String, Bool, true, false, Option, none, some, List, [], ◌∷◌, ◌++◌,
  map, length, replicate, Dict, lookup, insert, has, keep_if, ◌==◌, string_eq, option_eq,
  if◌then◌else◌,
}
use run_farm.Json.{Value}
use run_farm.Config.{Config}

pub record Record : Type 0 where
  pub run : Option String
  pub skipped : Bool
  pub provider : String
  pub payload : Value

-- What `executor.run(configs)` gives: the records, or an exception.
pub data Answer : Type 0 where
  records : List Record → Answer
  raised : String → Answer

pub record Executor : Type 0 where
  pub name : String
  pub run : List Config → Answer

pub record ProviderRun : Type 0 where
  pub provider : String
  pub n_assigned : ℕ
  pub records : List Record
  pub error : Option String

abbrev pub Assignment : Type 0
Assignment = Executor × List Config

-- The records of an executor, with its name.
abbrev pub annotated : String → List Record → List Record
annotated name = map (λ (r : Record). record r { provider = name })

abbrev pub landed : Executor → ℕ → Answer → ProviderRun
landed ex n (records rs) = record {
  provider = ex.name;
  n_assigned = n;
  records = annotated ex.name rs;
  error = none;
}
landed ex n (raised e) = record { provider = ex.name; n_assigned = n; records = []; error = some e }

-- `stream_multi`: the executors with no configs are left out.
unfoldable pub stream_multi : List Assignment → List ProviderRun
stream_multi [] = []
stream_multi ((ex, []) ∷ rest) = stream_multi rest
stream_multi ((ex, c ∷ cs) ∷ rest) =
    landed ex (length (c ∷ cs)) (ex.run (c ∷ cs)) ∷ stream_multi rest

-- CampaignReport
pub record Report : Type 0 where
  pub results : Dict (Option String) Record
  pub by_provider : List ProviderRun
  pub duplicates : Dict (Option String) (List String)

-- `duplicates.setdefault(run, [first]).append(provider)`
abbrev pub flagged :
    Option String
    → Record
    → String
    → Dict (Option String) (List String)
    → Dict (Option String) (List String)
flagged run first provider d =
    insert run (elim (lookup run d) [ none ↦ first.provider ∷ [] | some ps ↦ ps ] ++ provider ∷ [])
      d

abbrev pub flag :
    Option Record
    → Option String
    → String
    → Dict (Option String) (List String)
    → Dict (Option String) (List String)
flag none run provider d = d
flag (some first) run provider d = flagged run first provider d

unfoldable pub merge_record : String → Report → Record → Report
merge_record provider rep r = record rep {
  results = insert r.run r rep.results;
  duplicates = flag (lookup r.run rep.results) r.run provider rep.duplicates;
}

unfoldable pub merge_records : String → Report → List Record → Report
merge_records provider rep [] = rep
merge_records provider rep (r ∷ rs) = merge_records provider (merge_record provider rep r) rs

unfoldable pub merge_runs : Report → List ProviderRun → Report
merge_runs rep [] = rep
merge_runs rep (pr ∷ prs) =
    merge_runs
      (merge_records pr.provider (record rep { by_provider = rep.by_provider ++ pr ∷ [] })
        pr.records)
      prs

abbrev pub nothing_yet : Report
nothing_yet = record { results = []; by_provider = []; duplicates = [] }

unfoldable pub run_multi : List Assignment → Report
run_multi assignments = merge_runs nothing_yet (stream_multi assignments)

-- `buckets[i].append(c)`
unfoldable pub append_at : ℕ → Config → List (List Config) → List (List Config)
append_at i c [] = []
append_at zero c (b ∷ bs) = (b ++ c ∷ []) ∷ bs
append_at (suc i) c (b ∷ bs) = b ∷ append_at i c bs

-- `for i, c in enumerate(configs)`
unfoldable pub deal : ℕ → ℕ → List Config → List (List Config) → List (List Config)
deal n i [] buckets = buckets
deal n i (c ∷ cs) buckets = deal n (i + 1) cs (append_at (i % n) c buckets)

-- `split_configs` without weights; `none` is the ValueError of no executors.
unfoldable pub split_configs : List Config → List Executor → Option (List (List Config))
split_configs configs [] = none
split_configs configs (ex ∷ exs) =
    let n = length (ex ∷ exs) in some (deal n 0 configs (replicate n []))
