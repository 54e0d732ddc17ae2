-- ===== src/Multi/Merge.antt =====
-- What `run_multi` of src/run_farm/multi.py keeps and flags.
use mathlib.Core.Path.{subst}
use run_farm.Prelude.{
  ℕ, ◌+◌, ◌≡◌, refl, sym, ◌∙◌, ap, String, Bool, true, false, Option, none, some, List, [], ◌∷◌,
  ◌++◌, Dict, lookup, has, lookup-insert, has-insert, has-nil, count_if, leb, ◌==◌, string_eq,
  option_eq, if◌then◌else◌, arith, is_some,
}
use run_farm.Multi.{
  Record, ProviderRun, Report, Assignment, flag, merge_record, merge_records, merge_runs,
  nothing_yet, stream_multi, run_multi,
}

-- All records, in the order in which they land.
unfoldable pub all_records : List ProviderRun → List Record
all_records [] = []
all_records (pr ∷ prs) = pr.records ++ all_records prs

-- The last record of the run, or the one before.
unfoldable pub last_of : Option String → Option Record → List Record → Option Record
last_of x before [] = before
last_of x before (r ∷ rs) = last_of x (if r.run == x then some r else before) rs

abbrev pub times : Option String → List Record → ℕ
times x = count_if (λ (r : Record). r.run == x)

-- `n` records of the run have landed, the last one being `last`.
pub record Tells (x : Option String) (n : ℕ) (last : Option Record) (rep : Report) : Type 0 where
  pub kept : lookup x rep.results ≡ last
  pub present : has x rep.results ≡ leb 1 n
  pub flagged_twice : has x rep.duplicates ≡ leb 2 n

has-flag :
    (found : Option Record) (run x : Option String) (provider : String)
    (d : Dict (Option String) (List String))
    → has x (flag found run provider d)
      ≡ (if is_some found then (if run == x then true else has x d) else has x d)
has-flag none run x provider d = refl
has-flag (some first) run x provider d =
    has-insert run x
      (elim (lookup run d) [ none ↦ first.provider ∷ [] | some ps ↦ ps ] ++ provider ∷ []) d

second :
    (same found before : Bool) (n : ℕ)
    → (same ≡ true → found ≡ leb 1 n)
    → before ≡ leb 2 n
    → (if found then (if same then true else before) else before)
      ≡ leb 2 (n + (if same then 1 else 0))
second true found before n h e = ground (arith, h refl, e)
second false found before n h e = ground (arith, e)

found_first :
    (x run : Option String) (n : ℕ) (results : Dict (Option String) Record)
    → has x results ≡ leb 1 n
    → (run == x) ≡ true
    → is_some (lookup run results) ≡ leb 1 n
unfolding has
found_first x run n results p same =
    ap (λ k. is_some (lookup k results)) ((option_eq.beq_iff run x).0 same) ∙ p

Tells-merge_record :
    (x : Option String) (n : ℕ) (last : Option Record) (provider : String) (rep : Report)
    (r : Record)
    → Tells x n last rep
    → Tells x
        (n + (if r.run == x then 1 else 0))
        (if r.run == x then some r else last)
        (merge_record provider rep r)
unfolding merge_record
Tells-merge_record x n last provider rep r t = record {
  kept = ground (arith, lookup-insert r.run x r rep.results, t.kept);
  present = ground (arith, has-insert r.run x r rep.results, t.present);
  flagged_twice =
      has-flag (lookup r.run rep.results) r.run x provider rep.duplicates
      ∙ second (r.run == x) (is_some (lookup r.run rep.results)) (has x rep.duplicates) n
          (found_first x r.run n rep.results t.present) t.flagged_twice;
}

Tells-count :
    (x : Option String) (m n : ℕ) (last : Option Record) (rep : Report)
    → m ≡ n
    → Tells x m last rep
    → Tells x n last rep
Tells-count x m n last rep e = subst (λ k. Tells x k last rep) e

nothing_kept : (x : Option String) → lookup x (nothing_yet.results) ≡ none
unfolding lookup
nothing_kept x = refl

Tells-merge_records :
    (x : Option String) (n : ℕ) (last : Option Record) (provider : String) (rep : Report)
    (rs : List Record)
    → Tells x n last rep
    → Tells x (n + times x rs) (last_of x last rs) (merge_records provider rep rs)
unfolding merge_records last_of
Tells-merge_records x n last provider rep [] t = Tells-count x n (n + 0) last rep (omega arith) t
Tells-merge_records x n last provider rep (r ∷ rs) t =
    let one = if r.run == x then 1 else 0 in
    Tells-count x ((n + one) + times x rs) (n + (one + times x rs)) _ _ (omega arith) (
      Tells-merge_records x (n + one) (if r.run == x then some r else last) provider
        (merge_record provider rep r) rs (Tells-merge_record x n last provider rep r t))

times-append :
    (x : Option String) (rs ss : List Record) → times x (rs ++ ss) ≡ times x rs + times x ss
times-append x [] ss = omega arith
times-append x (r ∷ rs) ss = ground (arith, times-append x rs ss)

last_of-append :
    (x : Option String) (before : Option Record) (rs ss : List Record)
    → last_of x before (rs ++ ss) ≡ last_of x (last_of x before rs) ss
unfolding last_of
last_of-append x before [] ss = refl
last_of-append x before (r ∷ rs) ss = last_of-append x (if r.run == x then some r else before) rs ss

Tells-merge_runs :
    (x : Option String) (n : ℕ) (last : Option Record) (rep : Report) (prs : List ProviderRun)
    → Tells x n last rep
    → Tells x
        (n + times x (all_records prs))
        (last_of x last (all_records prs))
        (merge_runs rep prs)
unfolding merge_runs all_records last_of
Tells-merge_runs x n last rep [] t = Tells-count x n (n + 0) last rep (omega arith) t
Tells-merge_runs x n last rep (pr ∷ prs) t =
    let rest = all_records prs in
    let rep' =
      merge_records pr.provider (record rep { by_provider = rep.by_provider ++ pr ∷ [] })
        pr.records in
    subst
      (λ (l : Option Record). Tells x (n + times x (pr.records ++ rest)) l (merge_runs rep' prs))
      (sym (last_of-append x last pr.records rest))
      (Tells-count x ((n + times x pr.records) + times x rest) (n + times x (pr.records ++ rest)) _
        _ (omega (arith, times-append x pr.records rest))
        (Tells-merge_runs x (n + times x pr.records) (last_of x last pr.records) rep' prs (
          Tells-merge_records x n last pr.provider
            (record rep { by_provider = rep.by_provider ++ pr ∷ [] }) pr.records
            (record { kept = t.kept; present = t.present; flagged_twice = t.flagged_twice }))))

-- For every run the report of a campaign has the record of it that landed last, if there is one, and the run is
-- flagged as a duplicate exactly when two records of it or more have landed, be they of one provider or of several.
pub run_multi-Tells :
    (assignments : List Assignment) (x : Option String)
    → Tells x
        (times x (all_records (stream_multi assignments)))
        (last_of x none (all_records (stream_multi assignments)))
        (run_multi assignments)
unfolding run_multi
run_multi-Tells assignments x =
    let rs = all_records (stream_multi assignments) in
    Tells-count x (0 + times x rs) (times x rs) (last_of x none rs)
      (merge_runs nothing_yet (stream_multi assignments)) (omega arith)
      (Tells-merge_runs x 0 none nothing_yet (stream_multi assignments) (record {
        kept = nothing_kept x;
        present = has-nil Record x;
        flagged_twice = has-nil (List String) x;
      }))
