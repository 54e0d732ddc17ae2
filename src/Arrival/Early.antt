-- ===== src/Arrival/Early.antt =====
-- The marker that is a directory, in `publish` of src/run_farm/arrival.py.
use mathlib.Core.List.{append_assoc}
use mathlib.Core.Path.{subst}
use run_farm.Prelude.{
  ◌≡◌, refl, ◌∙◌, ap, sym, inl, inr, Option-cases, String, true, none, some, List, [], ◌∷◌, ◌++◌,
  map, Dict, lookup, ◌==◌, string_eq, list_eq, keep_if, beq_refl, arith,
}
use run_farm.Arrival.{
  FilePath, Kind, directory, Node, leaf, branch, Entries, Op, mkdir, under, sort_kids, name_last,
  last_part, all_ops, node_ops, kids, publish_ops, perform, perform_all, publish, Instant, now,
  later,
}
use run_farm.Arrival.Written.{
  or_else, written, written-append, written-all_ops, pick, pick-keep_other, pick-sort_kids,
  lookup-perform_all,
}
use run_farm.Arrival.Publish.{Unique, entries_at, node_at}
use run_farm.Arrival.Order.{others, all_ops-append, all_ops-keep_same, node_of_entry, pick-kids}

module _ {C : Type 0} where
  -- What was done after the first operations is an instant of them all.
  prefix-Instant :
      (first rest : List (Op C)) (dest dest' : Dict FilePath (Kind C))
      → perform_all (first ++ rest) dest ≡ (true, dest')
      → (mid : Dict FilePath (Kind C)) × (perform_all first dest ≡ (true, mid))
        × Instant (first ++ rest) dest mid
  unfolding perform_all
  prefix-Instant [] rest dest dest' h = (dest, refl, now refl)
  prefix-Instant (op ∷ first) rest dest dest' h = elim (Option-cases (perform op dest)) [
    | inl raised ↦ (let bad = rw (raised, perform_all) at h in cc)
    | inr (mid, went) ↦
        (let (seen, e, i) = prefix-Instant first rest mid dest' (rw (went, perform_all) at h) in
          (seen, rw (went, perform_all) e, later went i))
  ]

  branch_ops :
      (marker : FilePath) (x : Node C)
      → node_at x [] ≡ some directory
      → (rest : List (Op C)) × (node_ops marker x ≡ mkdir [] ∷ rest)
  unfolding node_at node_ops
  branch_ops marker (leaf c) h = cc
  branch_ops marker (branch es) h =
      (all_ops (name_last (last_part marker) (sort_kids (kids marker es))), refl)

  -- The directory `m` is made after all else was moved, and then filled.
  publish_ops_split :
      (m : String) (es : Entries C)
      → Unique es
      → entries_at es m [] ≡ some directory
      → (before : List (Op C)) × (rest : List (Op C)) × (publish_ops (m ∷ []) es
          ≡ (before ++ mkdir (m ∷ []) ∷ []) ++ rest)
        × ((p : FilePath) → written (m ∷ p) before ≡ none)
  unfolding publish_ops written
  publish_ops_split m es u h =
      let ks = sort_kids (kids (m ∷ []) es) in
      let (x, found, here) = node_of_entry es m [] directory h in
      let (rest, e) = branch_ops (m ∷ []) x here in
      let last : pick m ks ≡ mkdir [] ∷ rest =
        pick-sort_kids m (kids (m ∷ []) es) ∙ pick-kids (m ∷ []) es m x u found ∙ e in
      (
        mkdir [] ∷ all_ops (others m ks),
        map (under m) rest,
        ap (λ r. mkdir [] ∷ r)
            (all_ops-append (others m ks) (keep_if (λ k. k.0 == m) ks)
              ∙ ap (λ r. all_ops (others m ks) ++ r)
                  (all_ops-keep_same m ks ∙ ap (map (under m)) last)
              ∙ sym (
                  append_assoc (all_ops (others m ks)) (mkdir (m ∷ []) ∷ []) (map (under m) rest))),
        λ p. ground (arith, written-all_ops m p (others m ks), pick-keep_other m m ks, beq_refl m),
      )

  -- The marker is a directory of the staging, as it is by default for a leg that fetches one. Then a publish that
  -- raises nothing passes through an instant at which the marker shows, and below it there is nothing of
  -- the payload: each path below it has what it had before.
  pub directory_marker_early :
      (m : String) (es : Entries C) (dest dest' : Dict FilePath (Kind C))
      → Unique es
      → entries_at es m [] ≡ some directory
      → publish (m ∷ []) es dest ≡ (true, dest')
      → (seen : Dict FilePath (Kind C)) × Instant (publish_ops (m ∷ []) es) dest seen
        × (lookup (m ∷ []) seen ≡ some directory)
        × ((q : String) (p : FilePath) → lookup (m ∷ q ∷ p) seen ≡ lookup (m ∷ q ∷ p) dest)
  unfolding publish written
  directory_marker_early m es dest dest' u h done =
      let (before, rest, split, untouched) = publish_ops_split m es u h in
      let first = before ++ mkdir (m ∷ []) ∷ [] in
      let (seen, whole, i) = prefix-Instant first rest dest dest' (rw split at done) in
      let leaves = λ (p : FilePath).
        lookup-perform_all (m ∷ p) first dest seen whole
        ∙ ap (λ k. or_else k (lookup (m ∷ p) dest))
            (written-append (m ∷ p) before (mkdir (m ∷ []) ∷ [])
              ∙ ap (λ k. or_else (written (m ∷ p) (mkdir (m ∷ []) ∷ [])) k) (untouched p)) in
      (
        seen,
        subst (λ ops. Instant ops dest seen) (sym split) i,
        ground (arith, leaves [], beq_refl m),
        λ q p. ground (arith, leaves (q ∷ p), beq_refl m),
      )
