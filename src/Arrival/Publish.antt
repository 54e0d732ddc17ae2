-- ===== src/Arrival/Publish.antt =====
-- What `publish` of src/run_farm/arrival.py leaves in the destination.
use mathlib.Core.List.{append-nil}
use mathlib.Core.Path.{subst}
use run_farm.Prelude.{
  ◌≡◌, refl, ◌∙◌, ap, String, true, false, Option, none, some, [], ◌∷◌, Dict, lookup, ◌==◌,
  string_eq, list_eq, Bool-cases, inl, inr, if◌then◌else◌, arith,
}
use run_farm.Arrival.{
  FilePath, Kind, file, directory, Node, leaf, branch, Entries, end, entry, Kids, last_part,
  first_part, sort_kids, name_last, all_ops, node_ops, kids, publish_ops, publish,
}
use run_farm.Arrival.Written.{
  or_else, or_else-none, written, written-all_ops, written_root-all_ops, pick, pick-name_last,
  pick-sort_kids, lookup-perform_all,
}

-- What a tree has at a path below it.
unfoldable mutual
  pub node_at : {C : Type 0} → Node C → FilePath → Option (Kind C)
  node_at (leaf c) [] = some (file c)
  node_at (leaf c) (n ∷ p) = none
  node_at (branch es) [] = some directory
  node_at (branch es) (n ∷ p) = entries_at es n p

  pub entries_at : {C : Type 0} → Entries C → String → FilePath → Option (Kind C)
  entries_at end n p = none
  entries_at (entry m x es) n p = if m == n then node_at x p else entries_at es n p

-- No directory has two entries of one name.
abbrev pub Absent : {C : Type 0} → String → Entries C → Type 0
Absent n end = Unit
Absent n (entry m x es) = ((m == n) ≡ false) × Absent n es

unfoldable mutual
  pub UniqueNode : {C : Type 0} → Node C → Type 0
  UniqueNode (leaf c) = Unit
  UniqueNode (branch es) = Unique es

  pub Unique : {C : Type 0} → Entries C → Type 0
  Unique end = Unit
  Unique (entry n x es) = Absent n es × UniqueNode x × Unique es

module _ {C : Type 0} where
  pub pick-Absent :
      (marker : FilePath) (n : String) (es : Entries C) → Absent n es → pick n (kids marker es) ≡ []
  unfolding pick kids
  pick-Absent marker n end h = refl
  pick-Absent marker n (entry m x es) h = ground (arith, pick-Absent marker n es h.1)

  written-ordered :
      (name n : String) (p : FilePath) (ks : Kids C)
      → written (n ∷ p) (all_ops (name_last name (sort_kids ks))) ≡ written p (pick n ks)
  written-ordered name n p ks =
      written-all_ops n p (name_last name (sort_kids ks))
      ∙ ap (written p) (pick-name_last n name (sort_kids ks) ∙ pick-sort_kids n ks)

mutual
  unfolding node_ops kids written pick node_at entries_at UniqueNode Unique

  written-node_ops :
      {C : Type 0} (marker : FilePath) (x : Node C) (p : FilePath)
      → UniqueNode x
      → written p (node_ops marker x) ≡ node_at x p
  written-node_ops marker (leaf c) [] u = refl
  written-node_ops marker (leaf c) (n ∷ p) u = refl
  written-node_ops marker (branch es) [] u =
      rw (written_root-all_ops (name_last (last_part marker) (sort_kids (kids marker es))))
  written-node_ops marker (branch es) (n ∷ p) u =
      or_else-none
        (written (n ∷ p) (all_ops (name_last (last_part marker) (sort_kids (kids marker es)))))
      ∙ written-ordered (last_part marker) n p (kids marker es)
      ∙ written-kids marker es n p u

  written-kids :
      {C : Type 0} (marker : FilePath) (es : Entries C) (n : String) (p : FilePath)
      → Unique es
      → written p (pick n (kids marker es)) ≡ entries_at es n p
  written-kids marker end n p u = refl
  written-kids marker (entry m x es) n p u = elim (Bool-cases (m == n)) [
    | inl same ↦ rw same (
        rw (pick-Absent marker n es (subst (λ t. Absent t es) ((string_eq.beq_iff m n).0 same) u.0))
          (rw (append-nil (node_ops marker x)) (written-node_ops marker x p u.1)))
    | inr differs ↦ rw differs (written-kids marker es n p u.2)
  ]

module _ {C : Type 0} where
  pub written-publish_ops :
      (marker : FilePath) (es : Entries C) (n : String) (p : FilePath)
      → Unique es
      → written (n ∷ p) (publish_ops marker es) ≡ entries_at es n p
  unfolding publish_ops written
  written-publish_ops marker es n p u =
      or_else-none
        (written (n ∷ p) (all_ops (name_last (first_part marker) (sort_kids (kids marker es)))))
      ∙ written-ordered (first_part marker) n p (kids marker es)
      ∙ written-kids marker es n p u

  -- A publish that raises nothing leaves at each path below the destination what the staging has there, and
  -- where the staging has nothing, what was there.
  pub publish-merges :
      (marker : FilePath) (es : Entries C) (dest dest' : Dict FilePath (Kind C))
      → Unique es
      → publish marker es dest ≡ (true, dest')
      → (n : String) (p : FilePath)
      → lookup (n ∷ p) dest' ≡ or_else (entries_at es n p) (lookup (n ∷ p) dest)
  unfolding publish
  publish-merges marker es dest dest' u done n p =
      lookup-perform_all (n ∷ p) (publish_ops marker es) dest dest' done
      ∙ ap (λ k. or_else k (lookup (n ∷ p) dest)) (written-publish_ops marker es n p u)
