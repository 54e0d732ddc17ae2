-- ===== src/Arrival/Marker.antt =====
-- When the completion marker shows, while `publish` of src/run_farm/arrival.py is at work.
use mathlib.Core.Path.{subst}
use run_farm.Prelude.{
  ◌≡◌, ◌≢◌, inl, inr, ◌∙◌, String, Option, none, some, [], ◌∷◌, Dict, lookup, string_eq, list_eq,
}
use run_farm.Arrival.{FilePath, Kind, file, Entries, sort_kids, kids, publish_ops, publish, Instant}
use run_farm.Arrival.Written.{pick-sort_kids}
use run_farm.Arrival.Publish.{Unique, entries_at, publish-merges}
use run_farm.Arrival.Order.{
  marker_last, EndsWith, name_last-EndsWith, node_of_entry, pick-kids, UniqueNode-node_of,
  nested-EndsWith, file-EndsWith,
}

-- A marker in the destination itself, or in a directory of it.
abbrev pub Shallow : FilePath → Type 0
Shallow [] = ⊥
Shallow (m ∷ []) = Unit
Shallow (d ∷ m ∷ []) = Unit
Shallow (d ∷ e ∷ m ∷ p) = ⊥

unfoldable pub tree_at : {C : Type 0} → Entries C → FilePath → Option (Kind C)
unfolding entries_at
tree_at es [] = none
tree_at es (n ∷ p) = entries_at es n p

module _ {C : Type 0} where
  pub publish_ops-EndsWith :
      (marker : FilePath) (es : Entries C) (c : C)
      → Shallow marker
      → Unique es
      → tree_at es marker ≡ some (file c)
      → EndsWith marker c (publish_ops marker es)
  unfolding publish_ops tree_at
  publish_ops-EndsWith [] es c s u h = absurd s
  publish_ops-EndsWith (m ∷ []) es c s u h = file-EndsWith (m ∷ []) m es c u h
  publish_ops-EndsWith (d ∷ m ∷ []) es c s u h =
      let (x, e, here) = node_of_entry es d (m ∷ []) (file c) h in
      let (before, ops, w) = nested-EndsWith d m x c (UniqueNode-node_of es d x u e) here in
      name_last-EndsWith d (m ∷ []) c (sort_kids (kids (d ∷ m ∷ []) es)) (
        before,
        pick-sort_kids d (kids (d ∷ m ∷ []) es) ∙ pick-kids (d ∷ m ∷ []) es d x u e ∙ ops,
        w,
      )
  publish_ops-EndsWith (d ∷ e ∷ m ∷ p) es c s u h = absurd s

  -- The staging has, as its marker, a file at most one directory deep, and the destination has no such
  -- marker yet. Then whoever sees the marker in the destination, at any instant of the publishing, sees all
  -- that was staged: each file with its content, and each directory.
  pub marker_after_payload :
      (marker : FilePath) (es : Entries C) (c : C) (dest seen : Dict FilePath (Kind C))
      → Shallow marker
      → Unique es
      → tree_at es marker ≡ some (file c)
      → lookup marker dest ≡ none
      → Instant (publish_ops marker es) dest seen
      → lookup marker seen ≢ none
      → (n : String) (p : FilePath) (k : Kind C) → entries_at es n p ≡ some k
      → lookup (n ∷ p) seen ≡ some k
  unfolding publish
  marker_after_payload marker es c dest seen s u h absent i shows n p k staged =
      let (before, ops, w) = publish_ops-EndsWith marker es c s u h in
      elim (marker_last marker c before dest seen w absent
        (subst (λ o. Instant o dest seen) ops i)) [
          | inl unseen ↦ absurd (shows unseen)
          | inr whole ↦ publish-merges marker es dest seen u (rw ops whole) n p ∙ rw staged
        ]
