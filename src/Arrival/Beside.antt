-- ===== src/Arrival/Beside.antt =====
-- Two publishes of src/run_farm/arrival.py into one directory at the same time, as of a pull that a resumable leg of
-- src/run_farm/fleet.py still has under way when the final fetch begins.
use run_farm.Prelude.{
  ◌≡◌, ◌≢◌, ◌⊎◌, inl, inr, sym, ◌∙◌, String, none, some, List, [], ◌∷◌, Dict, lookup, string_eq,
  list_eq,
}
use run_farm.Arrival.{FilePath, Kind, file, Entries, Op, publish_ops, Instant}
use run_farm.Arrival.Publish.{Unique, entries_at, written-publish_ops}
use run_farm.Arrival.Marker.{Shallow, tree_at, publish_ops-EndsWith}
use run_farm.Arrival.Interleaved.{
  Beside, MarkerLast, Shown, Beside-Sees, unwritten-MarkerLast, snoc-MarkerLast,
}

module _ {C : Type 0} where
  -- The staging has the marker as a file, or not at all.
  abbrev pub Staged : FilePath → Entries C → Type 0
  Staged marker es = (tree_at es marker ≡ none) ⊎ ((c : C) × (tree_at es marker ≡ some (file c)))

  -- The staging has the marker, and each path that it has is there.
  abbrev pub Covers : FilePath → Entries C → Dict FilePath (Kind C) → Type 0
  Covers marker es seen =
      (tree_at es marker ≢ none)
      × ((n : String) (p : FilePath) → entries_at es n p ≢ none → lookup (n ∷ p) seen ≢ none)

  publish-MarkerLast :
      (n : String) (path : FilePath) (es : Entries C)
      → Shallow (n ∷ path)
      → Unique es
      → Staged (n ∷ path) es
      → MarkerLast (n ∷ path) (publish_ops (n ∷ path) es)
  unfolding tree_at
  publish-MarkerLast n path es s u (inl absent) =
      unwritten-MarkerLast (n ∷ path) (publish_ops (n ∷ path) es)
        (written-publish_ops (n ∷ path) es n path u ∙ absent)
  publish-MarkerLast n path es s u (inr (c, here)) =
      let (before, ops, w) = publish_ops-EndsWith (n ∷ path) es c s u here in
      rw ops (snoc-MarkerLast (n ∷ path) c before w)

  Shown-Covers :
      (n : String) (path : FilePath) (es : Entries C) (seen : Dict FilePath (Kind C))
      → Unique es
      → Shown (n ∷ path) (publish_ops (n ∷ path) es) seen
      → Covers (n ∷ path) es seen
  unfolding tree_at
  Shown-Covers n path es seen u (marks, there) = (
    rw (sym (written-publish_ops (n ∷ path) es n path u)) marks,
    λ m p h. there (m ∷ p) (rw (written-publish_ops (n ∷ path) es m p u) h),
  )

  -- Two pulls publish into one directory at the same time, their operations in any order, each pull's own in its
  -- order; each has staged the marker as a file at most one directory deep, or not at all, and the directory has no
  -- marker yet. Whoever sees the marker there, at any instant, sees each path of a pull that staged it.
  pub marker-Beside :
      (marker : FilePath) (es es' : Entries C) (ops : List (Op C))
      (dest seen : Dict FilePath (Kind C))
      → Shallow marker
      → Unique es
      → Unique es'
      → Staged marker es
      → Staged marker es'
      → lookup marker dest ≡ none
      → Beside (publish_ops marker es) (publish_ops marker es') ops
      → Instant ops dest seen
      → lookup marker seen ≢ none
      → Covers marker es seen ⊎ Covers marker es' seen
  marker-Beside [] es es' ops dest seen s u u' m m' absent b i shows = absurd s
  marker-Beside (n ∷ path) es es' ops dest seen s u u' m m' absent b i shows =
      elim (Beside-Sees (n ∷ path) (publish_ops (n ∷ path) es) (publish_ops (n ∷ path) es') ops dest
        seen b (publish-MarkerLast n path es s u m) (publish-MarkerLast n path es' s u' m') absent
        i) [
          | inl unseen ↦ absurd (shows unseen)
          | inr (inl k) ↦ inl (Shown-Covers n path es seen u k)
          | inr (inr k) ↦ inr (Shown-Covers n path es' seen u' k)
        ]
