-- ===== src/Arrival/Interleaved.antt =====
-- What an observer sees of two lists of operations of src/run_farm/arrival.py that are done at the same time.
use run_farm.Prelude.{
  ◌≡◌, ◌≢◌, ◌⊎◌, inl, inr, refl, ap, sym, ◌∙◌, Option, none, some, List, [], ◌∷◌, ◌++◌, Dict,
  lookup, string_eq, list_eq, Option-cases,
}
use run_farm.Arrival.{FilePath, Kind, Op, place, perform, Instant, now, later}
use run_farm.Arrival.Written.{or_else, wrote, written, lookup-perform}

-- The operations of two threads, each in its order.
pub data Beside {C : Type 0} : List (Op C) → List (Op C) → List (Op C) → Type 0 where
  over : Beside [] [] []
  first : {op : Op C} {xs ys zs : List (Op C)} → Beside xs ys zs → Beside (op ∷ xs) ys (op ∷ zs)
  second : {op : Op C} {xs ys zs : List (Op C)} → Beside xs ys zs → Beside xs (op ∷ ys) (op ∷ zs)

or_else-left {ℓ} : {A : Type ℓ} (a b : Option A) → a ≢ none → or_else a b ≢ none
or_else-left none b h = λ _. h refl
or_else-left (some x) b h = h

or_else-right {ℓ} : {A : Type ℓ} (a b : Option A) → b ≢ none → or_else a b ≢ none
or_else-right none b h = h
or_else-right (some x) b h = λ e. cc

both_none {ℓ} : {A : Type ℓ} (a b : Option A) → or_else a b ≡ none → (a ≡ none) × (b ≡ none)
both_none none b h = (refl, h)
both_none (some x) b h = cc

module _ {C : Type 0} where
  -- No operation but the last writes the marker.
  abbrev pub MarkerLast : FilePath → List (Op C) → Type 0
  MarkerLast mk [] = Unit
  MarkerLast mk (op ∷ []) = Unit
  MarkerLast mk (op ∷ next ∷ ops) = (wrote mk op ≡ none) × MarkerLast mk (next ∷ ops)

  -- The operations write the marker, and each path that they write is there.
  abbrev pub Shown : FilePath → List (Op C) → Dict FilePath (Kind C) → Type 0
  Shown mk ops seen =
      (written mk ops ≢ none) × ((p : FilePath) → written p ops ≢ none → lookup p seen ≢ none)

  perform-keeps :
      (p : FilePath) (op : Op C) (dest dest' : Dict FilePath (Kind C))
      → perform op dest ≡ some dest'
      → lookup p dest ≢ none
      → lookup p dest' ≢ none
  perform-keeps p op dest dest' went h =
      rw (lookup-perform p op dest dest' went) (or_else-right (wrote p op) (lookup p dest) h)

  perform-writes :
      (p : FilePath) (op : Op C) (dest dest' : Dict FilePath (Kind C))
      → perform op dest ≡ some dest'
      → wrote p op ≢ none
      → lookup p dest' ≢ none
  perform-writes p op dest dest' went h =
      rw (lookup-perform p op dest dest' went) (or_else-left (wrote p op) (lookup p dest) h)

  -- What is there stays there.
  Instant-keeps :
      (p : FilePath) (ops : List (Op C)) (dest seen : Dict FilePath (Kind C))
      → Instant ops dest seen
      → lookup p dest ≢ none
      → lookup p seen ≢ none
  Instant-keeps p ops dest seen (now e) h = rw (sym e) h
  Instant-keeps p (op ∷ ops) dest seen (later {dest' = mid} went i) h =
      Instant-keeps p ops mid seen i (perform-keeps p op dest mid went h)

  written-cons :
      (p : FilePath) (op : Op C) (ops : List (Op C))
      → written p (op ∷ ops) ≢ none
      → (written p ops ≢ none) ⊎ (wrote p op ≢ none)
  unfolding written
  written-cons p op ops h = by_rest (written p ops) refl
    where
      by_rest :
          (o : Option (Kind C)) → written p ops ≡ o → (written p ops ≢ none) ⊎ (wrote p op ≢ none)
      by_rest none e = inr (rw e at h)
      by_rest (some k) e = inl (λ f. cc)

  -- A first operation that went before.
  Shown-cons :
      (mk : FilePath) (op : Op C) (xs zs : List (Op C)) (dest mid seen : Dict FilePath (Kind C))
      → perform op dest ≡ some mid
      → Instant zs mid seen
      → Shown mk xs seen
      → Shown mk (op ∷ xs) seen
  unfolding written
  Shown-cons mk op xs zs dest mid seen went i (marks, there) =
      (or_else-left (written mk xs) (wrote mk op) marks, λ p h. by_place p (written-cons p op xs h))
    where
      by_place : (p : FilePath) → (written p xs ≢ none) ⊎ (wrote p op ≢ none) → lookup p seen ≢ none
      by_place p (inl k) = there p k
      by_place p (inr k) = Instant-keeps p zs mid seen i (perform-writes p op dest mid went k)

  MarkerLast-tail :
      (mk : FilePath) (op : Op C) (xs : List (Op C)) → MarkerLast mk (op ∷ xs) → MarkerLast mk xs
  MarkerLast-tail mk op [] m = tt
  MarkerLast-tail mk op (next ∷ xs) m = m.1

  -- The operation that writes the marker is the last.
  mark-Shown :
      (mk : FilePath) (op : Op C) (xs zs : List (Op C)) (dest mid seen : Dict FilePath (Kind C))
      → MarkerLast mk (op ∷ xs)
      → wrote mk op ≢ none
      → perform op dest ≡ some mid
      → Instant zs mid seen
      → Shown mk (op ∷ xs) seen
  unfolding written
  mark-Shown mk op [] zs dest mid seen m marks went i =
      (marks, λ p h. Instant-keeps p zs mid seen i (perform-writes p op dest mid went h))
  mark-Shown mk op (next ∷ xs) zs dest mid seen m marks went i = absurd (marks m.0)

  still_none :
      (mk : FilePath) (op : Op C) (dest mid : Dict FilePath (Kind C))
      → perform op dest ≡ some mid
      → wrote mk op ≡ none
      → lookup mk dest ≡ none
      → lookup mk mid ≡ none
  still_none mk op dest mid went w absent = lookup-perform mk op dest mid went ∙ rw w absent

  -- What an observer sees of the marker `mk`.
  abbrev pub Sees : FilePath → List (Op C) → List (Op C) → Dict FilePath (Kind C) → Type 0
  Sees mk xs ys seen = (lookup mk seen ≡ none) ⊎ (Shown mk xs seen ⊎ Shown mk ys seen)

  pub Beside-Sees :
      (mk : FilePath) (xs ys zs : List (Op C)) (dest seen : Dict FilePath (Kind C))
      → Beside xs ys zs
      → MarkerLast mk xs
      → MarkerLast mk ys
      → lookup mk dest ≡ none
      → Instant zs dest seen
      → Sees mk xs ys seen
  Beside-Sees mk xs ys zs dest seen b mx my absent (now e) = inl (ap (lookup mk) (sym e) ∙ absent)
  Beside-Sees mk (op ∷ xs) ys (_ ∷ zs) dest seen (first b) mx my absent
        (later {dest' = mid} went i) =
      elim (Option-cases (wrote mk op)) [
        | inr (k, marks) ↦ inr (inl (mark-Shown mk op xs zs dest mid seen mx (λ e. cc) went i))
        | inl none_yet ↦
            elim (Beside-Sees mk xs ys zs mid seen b (MarkerLast-tail mk op xs mx) my
              (still_none mk op dest mid went none_yet absent) i) [
                | inl unseen ↦ inl unseen
                | inr (inl s) ↦ inr (inl (Shown-cons mk op xs zs dest mid seen went i s))
                | inr (inr s) ↦ inr (inr s)
              ]
      ]
  Beside-Sees mk xs (op ∷ ys) (_ ∷ zs) dest seen (second b) mx my absent
        (later {dest' = mid} went i) =
      elim (Option-cases (wrote mk op)) [
        | inr (k, marks) ↦ inr (inr (mark-Shown mk op ys zs dest mid seen my (λ e. cc) went i))
        | inl none_yet ↦
            elim (Beside-Sees mk xs ys zs mid seen b mx (MarkerLast-tail mk op ys my)
              (still_none mk op dest mid went none_yet absent) i) [
                | inl unseen ↦ inl unseen
                | inr (inl s) ↦ inr (inl s)
                | inr (inr s) ↦ inr (inr (Shown-cons mk op ys zs dest mid seen went i s))
              ]
      ]

  pub unwritten-MarkerLast :
      (mk : FilePath) (ops : List (Op C)) → written mk ops ≡ none → MarkerLast mk ops
  unfolding written
  unwritten-MarkerLast mk [] w = tt
  unwritten-MarkerLast mk (op ∷ []) w = tt
  unwritten-MarkerLast mk (op ∷ next ∷ ops) w =
      let (w1, w2) = both_none (written mk (next ∷ ops)) (wrote mk op) w in
      (w2, unwritten-MarkerLast mk (next ∷ ops) w1)

  pub snoc-MarkerLast :
      (mk : FilePath) (c : C) (before : List (Op C))
      → written mk before ≡ none
      → MarkerLast mk (before ++ place mk c ∷ [])
  unfolding written
  snoc-MarkerLast mk c [] w = tt
  snoc-MarkerLast mk c (op ∷ []) w = (w, tt)
  snoc-MarkerLast mk c (op ∷ next ∷ before) w =
      let (w1, w2) = both_none (written mk (next ∷ before)) (wrote mk op) w in
      (w2, snoc-MarkerLast mk c (next ∷ before) w1)
