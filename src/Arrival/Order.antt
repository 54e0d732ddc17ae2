-- ===== src/Arrival/Order.antt =====
-- The order in which `publish` of src/run_farm/arrival.py moves things, with the marker at the end.
use mathlib.Core.List.{append_assoc, append-nil, map-append}
use mathlib.Core.Path.{subst}
use run_farm.Prelude.{
  ◌≡◌, ◌⊎◌, inl, inr, refl, ◌∙◌, ap, sym, String, true, not, Option, none, some, List, [], ◌∷◌,
  ◌++◌, map, Dict, lookup, ◌==◌, string_eq, list_eq, keep_if, beq_refl, Bool-cases, if◌then◌else◌,
  arith,
}
use run_farm.Arrival.{
  FilePath, Kind, file, Node, leaf, branch, Entries, end, entry, Op, mkdir, place, Kids, under,
  sort_kids, name_last, all_ops, node_ops, kids, perform_all, Instant, now, later,
}
use run_farm.Arrival.Written.{
  or_else, wrote, written, written-append, written-all_ops, written-under, pick, pick-sort_kids,
  pick-keep_other, lookup-perform,
}
use run_farm.Arrival.Publish.{Unique, UniqueNode, Absent, pick-Absent, entries_at, node_at}

or_else-eq-none {ℓ} : {A : Type ℓ} (a b : Option A) → or_else a b ≡ none → (a ≡ none) × (b ≡ none)
or_else-eq-none none b h = (refl, h)
or_else-eq-none (some a) b h = cc

module _ {C : Type 0} where
  -- An observer sees no marker, or all that was to be done.
  pub marker_last :
      (mk : FilePath) (c : C) (ops : List (Op C)) (dest seen : Dict FilePath (Kind C))
      → written mk ops ≡ none
      → lookup mk dest ≡ none
      → Instant (ops ++ place mk c ∷ []) dest seen
      → (lookup mk seen ≡ none) ⊎ (perform_all (ops ++ place mk c ∷ []) dest ≡ (true, seen))
  unfolding written perform_all
  marker_last mk c [] dest seen w absent (now e) = inl (ap (lookup mk) (sym e) ∙ absent)
  marker_last mk c [] dest seen w absent (later went (now e)) =
      inr (rw (went, perform_all) (ap (λ d. (true, d)) e))
  marker_last mk c (op ∷ ops) dest seen w absent (now e) = inl (ap (lookup mk) (sym e) ∙ absent)
  marker_last mk c (op ∷ ops) dest seen w absent (later {dest' = mid} went i) =
      let (w1, w2) = or_else-eq-none (written mk ops) (wrote mk op) w in
      elim (marker_last mk c ops mid seen w1 (lookup-perform mk op dest mid went ∙ rw w2 absent)
        i) [ inl unseen ↦ inl unseen | inr whole ↦ inr (rw (went, perform_all) whole) ]

  pub all_ops-append : (xs ys : Kids C) → all_ops (xs ++ ys) ≡ all_ops xs ++ all_ops ys
  unfolding all_ops
  all_ops-append [] ys = refl
  all_ops-append ((n, x) ∷ xs) ys =
      ap (λ r. map (under n) x ++ r) (all_ops-append xs ys)
      ∙ sym (append_assoc (map (under n) x) (all_ops xs) (all_ops ys))

  pub all_ops-keep_same :
      (n : String) (ks : Kids C) → all_ops (keep_if (λ k. k.0 == n) ks) ≡ map (under n) (pick n ks)
  unfolding all_ops pick
  all_ops-keep_same n [] = refl
  all_ops-keep_same n ((m, x) ∷ ks) = elim (Bool-cases (m == n)) [
    | inl same ↦
        rw (same, if◌then◌else◌)
          (rw (all_ops-keep_same n ks)
            (rw ((string_eq.beq_iff m n).0 same) (sym (map-append (under n) x (pick n ks)))))
    | inr differs ↦ rw differs (all_ops-keep_same n ks)
  ]

  abbrev pub others : String → Kids C → Kids C
  others n ks = keep_if (λ k. not (k.0 == n)) ks

  -- The node of a name.
  abbrev pub node_of : Entries C → String → Option (Node C)
  node_of end n = none
  node_of (entry m x es) n = if m == n then some x else node_of es n

  -- A list of operations that ends with the placing of a file, which nothing before it touches.
  abbrev pub EndsWith : FilePath → C → List (Op C) → Type 0
  EndsWith p c ops =
      (before : List (Op C)) × (ops ≡ before ++ place p c ∷ []) × (written p before ≡ none)

  -- The operations on the entry `n` come last.
  pub name_last-EndsWith :
      (n : String) (p : FilePath) (c : C) (ks : Kids C)
      → EndsWith p c (pick n ks)
      → EndsWith (n ∷ p) c (mkdir [] ∷ all_ops (name_last n ks))
  unfolding written
  name_last-EndsWith n p c ks (before, e, w) = (
    mkdir [] ∷ (all_ops (others n ks) ++ map (under n) before),
    ap (λ r. mkdir [] ∷ r)
        (all_ops-append (others n ks) (keep_if (λ k. k.0 == n) ks)
          ∙ ap (λ r. all_ops (others n ks) ++ r)
              (all_ops-keep_same n ks
                ∙ ap (map (under n)) e
                ∙ map-append (under n) before (place p c ∷ []))
          ∙ sym
              (append_assoc (all_ops (others n ks)) (map (under n) before) (place (n ∷ p) c ∷ []))),
    ground (
      arith,
      written-append (n ∷ p) (all_ops (others n ks)) (map (under n) before),
      written-under n p n before,
      beq_refl n,
      written-all_ops n p (others n ks),
      pick-keep_other n n ks,
    ),
  )

  pub pick-kids :
      (marker : FilePath) (es : Entries C) (n : String) (x : Node C)
      → Unique es
      → node_of es n ≡ some x
      → pick n (kids marker es) ≡ node_ops marker x
  unfolding pick kids Unique
  pick-kids marker end n x u h = cc
  pick-kids marker (entry m y es) n x u h = elim (Bool-cases (m == n)) [
    | inl same ↦
        (let y-eq-x : y ≡ x = (let here = rw same at h in cc) in
          rw same (
            rw
              (pick-Absent marker n es
                (subst (λ t. Absent t es) ((string_eq.beq_iff m n).0 same) u.0))
              (append-nil (node_ops marker y) ∙ ap (node_ops marker) y-eq-x)))
    | inr differs ↦ rw differs (pick-kids marker es n x u.2 (rw differs at h))
  ]

  pub node_of_entry :
      (es : Entries C) (n : String) (p : FilePath) (k : Kind C)
      → entries_at es n p ≡ some k
      → (x : Node C) × (node_of es n ≡ some x) × (node_at x p ≡ some k)
  unfolding entries_at
  node_of_entry end n p k h = cc
  node_of_entry (entry m x es) n p k h = elim (Bool-cases (m == n)) [
    | inl same ↦ (x, rw same, rw same at h)
    | inr differs ↦
        (let (y, e, here) = node_of_entry es n p k (rw differs at h) in (y, rw differs e, here))
  ]

  is_leaf : (x : Node C) (c : C) → node_at x [] ≡ some (file c) → x ≡ leaf c
  unfolding node_at
  is_leaf (leaf d) c h = cc
  is_leaf (branch es) c h = cc

  pub file-EndsWith :
      (marker : FilePath) (n : String) (es : Entries C) (c : C)
      → Unique es
      → entries_at es n [] ≡ some (file c)
      → EndsWith (n ∷ []) c (mkdir [] ∷ all_ops (name_last n (sort_kids (kids marker es))))
  unfolding written node_ops
  file-EndsWith marker n es c u h =
      let (x, e, here) = node_of_entry es n [] (file c) h in
      name_last-EndsWith n [] c (sort_kids (kids marker es)) (
        [],
        pick-sort_kids n (kids marker es)
            ∙ pick-kids marker es n x u e
            ∙ ap (node_ops marker) (is_leaf x c here),
        refl,
      )

  pub UniqueNode-node_of :
      (es : Entries C) (n : String) (x : Node C) → Unique es → node_of es n ≡ some x → UniqueNode x
  unfolding Unique
  UniqueNode-node_of end n x u h = cc
  UniqueNode-node_of (entry m y es) n x u h = elim (Bool-cases (m == n)) [
    | inl same ↦
        (let y-eq-x : y ≡ x = (let here = rw same at h in cc) in subst UniqueNode y-eq-x u.1)
    | inr differs ↦ UniqueNode-node_of es n x u.2 (rw differs at h)
  ]

  pub nested-EndsWith :
      (d m : String) (x : Node C) (c : C)
      → UniqueNode x
      → node_at x (m ∷ []) ≡ some (file c)
      → EndsWith (m ∷ []) c (node_ops (d ∷ m ∷ []) x)
  unfolding UniqueNode node_at node_ops
  nested-EndsWith d m (leaf e) c u h = cc
  nested-EndsWith d m (branch es) c u h = file-EndsWith (d ∷ m ∷ []) m es c u h
