-- ===== src/Arrival/Written.antt =====
-- The operations of src/run_farm/arrival.py, by what they leave at a path.
use mathlib.Core.List.{append_assoc, append-nil}
use run_farm.Prelude.{
  ◌≡◌, refl, ◌∙◌, sym, inl, inr, Option-cases, String, true, not, Option, none, some, List, [], ◌∷◌,
  ◌++◌, map, Dict, lookup, lookup-insert, ◌==◌, string_eq, list_eq, keep_if, if◌then◌else◌, arith,
}
use run_farm.Arrival.{
  FilePath, Kind, file, directory, Op, mkdir, place, Kids, under, insert_kid, sort_kids, name_last,
  all_ops, perform, perform_all,
}

abbrev pub or_else {ℓ} : {A : Type ℓ} → Option A → Option A → Option A
or_else none b = b
or_else (some a) b = some a

pub or_else-none {ℓ} : {A : Type ℓ} (a : Option A) → or_else a none ≡ a
or_else-none none = refl
or_else-none (some a) = refl

or_else_assoc {ℓ} :
    {A : Type ℓ} (a b c : Option A) → or_else (or_else a b) c ≡ or_else a (or_else b c)
or_else_assoc none b c = refl
or_else_assoc (some a) b c = refl

module _ {C : Type 0} where
  abbrev pub wrote : FilePath → Op C → Option (Kind C)
  wrote p (mkdir q) = if q == p then some directory else none
  wrote p (place q c) = if q == p then some (file c) else none

  -- What the last operation on the path leaves there.
  unfoldable pub written : FilePath → List (Op C) → Option (Kind C)
  written p [] = none
  written p (op ∷ ops) = or_else (written p ops) (wrote p op)

  pub written-append :
      (p : FilePath) (xs ys : List (Op C))
      → written p (xs ++ ys) ≡ or_else (written p ys) (written p xs)
  unfolding written
  written-append p [] ys = sym (or_else-none (written p ys))
  written-append p (op ∷ xs) ys =
      rw (written-append p xs ys) (or_else_assoc (written p ys) (written p xs) (wrote p op))

  pub lookup-perform :
      (p : FilePath) (op : Op C) (dest dest' : Dict FilePath (Kind C))
      → perform op dest ≡ some dest'
      → lookup p dest' ≡ or_else (wrote p op) (lookup p dest)
  unfolding perform
  lookup-perform p (mkdir q) dest dest' h = ground (arith, lookup-insert q p directory dest)
  lookup-perform p (place q c) dest dest' h = ground (arith, lookup-insert q p (file c) dest)

  pub lookup-perform_all :
      (p : FilePath) (ops : List (Op C)) (dest dest' : Dict FilePath (Kind C))
      → perform_all ops dest ≡ (true, dest')
      → lookup p dest' ≡ or_else (written p ops) (lookup p dest)
  unfolding perform_all written
  lookup-perform_all p [] dest dest' h = cc
  lookup-perform_all p (op ∷ ops) dest dest' h = elim (Option-cases (perform op dest)) [
    | inl raised ↦ (let bad = rw (raised, perform_all) at h in cc)
    | inr (mid, went) ↦
        lookup-perform_all p ops mid dest' (rw (went, perform_all) at h)
        ∙ rw (lookup-perform p op dest mid went)
            (sym (or_else_assoc (written p ops) (wrote p op) (lookup p dest)))
  ]

  pub written-under :
      (n : String) (p : FilePath) (m : String) (ops : List (Op C))
      → written (n ∷ p) (map (under m) ops) ≡ (if m == n then written p ops else none)
  unfolding written
  written-under n p m [] = ground arith
  written-under n p m (mkdir q ∷ ops) = ground (arith, written-under n p m ops)
  written-under n p m (place q c ∷ ops) = ground (arith, written-under n p m ops)

  written_root-under : (m : String) (ops : List (Op C)) → written [] (map (under m) ops) ≡ none
  unfolding written
  written_root-under m [] = refl
  written_root-under m (mkdir q ∷ ops) = rw (written_root-under m ops)
  written_root-under m (place q c ∷ ops) = rw (written_root-under m ops)

  -- The operations of the entries of one name.
  unfoldable pub pick : String → Kids C → List (Op C)
  pick n [] = []
  pick n ((m, x) ∷ ks) = if m == n then x ++ pick n ks else pick n ks

  pub written-all_ops :
      (n : String) (p : FilePath) (ks : Kids C)
      → written (n ∷ p) (all_ops ks) ≡ written p (pick n ks)
  unfolding all_ops pick written
  written-all_ops n p [] = refl
  written-all_ops n p ((m, x) ∷ ks) = ground (
    arith,
    written-append (n ∷ p) (map (under m) x) (all_ops ks),
    written-under n p m x,
    written-all_ops n p ks,
    written-append p x (pick n ks),
    or_else-none (written p (pick n ks)),
  )

  pub written_root-all_ops : (ks : Kids C) → written [] (all_ops ks) ≡ none
  unfolding all_ops written
  written_root-all_ops [] = refl
  written_root-all_ops ((m, x) ∷ ks) =
      written-append [] (map (under m) x) (all_ops ks)
      ∙ rw (written_root-all_ops ks) (written_root-under m x)

  pick-append : (n : String) (xs ys : Kids C) → pick n (xs ++ ys) ≡ pick n xs ++ pick n ys
  unfolding pick
  pick-append n [] ys = refl
  pick-append n ((m, x) ∷ xs) ys =
      ground (arith, pick-append n xs ys, append_assoc x (pick n xs) (pick n ys))

  pub pick-keep_other :
      (n name : String) (ks : Kids C)
      → pick n (keep_if (λ k. not (k.0 == name)) ks) ≡ (if n == name then [] else pick n ks)
  unfolding pick
  pick-keep_other n name [] = ground arith
  pick-keep_other n name ((m, x) ∷ ks) = ground (
    arith,
    string_eq.beq_iff m name,
    string_eq.beq_iff m n,
    string_eq.beq_iff n name,
    pick-keep_other n name ks,
  )

  pick-keep_same :
      (n name : String) (ks : Kids C)
      → pick n (keep_if (λ k. k.0 == name) ks) ≡ (if n == name then pick n ks else [])
  unfolding pick
  pick-keep_same n name [] = ground arith
  pick-keep_same n name ((m, x) ∷ ks) = ground (
    arith,
    string_eq.beq_iff m name,
    string_eq.beq_iff m n,
    string_eq.beq_iff n name,
    pick-keep_same n name ks,
  )

  -- Neither ordering changes what is done below a name.
  pub pick-name_last : (n name : String) (ks : Kids C) → pick n (name_last name ks) ≡ pick n ks
  pick-name_last n name ks = ground (
    arith,
    pick-append n (keep_if (λ k. not (k.0 == name)) ks) (keep_if (λ k. k.0 == name) ks),
    pick-keep_other n name ks,
    pick-keep_same n name ks,
    append-nil (pick n ks),
  )

  pick-insert_kid :
      (n m : String) (x : List (Op C)) (ks : Kids C)
      → pick n (insert_kid m x ks) ≡ pick n ((m, x) ∷ ks)
  unfolding pick insert_kid
  pick-insert_kid n m x [] = refl
  pick-insert_kid n m x ((t, y) ∷ ks) = ground (
    arith,
    string_eq.beq_iff m n,
    string_eq.beq_iff t n,
    string_eq.beq_iff m t,
    pick-insert_kid n m x ks,
  )

  pub pick-sort_kids : (n : String) (ks : Kids C) → pick n (sort_kids ks) ≡ pick n ks
  unfolding pick sort_kids
  pick-sort_kids n [] = refl
  pick-sort_kids n ((m, x) ∷ ks) =
      pick-insert_kid n m x (sort_kids ks) ∙ ground (arith, pick-sort_kids n ks)
