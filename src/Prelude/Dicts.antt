-- ===== src/Prelude/Dicts.antt =====
-- Python's `dict`: insertion order is kept, an assignment to a present key keeps its place.
use mathlib.Core.Path.{◌≡◌, refl}
use mathlib.Core.Bool.{Bool, true, false}
use mathlib.Core.List.{List, [], ◌∷◌}
use mathlib.Core.Option.{Option, none, some}
use native.Mathlib.Omega.{arith}
use run_farm.Prelude.Tests.{if◌then◌else◌}
use run_farm.Prelude.Equality.{Eq, ◌==◌}

abbrev pub Dict {ℓ κ} : Type ℓ → Type κ → Type (ℓ ⊔ κ)
Dict K V = List (K × V)

abbrev pub is_some {ℓ} : {A : Type ℓ} → Option A → Bool
is_some none = false
is_some (some v) = true

module _ {ℓ κ} {K : Type ℓ} {V : Type κ} ⦃e : Eq K⦄ where
  -- d.get(k)
  unfoldable pub lookup : K → Dict K V → Option V
  lookup k [] = none
  lookup k ((j, v) ∷ d) = if j == k then some v else lookup k d

  -- d[k] = v
  unfoldable pub insert : K → V → Dict K V → Dict K V
  insert k v [] = (k, v) ∷ []
  insert k v ((j, w) ∷ d) = if j == k then (j, v) ∷ d else (j, w) ∷ insert k v d

  -- d.pop(k, None)
  unfoldable pub erase : K → Dict K V → Dict K V
  erase k [] = []
  erase k ((j, w) ∷ d) = if j == k then erase k d else (j, w) ∷ erase k d

  -- k in d
  unfoldable pub has : K → Dict K V → Bool
  has k d = is_some (lookup k d)

  pub lookup-insert :
      (k j : K) (v : V) (d : Dict K V)
      → lookup j (insert k v d) ≡ (if k == j then some v else lookup j d)
  unfolding lookup insert
  lookup-insert k j v [] = refl
  lookup-insert k j v ((i, w) ∷ d) =
      ground (arith, e.beq_iff k j, e.beq_iff i k, e.beq_iff i j, lookup-insert k j v d)

  pub lookup-erase :
      (k j : K) (d : Dict K V) → lookup j (erase k d) ≡ (if k == j then none else lookup j d)
  unfolding lookup erase
  lookup-erase k j [] = ground arith
  lookup-erase k j ((i, w) ∷ d) =
      ground (arith, e.beq_iff k j, e.beq_iff i k, e.beq_iff i j, lookup-erase k j d)

  pub has-insert :
      (k j : K) (v : V) (d : Dict K V) → has j (insert k v d) ≡ (if k == j then true else has j d)
  unfolding has
  has-insert k j v d = rw lookup-insert (ground arith)

  pub has-erase : (k j : K) (d : Dict K V) → has j (erase k d) ≡ (if k == j then false else has j d)
  unfolding has
  has-erase k j d = rw lookup-erase (ground arith)

module _ {ℓ κ} {K : Type ℓ} ⦃e : Eq K⦄ (V : Type κ) where
  pub has-nil : (k : K) → has {V = V} k [] ≡ false
  unfolding has lookup
  has-nil k = refl

module _ {ℓ κ} {K : Type ℓ} {V : Type κ} ⦃e : Eq K⦄ where
  pub has-cons :
      (k j : K) (v : V) (d : Dict K V) → has k ((j, v) ∷ d) ≡ (if j == k then true else has k d)
  unfolding has lookup
  has-cons k j v d = ground arith
