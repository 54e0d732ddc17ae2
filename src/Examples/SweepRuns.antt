-- ===== src/Examples/SweepRuns.antt =====
-- A control and a treatment, two replicates and a grid of two cells, expanded by
-- src/run_farm/sweep.py.
use run_farm.Prelude.{
  ℕ, zero, suc, ◌+◌, ◌*◌, ◌≡◌, refl, String, Option, none, some, List, [], ◌∷◌, length, get_elem?,
  Dict,
}
use run_farm.Sweep.{default_rid, legs}
use run_farm.Sweep.Positions.{legs_lem}

abbrev arms : List String
arms = "control" ∷ "treatment" ∷ []

abbrev digits : ℕ → String
digits zero = "0"
digits (suc n) = "1"

abbrev grid : Option (List (Dict String String))
grid = some ((("mu", "0.1") ∷ ("beta", "2") ∷ []) ∷ [] ∷ [])

abbrev seed_fn : String → ℕ → Dict String String → ℕ
seed_fn arm rep cell = rep + 40

default_rid_test :
    default_rid digits (λ (v : String). v) "control" 1 (("mu", "0.1") ∷ ("beta", "2") ∷ [])
    ≡ "control_r1_beta2_mu0.1"
unfolding default_rid
default_rid_test = refl

-- Two cells of one text: the names of their legs are equal.
default_rid_twice :
    default_rid digits (λ (v : String). v) "control" 0 (("a", "1_b2") ∷ [])
    ≡ default_rid digits (λ (v : String). v) "control" 0 (("a", "1") ∷ ("b", "2") ∷ [])
unfolding default_rid
default_rid_twice = refl

legs_lem_example :
    (length (legs digits (λ v. v) arms (0 ∷ 1 ∷ []) grid seed_fn none) ≡ 2 * (2 * 2))
    × (get_elem?
          (legs digits (λ v. v) arms (0 ∷ 1 ∷ []) grid seed_fn none)
          (1 * (2 * 2) + (1 * 2 + 0))
        ≡ some (record {
          rid = default_rid digits (λ v. v) "treatment" 1 (("mu", "0.1") ∷ ("beta", "2") ∷ []);
          arm = "treatment";
          replicate = 1;
          seed = 41;
          cfg = ("mu", "0.1") ∷ ("beta", "2") ∷ [];
        }))
legs_lem_example =
    legs_lem digits (λ v. v) arms (0 ∷ 1 ∷ []) grid seed_fn none 1 1 0 "treatment" 1
      (("mu", "0.1") ∷ ("beta", "2") ∷ []) refl refl refl
