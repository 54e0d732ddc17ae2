-- ===== src/Sweep.antt =====
-- src/run_farm/sweep.py: the arms, the replicates and the grid of a campaign, expanded into legs.
--
-- The cells of the grid map names to values of any type; the text of a value and that of a replicate
-- are parameters, as `seed_fn` and `rid_fn` are.
use run_farm.Prelude.{
  String, Option, none, some, List, [], ◌∷◌, ◌++◌, map, Dict, lookup, ◌==◌, string_eq, concat, join,
  sorted, if◌then◌else◌,
}
pub mod Positions

-- `itertools.product` of three sequences: the last one advances first.
unfoldable pub flat_map : {A B : Type 0} → (A → List B) → List A → List B
flat_map f [] = []
flat_map f (x ∷ xs) = f x ++ flat_map f xs

unfoldable pub with_each : {A B C : Type 0} → List B → List C → A → List (A × B × C)
unfolding flat_map
with_each ys zs x = flat_map (λ y. map (λ z. (x, y, z)) zs) ys

unfoldable pub product : {A B C : Type 0} → List A → List B → List C → List (A × B × C)
unfolding with_each flat_map
product xs ys zs = flat_map (with_each ys zs) xs

pub record Leg (R S V : Type 0) : Type 0 where
  pub rid : String
  pub arm : String
  pub replicate : R
  pub seed : S
  pub cfg : Dict String V

-- f"{k}{cell[k]}"; the keys are those of the cell.
unfoldable pub part : {V : Type 0} → (V → String) → Dict String V → String → String
unfolding lookup concat
part text cell k = elim (lookup k cell) [ none ↦ k | some v ↦ concat (k ∷ text v ∷ []) ]

-- The names of legs without a `rid_fn`.
unfoldable pub default_rid :
    {R V : Type 0} → (R → String) → (V → String) → String → R → Dict String V → String
unfolding part join sorted concat
default_rid text_of_rep text arm rep cell =
    let tail = join "_" (map (part text cell) (sorted (map (λ kv. kv.0) cell))) in
    let name = concat (arm ∷ "_r" ∷ text_of_rep rep ∷ []) in
    if tail == "" then name else concat (name ∷ "_" ∷ tail ∷ [])

abbrev pub make_leg :
    {R S V : Type 0}
    → (String → R → Dict String V → S)
    → (String → R → Dict String V → String)
    → String × R × Dict String V
    → Leg R S V
make_leg seed_fn rid_fn (arm, rep, cell) = record {
  rid = rid_fn arm rep cell;
  arm = arm;
  replicate = rep;
  seed = seed_fn arm rep cell;
  cfg = cell;
}

-- `list(grid) if grid is not None else [{}]`
abbrev pub cells_of : {V : Type 0} → Option (List (Dict String V)) → List (Dict String V)
cells_of none = [] ∷ []
cells_of (some cells) = cells

abbrev pub rid_by : {F : Type 0} → F → Option F → F
rid_by f none = f
rid_by f (some g) = g

unfoldable pub legs :
    {R S V : Type 0}
    → (R → String)
    → (V → String)
    → List String
    → List R
    → Option (List (Dict String V))
    → (String → R → Dict String V → S)
    → Option (String → R → Dict String V → String)
    → List (Leg R S V)
unfolding product default_rid
legs text_of_rep text arms replicates grid seed_fn rid_fn =
    map (make_leg seed_fn (rid_by (default_rid text_of_rep text) rid_fn))
      (product arms replicates (cells_of grid))
