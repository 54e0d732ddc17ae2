-- ===== src/Fleet/Landing/Fetched.antt =====
-- The output of a leg after `_fetch` of src/run_farm/fleet.py.
use run_farm.Prelude.{
  ◌≡◌, refl, ◌∙◌, ap, String, Bool, true, false, some, ◌∷◌, Dict, lookup, list_eq, string_eq,
}
use run_farm.Arrival.{FilePath, Kind, publish}
use run_farm.Arrival.Written.{or_else}
use run_farm.Arrival.Publish.{Unique, entries_at, publish-merges}
use run_farm.Fleet.{FleetLeg, gives, Paths, marker}
use run_farm.Fleet.Landing.{Local, pull, published, has_output}

module _ {P C : Type 0} (local_side : Local P C) (paths : Paths)
    (store_reads : (p : P) (label : String) (files : Dict FilePath (Kind C))
      → local_side.output (local_side.store p label files) label ≡ files) where
  published_lem : (b : Bool) → published local_side paths b ≡ gives tt → b ≡ true
  published_lem true h = refl
  published_lem false h = cc

  -- A fetch that raises nothing leaves in the leg's output at each path what was copied, and elsewhere what was
  -- there, given that the output reads as it was stored and no name stands twice in a directory that was copied.
  pub pull-merges :
      (p : P) (host : String) (leg : FleetLeg)
      → Unique (local_side.scp_down p host leg).0
      → (pull local_side paths p host leg).0 ≡ gives tt
      → (n : String) (path : FilePath)
      → lookup (n ∷ path) (local_side.output (pull local_side paths p host leg).1 leg.label)
        ≡ or_else
            (entries_at (local_side.scp_down p host leg).0 n path)
            (lookup (n ∷ path) (local_side.output (local_side.scp_down p host leg).1 leg.label))
  unfolding pull
  pull-merges p host leg unique done n path =
      let (staged, p') = local_side.scp_down p host leg in
      let parts = local_side.parts (marker paths leg) in
      let before = local_side.output p' leg.label in
      let moved = publish parts staged before in
      ap (λ files. lookup (n ∷ path) files) (store_reads p' leg.label moved.1)
      ∙ publish-merges parts staged before moved.1 unique
          (ap (λ b. (b, moved.1)) (published_lem moved.0 done)) n path

  -- After it the leg is complete, if its marker was copied.
  pub pull_completes :
      (p : P) (host : String) (leg : FleetLeg) (n : String) (path : FilePath) (k : Kind C)
      → Unique (local_side.scp_down p host leg).0
      → (pull local_side paths p host leg).0 ≡ gives tt
      → local_side.parts (marker paths leg) ≡ n ∷ path
      → entries_at (local_side.scp_down p host leg).0 n path ≡ some k
      → has_output local_side paths
          (pull local_side paths p host leg).1
          leg.label
          (marker paths leg)
        ≡ true
  unfolding has_output
  pull_completes p host leg n path k unique done parts copied =
      rw parts (rw (pull-merges p host leg unique done n path) (rw copied refl))
