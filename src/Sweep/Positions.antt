-- ===== src/Sweep/Positions.antt =====
-- The order in which src/run_farm/sweep.py enumerates the legs.
use run_farm.Prelude.{
  ℕ, zero, suc, ◌+◌, ◌*◌, ◌≡◌, refl, String, Option, some, List, [], ◌∷◌, ◌++◌, map, length,
  get_elem?, Dict, arith, ap, ◌∙◌,
}
use run_farm.Sweep.{flat_map, with_each, product, default_rid, make_leg, cells_of, rid_by, legs}

length-append : {A : Type 0} (xs ys : List A) → length (xs ++ ys) ≡ length xs + length ys
length-append [] ys = ground arith
length-append (x ∷ xs) ys = ground (arith, length-append xs ys)

length-map : {A B : Type 0} (f : A → B) (xs : List A) → length (map f xs) ≡ length xs
length-map f [] = refl
length-map f (x ∷ xs) = ground (arith, length-map f xs)

get_elem?-map :
    {A B : Type 0} (f : A → B) (xs : List A) (i : ℕ) (x : A)
    → get_elem? xs i ≡ some x
    → get_elem? (map f xs) i ≡ some (f x)
get_elem?-map f [] i x h = ground arith
get_elem?-map f (y ∷ ys) zero x h = ground arith
get_elem?-map f (y ∷ ys) (suc i) x h = get_elem?-map f ys i x h

append_left :
    {A : Type 0} (xs ys : List A) (i : ℕ) (x : A)
    → get_elem? xs i ≡ some x
    → get_elem? (xs ++ ys) i ≡ some x
append_left [] ys i x h = ground arith
append_left (z ∷ xs) ys zero x h = h
append_left (z ∷ xs) ys (suc i) x h = append_left xs ys i x h

append_right :
    {A : Type 0} (xs ys : List A) (i k : ℕ)
    → k ≡ length xs + i
    → get_elem? (xs ++ ys) k ≡ get_elem? ys i
append_right [] ys i k e = ap (get_elem? ys) (omega arith)
append_right (x ∷ xs) ys i zero e = ground arith
append_right (x ∷ xs) ys i (suc k) e = append_right xs ys i k (ground arith)

length-flat_map :
    {A B : Type 0} (f : A → List B) (n : ℕ)
    → ((x : A) → length (f x) ≡ n)
    → (xs : List A) → length (flat_map f xs) ≡ length xs * n
unfolding flat_map
length-flat_map f n each [] = ground arith
length-flat_map f n each (x ∷ xs) =
    let rest = length-flat_map f n each xs in
    let size = each x in let both = length-append (f x) (flat_map f xs) in ground arith

get_elem?-flat_map :
    {A B : Type 0} (f : A → List B) (n : ℕ)
    → ((x : A) → length (f x) ≡ n)
    → (xs : List A) (i j k : ℕ) (x : A) (y : B) → get_elem? xs i ≡ some x
    → get_elem? (f x) j ≡ some y
    → k ≡ i * n + j
    → get_elem? (flat_map f xs) k ≡ some y
unfolding flat_map
get_elem?-flat_map f n each [] i j k x y p q e = ground arith
get_elem?-flat_map f n each (z ∷ xs) zero j k x y p q e =
    append_left (f z) (flat_map f xs) k y (grind arith)
get_elem?-flat_map f n each (z ∷ xs) (suc i) j k x y p q e =
    append_right (f z) (flat_map f xs) (i * n + j) k (ground (arith, each z))
    ∙ get_elem?-flat_map f n each xs i j (i * n + j) x y p q refl

length-with_each :
    {A B C : Type 0} (ys : List B) (zs : List C) (x : A)
    → length (with_each ys zs x) ≡ length ys * length zs
unfolding with_each
length-with_each ys zs x =
    length-flat_map (λ y. map (λ z. (x, y, z)) zs) (length zs) (λ y. length-map (λ z. (x, y, z)) zs)
      ys

-- The legs are as many as the product has members, and the leg of an arm, a replicate and a cell
-- stands where the counting of arms, then replicates, then cells puts it, with these three as its axes
-- and with the seed and the name that `seed_fn` and `rid_fn`, or the default, give for them.
pub legs_lem :
    {R S V : Type 0} (text_of_rep : R → String) (text : V → String) (arms : List String)
    (reps : List R) (grid : Option (List (Dict String V)))
    (seed_fn : String → R → Dict String V → S)
    (rid_fn : Option (String → R → Dict String V → String)) (a r c : ℕ) (arm : String) (rep : R)
    (cell : Dict String V)
    → get_elem? arms a ≡ some arm
    → get_elem? reps r ≡ some rep
    → get_elem? (cells_of grid) c ≡ some cell
    → (length (legs text_of_rep text arms reps grid seed_fn rid_fn)
        ≡ length arms * (length reps * length (cells_of grid)))
      × (get_elem?
            (legs text_of_rep text arms reps grid seed_fn rid_fn)
            (a * (length reps * length (cells_of grid)) + (r * length (cells_of grid) + c))
          ≡ some (record {
            rid = rid_by (default_rid text_of_rep text) rid_fn arm rep cell;
            arm = arm;
            replicate = rep;
            seed = seed_fn arm rep cell;
            cfg = cell;
          }))
unfolding legs product with_each
legs_lem text_of_rep text arms reps grid seed_fn rid_fn a r c arm rep cell p q s =
    let cells = cells_of grid in
    let make = make_leg seed_fn (rid_by (default_rid text_of_rep text) rid_fn) in
    let size = length-with_each reps cells in
    let within = r * length cells + c in
    let inner =
      get_elem?-flat_map (λ y. map (λ z. (arm, y, z)) cells) (length cells)
        (λ y. length-map (λ z. (arm, y, z)) cells) reps r c within rep (arm, rep, cell) q
        (get_elem?-map (λ z. (arm, rep, z)) cells c cell s) refl in
    let at = a * (length reps * length cells) + within in
    (
      length-map make (product arms reps cells)
          ∙ length-flat_map (with_each reps cells) (length reps * length cells) size arms,
      get_elem?-map make (product arms reps cells) at (arm, rep, cell)
          (get_elem?-flat_map (with_each reps cells) (length reps * length cells) size arms a within
            at arm (arm, rep, cell) p inner refl),
    )
