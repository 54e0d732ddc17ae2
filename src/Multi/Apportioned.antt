-- ===== src/Multi/Apportioned.antt =====
-- The split of src/run_farm/multi.py by weights gives away each config once.
use native.Mathlib.Nat.{mod-lt, div-add-mod', le_of_mul-le-mul_left}
use run_farm.Prelude.{
  ℕ, zero, suc, ◌+◌, ◌-◌, ◌*◌, ◌/◌, ◌%◌, ◌<◌, ◌≤◌, ◌≡◌, ◌≢◌, ◌⊎◌, inl, inr, refl, ◌∙◌, ap, Bool,
  true, false, not, ◌||◌, Option, none, some, List, [], ◌∷◌, map, length, take, drop, count_if, All,
  any, ◌↔◌, nat_beq, nat_beq_iff, leb, Bool-cases, if_ind, arith,
}
use run_farm.Config.{Config}
use run_farm.Multi.{Executor, split_configs}
use run_farm.Multi.Split.{in_buckets, IsSplit, split_configs-IsSplit}
use run_farm.Multi.Weights.{
  ℤ, pos, negsuc, negative, magnitudes, sum, enumerate, insert_by, ranked, bump, bump_all, shares,
  remainders, counts, slices, weighted, split,
}

-- The shares and the remainders make up the whole.
shares_lem :
    (t m : ℕ) (ws : List ℕ)
    → 0 < t
    → (sum (shares t m ws) * t + sum (remainders t m ws) ≡ sum ws * m)
      × (sum (remainders t m ws) + length ws ≤ length ws * t)
unfolding sum shares remainders
shares_lem t m [] positive = (omega arith, omega arith)
shares_lem t m (w ∷ ws) positive =
    let (whole, small) = shares_lem t m ws positive in
    (omega (arith, whole, div-add-mod' (w * m) t), omega (arith, small, mod-lt (w * m) positive))

-- What the shares leave over is less than one for each executor.
left_over : (t m f r n : ℕ) → 0 < t → f * t + r ≡ t * m → r + n ≤ n * t → (f ≤ m) × (m - f ≤ n)
left_over t m f r n positive h k =
    let low = le_of_mul-le-mul_left {m = f} {n = m} {k = t} (omega (arith, h)) positive in
    let high = le_of_mul-le-mul_left {m = m} {n = f + n} {k = t} (omega (arith, h, k)) positive in
    (low, omega (arith, high))

abbrev Below : ℕ → ℕ × ℕ → Type 0
Below n e = e.0 < n

enumerate-Below :
    (i n : ℕ) (rs : List ℕ)
    → i + length rs ≤ n
    → All (Below n) (enumerate i rs) × (length (enumerate i rs) ≡ length rs)
unfolding enumerate
enumerate-Below i n [] h = (tt, refl)
enumerate-Below i n (r ∷ rs) h =
    let (below, len) = enumerate-Below (i + 1) n rs (omega (arith, h)) in
    ((omega (arith, h), below), ap suc len)

insert_by-All :
    (n : ℕ) (e : ℕ × ℕ) (fs : List (ℕ × ℕ))
    → Below n e
    → All (Below n) fs
    → All (Below n) (insert_by e fs) × (length (insert_by e fs) ≡ suc (length fs))
unfolding insert_by
insert_by-All n e [] b h = ((b, tt), refl)
insert_by-All n e (f ∷ fs) b h =
    let (below, len) = insert_by-All n e fs b h.1 in
    if_ind (λ (gs : List (ℕ × ℕ)). All (Below n) gs × (length gs ≡ suc (length (f ∷ fs))))
      (leb f.1 e.1) (λ _. ((b, h), refl)) (λ _. ((h.0, below), ap suc len))

ranked-All :
    (n : ℕ) (es : List (ℕ × ℕ))
    → All (Below n) es
    → All (Below n) (ranked es) × (length (ranked es) ≡ length es)
unfolding ranked
ranked-All n [] h = (tt, refl)
ranked-All n (e ∷ es) h =
    let (below, len) = ranked-All n es h.1 in
    let (below', len') = insert_by-All n e (ranked es) h.0 below in (below', len' ∙ ap suc len)

take-All :
    (n k : ℕ) (es : List (ℕ × ℕ))
    → All (Below n) es
    → k ≤ length es
    → All (Below n) (take k es) × (length (take k es) ≡ k)
take-All n zero es h l = (tt, refl)
take-All n (suc k) [] h l = absurd (omega (arith, l))
take-All n (suc k) (e ∷ es) h l =
    let (below, len) = take-All n k es h.1 (omega (arith, l)) in ((h.0, below), ap suc len)

sum-bump :
    (i : ℕ) (ns : List ℕ)
    → i < length ns
    → (sum (bump i ns) ≡ suc (sum ns)) × (length (bump i ns) ≡ length ns)
unfolding bump sum
sum-bump i [] h = absurd (omega (arith, h))
sum-bump zero (n ∷ ns) h = (omega arith, refl)
sum-bump (suc i) (n ∷ ns) h =
    let (more, len) = sum-bump i ns (omega (arith, h)) in (omega (arith, more), ap suc len)

sum-bump_all :
    (es : List (ℕ × ℕ)) (ns : List ℕ)
    → All (Below (length ns)) es
    → (sum (bump_all es ns) ≡ sum ns + length es) × (length (bump_all es ns) ≡ length ns)
unfolding bump_all
sum-bump_all [] ns h = (omega arith, refl)
sum-bump_all (e ∷ es) ns h =
    let (more, len) = sum-bump e.0 ns h.0 in
    let (rest, len') = sum-bump_all es (bump e.0 ns) (rw len h.1) in
    (omega (arith, more, rest), len' ∙ len)

length-map : (f : ℕ → ℕ) (ns : List ℕ) → length (map f ns) ≡ length ns
length-map f [] = refl
length-map f (n ∷ ns) = ap suc (length-map f ns)

-- The counts are one for each weight, and make up the configs.
sum-counts :
    (m : ℕ) (ws : List ℕ)
    → 0 < sum ws
    → (sum (counts m ws) ≡ m) × (length (counts m ws) ≡ length ws)
unfolding counts shares remainders
sum-counts m ws positive =
    let t = sum ws in
    let floors = shares t m ws in
    let rest = remainders t m ws in
    let n = length ws in
    let (whole, small) = shares_lem t m ws positive in
    let (low, high) = left_over t m (sum floors) (sum rest) n positive whole small in
    let len = length-map (λ w. w * m / t) ws in
    let (below, long) = enumerate-Below 0 n rest (omega (arith, length-map (λ w. w * m % t) ws)) in
    let (below', long') = ranked-All n (enumerate 0 rest) below in
    let (top, k) =
      take-All n (m - sum floors) (ranked (enumerate 0 rest)) below'
        (omega (arith, high, long', long, length-map (λ w. w * m % t) ws)) in
    let (made, len') =
      sum-bump_all (take (m - sum floors) (ranked (enumerate 0 rest))) floors (rw len top) in
    (omega (arith, made, k, low), len' ∙ len)

count_if-take :
    (p : Config → Bool) (n : ℕ) (cs : List Config)
    → n ≤ length cs
    → (count_if p (take n cs) + count_if p (drop n cs) ≡ count_if p cs)
      × (length (drop n cs) + n ≡ length cs)
count_if-take p zero cs h = (omega arith, omega arith)
count_if-take p (suc n) [] h = absurd (omega (arith, h))
count_if-take p (suc n) (c ∷ cs) h =
    let (count, len) = count_if-take p n cs (omega (arith, h)) in
    (omega (arith, count), omega (arith, len))

in_buckets-slices :
    (p : Config → Bool) (ns : List ℕ) (cs : List Config)
    → sum ns ≡ length cs
    → in_buckets p (slices ns cs) ≡ count_if p cs
unfolding sum slices in_buckets
in_buckets-slices p [] [] h = refl
in_buckets-slices p [] (c ∷ cs) h = absurd (omega (arith, h))
in_buckets-slices p (n ∷ ns) cs h =
    let (count, len) = count_if-take p n cs (omega (arith, h)) in
    omega (arith, count, in_buckets-slices p ns (drop n cs) (omega (arith, h, len)))

length-slices : (ns : List ℕ) (cs : List Config) → length (slices ns cs) ≡ length ns
unfolding slices
length-slices [] cs = refl
length-slices (n ∷ ns) cs = ap suc (length-slices ns (drop n cs))

-- One of the weights is below zero.
abbrev pub SomeNegative : List ℤ → Type 0
SomeNegative [] = ⊥
SomeNegative (pos n ∷ ws) = SomeNegative ws
SomeNegative (negsuc n ∷ ws) = Unit {0}

-- What is refused: no executors, or weights that are not one for each, or one of them negative, or all of them zero.
abbrev pub Refused : List Executor → Option (List ℤ) → Type 0
Refused exs none = exs ≡ []
Refused exs (some ws) =
    (exs ≡ []) ⊎ ((length ws ≢ length exs) ⊎ (SomeNegative ws ⊎ (sum (magnitudes ws) ≡ 0)))

-- What a split answers, with weights or without.
abbrev pub Splits :
    List Config → List Executor → Option (List ℤ) → Option (List (List Config)) → Type 0
Splits configs exs ws none = Refused exs ws
Splits configs exs ws (some buckets) =
    (Refused exs ws → ⊥)
    × (length buckets ≡ length exs)
    × ((p : Config → Bool) → in_buckets p buckets ≡ count_if p configs)

negative_iff : (ws : List ℤ) → (any negative ws ≡ true) ↔ SomeNegative ws
negative_iff [] = (λ e. cc, λ h. absurd h)
negative_iff (pos n ∷ ws) = negative_iff ws
negative_iff (negsuc n ∷ ws) = (λ e. tt, λ h. refl)

length-magnitudes : (ws : List ℤ) → length (magnitudes ws) ≡ length ws
length-magnitudes [] = refl
length-magnitudes (w ∷ ws) = ap suc (length-magnitudes ws)

bad_weights :
    (a b t : ℕ) (m : Bool)
    → (not (nat_beq a b) || (m || nat_beq t 0)) ≡ true
    → (a ≢ b) ⊎ ((m ≡ true) ⊎ (t ≡ 0))
bad_weights a b t true h = inr (inl refl)
bad_weights a b t false h = elim (Bool-cases (nat_beq t 0)) [
  | inl none_left ↦ inr (inr ((nat_beq_iff t 0).0 none_left))
  | inr some_left ↦ inl (λ e. ground (arith, h, some_left, e))
]

good_weights :
    (a b t : ℕ) (m : Bool)
    → (not (nat_beq a b) || (m || nat_beq t 0)) ≡ false
    → (a ≡ b) × (m ≡ false) × (0 < t)
good_weights a b t m h = ground (arith, h)

weighted-Refused :
    (ex : Executor) (exs : List Executor) (ws : List ℤ)
    → (length ws ≢ length (ex ∷ exs)) ⊎ ((any negative ws ≡ true) ⊎ (sum (magnitudes ws) ≡ 0))
    → Refused (ex ∷ exs) (some ws)
weighted-Refused ex exs ws (inl long) = inr (inl long)
weighted-Refused ex exs ws (inr (inl below)) = inr (inr (inl ((negative_iff ws).0 below)))
weighted-Refused ex exs ws (inr (inr zero_sum)) = inr (inr (inr zero_sum))

accepted_weights :
    (ex : Executor) (exs : List Executor) (ws : List ℤ)
    → length ws ≡ length (ex ∷ exs)
    → any negative ws ≡ false
    → 0 < sum (magnitudes ws)
    → Refused (ex ∷ exs) (some ws)
    → ⊥
accepted_weights ex exs ws same above some_weight (inl e) = cc
accepted_weights ex exs ws same above some_weight (inr (inl long)) = long same
accepted_weights ex exs ws same above some_weight (inr (inr (inl below))) =
    let e = (negative_iff ws).1 below in ground (arith, e, above)
accepted_weights ex exs ws same above some_weight (inr (inr (inr z))) =
    omega (arith, z, some_weight)

weighted-Splits :
    (configs : List Config) (exs : List Executor) (ws : List ℤ)
    → Splits configs exs (some ws) (weighted configs exs ws)
weighted-Splits configs [] ws = inl refl
weighted-Splits configs (ex ∷ exs) ws =
    let ms = magnitudes ws in
    if_ind (λ o. Splits configs (ex ∷ exs) (some ws) o)
      (not (nat_beq (length ws) (length (ex ∷ exs))) || (any negative ws || nat_beq (sum ms) 0))
      (λ bad.
        weighted-Refused ex exs ws
          (bad_weights (length ws) (length (ex ∷ exs)) (sum ms) (any negative ws) bad))
      (λ good.
        let (same, above, some_weight) =
          good_weights (length ws) (length (ex ∷ exs)) (sum ms) (any negative ws) good in
        let (made, len) = sum-counts (length configs) ms some_weight in
        (
          accepted_weights ex exs ws same above some_weight,
          length-slices (counts (length configs) ms) configs ∙ len ∙ length-magnitudes ws ∙ same,
          λ p. in_buckets-slices p (counts (length configs) ms) configs made,
        ))

unweighted-Splits :
    (configs : List Config) (exs : List Executor) (o : Option (List (List Config)))
    → split_configs configs exs ≡ o
    → IsSplit configs exs o
    → Splits configs exs none o
unfolding split_configs
unweighted-Splits configs exs none e h = h
unweighted-Splits configs [] (some buckets) e h = cc
unweighted-Splits configs (ex ∷ exs) (some buckets) e h = (λ none_there. cc, h.0, h.1)

-- A split is refused exactly without executors, or with weights that are not one for each executor, or of which one
-- is negative, or which are all zero. Any other has a bucket for each executor, and of whatever kind of config there
-- are as many in the buckets together as there were, by round robin and by the largest remainders alike: none is
-- lost, and none is given to two.
pub split-Splits :
    (configs : List Config) (exs : List Executor) (weights : Option (List ℤ))
    → Splits configs exs weights (split configs exs weights)
unfolding split
split-Splits configs exs none =
    unweighted-Splits configs exs (split_configs configs exs) refl
      (split_configs-IsSplit configs exs)
split-Splits configs exs (some ws) = weighted-Splits configs exs ws
