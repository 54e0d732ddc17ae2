-- ===== src/Multi/Weights.antt =====
-- The split of src/run_farm/multi.py by weights, the largest remainders taking what the division leaves over.
--
-- Weights are whole numbers, negative ones included, and a share is their exact quotient; the rounding of the
-- program is left out.
use run_farm.Prelude.{
  ℕ, zero, suc, ◌+◌, ◌-◌, ◌*◌, ◌/◌, ◌%◌, not, ◌||◌, Bool, true, false, Option, none, some, List, [],
  ◌∷◌, map, length, take, drop, any, nat_beq, leb, if◌then◌else◌,
}
use run_farm.Config.{Config}
use run_farm.Multi.{Executor, split_configs}

-- A weight: `pos n` is n, and `negsuc n` is -(n + 1).
pub data ℤ : Type 0 where
  pos negsuc : ℕ → ℤ

-- w < 0
abbrev pub negative : ℤ → Bool
negative (pos n) = false
negative (negsuc n) = true

abbrev pub magnitude : ℤ → ℕ
magnitude (pos n) = n
magnitude (negsuc n) = suc n

abbrev pub magnitudes : List ℤ → List ℕ
magnitudes = map magnitude

unfoldable pub sum : List ℕ → ℕ
sum [] = 0
sum (n ∷ ns) = n + sum ns

-- The index of each remainder, with the remainder.
unfoldable pub enumerate : ℕ → List ℕ → List (ℕ × ℕ)
enumerate i [] = []
enumerate i (r ∷ rs) = (i, r) ∷ enumerate (i + 1) rs

-- `sorted` by the remainder with `reverse=True`, which keeps the order of equal ones.
unfoldable pub insert_by : ℕ × ℕ → List (ℕ × ℕ) → List (ℕ × ℕ)
insert_by e [] = e ∷ []
insert_by e (f ∷ fs) = let rest = f ∷ insert_by e fs in if leb f.1 e.1 then e ∷ f ∷ fs else rest

unfoldable pub ranked : List (ℕ × ℕ) → List (ℕ × ℕ)
unfolding insert_by
ranked [] = []
ranked (e ∷ es) = insert_by e (ranked es)

-- counts[i] += 1
unfoldable pub bump : ℕ → List ℕ → List ℕ
bump i [] = []
bump zero (n ∷ ns) = suc n ∷ ns
bump (suc i) (n ∷ ns) = n ∷ bump i ns

unfoldable pub bump_all : List (ℕ × ℕ) → List ℕ → List ℕ
bump_all [] ns = ns
bump_all (e ∷ es) ns = bump_all es (bump e.0 ns)

unfoldable pub shares : ℕ → ℕ → List ℕ → List ℕ
shares total m ws = map (λ w. w * m / total) ws

unfoldable pub remainders : ℕ → ℕ → List ℕ → List ℕ
remainders total m ws = map (λ w. w * m % total) ws

-- `counts`, for `m` configs.
unfoldable pub counts : ℕ → List ℕ → List ℕ
unfolding sum shares remainders ranked enumerate bump_all
counts m ws =
    let floors = shares (sum ws) m ws in
    bump_all (take (m - sum floors) (ranked (enumerate 0 (remainders (sum ws) m ws)))) floors

-- configs[pos:pos + n], one after the other.
unfoldable pub slices : List ℕ → List Config → List (List Config)
slices [] cs = []
slices (n ∷ ns) cs = take n cs ∷ slices ns (drop n cs)

-- `none` is the ValueError of weights that are not one for each executor, or of which one is negative, or that have
-- no positive sum. The sum decides only where no weight is negative, and is then that of the magnitudes.
abbrev pub weighted : List Config → List Executor → List ℤ → Option (List (List Config))
weighted configs [] ws = none
weighted configs (ex ∷ exs) ws =
    if not (nat_beq (length ws) (length (ex ∷ exs)))
      || (any negative ws || nat_beq (sum (magnitudes ws)) 0)
    then none
    else some (slices (counts (length configs) (magnitudes ws)) configs)

-- `split_configs`, with weights or without.
unfoldable pub split : List Config → List Executor → Option (List ℤ) → Option (List (List Config))
split configs exs none = split_configs configs exs
split configs exs (some ws) = weighted configs exs ws
