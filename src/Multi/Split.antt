-- ===== src/Multi/Split.antt =====
-- What the buckets of the split of src/run_farm/multi.py hold together.
use native.Mathlib.Nat.{mod-lt}
use run_farm.Prelude.{
  ℕ, zero, suc, ◌+◌, ◌%◌, ◌<◌, ◌≡◌, refl, ◌∙◌, ap, Bool, true, Option, none, some, List, [], ◌∷◌,
  ◌++◌, length, length-replicate, replicate, count_if, arith,
}
use run_farm.Config.{Config}
use run_farm.Multi.{Executor, append_at, deal, split_configs}

-- How many configs of the buckets pass a test.
unfoldable pub in_buckets : (Config → Bool) → List (List Config) → ℕ
in_buckets p [] = 0
in_buckets p (b ∷ bs) = count_if p b + in_buckets p bs

count_if-append :
    (p : Config → Bool) (xs ys : List Config)
    → count_if p (xs ++ ys) ≡ count_if p xs + count_if p ys
count_if-append p [] ys = omega arith
count_if-append p (x ∷ xs) ys = omega (arith, count_if-append p xs ys)

append_at_lem :
    (p : Config → Bool) (i : ℕ) (c : Config) (bs : List (List Config))
    → i < length bs
    → (in_buckets p (append_at i c bs) ≡ in_buckets p bs + count_if p (c ∷ []))
      × (length (append_at i c bs) ≡ length bs)
unfolding append_at in_buckets
append_at_lem p i c [] h = absurd (omega (arith, h))
append_at_lem p zero c (b ∷ bs) h = (omega (arith, count_if-append p b (c ∷ [])), refl)
append_at_lem p (suc i) c (b ∷ bs) h =
    let (count, len) = append_at_lem p i c bs (omega (arith, h)) in
    (omega (arith, count), ap suc len)

deal_lem :
    (p : Config → Bool) (n i : ℕ) (cs : List Config) (bs : List (List Config))
    → 0 < n
    → length bs ≡ n
    → (in_buckets p (deal n i cs bs) ≡ in_buckets p bs + count_if p cs)
      × (length (deal n i cs bs) ≡ n)
unfolding deal
deal_lem p n i [] bs pos len = (omega arith, len)
deal_lem p n i (c ∷ cs) bs pos len =
    let (count, len1) = append_at_lem p (i % n) c bs (omega (arith, mod-lt i pos, len)) in
    let (rest, len2) = deal_lem p n (i + 1) cs (append_at (i % n) c bs) pos (len1 ∙ len) in
    (omega (arith, rest, count), len2)

in_buckets-replicate : (p : Config → Bool) (n : ℕ) → in_buckets p (replicate n []) ≡ 0
unfolding in_buckets
in_buckets-replicate p zero = refl
in_buckets-replicate p (suc n) = omega (arith, in_buckets-replicate p n)

-- What a split answers.
abbrev pub IsSplit : List Config → List Executor → Option (List (List Config)) → Type 0
IsSplit configs exs none = exs ≡ []
IsSplit configs exs (some buckets) =
    (length buckets ≡ length exs)
    × ((p : Config → Bool) → in_buckets p buckets ≡ count_if p configs)

-- Without executors the split is refused. With some it has a bucket for each, and of whatever kind of config
-- there are as many in the buckets together as there were: none is lost, and none is given to two.
pub split_configs-IsSplit :
    (configs : List Config) (exs : List Executor) → IsSplit configs exs (split_configs configs exs)
unfolding split_configs
split_configs-IsSplit configs [] = refl
split_configs-IsSplit configs (ex ∷ exs) =
    let n = length (ex ∷ exs) in
    (
      (deal_lem (λ c. true) n 0 configs (replicate n []) (omega arith) (length-replicate n [])).1,
      λ p. omega (
        arith,
        (deal_lem p n 0 configs (replicate n []) (omega arith) (length-replicate n [])).0,
        in_buckets-replicate p n,
      ),
    )
