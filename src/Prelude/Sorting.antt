-- ===== src/Prelude/Sorting.antt =====
-- `sorted` on texts: a stable insertion sort.
use Prim.Native.String.{String, compare}
use mathlib.Core.Path.{◌≡◌, refl, ap, ◌∙◌}
use mathlib.Core.Bool.{Bool, true, ◌||◌, ◌&&◌}
use mathlib.Core.List.{List, [], ◌∷◌, ◌++◌}
use native.Mathlib.Omega.{arith}
use text.Mathlib.Text.{is_le, is_lt}
use run_farm.Prelude.Lists.{any, all}
use run_farm.Prelude.Tests.{if◌then◌else◌}

insert_sorted : String → List String → List String
insert_sorted s [] = s ∷ []
insert_sorted s (t ∷ ts) =
    let rest = t ∷ insert_sorted s ts in if is_le (compare s t) then s ∷ t ∷ ts else rest

-- sorted(ss)
unfoldable pub sorted : List String → List String
unfolding insert_sorted
sorted [] = []
sorted (s ∷ ss) = insert_sorted s (sorted ss)

any-insert_sorted :
    (p : String → Bool) (s : String) (ts : List String)
    → any p (insert_sorted s ts) ≡ (p s || any p ts)
unfolding insert_sorted
any-insert_sorted p s [] = refl
any-insert_sorted p s (t ∷ ts) = ground (arith, any-insert_sorted p s ts)

-- Sorting keeps the members.
pub any-sorted : (p : String → Bool) (ss : List String) → any p (sorted ss) ≡ any p ss
unfolding sorted
any-sorted p [] = refl
any-sorted p (s ∷ ss) = any-insert_sorted p s (sorted ss) ∙ ap (λ b. p s || b) (any-sorted p ss)

all-insert_sorted :
    (p : String → Bool) (s : String) (ts : List String)
    → all p (insert_sorted s ts) ≡ (p s && all p ts)
unfolding insert_sorted
all-insert_sorted p s [] = refl
all-insert_sorted p s (t ∷ ts) = ground (arith, all-insert_sorted p s ts)

pub all-sorted : (p : String → Bool) (ss : List String) → all p (sorted ss) ≡ all p ss
unfolding sorted
all-sorted p [] = refl
all-sorted p (s ∷ ss) = all-insert_sorted p s (sorted ss) ∙ ap (λ b. p s && b) (all-sorted p ss)

insert_sorted-append :
    (s k : String) (ts : List String)
    → is_le (compare s k) ≡ true
    → insert_sorted s (ts ++ k ∷ []) ≡ insert_sorted s ts ++ k ∷ []
unfolding insert_sorted
insert_sorted-append s k [] h = ground arith
insert_sorted-append s k (t ∷ ts) h = ground (arith, insert_sorted-append s k ts h)

-- What is later than all the rest stays last.
pub sorted-append :
    (k : String) (ss : List String)
    → all (λ s. is_lt (compare s k)) ss ≡ true
    → sorted (ss ++ k ∷ []) ≡ sorted ss ++ k ∷ []
unfolding sorted insert_sorted
sorted-append k [] h = refl
sorted-append k (s ∷ ss) h =
    ap (insert_sorted s) (sorted-append k ss (ground arith))
    ∙ insert_sorted-append s k (sorted ss) (ground arith)
