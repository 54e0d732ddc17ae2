-- ===== src/CutFlow/Rows.antt =====
-- One row of the cut-flow of src/run_farm/farm.py against the reasons recorded for its leg.
use run_farm.Prelude.{
  ℕ, zero, suc, ◌≡◌, refl, String, Bool, true, false, ◌||◌, none, some, List, [], ◌∷◌, length,
  replicate, ◌==◌, beq_refl, string_eq, if◌then◌else◌, arith,
}
use run_farm.CutFlow.{Row, row_fail, row_ok, force, unforce}

abbrev pub Absent : String → List String → Type 0
Absent s [] = Unit
Absent s (t ∷ ts) = ((s == t) ≡ false) × Absent s ts

abbrev pub Distinct : List String → Type 0
Distinct [] = Unit
Distinct (s ∷ ss) = Absent s ss × Distinct ss

-- `dropped s` says that a reason is recorded at the stage `s`, `seen` that one is recorded at an
-- earlier stage. A cell is a drop only under such a reason, and each reason shows as a drop.
abbrev pub Explained : (String → Bool) → Bool → List String → Row → Type 0
Explained dropped seen [] [] = Unit
Explained dropped seen [] (c ∷ cs) = ⊥
Explained dropped seen (s ∷ ss) [] = ⊥
Explained dropped seen (s ∷ ss) (c ∷ cs) =
    (c ≡ some false → (seen || dropped s) ≡ true)
    × (dropped s ≡ true → c ≡ some false)
    × Explained dropped (seen || dropped s) ss cs

-- `d'` is `d` but at the stage `stage`.
abbrev pub Updates : String → Bool → (String → Bool) → (String → Bool) → Type 0
Updates stage b d d' = (s : String) → d' s ≡ (if stage == s then b else d s)

pub Explained-replicate :
    (d : String → Bool) (ss : List String)
    → ((s : String) → d s ≡ false)
    → Explained d false ss (replicate (length ss) none)
Explained-replicate d [] h = tt
Explained-replicate d (s ∷ ss) h = ground (arith, h s, Explained-replicate d ss h)

-- Cells that were forced are explained by any earlier drop.
Explained-force :
    (d d' : String → Bool) (seen : Bool) (ss : List String) (cs : Row)
    → Explained d seen ss cs
    → Explained d' true ss (force cs)
Explained-force d d' seen [] [] h = tt
Explained-force d d' seen [] (c ∷ cs) h = absurd h
Explained-force d d' seen (s ∷ ss) [] h = absurd h
Explained-force d d' seen (s ∷ ss) (c ∷ cs) h =
    (λ _. refl, λ _. refl, Explained-force d d' (seen || d s) ss cs h.2)

module _ (stage : String) (b : Bool) (d d' : String → Bool) (u : Updates stage b d d') where
  -- A change at a stage that is not among `ss`.
  Explained-agree :
      (seen : Bool) (ss : List String) (cs : Row)
      → Absent stage ss
      → Explained d seen ss cs
      → Explained d' seen ss cs
  Explained-agree seen [] [] a h = tt
  Explained-agree seen [] (c ∷ cs) a h = h
  Explained-agree seen (s ∷ ss) [] a h = h
  Explained-agree seen (s ∷ ss) (c ∷ cs) a h =
      ground (arith, u s, Explained-agree (seen || d s) ss cs a.1 h.2)

  -- The cells behind a mark `ok`, whatever was seen before.
  Explained-unforce :
      (seen seen' : Bool) (ss : List String) (cs : Row)
      → Absent stage ss
      → Explained d seen ss cs
      → Explained d' seen' ss (unforce d' ss cs)
  unfolding unforce
  Explained-unforce seen seen' [] [] a h = tt
  Explained-unforce seen seen' [] (c ∷ cs) a h = h
  Explained-unforce seen seen' (s ∷ ss) [] a h = h
  Explained-unforce seen seen' (s ∷ ss) (c ∷ cs) a h = ground (
    arith,
    u s,
    Explained-unforce (seen || d s) (seen' || d' s) ss cs a.1 h.2,
    Explained-agree (seen || d s) ss cs a.1 h.2,
  )

abbrev pub At : List String → ℕ → String → Type 0
At [] i stage = ⊥
At (s ∷ ss) zero stage = s ≡ stage
At (s ∷ ss) (suc i) stage = At ss i stage × ((stage == s) ≡ false)

pub Explained-row_fail :
    (stage : String) (d d' : String → Bool)
    → Updates stage true d d'
    → (seen : Bool) (ss : List String) (i : ℕ) (cs : Row) → Distinct ss
    → At ss i stage
    → Explained d seen ss cs
    → Explained d' seen ss (row_fail i cs)
unfolding row_fail
Explained-row_fail stage d d' u seen [] i cs n a h = absurd a
Explained-row_fail stage d d' u seen (s ∷ ss) zero [] n a h = h
Explained-row_fail stage d d' u seen (s ∷ ss) (suc i) [] n a h = h
Explained-row_fail stage d d' u seen (s ∷ ss) zero (c ∷ cs) n a h =
    ground (arith, u s, beq_refl stage, Explained-force d d' (seen || d s) ss cs h.2)
Explained-row_fail stage d d' u seen (s ∷ ss) (suc i) (c ∷ cs) n a h =
    ground (arith, u s, Explained-row_fail stage d d' u (seen || d s) ss i cs n.1 a.0 h.2)

pub Explained-row_ok :
    (stage : String) (d d' : String → Bool)
    → Updates stage false d d'
    → (seen : Bool) (ss : List String) (i : ℕ) (cs : Row) → Distinct ss
    → At ss i stage
    → Explained d seen ss cs
    → Explained d' seen ss (row_ok d' i ss cs)
unfolding row_ok
Explained-row_ok stage d d' u seen [] i cs n a h = absurd a
Explained-row_ok stage d d' u seen (s ∷ ss) i [] n a h = absurd h
Explained-row_ok stage d d' u seen (s ∷ ss) zero (c ∷ cs) n a h = ground (
  arith,
  u s,
  beq_refl stage,
  λ (b : Absent stage ss).
      Explained-unforce stage false d d' u (seen || d s) (seen || d' s) ss cs b h.2,
)
Explained-row_ok stage d d' u seen (s ∷ ss) (suc i) (c ∷ cs) n a h =
    ground (arith, u s, Explained-row_ok stage d d' u (seen || d s) ss i cs n.1 a.0 h.2)
