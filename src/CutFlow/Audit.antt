-- ===== src/CutFlow/Audit.antt =====
-- What the cut-flow of src/run_farm/farm.py tells after any sequence of `enter` and `mark`.
use run_farm.Prelude.{
  ℕ, zero, suc, ◌≤◌, ◌≡◌, refl, ◌∙◌, String, Bool, true, false, ◌||◌, Option, none, some, List, [],
  ◌∷◌, length, replicate, get_elem?, beq_refl, string_eq, pair_eq, arith, lookup, has, has-insert,
  inl, inr, Bool-cases,
}
use run_farm.CutFlow.{CutFlow, new, Row, stage_index, enter, ensure, mark, row_of}
use run_farm.CutFlow.Rows.{Distinct, Explained}
use run_farm.CutFlow.Inv.{
  IsSound, dropped, enter-IsSound, mark_at-IsSound, At-of_index, lookup-row_of,
}

-- A call on a cut-flow.
pub data Op : Type 0 where
  entering : String → Op
  marking : String → String → Bool → String → Op

abbrev pub apply : CutFlow → Op → CutFlow
apply cf (entering leg) = enter cf leg
apply cf (marking leg stage ok reason) = (mark cf leg stage ok reason).1

abbrev pub replay : CutFlow → List Op → CutFlow
replay cf [] = cf
replay cf (op ∷ ops) = replay (apply cf op) ops

pub ensure-IsSound : (cf : CutFlow) (leg : String) → IsSound cf → IsSound (ensure cf leg)
unfolding ensure
ensure-IsSound cf leg v = elim (Bool-cases (has leg cf.rows)) [
  | inl old ↦ rw old v
  | inr new ↦ rw new (enter-IsSound cf leg v)
]

has-ensure : (cf : CutFlow) (leg : String) → has leg (ensure cf leg).rows ≡ true
unfolding ensure
has-ensure cf leg =
    ground (arith, has-insert leg leg (replicate (length cf.stages) none) cf.rows, beq_refl leg)

stages-ensure : (cf : CutFlow) (leg : String) → (ensure cf leg).stages ≡ cf.stages
unfolding ensure
stages-ensure cf leg = ground arith

pub mark-IsSound :
    (cf : CutFlow) (leg stage : String) (ok : Bool) (reason : String)
    → IsSound cf
    → IsSound (mark cf leg stage ok reason).1
unfolding mark
mark-IsSound cf leg stage ok reason v = at (stage_index cf.stages stage) refl
  where
    cf' : CutFlow
    cf' = ensure cf leg

    at :
        (found : Option ℕ)
        → stage_index cf.stages stage ≡ found
        → IsSound (mark cf leg stage ok reason).1
    at none e = rw (e, mark) (ensure-IsSound cf leg v)
    at (some i) e =
        rw (e, mark)
          (mark_at-IsSound cf' leg stage i ok reason (has-ensure cf leg)
            (At-of_index _ stage i (ensure-IsSound cf leg v).distinct (rw stages-ensure e))
            (ensure-IsSound cf leg v))

IsSound-new : (stages : List String) → Distinct stages → IsSound (new stages)
unfolding has lookup
IsSound-new stages n = record { distinct = n; explained = λ l r e. cc; entered = λ l s e. cc }

replay-IsSound : (cf : CutFlow) (ops : List Op) → IsSound cf → IsSound (replay cf ops)
replay-IsSound cf [] v = v
replay-IsSound cf (entering leg ∷ ops) v =
    replay-IsSound (enter cf leg) ops (enter-IsSound cf leg v)
replay-IsSound cf (marking leg stage ok reason ∷ ops) v =
    replay-IsSound (mark cf leg stage ok reason).1 ops (mark-IsSound cf leg stage ok reason v)

-- A recorded drop of `leg` at the stage with the index `j` or at one before it.
abbrev pub DropBefore : CutFlow → String → List String → ℕ → Type 0
DropBefore cf leg stages j =
    (i : ℕ) × (s : String) × (r : String) × (i ≤ j)
    × (get_elem? stages i ≡ some s)
    × (lookup (leg, s) cf.reasons ≡ some r)

lookup-dropped :
    (cf : CutFlow) (leg s : String)
    → dropped cf leg s ≡ true
    → (r : String) × (lookup (leg, s) cf.reasons ≡ some r)
unfolding has
lookup-dropped cf leg s h = ground arith

Explained-DropBefore :
    (cf : CutFlow) (leg : String) (ss : List String) (row : Row) (j : ℕ)
    → Explained (dropped cf leg) false ss row
    → get_elem? row j ≡ some (some false)
    → DropBefore cf leg ss j
Explained-DropBefore cf leg [] [] j h e = cc
Explained-DropBefore cf leg [] (c ∷ cs) j h e = absurd h
Explained-DropBefore cf leg (s ∷ ss) [] j h e = cc
Explained-DropBefore cf leg (s ∷ ss) (c ∷ cs) zero h e =
    let (r, found) = lookup-dropped cf leg s (ground arith) in (0, s, r, omega arith, refl, found)
Explained-DropBefore cf leg (s ∷ ss) (c ∷ cs) (suc j) h e = elim (Bool-cases (dropped cf leg s)) [
  | inl now ↦ let (r, found) = lookup-dropped cf leg s now in (0, s, r, omega arith, refl, found)
  | inr later ↦
      let (i, t, r, le, at, found) = Explained-DropBefore cf leg ss cs j (rw later at h.2) e in
      (suc i, t, r, omega arith, at, found)
]

Explained-shows :
    (d : String → Bool) (seen : Bool) (ss : List String) (row : Row) (i : ℕ) (s : String)
    → Explained d seen ss row
    → get_elem? ss i ≡ some s
    → d s ≡ true
    → get_elem? row i ≡ some (some false)
Explained-shows d seen [] row i s h e t = cc
Explained-shows d seen (u ∷ ss) [] i s h e t = absurd h
Explained-shows d seen (u ∷ ss) (c ∷ cs) zero s h e t = ground arith
Explained-shows d seen (u ∷ ss) (c ∷ cs) (suc i) s h e t =
    Explained-shows d (seen || d u) ss cs i s h.2 e t

stages-apply : (cf : CutFlow) (op : Op) → (apply cf op).stages ≡ cf.stages
unfolding enter mark
stages-apply cf (entering leg) = refl
stages-apply cf (marking leg stage true reason) = ground arith
stages-apply cf (marking leg stage false reason) = ground arith

stages-replay : (cf : CutFlow) (ops : List Op) → (replay cf ops).stages ≡ cf.stages
stages-replay cf [] = refl
stages-replay cf (op ∷ ops) = stages-replay (apply cf op) ops ∙ stages-apply cf op

module _ (stages : List String) (ops : List Op) (n : Distinct stages) where
  sound : IsSound (replay (new stages) ops)
  sound = replay-IsSound (new stages) ops (IsSound-new stages n)

  -- For pairwise distinct stages and after any sequence of `enter` and `mark`, a cell of an entered
  -- leg that reads False has a reason recorded for that leg at that stage or at an earlier one.
  pub drop_has_reason :
      (leg : String) (row : Row) (j : ℕ)
      → lookup leg (replay (new stages) ops).rows ≡ some row
      → get_elem? row j ≡ some (some false)
      → DropBefore (replay (new stages) ops) leg stages j
  drop_has_reason leg row j found cell =
      Explained-DropBefore (replay (new stages) ops) leg stages row j
        (rw (stages-replay (new stages) ops) at (sound.explained leg row found)) cell

  -- For pairwise distinct stages and after any sequence of `enter` and `mark`, a reason recorded for
  -- a leg at a stage belongs to an entered leg, whose cell at that stage reads False.
  pub reason_shows :
      (leg s r : String) (i : ℕ)
      → lookup (leg, s) (replay (new stages) ops).reasons ≡ some r
      → get_elem? stages i ≡ some s
      → (row : Row) × (lookup leg (replay (new stages) ops).rows ≡ some row)
        × (get_elem? row i ≡ some (some false))
  unfolding has
  reason_shows leg s r i found at =
      let d : dropped (replay (new stages) ops) leg s ≡ true = ground arith in
      let l = lookup-row_of (replay (new stages) ops) leg (sound.entered leg s d) in
      (
        row_of (replay (new stages) ops) leg,
        l,
        Explained-shows (dropped (replay (new stages) ops) leg) false stages _ i s
            (rw (stages-replay (new stages) ops) at (sound.explained leg _ l)) at d,
      )
