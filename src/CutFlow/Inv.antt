-- ===== src/CutFlow/Inv.antt =====
-- The invariant of a cut-flow (src/run_farm/farm.py) and the operations that keep it.
use mathlib.Core.Path.{subst, fun_ext}
use run_farm.Prelude.{
  ℕ, zero, suc, ◌≡◌, refl, String, Bool, true, false, none, some, List, [], ◌∷◌, ◌==◌, beq_refl,
  string_eq, pair_eq, if◌then◌else◌, arith, Dict, lookup, insert, has, lookup-insert, has-insert,
  has-erase, inl, inr, Bool-cases,
}
use run_farm.CutFlow.{CutFlow, new, Row, stage_index, drop_leg, enter, mark_at, row_of}
use run_farm.CutFlow.Rows.{
  Absent, Distinct, Explained, At, Explained-replicate, Explained-row_fail, Explained-row_ok,
}

-- Whether a drop of `leg` at the stage is recorded.
abbrev pub dropped : CutFlow → String → String → Bool
dropped cf leg s = has (leg, s) cf.reasons

pub record IsSound (cf : CutFlow) : Type 0 where
  pub distinct : Distinct cf.stages
  pub explained :
      (leg : String) (row : Row)
      → lookup leg cf.rows ≡ some row
      → Explained (dropped cf leg) false cf.stages row
  pub entered : (leg s : String) → dropped cf leg s ≡ true → has leg cf.rows ≡ true

pub Explained-ext :
    (d d' : String → Bool) (seen : Bool) (ss : List String) (cs : Row)
    → ((s : String) → d s ≡ d' s)
    → Explained d seen ss cs
    → Explained d' seen ss cs
Explained-ext d d' seen ss cs h = subst (λ f. Explained f seen ss cs) (fun_ext h)

-- A new row for one leg, with reasons that differ at that leg only.
pub IsSound-update :
    (cf : CutFlow) (leg : String) (row : Row) (reasons : Dict (String × String) String)
    → ((l s : String) → (leg == l) ≡ false → has (l, s) cf.reasons ≡ has (l, s) reasons)
    → Explained (λ s. has (leg, s) reasons) false cf.stages row
    → IsSound cf
    → IsSound (record cf { rows = insert leg row cf.rows; reasons = reasons })
IsSound-update cf leg row reasons others new v = record {
  distinct = v.distinct;
  explained = λ l r e. elim (Bool-cases (leg == l)) [
    | inl same ↦
        let l_eq : leg ≡ l = (string_eq.beq_iff leg l).0 same in
        let r_eq : row ≡ r = ground (arith, lookup-insert leg l row cf.rows) in
        rw (← l_eq, ← r_eq) new
    | inr other ↦
        Explained-ext (dropped cf l) _ false cf.stages r (λ s. others l s other)
          (v.explained l r (ground (arith, lookup-insert leg l row cf.rows)))
  ];
  entered = λ l s e. ground (arith, has-insert leg l row cf.rows, others l s, v.entered l s);
}

has-drop_leg :
    (leg l s : String) (d : Dict (String × String) String)
    → has (l, s) (drop_leg leg d) ≡ (if leg == l then false else has (l, s) d)
unfolding has lookup drop_leg
has-drop_leg leg l s [] = ground arith
has-drop_leg leg l s (((l', s'), r) ∷ d) = ground (
  arith,
  string_eq.beq_iff leg l,
  string_eq.beq_iff l' leg,
  string_eq.beq_iff l' l,
  has-drop_leg leg l s d,
)

pub enter-IsSound : (cf : CutFlow) (leg : String) → IsSound cf → IsSound (enter cf leg)
unfolding enter
enter-IsSound cf leg =
    IsSound-update cf leg _ (drop_leg leg cf.reasons)
      (λ l s other. ground (arith, has-drop_leg leg l s cf.reasons))
      (Explained-replicate _ cf.stages
        (λ s. ground (arith, beq_refl leg, has-drop_leg leg leg s cf.reasons)))

stage_index-Absent :
    (ss : List String) (stage : String) → Absent stage ss → stage_index ss stage ≡ none
unfolding stage_index
stage_index-Absent [] stage a = refl
stage_index-Absent (s ∷ ss) stage a =
    ground
      (arith, string_eq.beq_iff s stage, string_eq.beq_iff stage s, stage_index-Absent ss stage a.1)

Absent-of_eq : (s t : String) (ss : List String) → (s == t) ≡ true → Absent s ss → Absent t ss
Absent-of_eq s t ss e = subst (λ x. Absent x ss) ((string_eq.beq_iff s t).0 e)

pub At-of_index :
    (ss : List String) (stage : String) (i : ℕ)
    → Distinct ss
    → stage_index ss stage ≡ some i
    → At ss i stage
unfolding stage_index
At-of_index [] stage i n e = cc
At-of_index (s ∷ ss) stage zero n e = ground (arith, string_eq.beq_iff s stage)
At-of_index (s ∷ ss) stage (suc i) n e = ground (
  arith,
  string_eq.beq_iff s stage,
  string_eq.beq_iff stage s,
  stage_index-Absent ss stage,
  Absent-of_eq s stage ss,
  At-of_index ss stage i n.1,
)

pub lookup-row_of :
    (cf : CutFlow) (leg : String)
    → has leg cf.rows ≡ true
    → lookup leg cf.rows ≡ some (row_of cf leg)
unfolding has
lookup-row_of cf leg h = ground arith

pub mark_at-IsSound :
    (cf : CutFlow) (leg stage : String) (i : ℕ) (ok : Bool) (reason : String)
    → has leg cf.rows ≡ true
    → At cf.stages i stage
    → IsSound cf
    → IsSound (mark_at cf leg stage i ok reason)
unfolding mark_at
mark_at-IsSound cf leg stage i false reason h a v =
    IsSound-update cf leg _ _ (λ l s other. rw has-insert (ground (arith, other)))
      (Explained-row_fail stage (dropped cf leg) _
        (λ s. rw has-insert (ground (arith, beq_refl leg))) false cf.stages i _ v.distinct a
        (v.explained leg _ (lookup-row_of cf leg h)))
      v
mark_at-IsSound cf leg stage i true reason h a v =
    IsSound-update cf leg _ _ (λ l s other. rw has-erase (ground (arith, other)))
      (Explained-row_ok stage (dropped cf leg) _ (λ s. rw has-erase (ground (arith, beq_refl leg)))
        false cf.stages i _ v.distinct a (v.explained leg _ (lookup-row_of cf leg h)))
      v
