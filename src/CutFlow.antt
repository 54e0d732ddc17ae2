-- ===== src/CutFlow.antt =====
-- src/run_farm/farm.py, class CutFlow: the per-leg accounting of a campaign.
pub mod Rows
pub mod Inv
pub mod Audit
use run_farm.Prelude.{
  ℕ, zero, suc, ◌+◌, String, Bool, true, false, not, ◌&&◌, Option, none, some, List, [], ◌∷◌, map,
  length, replicate, count_if, get_elem?, Dict, lookup, insert, erase, has, is_some, ◌==◌, keep_if,
  if◌then◌else◌, string_eq, pair_eq,
}

-- One cell of a row: not reached yet, survived, dropped.
abbrev pub Cell : Type 0
Cell = Option Bool

abbrev pub Row : Type 0
Row = List Cell

-- `stages`, `rows` and `reasons`; `_idx` is computed from `stages`.
pub record CutFlow : Type 0 where
  pub stages : List String
  pub rows : Dict String Row
  pub reasons : Dict (String × String) String

abbrev pub new : List String → CutFlow
new stages = record { stages = stages; rows = []; reasons = [] }

-- `self._idx[stage]`: a stage named twice has the index of its last occurrence.
unfoldable pub stage_index : List String → String → Option ℕ
stage_index [] s = none
stage_index (t ∷ ts) s = elim (stage_index ts s) [
  | some i ↦ some (suc i)
  | none ↦ if t == s then some 0 else none
]

-- The reasons of the other legs.
unfoldable pub drop_leg : String → Dict (String × String) String → Dict (String × String) String
drop_leg leg [] = []
drop_leg leg (((l, s), r) ∷ d) = if l == leg then drop_leg leg d else ((l, s), r) ∷ drop_leg leg d

unfoldable pub enter : CutFlow → String → CutFlow
enter cf leg = record cf {
  rows = insert leg (replicate (length cf.stages) none) cf.rows;
  reasons = drop_leg leg cf.reasons;
}

-- The cells from the dropped stage on.
abbrev pub force : Row → Row
force [] = []
force (c ∷ cs) = some false ∷ force cs

unfoldable pub row_fail : ℕ → Row → Row
row_fail i [] = []
row_fail zero (c ∷ cs) = some false ∷ force cs
row_fail (suc i) (c ∷ cs) = c ∷ row_fail i cs

abbrev pub unknown : Cell → Cell
unknown (some false) = none
unknown c = c

-- The walk forward after a mark `ok`, up to the first stage with a drop of its own.
unfoldable pub unforce : (String → Bool) → List String → Row → Row
unforce dropped [] cs = cs
unforce dropped (s ∷ ss) [] = []
unforce dropped (s ∷ ss) (c ∷ cs) = if dropped s then c ∷ cs else unknown c ∷ unforce dropped ss cs

unfoldable pub row_ok : (String → Bool) → ℕ → List String → Row → Row
unfolding unforce
row_ok dropped i [] cs = cs
row_ok dropped i (s ∷ ss) [] = []
row_ok dropped zero (s ∷ ss) (c ∷ cs) = some true ∷ unforce dropped ss cs
row_ok dropped (suc i) (s ∷ ss) (c ∷ cs) = c ∷ row_ok dropped i ss cs

-- `reason or "unspecified"`
abbrev pub or_unspecified : String → String
or_unspecified r = if r == "" then "unspecified" else r

-- The row of a leg; `mark` has entered it before it is read.
abbrev pub row_of : CutFlow → String → Row
row_of cf leg = elim (lookup leg cf.rows) [ none ↦ [] | some r ↦ r ]

unfoldable pub ensure : CutFlow → String → CutFlow
unfolding enter
ensure cf leg = if has leg cf.rows then cf else enter cf leg

unfoldable pub mark_at : CutFlow → String → String → ℕ → Bool → String → CutFlow
unfolding row_fail row_ok
mark_at cf leg stage i false reason = record cf {
  rows = insert leg (row_fail i (row_of cf leg)) cf.rows;
  reasons = insert (leg, stage) (or_unspecified reason) cf.reasons;
}
mark_at cf leg stage i true reason =
    let reasons = erase (leg, stage) cf.reasons in
    record cf {
      rows = insert leg (row_ok (λ s. has (leg, s) reasons) i cf.stages (row_of cf leg)) cf.rows;
      reasons = reasons;
    }

-- `false` beside the state is the KeyError of an unknown stage, raised after the leg was entered.
unfoldable pub mark : CutFlow → String → String → Bool → String → Bool × CutFlow
unfolding ensure stage_index mark_at
mark cf leg stage ok reason =
    let cf' = ensure cf leg in
    elim (stage_index cf.stages stage) [
      | none ↦ (false, cf')
      | some i ↦ (true, mark_at cf' leg stage i ok reason)
    ]

-- `sum(1 for r in self.rows.values() if r[i])`
abbrev pub survived : ℕ → Row → Bool
survived i r = elim (get_elem? r i) [ some (some true) ↦ true | _ ↦ false ]

unfoldable pub survivors : CutFlow → ℕ → ℕ
survivors cf i = count_if (λ (kr : String × Row). survived i kr.1) cf.rows
