-- ===== src/Reap/Closing.antt =====
-- The rows that src/run_farm/reap.py writes to close a ledger, and the ids they are about.
use run_farm.Prelude.{
  ℕ, ◌≡◌, refl, ap, String, Bool, false, ◌&&◌, ◌||◌, Option, none, some, List, [], ◌∷◌, ◌++◌, Dict,
  lookup, has, has-nil, has-cons, lookup-insert, any, any-append, ◌==◌, string_eq, if◌then◌else◌,
  arith, inl, inr, Bool-cases,
}
use run_farm.Ledger.{Row, Line, row, garbled, rows, record_row}
use run_farm.Ledger.Open.{rents, destroys}
use run_farm.Reap.Leaks.{Ids, rent_rows, rent_rows_of, note_rent, rent_of, closing_row, close_rows}
use run_farm.Reap.{past_grace, keep_past_grace}

rows-record_row :
    (lines : List Line) (now : ℕ) (r : Row)
    → rows (record_row lines now r) ≡ rows lines ++ record r { ts = some now } ∷ []
unfolding rows record_row
rows-record_row [] now r = refl
rows-record_row (garbled s ∷ lines) now r = rows-record_row lines now r
rows-record_row (row x ∷ lines) now r = ap (λ rs. x ∷ rs) (rows-record_row lines now r)

-- A row about the id `x` that is known to be the one of its key.
abbrev pub Keyed : Dict String Row → Type 0
Keyed rents = (x : String) (r : Row) → lookup x rents ≡ some r → r.instance_id ≡ some x

Keyed-note_rent :
    (out : Dict String Row) (r : Row) (about : Option String)
    → r.instance_id ≡ about
    → Keyed out
    → Keyed (note_rent out r about)
Keyed-note_rent out r none e h = h
Keyed-note_rent out r (some iid) e h =
    λ x s found. ground (arith, lookup-insert iid x r out, string_eq.beq_iff iid x, h x s)

Keyed-rent_rows_of :
    (out : Dict String Row) (rs : List Row) → Keyed out → Keyed (rent_rows_of out rs)
unfolding rent_rows_of
Keyed-rent_rows_of out [] h = h
Keyed-rent_rows_of out (r ∷ rs) h =
    Keyed-rent_rows_of (note_rent out r r.instance_id) rs
      (Keyed-note_rent out r r.instance_id refl h)

pub Keyed-rent_rows : (lines : List Line) → Keyed (rent_rows lines)
unfolding rent_rows lookup
Keyed-rent_rows lines = Keyed-rent_rows_of [] (rows lines) (λ x r e. cc)

-- The id of the rent that `rent_of` finds, or else the id asked for, is the id asked for.
id_of_rent :
    (rs : Dict String Row) (iid : String) (found : Option Row)
    → lookup iid rs ≡ found
    → ((r : Row) → found ≡ some r → r.instance_id ≡ some iid)
    → elim (rent_of rs iid).instance_id [ none ↦ some iid | some i ↦ some i ] ≡ some iid
id_of_rent rs iid none e h = ground arith
id_of_rent rs iid (some r) e h = ground (arith, h r refl)

module _ (rs : Dict String Row) (keyed : Keyed rs) (now : ℕ) where
  -- The closing row is about its id, and says that it was destroyed.
  closing_row-about :
      (known : Bool) (iid x : String)
      → (destroys x (closing_row rs now known iid) ≡ (iid == x))
        × (rents x (closing_row rs now known iid) ≡ false)
  unfolding closing_row
  closing_row-about known iid x =
      let own = id_of_rent rs iid (lookup iid rs) refl (λ r e. keyed iid r e) in
      let about = ap (λ (o : Option String). elim o [ none ↦ false | some i ↦ i == x ]) own in
      (ground (arith, about), ground (arith, about))

  pub close_rows-any :
      (killed : String → Bool) (lines : List Line) (ids : List String) (x : String)
      → (any (destroys x) (rows (close_rows rs now killed lines ids))
          ≡ (any (destroys x) (rows lines) || any (λ i. i == x) ids))
        × (any (rents x) (rows (close_rows rs now killed lines ids)) ≡ any (rents x) (rows lines))
  unfolding close_rows
  close_rows-any killed lines [] x = (ground arith, refl)
  close_rows-any killed lines (iid ∷ ids) x =
      let r = closing_row rs now (killed iid) iid in
      let (d, n) = closing_row-about (killed iid) iid x in
      let (ih_d, ih_n) = close_rows-any killed (record_row lines now r) ids x in
      let app = rows-record_row lines now r in
      let app_d = ap (any (destroys x)) app in
      let app_n = ap (any (rents x)) app in
      let tail_d = any-append (destroys x) (rows lines) (record r { ts = some now } ∷ []) in
      let tail_n = any-append (rents x) (rows lines) (record r { ts = some now } ∷ []) in
      (ground arith, ground arith)

has-keep_if :
    (keep : String → Bool) (iid : String) (u : Unit {0}) (s kept : Ids) (x : String)
    → has x kept ≡ (has x s && keep x)
    → has x (if keep iid then (iid, u) ∷ kept else kept) ≡ (has x ((iid, u) ∷ s) && keep x)
has-keep_if keep iid u s kept x h = elim (Bool-cases (iid == x)) [
  | inl same ↦
      let e = ap keep ((string_eq.beq_iff iid x).0 same) in
      ground (arith, has-cons x iid u s, has-cons x iid u kept, e)
  | inr other ↦ ground (arith, has-cons x iid u s, has-cons x iid u kept)
]

pub has-keep_past_grace :
    (now : ℕ) (rs : Dict String Row) (s : Ids) (x : String)
    → has x (keep_past_grace now rs s) ≡ (has x s && past_grace now rs x)
unfolding keep_past_grace
has-keep_past_grace now rs [] x = ground (arith, has-nil (Unit {0}) x)
has-keep_past_grace now rs ((iid, u) ∷ s) x =
    let keep = λ (i : String). past_grace now rs i in
    has-keep_if keep iid u s (keep_past_grace now rs s) x (has-keep_past_grace now rs s x)
