-- ===== src/Reap/Sets.antt =====
-- Membership in the sets of src/run_farm/reap.py, and what its scans find in a ledger.
use mathlib.Core.Path.{subst, sym}
use run_farm.Prelude.{
  ◌≡◌, refl, String, Bool, true, false, not, ◌&&◌, ◌||◌, Option, none, some, List, [], ◌∷◌, has,
  has-insert, has-nil, has-cons, any, ◌==◌, string_eq, arith,
}
use run_farm.Ledger.{Row, Line, rows, is_event}
use run_farm.Ledger.Open.{is_about}
use run_farm.Reap.Leaks.{
  Ids, members, of_list, minus, Seen, note_row, scan, nothing_seen, is_seen, verified_gone,
  leaked_ids,
}

pub has-minus : (s t : Ids) (x : String) → has x (minus s t) ≡ (has x s && not (has x t))
unfolding minus
has-minus [] t x = ground (arith, has-nil (Unit {0}) x)
has-minus ((iid, u) ∷ s) t x = ground (
  arith,
  has-cons x iid u s,
  has-cons x iid u (minus s t),
  string_eq.beq_iff iid x,
  has-minus s t x,
)

pub has-of_list : (ids : List String) (x : String) → has x (of_list ids) ≡ any (λ i. i == x) ids
unfolding of_list
has-of_list [] x = has-nil (Unit {0}) x
has-of_list (iid ∷ ids) x = ground (arith, has-insert iid x tt (of_list ids), has-of_list ids x)

pub any-members : (s : Ids) (x : String) → any (λ i. i == x) (members s) ≡ has x s
unfolding members
any-members [] x = ground (arith, has-nil (Unit {0}) x)
any-members ((iid, u) ∷ s) x = ground (arith, has-cons x iid u s, any-members s x)

abbrev pub sees : String → Row → Bool
sees iid r = is_about iid r && is_seen r

abbrev pub confirms : String → Row → Bool
confirms iid r = is_about iid r && (is_event "destroyed" r && verified_gone r)

destroyed_not_seen : (r : Row) → is_event "destroyed" r ≡ true → is_seen r ≡ false
destroyed_not_seen r h =
    subst (λ (s : String). (s == "rented" || s == "running") ≡ false)
      (sym ((string_eq.beq_iff r.event "destroyed").0 h)) refl

has-note_row :
    (s : Seen) (r : Row) (about : Option String) (x : String)
    → r.instance_id ≡ about
    → (has x (note_row s r about).seen ≡ (has x s.seen || sees x r))
      × (has x (note_row s r about).confirmed_gone ≡ (has x s.confirmed_gone || confirms x r))
has-note_row s r none x e = (ground arith, ground arith)
has-note_row s r (some iid) x e = (
  ground (arith, has-insert iid x tt s.seen),
  ground (arith, has-insert iid x tt s.confirmed_gone, destroyed_not_seen r),
)

has-scan :
    (s : Seen) (rs : List Row) (x : String)
    → (has x (scan s rs).seen ≡ (has x s.seen || any (sees x) rs))
      × (has x (scan s rs).confirmed_gone ≡ (has x s.confirmed_gone || any (confirms x) rs))
unfolding scan
has-scan s [] x = (ground arith, ground arith)
has-scan s (r ∷ rs) x =
    let (n1, n2) = has-note_row s r r.instance_id x refl in
    let (s1, s2) = has-scan (note_row s r r.instance_id) rs x in (ground arith, ground arith)

-- An id is leaked exactly when a row rents it or sees it running, and none confirms that it is gone.
pub has-leaked_ids :
    (lines : List Line) (x : String)
    → has x (leaked_ids lines) ≡ (any (sees x) (rows lines) && not (any (confirms x) (rows lines)))
unfolding leaked_ids
has-leaked_ids lines x =
    let (s1, s2) = has-scan nothing_seen (rows lines) x in
    ground (
      arith,
      has-nil (Unit {0}) x,
      has-minus (scan nothing_seen (rows lines)).seen
          (scan nothing_seen (rows lines)).confirmed_gone x,
    )
