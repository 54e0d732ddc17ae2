-- ===== src/Budget/Cap.antt =====
-- The cap of src/run_farm/budget.py, and which ids burn.
use mathlib.Core.Path.{subst}
use native.Mathlib.Nat.{mul-le-mul_left}
use run_farm.Prelude.{
  ℕ, ◌≤◌, ◌<◌, ◌-◌, Dict, ◌≡◌, refl, sym, String, true, false, ◌||◌, Option, none, some, List, [],
  ◌∷◌, has, has-insert, has-nil, any, ◌==◌, string_eq, arith,
}
use run_farm.Ledger.{Row, is_event, or_zero}
use run_farm.Ledger.Open.{rents, destroys}
use run_farm.Budget.{
  Flight, note_event, flight, no_flight, spent, budget_exceeded, inner, capped_rent, burn, burning,
  in_flight,
}

destroyed_not_rented : (r : Row) → is_event "destroyed" r ≡ true → is_event "rented" r ≡ false
destroyed_not_rented r h =
    subst (λ (s : String). (s == "rented") ≡ false)
      (sym ((string_eq.beq_iff r.event "destroyed").0 h)) refl

has-note_event :
    (f : Flight) (r : Row) (about : Option String) (x : String)
    → r.instance_id ≡ about
    → (has x (note_event f r about).rented ≡ (has x f.rented || rents x r))
      × (has x (note_event f r about).destroyed ≡ (has x f.destroyed || destroys x r))
has-note_event f r none x e = (ground arith, ground arith)
has-note_event f r (some iid) x e = (
  ground (arith, has-insert iid x r f.rented),
  ground (arith, has-insert iid x tt f.destroyed, destroyed_not_rented r),
)

has-flight :
    (f : Flight) (rs : List Row) (x : String)
    → (has x (flight f rs).rented ≡ (has x f.rented || any (rents x) rs))
      × (has x (flight f rs).destroyed ≡ (has x f.destroyed || any (destroys x) rs))
unfolding flight
has-flight f [] x = (ground arith, ground arith)
has-flight f (r ∷ rs) x =
    let (n1, n2) = has-note_event f r r.instance_id x refl in
    let (s1, s2) = has-flight (note_event f r r.instance_id) rs x in (ground arith, ground arith)

-- The id is one that `in_flight` charges.
abbrev pub Burns : List Row → String → Type 0
Burns evs x =
    (has x (flight no_flight evs).rented ≡ true) × (has x (flight no_flight evs).destroyed ≡ false)

-- An id burns exactly when a row rents it and none says that it was destroyed.
pub Burns-iff :
    (evs : List Row) (x : String)
    → (Burns evs x → (any (rents x) evs ≡ true) × (any (destroys x) evs ≡ false))
      × (any (rents x) evs ≡ true → any (destroys x) evs ≡ false → Burns evs x)
Burns-iff evs x =
    let (r, d) = has-flight no_flight evs x in
    (
      λ b. ground (arith, has-nil Row x, has-nil (Unit {0}) x),
      λ p q. ground (arith, has-nil Row x, has-nil (Unit {0}) x),
    )

-- The capped provider enters the inner `rent` exactly when the spend, booked and in flight, is below
-- the cap; otherwise it raises with that spend, and the inner provider is as it was.
pub capped_rent_lem :
    {P R : Type 0} (cap : ℕ) (evs : List Row) (now : ℕ) (rent : P → R × P) (p : P)
    → (spent evs now < cap → capped_rent cap evs now rent p ≡ (inner (rent p).0, (rent p).1))
      × (cap ≤ spent evs now
          → capped_rent cap evs now rent p ≡ (budget_exceeded (spent evs now), p))
unfolding capped_rent
capped_rent_lem cap evs now rent p = (λ h. ground arith, λ h. ground arith)

elapsed_grows :
    (now later : ℕ) (ts : Option ℕ)
    → now ≤ later
    → (now - elim ts [ none ↦ now | some t ↦ t ]) ≤ (later - elim ts [ none ↦ later | some t ↦ t ])
elapsed_grows now later none h = omega arith
elapsed_grows now later (some t) h = omega arith

burn_grows : (now later : ℕ) (e : Row) → now ≤ later → burn now e ≤ burn later e
burn_grows now later e h = mul-le-mul_left (or_zero e.dph) (elapsed_grows now later e.ts h)

burning_grows :
    (now later : ℕ) (gone : Dict String (Unit {0})) (rented : Dict String Row)
    → now ≤ later
    → burning now gone rented ≤ burning later gone rented
unfolding burning
burning_grows now later gone [] h = omega arith
burning_grows now later gone ((iid, e) ∷ rented) h =
    let rest = burning_grows now later gone rented h in
    let one = burn_grows now later e h in ground arith

spent_grows : (evs : List Row) (now later : ℕ) → now ≤ later → spent evs now ≤ spent evs later
unfolding spent in_flight
spent_grows evs now later h =
    let f = flight no_flight evs in
    let le = burning_grows now later f.destroyed f.rented h in omega arith

-- On the same receipts the capped provider that refuses a rent refuses it at every later time, and
-- leaves the inner provider as it was: the clock never brings the spend back under the cap.
pub refused_later :
    {P R : Type 0} (cap : ℕ) (evs : List Row) (now later : ℕ) (rent : P → R × P) (p : P)
    → cap ≤ spent evs now
    → now ≤ later
    → capped_rent cap evs later rent p ≡ (budget_exceeded (spent evs later), p)
refused_later cap evs now later rent p full h =
    let le = spent_grows evs now later h in (capped_rent_lem cap evs later rent p).1 (omega arith)
