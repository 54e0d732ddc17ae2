-- ===== src/Fleet/Leg/Reports.antt =====
-- The ways in which `run` of src/run_farm/fleet.py ends.
use run_farm.Prelude.{
  ◌≡◌, refl, ap, ◌∙◌, String, Bool, true, false, ◌&&◌, ◌||◌, ◌⊎◌, inl, inr, Option, none, some,
  List, [], ◌∷◌, map, lookup, insert, has, lookup-insert, has-insert, has-nil, any, ◌==◌, string_eq,
  beq_refl, if_ind, arith,
}
use run_farm.Fleet.{FleetLeg, Raised, Try, gives, raises, LegResult, Site, Paths, Settings}
use run_farm.Fleet.Host.{complete}
use run_farm.Fleet.Leg.{Pool, State, LegEnd, result, halted, run_leg}
use run_farm.Fleet.Leg.Labels.{EndNamed, run_leg-Named}
use run_farm.Fleet.Leg.Leaves.{Leaves, RunLeaves, run_pending-Leaves}
use run_farm.Fleet.Leg.Run.{
  Results, RunEnd, reports, bad_labels, raised, after_exception, with_pool, skips, pending,
  run_legs, run_pending, collect, skipped, ended, unique, run, on_end,
}

abbrev pub labels : List FleetLeg → List String
labels = map (λ (leg : FleetLeg). leg.label)

abbrev pub named : String → FleetLeg → Bool
named x leg = leg.label == x

-- Each result stands under its own label.
abbrev Keyed : Results → Type 0
Keyed results = (x : String) (r : LegResult) → lookup x results ≡ some r → r.label ≡ x

Keyed-insert :
    (results : Results) (r : LegResult) → Keyed results → Keyed (insert r.label r results)
Keyed-insert results r h = λ x s found.
    ground (arith, lookup-insert r.label x r results, string_eq.beq_iff r.label x, h x s)

Keyed-nil : Keyed []
unfolding lookup
Keyed-nil x r e = cc

has-lookup :
    (x : String) (results : Results)
    → has x results ≡ true
    → (r : LegResult) × (lookup x results ≡ some r)
unfolding has
has-lookup x results h = ground arith

collect-cons :
    (results : Results) (leg : FleetLeg) (legs : List FleetLeg) (r : LegResult)
    (rs : List LegResult)
    → lookup leg.label results ≡ some r
    → collect results legs ≡ some rs
    → collect results (leg ∷ legs) ≡ some (r ∷ rs)
unfolding collect
collect-cons results leg legs r rs e f = ground (arith, e, f)

Collected : Results → List FleetLeg → Type 0
Collected results legs =
    (rs : List LegResult) × (collect results legs ≡ some rs)
    × (map (λ (r : LegResult). r.label) rs ≡ labels legs)

Collected-cons :
    (results : Results) (leg : FleetLeg) (legs : List FleetLeg)
    → Keyed results
    → (r : LegResult) × (lookup leg.label results ≡ some r)
    → Collected results legs
    → Collected results (leg ∷ legs)
unfolding Collected
Collected-cons results leg legs k (r, found) (rs, rest, same) = (
  r ∷ rs,
  collect-cons results leg legs r rs found rest,
  ap (λ l. l ∷ map (λ (r : LegResult). r.label) rs) (k leg.label r found)
      ∙ ap (λ ls. leg.label ∷ ls) same,
)

collect-labels :
    (results : Results) (legs : List FleetLeg)
    → Keyed results
    → ((x : String) → any (named x) legs ≡ true → has x results ≡ true)
    → Collected results legs
unfolding collect Collected
collect-labels results [] k h = ([], refl, refl)
collect-labels results (leg ∷ legs) k h =
    Collected-cons results leg legs k
      (has-lookup leg.label results (h leg.label (ground (arith, beq_refl leg.label))))
      (collect-labels results legs k (λ x e. h x (ground (arith, e))))

module _ {P : Type 0} (site : Site P) (paths : Paths) (settings : Settings) where
  abbrev done : P → FleetLeg → Bool
  done p = complete site paths settings p

  has-skips :
      (results : Results) (p : P) (legs : List FleetLeg) (x : String)
      → has x (skips site paths settings results p legs)
        ≡ (has x results || any (λ leg. done p leg && named x leg) legs)
  unfolding skips
  has-skips results p [] x = ground arith
  has-skips results p (leg ∷ legs) x = ground (
    arith,
    has-skips results p legs x,
    has-skips (insert leg.label (skipped leg) results) p legs x,
    has-insert leg.label x (skipped leg) results,
  )

  any-pending :
      (p : P) (legs : List FleetLeg) (x : String)
      → any (named x) legs ≡ (
          any (λ leg. done p leg && named x leg) legs
          || any (named x) (pending site paths settings p legs))
  any-pending p [] x = refl
  any-pending p (leg ∷ legs) x = ground (arith, any-pending p legs x)

  Keyed-skips :
      (results : Results) (p : P) (legs : List FleetLeg)
      → Keyed results
      → Keyed (skips site paths settings results p legs)
  unfolding skips
  Keyed-skips results p [] k = k
  Keyed-skips results p (leg ∷ legs) k =
      if_ind Keyed (done p leg)
        (λ _.
          Keyed-skips (insert leg.label (skipped leg) results) p legs
            (Keyed-insert results (skipped leg) k))
        (λ _. Keyed-skips results p legs k)

  -- The results cover the labels asked for, and those before.
  abbrev Covers : Results → List FleetLeg → Option Raised × Results × State P → Type 0
  Covers results legs r =
      Keyed r.1
      × (r.0 ≡ none
          → (x : String) → (has x results || any (named x) legs) ≡ true
          → has x r.1 ≡ true)

  Covers-on_end :
      (results : Results) (leg : FleetLeg) (legs : List FleetLeg) (end : LegEnd) (pool : Pool)
      (s : State P)
      → Keyed results
      → EndNamed site paths settings leg (end, pool, s)
      → ((r : LegResult)
          → Covers
              (insert r.label r results)
              legs
              (run_legs site paths settings (insert r.label r results) pool legs s))
      → Covers results (leg ∷ legs) (
          on_end end
            (λ e. (some e, results, after_exception site paths settings e pool legs s))
            (λ r. run_legs site paths settings (insert r.label r results) pool legs s))
  Covers-on_end results leg legs (halted x) pool s k own next = (k, λ e y h. cc)
  Covers-on_end results leg legs (result r) pool s k own next =
      ((next r).0, λ e x h. (next r).1 e x (ground (arith, h, own, has-insert r.label x r results)))

  run_legs-Covers :
      (results : Results) (pool : Pool) (legs : List FleetLeg) (s : State P)
      → Keyed results
      → Covers results legs (run_legs site paths settings results pool legs s)
  unfolding run_legs
  run_legs-Covers results pool [] s k = (k, λ e x h. ground (arith, h))
  run_legs-Covers results pool (leg ∷ legs) s k =
      let (end, pool', s') = run_leg site paths settings leg pool.refills pool.queue s in
      Covers-on_end results leg legs end pool' s' k
        (run_leg-Named site paths settings leg pool.refills pool.queue s)
        (λ r. run_legs-Covers (insert r.label r results) pool' legs s' (Keyed-insert results r k))

  with_pool-Covers :
      (results : Results) (legs : List FleetLeg) (answer : Try (List String)) (s : State P)
      → Keyed results
      → Covers results legs (with_pool site paths settings results legs answer s)
  with_pool-Covers results legs (raises x) s k = (k, λ e y h. cc)
  with_pool-Covers results legs (gives os) s k = run_legs-Covers results _ legs s k

  run_pending-Covers :
      (results : Results) (legs : List FleetLeg) (s : State P)
      → Keyed results
      → Covers results legs (run_pending site paths settings results legs s)
  run_pending-Covers results [] s k = (k, λ e x h. ground (arith, h))
  run_pending-Covers results (leg ∷ legs) s k =
      with_pool-Covers results (leg ∷ legs) (site.offers s.world).0
        (record s { world = (site.offers s.world).1 }) k

  -- The end of a run: the results of all the legs, in order, or an exception of those that may leave it.
  abbrev pub Answered : List FleetLeg → Option RunEnd → Type 0
  Answered legs end =
      ((rs : List LegResult) × (end ≡ some (reports rs))
        × (map (λ (r : LegResult). r.label) rs ≡ labels legs))
      ⊎ ((e : Raised) × (end ≡ some (raised e)) × Leaves site paths settings e)

  found_reports :
      (legs : List FleetLeg) (results : Results) (rs : List LegResult)
      → collect results legs ≡ some rs
      → ended site paths settings legs none results ≡ some (reports rs)
  found_reports legs results rs e = ground (arith, e)

  ended-Answered :
      (legs : List FleetLeg) (halt : Option Raised) (results : Results) (s : State P)
      → RunLeaves site paths settings (halt, results, s)
      → (halt ≡ none → Collected results legs)
      → Answered legs (ended site paths settings legs halt results)
  unfolding Collected
  ended-Answered legs (some e) results s leaves h = inr (e, refl, leaves)
  ended-Answered legs none results s leaves h =
      let (rs, found, same) = h refl in inl (rs, found_reports legs results rs found, same)

  -- With unique labels `run` gives one result for each leg, with its label and in the order of the legs, whatever
  -- happens to them, or else an exception leaves it, and that is BudgetExceeded or one that a question to the
  -- provider for offers raised; it never fails to find a result. With a label given twice it raises before anything
  -- is rented: the world is as it was.
  pub run_answers :
      (legs : List FleetLeg) (s : State P)
      → (unique (labels legs) ≡ true → Answered legs (run site paths settings legs s).0)
        × (unique (labels legs) ≡ false → run site paths settings legs s ≡ (some bad_labels, s))
  unfolding run
  run_answers [] s = (λ e. inl ([], refl, refl), λ e. unfold unique in cc)
  run_answers (first ∷ rest) s = (
    λ e.
        let legs = first ∷ rest in
        let before = skips site paths settings [] s.world legs in
        let todo = pending site paths settings s.world legs in
        let r = run_pending site paths settings before todo s in
        let covers = run_pending-Covers before todo s (Keyed-skips [] s.world legs Keyed-nil) in
        if_ind (λ (x : Option RunEnd × State P). Answered legs x.0) (unique (labels legs))
          (λ _.
            ended-Answered legs r.0 r.1 r.2 (run_pending-Leaves site paths settings before todo s)
              (λ none_halted. collect-labels r.1 legs covers.0 (λ x there. covers.1 none_halted x (
                ground (
                  arith,
                  has-skips [] s.world legs x,
                  any-pending s.world legs x,
                  there,
                  has-nil LegResult x,
                )))))
          (λ other. cc),
    λ e. ground (arith, e),
  )
