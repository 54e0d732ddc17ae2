-- ===== src/Fleet/Leg/Noted.antt =====
-- Leaks among the results of `run` of src/run_farm/fleet.py, and the labels of its legs.
use run_farm.Prelude.{
  ◌≡◌, refl, ap, ◌∙◌, String, Bool, true, false, Option, none, some, List, [], ◌∷◌, lookup, any,
  keep_if, ◌==◌, string_eq, Bool-cases, inl, inr, if_ind, arith,
}
use run_farm.Fleet.{
  FleetLeg, Status, ok_, skip, no_result, run_fail, bad_artifacts, no_offers, leak, error,
  LegResult,
}
use run_farm.Fleet.Leg.Reports.{labels, named}
use run_farm.Fleet.Leg.Run.{Results, collect, unique}

abbrev pub is_leak_status : Status → Bool
is_leak_status leak = true
is_leak_status ok_ = false
is_leak_status skip = false
is_leak_status no_result = false
is_leak_status run_fail = false
is_leak_status bad_artifacts = false
is_leak_status no_offers = false
is_leak_status error = false

abbrev pub any_leak : List LegResult → Bool
any_leak = any (λ r. is_leak_status r.status)

-- A leak is noted under the label of one of the legs.
abbrev pub Noted : List FleetLeg → Results → Type 0
Noted legs results =
    (x : String) × (r : LegResult) × (lookup x results ≡ some r)
    × (r.status ≡ leak)
    × (any (named x) legs ≡ true)

both :
    {A : Type 0} (o : Option A) (os : Option (List A)) (rs : List A)
    → (elim o as (λ _. Option (List A)) [
      | none ↦ none
      | some r ↦ elim os [ none ↦ none | some rs ↦ some (r ∷ rs) ]
    ])
      ≡ some rs
    → (r : A) × (rs' : List A) × (o ≡ some r) × (os ≡ some rs') × (rs ≡ r ∷ rs')
both none os rs e = cc
both (some r) none rs e = cc
both (some r) (some rs') rs e = (r, rs', refl, refl, cc)

-- A leak among the results stands in the list that is collected from them.
pub collect_leak :
    (results : Results) (legs : List FleetLeg) (x : String) (r : LegResult) (rs : List LegResult)
    → lookup x results ≡ some r
    → r.status ≡ leak
    → any (named x) legs ≡ true
    → collect results legs ≡ some rs
    → any_leak rs ≡ true
unfolding collect
collect_leak results [] x r rs found leaked there e = cc
collect_leak results (leg ∷ legs) x r rs found leaked there e =
    let (s, ss, here, rest, same) = both (lookup leg.label results) (collect results legs) rs e in
    elim (Bool-cases (leg.label == x)) [
      | inl own ↦
          (let s_is_r : s ≡ r = cc (here, found, (string_eq.beq_iff leg.label x).0 own) in
            let bad : is_leak_status s.status ≡ true =
              ap (λ (q : LegResult). is_leak_status q.status) s_is_r ∙ ap is_leak_status leaked in
            ap any_leak same ∙ rw bad refl)
      | inr other ↦
          (let later =
              collect_leak results legs x r ss found leaked (ground (arith, there, other)) rest in
            ap any_leak same ∙ ground (arith, later))
    ]

any-labels :
    (x : String) (legs : List FleetLeg) → any (λ k. k == x) (labels legs) ≡ any (named x) legs
any-labels x [] = refl
any-labels x (leg ∷ legs) = ground (arith, any-labels x legs)

pub unique_head :
    (leg : FleetLeg) (legs : List FleetLeg)
    → unique (labels (leg ∷ legs)) ≡ true
    → (any (named leg.label) legs ≡ false) × (unique (labels legs) ≡ true)
unfolding unique
unique_head leg legs h = (ground (arith, h, any-labels leg.label legs), ground (arith, h))

pub any-keep_if :
    (f : FleetLeg → Bool) (x : String) (legs : List FleetLeg)
    → any (named x) (keep_if f legs) ≡ true
    → any (named x) legs ≡ true
any-keep_if f x [] h = h
any-keep_if f x (leg ∷ legs) h = ground (arith, h, any-keep_if f x legs)

unique_cons :
    (leg : FleetLeg) (legs : List FleetLeg)
    → any (named leg.label) legs ≡ false
    → unique (labels legs) ≡ true
    → unique (labels (leg ∷ legs)) ≡ true
unfolding unique
unique_cons leg legs h k = ground (arith, h, k, any-labels leg.label legs)

absent-keep_if :
    (f : FleetLeg → Bool) (x : String) (legs : List FleetLeg)
    → any (named x) legs ≡ false
    → any (named x) (keep_if f legs) ≡ false
absent-keep_if f x legs h = ground (arith, h, any-keep_if f x legs)

pub unique-keep_if :
    (f : FleetLeg → Bool) (legs : List FleetLeg)
    → unique (labels legs) ≡ true
    → unique (labels (keep_if f legs)) ≡ true
unique-keep_if f [] h = h
unique-keep_if f (leg ∷ legs) h =
    let (fresh, rest) = unique_head leg legs h in
    if_ind (λ (ls : List FleetLeg). unique (labels ls) ≡ true) (f leg)
      (λ _.
        unique_cons leg (keep_if f legs) (absent-keep_if f leg.label legs fresh)
          (unique-keep_if f legs rest))
      (λ _. unique-keep_if f legs rest)
