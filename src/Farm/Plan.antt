-- ===== src/Farm/Plan.antt =====
-- What `plan` of src/run_farm/farm.py admits.
use run_farm.Prelude.{
  ◌≡◌, refl, ap, ◌∙◌, String, Bool, true, false, not, ◌&&◌, ◌||◌, List, [], ◌∷◌, ◌++◌, map, length,
  Dict, insert, has, has-insert, has-nil, any, keep_if, ◌==◌, string_eq, if◌then◌else◌, arith,
  Bool-cases, inl, inr,
}
use run_farm.Config.{Config}
use run_farm.Farm.Campaign.{
  Campaign, Leg, Policy, Planned, duplicate_rids, counts, is_empty, violations, plan_leg, plan_legs,
  plan_checked, plan, duplicates,
}

-- A rid stands twice.
unfoldable pub repeats : List Leg → Bool
repeats [] = false
repeats (leg ∷ legs) = any (λ (l : Leg). leg.rid == l.rid) legs || repeats legs

any_or {ℓ} :
    {A : Type ℓ} (p q r : A → Bool) (xs : List A)
    → ((x : A) → p x ≡ (q x || r x))
    → any p xs ≡ (any q xs || any r xs)
any_or p q r [] h = refl
any_or p q r (x ∷ xs) h = ground (arith, h x, any_or p q r xs h)

abbrev Names : Type 0
Names = Dict String (Unit {0})

is_empty-map : (d : Names) → is_empty (map (λ (x : String × Unit {0}). x.0) d) ≡ is_empty d
is_empty-map [] = refl
is_empty-map (x ∷ d) = refl

is_empty-insert : (k : String) (d : Names) → is_empty (insert k tt d) ≡ false
unfolding insert
is_empty-insert k [] = refl
is_empty-insert k ((x, u) ∷ d) = ground arith

-- The scan finds no duplicate exactly when there was none so far, no rid was seen, and none stands twice.
is_empty-duplicates :
    (seen dups : Names) (legs : List Leg)
    → is_empty (duplicates seen dups legs)
      ≡ (is_empty dups && not (any (λ (l : Leg). has l.rid seen) legs || repeats legs))
unfolding duplicates repeats
is_empty-duplicates seen dups [] = ground (arith, is_empty-map dups)
is_empty-duplicates seen dups (leg ∷ legs) =
    let fresh =
      any_or (λ (l : Leg). has l.rid (insert leg.rid tt seen)) (λ (l : Leg). leg.rid == l.rid)
        (λ (l : Leg). has l.rid seen) legs
        (λ l. ground (arith, has-insert leg.rid l.rid tt seen)) in
    elim (Bool-cases (has leg.rid seen)) [
      | inl again ↦ rw again (
          is_empty-duplicates seen (insert leg.rid tt dups) legs
          ∙ ground (arith, is_empty-insert leg.rid dups))
      | inr new ↦
          rw new (is_empty-duplicates (insert leg.rid tt seen) dups legs ∙ ground (arith, fresh))
    ]

unseen : (legs : List Leg) → any (λ (l : Leg). has {V = Unit {0}} l.rid []) legs ≡ false
unseen [] = refl
unseen (l ∷ legs) = ground (arith, has-nil (Unit {0}) l.rid, unseen legs)

first_valid :
    (b : Bool) (f : Leg → Config) (leg : Leg) (kept : List Leg) (rest : List Config)
    → rest ≡ map f kept
    → (if b then f leg ∷ [] else []) ++ rest ≡ map f (if b then leg ∷ kept else kept)
first_valid true f leg kept rest e = ap (λ cs. f leg ∷ cs) e
first_valid false f leg kept rest e = e

module _ {S : Type 0} (policy : Policy) where
  -- The legs without violations, as configs, in the order of the plan.
  abbrev pub valid_configs : Campaign S → List Leg → List Config
  valid_configs k legs =
      map (λ leg. policy.config_factory leg k.gtag k.required_shas)
        (keep_if (λ leg. is_empty (violations policy leg)) legs)

  configs-plan_legs :
      (k : Campaign S) (legs : List Leg) → (plan_legs policy k legs).0 ≡ valid_configs k legs
  unfolding plan_legs plan_leg
  configs-plan_legs k [] = refl
  configs-plan_legs k (leg ∷ legs) =
      first_valid (is_empty (violations policy leg))
        (λ l. policy.config_factory l k.gtag k.required_shas) leg
        (keep_if (λ l. is_empty (violations policy l)) legs)
        (plan_legs policy (plan_leg policy k leg).1 legs).0
        (configs-plan_legs (plan_leg policy k leg).1 legs)

  -- What a plan ends with.
  abbrev pub PlanEnds : Campaign S → List Leg → Planned × Campaign S → Type 0
  PlanEnds k legs (counts planned valid, k') =
      (repeats legs ≡ false)
      × (k'.configs ≡ valid_configs k legs)
      × (planned ≡ length legs)
      × (valid ≡ length k'.configs)
  PlanEnds k legs (duplicate_rids ds, k') =
      (repeats legs ≡ true) × (k' ≡ record k { gated = false })

  -- A plan in which a rid stands twice is refused, and only the gate is reset. Any other is accepted: the
  -- planned configs are then those of the legs without violations, in their order, and are counted.
  pub plan_lem : (k : Campaign S) (legs : List Leg) → PlanEnds k legs (plan policy k legs)
  unfolding plan
  plan_lem k legs = by_dups (duplicates [] [] legs) refl
    where
      none_seen : is_empty (duplicates [] [] legs) ≡ not (repeats legs)
      none_seen = is_empty-duplicates [] [] legs ∙ ap (λ b. not (b || repeats legs)) (unseen legs)

      by_dups :
          (ds : List String)
          → duplicates [] [] legs ≡ ds
          → PlanEnds k legs (plan_checked policy (record k { gated = false }) legs ds)
      by_dups [] e = (
        ground (arith, none_seen, e),
        configs-plan_legs (record k { gated = false }) legs,
        refl,
        refl,
      )
      by_dups (d ∷ ds) e = (ground (arith, none_seen, e), refl)
