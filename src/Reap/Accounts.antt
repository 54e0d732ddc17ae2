-- ===== src/Reap/Accounts.antt =====
-- The accounts of a sweep of src/run_farm/reap.py.
use mathlib.Core.Path.{subst}
use run_farm.Prelude.{
  ℕ, ◌+◌, ◌≤◌, ◌≡◌, refl, sym, ap, String, true, false, List, [], ◌∷◌, ◌++◌, map, count_if, ◌==◌,
  string_eq, if◌then◌else◌, arith,
}
use run_farm.Reap.Destroy.{
  Instance, Provider, Texts, Destroyed, destroyed, already_gone, failed, Swept, nothing_swept, note,
  price, destroy_with_retry, destroy_all,
}
use run_farm.Reap.Select.{targets}
use run_farm.Reap.{Options, Reaped, prices, reap, listing, sweep, dry}

-- How often an id stands in a list.
abbrev pub times : String → List String → ℕ
times x = count_if (λ i. i == x)

abbrev pub ids_of : List Instance → List String
ids_of = map (λ (i : Instance). i.id)

times-append : (x : String) (xs ys : List String) → times x (xs ++ ys) ≡ times x xs + times x ys
times-append x [] ys = omega arith
times-append x (y ∷ xs) ys = ground (arith, times-append x xs ys)

-- How often an id stands in the buckets of a sweep.
abbrev pub bucketed : String → Swept → ℕ
bucketed x s = times x s.destroyed + (times x s.gone + times x s.failed)

bucketed-note :
    (x : String) (s : Swept) (i : Instance) (d : Destroyed)
    → bucketed x (note s i d) ≡ bucketed x s + times x (i.id ∷ [])
unfolding note
bucketed-note x s i destroyed = ground (arith, times-append x s.destroyed (i.id ∷ []))
bucketed-note x s i already_gone = ground (arith, times-append x s.gone (i.id ∷ []))
bucketed-note x s i failed = ground (arith, times-append x s.failed (i.id ∷ []))

absurd_append : {A : Type 0} (xs : List String) (x : String) → xs ++ x ∷ [] ≡ [] → A
absurd_append [] x e = cc
absurd_append (y ∷ xs) x e = cc

module _ {P : Type 0} (t : Texts) (provider : Provider P) (retries : ℕ) where
  bucketed-destroy_all :
      (x : String) (p : P) (s : Swept) (is : List Instance)
      → bucketed x (destroy_all t provider retries p s is).0 ≡ bucketed x s + times x (ids_of is)
  unfolding destroy_all
  bucketed-destroy_all x p s [] = omega arith
  bucketed-destroy_all x p s (i ∷ is) =
      let (d, p') = destroy_with_retry t provider retries p i.id in
      omega (arith, bucketed-destroy_all x p' (note s i d) is, bucketed-note x s i d)

  -- What was failed stays so, and what is reclaimed is what the cleared ones cost.
  reclaimed-note :
      (s : Swept) (i : Instance) (d : Destroyed)
      → ((note s i d).reclaimed ≤ s.reclaimed + price i)
        × ((note s i d).failed ≡ []
            → (s.failed ≡ []) × ((note s i d).reclaimed ≡ s.reclaimed + price i))
  unfolding note
  reclaimed-note s i destroyed = (omega arith, λ e. (e, refl))
  reclaimed-note s i already_gone = (omega arith, λ e. (e, refl))
  reclaimed-note s i failed = (omega arith, λ e. absurd_append s.failed i.id e)

  reclaimed-destroy_all :
      (p : P) (s : Swept) (is : List Instance)
      → ((destroy_all t provider retries p s is).0.reclaimed ≤ s.reclaimed + prices is)
        × ((destroy_all t provider retries p s is).0.failed ≡ []
            → (s.failed ≡ [])
              × ((destroy_all t provider retries p s is).0.reclaimed ≡ s.reclaimed + prices is))
  unfolding destroy_all prices
  reclaimed-destroy_all p s [] = (omega arith, λ e. (e, omega arith))
  reclaimed-destroy_all p s (i ∷ is) =
      let (d, p') = destroy_with_retry t provider retries p i.id in
      let (le, all) = reclaimed-destroy_all p' (note s i d) is in
      let (le1, one) = reclaimed-note s i d in
      (
        omega (arith, le, le1),
        λ e. let (f, r) = all e in let (f0, r0) = one f in (f0, omega (arith, r, r0)),
      )

-- The accounts of a sweep that starts from nothing.
abbrev pub Accounts : List Instance → Swept → ℕ → Type 0
Accounts is s reclaimed =
    ((x : String) → bucketed x s ≡ times x (ids_of is))
    × (reclaimed ≤ prices is)
    × (s.failed ≡ [] → reclaimed ≡ prices is)

module _ {P : Type 0} (t : Texts) (provider : Provider P) where
  Accounts-destroy_all :
      (retries : ℕ) (p : P) (is : List Instance)
      → Accounts is
          (destroy_all t provider retries p nothing_swept is).0
          (destroy_all t provider retries p nothing_swept is).0.reclaimed
  Accounts-destroy_all retries p is =
      let (le, all) = reclaimed-destroy_all t provider retries p nothing_swept is in
      (
        λ x. omega (arith, bucketed-destroy_all t provider retries x p nothing_swept is),
        omega (arith, le),
        λ e. omega (arith, (all e).1),
      )

  swept-reap :
      (p : P) (o : Options) (snapshot : List Instance) (at now : ℕ)
      → o.dry_run ≡ false
      → reap t provider p o snapshot at now
        ≡ sweep t provider
            (listing t provider p o snapshot).1
            o
            (listing t provider p o snapshot).0
            (targets t at o.scope (listing t provider p o snapshot).0)
            now
  unfolding reap
  swept-reap p o snapshot at now h =
      let (live, p') = listing t provider p o snapshot in
      let targeted = targets t at o.scope live in
      ap
        (λ b.
          if b then dry t provider p' o live targeted else sweep t provider p' o live targeted now)
        h

  dry-reap :
      (p : P) (o : Options) (snapshot : List Instance) (at now : ℕ)
      → o.dry_run ≡ true
      → reap t provider p o snapshot at now
        ≡ dry t provider p o snapshot (targets t at o.scope snapshot)
  unfolding reap
  dry-reap p o snapshot at now h = ground (arith, h)

  -- A real sweep puts every target into exactly one bucket, as often as it is targeted, and nothing else;
  -- it claims no more than the targets cost, and all of it when none failed. A dry run claims the potential,
  -- and leaves the provider and the ledger alone.
  pub reap-Accounts :
      (p : P) (o : Options) (snapshot : List Instance) (at now : ℕ)
      → (o.dry_run ≡ false
          → Accounts
              (targets t at o.scope (listing t provider p o snapshot).0)
              (reap t provider p o snapshot at now).report.swept
              (reap t provider p o snapshot at now).report.dph_reclaimed)
        × (o.dry_run ≡ true
            → ((reap t provider p o snapshot at now).report.dph_reclaimed
                ≡ prices (targets t at o.scope snapshot))
              × ((reap t provider p o snapshot at now).provider ≡ p)
              × ((reap t provider p o snapshot at now).ledger ≡ o.scope.ledger))
  reap-Accounts p o snapshot at now =
      let (live, p') = listing t provider p o snapshot in
      let is = targets t at o.scope live in
      (
        λ h.
            subst (λ (r : Reaped P). Accounts is r.report.swept r.report.dph_reclaimed)
              (sym (swept-reap p o snapshot at now h)) (Accounts-destroy_all o.retries p' is),
        λ h.
            let e = dry-reap p o snapshot at now h in
            (
              ap (λ (r : Reaped P). r.report.dph_reclaimed) e,
              ap (λ (r : Reaped P). r.provider) e,
              ap (λ (r : Reaped P). r.ledger) e,
            ),
      )
