-- ===== src/Reap/Gates.antt =====
-- What src/run_farm/reap.py's `main` leaves alone.
use run_farm.Prelude.{
  ℕ, ◌≡◌, refl, sym, ◌∙◌, ap, String, true, false, not, ◌&&◌, ◌||◌, Option, none, some, List,
  is_some, ◌⊎◌, inl, inr, arith, if_ind,
}
use run_farm.Reap.Destroy.{Instance, Provider, Texts}
use run_farm.Reap.Main.{
  Args, Exit, main, gated, listed, older_of, refuses_unscoped, refuses_label, options_of, is_empty,
  has_leaks,
}
use run_farm.Reap.{reap}

-- No `--yes`; or no scope and no `--all`; or a label alone, with no other filter and no `--include-in-use`.
abbrev pub Unasked : Args → Type 0
Unasked a =
    a.yes ≡ false
    ⊎ ((a.ledger ≡ none) × (a.label ≡ none) × (a.all_scope ≡ false))
    ⊎ ((a.ledger ≡ none)
        × (a.older_than ≡ none)
        × (a.include_in_use ≡ false)
        × (is_some a.label ≡ true))

module _ {P : Type 0} (t : Texts) (strip : String → String) (provider : Provider P) where
  dry_leaves :
      (p : P) (a : Args) (older : Option ℕ) (live : List Instance) (at now : ℕ)
      → a.yes ≡ false
      → ((reap t provider p (options_of a older) live at now).provider ≡ p)
        × ((reap t provider p (options_of a older) live at now).ledger ≡ a.ledger)
  unfolding reap
  dry_leaves p a older live at now h = (ground (arith, h), ground (arith, h))

  -- The ledger is as it was, and the provider as the listing left it.
  abbrev Left : P → Args → Exit P → Type 0
  Left p a e = (e.provider ≡ p) × (e.ledger ≡ a.ledger)

  gated_dry :
      (p : P) (a : Args) (older : Option ℕ) (live : List Instance) (at now : ℕ)
      → a.yes ≡ false
      → Left p a (gated t strip provider p a older live at now)
  gated_dry p a older live at now h =
      if_ind (Left p a) (refuses_unscoped a || refuses_label a older) (λ e. (refl, refl))
        (λ e. dry_leaves p a older live at now h)

  gated_refused :
      (p : P) (a : Args) (older : Option ℕ) (live : List Instance) (at now : ℕ)
      → (a.yes ≡ true → (refuses_unscoped a || refuses_label a older) ≡ true)
      → Left p a (gated t strip provider p a older live at now)
  gated_refused p a older live at now h =
      if_ind (Left p a) (refuses_unscoped a || refuses_label a older) (λ e. (refl, refl))
        (λ e. dry_leaves p a older live at now (ground (arith, h, e)))

  listed-Left :
      (p : P) (a : Args) (older : Option ℕ) (live : List Instance) (at now : ℕ)
      → Left p a (gated t strip provider p a older live at now)
      → Left p a (listed t strip provider p a older live at now)
  listed-Left p a older live at now h =
      if_ind (Left p a) (is_empty live && not (a.yes && has_leaks a.ledger)) (λ e. (refl, refl))
        (λ e. h)

  -- What is not asked for is refused, whatever the duration was parsed as.
  refused :
      (a : Args) (older : Option ℕ)
      → Unasked a
      → older_of t strip a.older_than ≡ some older
      → a.yes ≡ true
      → (refuses_unscoped a || refuses_label a older) ≡ true
  refused a older (inl dry) e y = cc
  refused a older (inr (inl (l, n, s))) e y = ground (arith, l, n, s, y)
  refused a older (inr (inr (l, o, i, n))) e y =
      let older_none = ap (older_of t strip) (sym o) ∙ e in ground (arith, l, older_none, i, n, y)

  -- `main` sends no destroy and writes no row of the ledger without `--yes`, without a scope and `--all`, or
  -- by a label alone without `--include-in-use`: the ledger is as it was, and the provider as it was or as
  -- the one listing left it.
  pub main-Unasked :
      (p : P) (a : Args) (at now : ℕ)
      → Unasked a
      → ((main t strip provider p a at now).ledger ≡ a.ledger)
        × (((main t strip provider p a at now).provider ≡ p)
            ⊎ ((main t strip provider p a at now).provider ≡ (provider.list_instances p).1))
  unfolding main
  main-Unasked p a at now un = by_older (older_of t strip a.older_than) refl
    where
      by_older :
          (o : Option (Option ℕ))
          → older_of t strip a.older_than ≡ o
          → ((main t strip provider p a at now).ledger ≡ a.ledger)
            × (((main t strip provider p a at now).provider ≡ p)
                ⊎ ((main t strip provider p a at now).provider ≡ (provider.list_instances p).1))
      by_older none e = ground (arith, e)
      by_older (some older) e =
          let (live, p') = provider.list_instances p in
          let (l, m) =
            listed-Left p' a older live at now
              (gated_refused p' a older live at now (refused a older un e)) in
          let eq =
            ap
              (λ (x : Option (Option ℕ)). elim x [
                | none ↦ record { code = 2; provider = p; ledger = a.ledger }
                | some older' ↦ listed t strip provider p' a older' live at now
              ])
              e in
          (ap (λ (x : Exit P). x.ledger) eq ∙ m, inr (ap (λ (x : Exit P). x.provider) eq ∙ l))
