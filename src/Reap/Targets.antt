-- ===== src/Reap/Targets.antt =====
-- The scope of src/run_farm/reap.py as one test.
use run_farm.Prelude.{
  ℕ, ◌≡◌, refl, sym, ◌∙◌, ap, String, Bool, true, not, ◌&&◌, Option, none, some, List, [], ◌∷◌, has,
  keep_if, any, string_eq, arith,
}
use run_farm.Ledger.{Line, rows}
use run_farm.Reap.Leaks.{leaked_ids}
use run_farm.Reap.Destroy.{Instance, Texts}
use run_farm.Reap.Sets.{has-leaked_ids, sees, confirms}
use run_farm.Reap.Select.{Scope, targets, by_ledger, by_label, by_age, has_label, is_old}

keep_if_ext {ℓ} :
    {A : Type ℓ} (p q : A → Bool) (xs : List A)
    → ((x : A) → p x ≡ q x)
    → keep_if p xs ≡ keep_if q xs
keep_if_ext p q [] h = refl
keep_if_ext p q (x ∷ xs) h = ground (arith, h x, keep_if_ext p q xs h)

keep_if-keep_if {ℓ} :
    {A : Type ℓ} (p q : A → Bool) (xs : List A)
    → keep_if q (keep_if p xs) ≡ keep_if (λ x. p x && q x) xs
keep_if-keep_if p q [] = refl
keep_if-keep_if p q (x ∷ xs) = ground (arith, keep_if-keep_if p q xs)

keep_if-true {ℓ} : {A : Type ℓ} (xs : List A) → keep_if (λ x. true) xs ≡ xs
keep_if-true [] = refl
keep_if-true (x ∷ xs) = ap (λ ys. x ∷ ys) (keep_if-true xs)

-- The ledger rents the id or sees it running, and does not confirm it gone.
abbrev pub leaks : List Line → String → Bool
leaks lines x = any (sees x) (rows lines) && not (any (confirms x) (rows lines))

abbrev pub in_ledger : Option (List Line) → Instance → Bool
in_ledger none i = true
in_ledger (some lines) i = leaks lines i.id

abbrev pub labelled : Option String → Instance → Bool
labelled none i = true
labelled (some label) i = has_label label i

abbrev pub aged : Texts → ℕ → Option ℕ → Instance → Bool
aged t now none i = true
aged t now (some older_than) i = is_old t now older_than i

abbrev pub in_scope : Texts → ℕ → Scope → Instance → Bool
in_scope t now s i = in_ledger s.ledger i && (labelled s.label i && aged t now s.older_than i)

by_ledger_lem :
    (ledger : Option (List Line)) (is : List Instance)
    → by_ledger ledger is ≡ keep_if (in_ledger ledger) is
by_ledger_lem none is = sym (keep_if-true is)
by_ledger_lem (some lines) is =
    keep_if_ext (λ (i : Instance). has i.id (leaked_ids lines)) (in_ledger (some lines)) is
      (λ i. has-leaked_ids lines i.id)

by_label_lem :
    (label : Option String) (is : List Instance) → by_label label is ≡ keep_if (labelled label) is
by_label_lem none is = sym (keep_if-true is)
by_label_lem (some label) is = refl

by_age_lem :
    (t : Texts) (now : ℕ) (older : Option ℕ) (is : List Instance)
    → by_age t now older is ≡ keep_if (aged t now older) is
by_age_lem t now none is = sym (keep_if-true is)
by_age_lem t now (some o) is = refl

-- The targets are the instances of the listing, in its order, that the ledger leaks, that carry the label
-- and that are old enough, each asked only when the call gives it.
pub targets_lem :
    (t : Texts) (now : ℕ) (s : Scope) (live : List Instance)
    → targets t now s live ≡ keep_if (in_scope t now s) live
unfolding targets
targets_lem t now s live =
    by_age_lem t now s.older_than (by_label s.label (by_ledger s.ledger live))
    ∙ ap (keep_if (aged t now s.older_than)) (
        by_label_lem s.label (by_ledger s.ledger live)
        ∙ ap (keep_if (labelled s.label)) (by_ledger_lem s.ledger live)
        ∙ keep_if-keep_if (in_ledger s.ledger) (labelled s.label) live)
    ∙ keep_if-keep_if (λ i. in_ledger s.ledger i && labelled s.label i) (aged t now s.older_than)
        live
    ∙ keep_if_ext (λ i. (in_ledger s.ledger i && labelled s.label i) && aged t now s.older_than i)
        (in_scope t now s) live (λ i. ground arith)
