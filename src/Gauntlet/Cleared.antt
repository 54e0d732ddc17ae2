-- ===== src/Gauntlet/Cleared.antt =====
-- What it takes for `require_gauntlet` of src/run_farm/gauntlet.py to let a launch through.
use run_farm.Prelude.{
  ℕ, suc, ◌≡◌, refl, ap, String, Bool, true, false, ◌||◌, ◌⊎◌, inl, inr, ◌↔◌, List, [], ◌∷◌, any,
  length, keep_if, Bool-cases,
}
use run_farm.Gauntlet.{
  Fallible, returns, throws, CheckResult, blocking, Check, is_in, settled, Verdict, cleared,
  blocked, run_check, run_gauntlet, require_gauntlet,
}

-- The check does not raise, and passes or is no fatal one.
abbrev pub Lets : Fallible CheckResult → Type 0
Lets (returns r) = blocking r ≡ false
Lets (throws e) = ⊥

settled-Lets :
    (name : String) (a : Fallible CheckResult) → (blocking (settled name a) ≡ false) ↔ Lets a
settled-Lets name (returns r) = (λ h. h, λ h. h)
settled-Lets name (throws e) = (λ h. cc, λ h. absurd h)

or_false : (a b : Bool) → ((a || b) ≡ false) ↔ ((a ≡ false) × (b ≡ false))
or_false true b = (λ h. cc, λ h. h.0)
or_false false b = (λ h. (refl, h), λ h. h.1)

contradiction : (b : Bool) → b ≡ true → b ≡ false → ⊥
contradiction b h k = cc

module _ {P : Type 0} where
  -- Each check is skipped or lets the launch through, on the state that those before it leave.
  unfoldable pub AllClear : List String → List (Check P) → P → Type 0
  AllClear skip [] p = Unit
  AllClear skip (c ∷ cs) p =
      ((is_in c.name skip ≡ true) ⊎ Lets (c.call p).0) × AllClear skip cs (run_check skip c p).1

  run_check-Lets :
      (skip : List String) (c : Check P) (p : P)
      → (blocking (run_check skip c p).0 ≡ false) ↔ ((is_in c.name skip ≡ true) ⊎ Lets (c.call p).0)
  unfolding run_check
  run_check-Lets skip c p = elim (Bool-cases (is_in c.name skip)) [
    | inl named ↦ rw named (λ h. inl refl, λ h. refl)
    | inr unnamed ↦ rw unnamed (
      λ h. inr ((settled-Lets c.name (c.call p).0).0 h),
      λ h. elim h [ inl e ↦ cc | inr l ↦ (settled-Lets c.name (c.call p).0).1 l ],
    )
  ]

  any-AllClear :
      (skip : List String) (cs : List (Check P)) (p : P)
      → (any blocking (run_gauntlet cs skip p).0 ≡ false) ↔ AllClear skip cs p
  unfolding AllClear run_gauntlet
  any-AllClear skip [] p = (λ h. tt, λ h. refl)
  any-AllClear skip (c ∷ cs) p =
      let rest = any-AllClear skip cs (run_check skip c p).1 in
      let first = run_check-Lets skip c p in
      let split =
        or_false (blocking (run_check skip c p).0)
          (any blocking (run_gauntlet cs skip (run_check skip c p).1).0) in
      (λ h. let (a, b) = split.0 h in (first.0 a, rest.0 b), λ h. split.1 (first.1 h.0, rest.1 h.1))

  length-run_gauntlet :
      (skip : List String) (cs : List (Check P)) (p : P)
      → length (run_gauntlet cs skip p).0 ≡ length cs
  unfolding run_gauntlet
  length-run_gauntlet skip [] p = refl
  length-run_gauntlet skip (c ∷ cs) p = ap suc (length-run_gauntlet skip cs (run_check skip c p).1)

-- A launch that is let through, with a result for each check, and one that is not, where also some result blocks.
abbrev pub Justified : ℕ → Type 0 → Verdict → Type 0
Justified checks Clear (cleared rs) = (length rs ≡ checks) × Clear
Justified checks Clear (blocked rs bs) =
    (length rs ≡ checks) × (bs ≡ keep_if blocking rs) × (any blocking rs ≡ true) × (Clear → ⊥)

-- `require_gauntlet` returns only where each check is skipped, or passes, or is no fatal one, and raises only where
-- some check that is not skipped raises or fails as a fatal one; either way each check has its result, those after
-- a failure as well, and the exception has the results that block.
pub require_gauntlet-Justified :
    {P : Type 0} (checks : List (Check P)) (skip : List String) (p : P)
    → Justified (length checks) (AllClear skip checks p) (require_gauntlet checks skip p).0
unfolding require_gauntlet
require_gauntlet-Justified checks skip p =
    let (rs, q) = run_gauntlet checks skip p in
    let n = length-run_gauntlet skip checks p in
    let clear = any-AllClear skip checks p in
    elim (Bool-cases (any blocking rs)) [
      | inl some_block ↦
          rw some_block
            (n, refl, some_block, λ h. contradiction (any blocking rs) some_block (clear.1 h))
      | inr none_block ↦ rw none_block (n, clear.0 none_block)
    ]
