-- ===== src/Reap/Retries.antt =====
-- The retries of a destroy in src/run_farm/reap.py.
use run_farm.Prelude.{
  ℕ, zero, suc, ◌<◌, ◌≡◌, refl, ◌∙◌, ap, String, Option, none, some, string_eq, arith, ◌⊎◌, inl,
  inr,
}
use run_farm.Reap.Destroy.{Provider, Texts, Destroyed, failed, decide, decisive, destroy_with_retry}

module _ {P : Type 0} (t : Texts) (provider : Provider P) where
  -- The provider after `n` destroys of the id.
  unfoldable pub after : String → ℕ → P → P
  after iid zero p = p
  after iid (suc n) p = after iid n (provider.destroy p iid).1

  -- What destroy number `n` is answered, as far as it decides.
  abbrev pub answer : String → ℕ → P → Option Destroyed
  answer iid n p = decisive t (provider.destroy (after iid n p) iid).0

  -- The first `n` answers decide nothing.
  unfoldable pub Undecided : String → ℕ → P → Type 0
  Undecided iid zero p = Unit
  Undecided iid (suc n) p =
      (decisive t (provider.destroy p iid).0 ≡ none) × Undecided iid n (provider.destroy p iid).1

  -- Attempt number `k` is the first to be decided, as `d`, and no destroy is sent after it.
  abbrev pub Settled : ℕ → P → String → ℕ → Destroyed → Type 0
  Settled retries p iid k d =
      (k < retries)
      × Undecided iid k p
      × (answer iid k p ≡ some d)
      × (destroy_with_retry t provider retries p iid ≡ (d, after iid (suc k) p))

  -- All the retries are sent, and none is decided.
  abbrev pub Exhausted : ℕ → P → String → Type 0
  Exhausted retries p iid =
      Undecided iid retries p
      × (destroy_with_retry t provider retries p iid ≡ (failed, after iid retries p))

  step :
      (left : ℕ) (p : P) (iid : String) (a : Option Destroyed)
      → decisive t (provider.destroy p iid).0 ≡ a
      → destroy_with_retry t provider (suc left) p iid
        ≡ decide
            (provider.destroy p iid).1
            a
            (destroy_with_retry t provider left (provider.destroy p iid).1 iid)
  unfolding destroy_with_retry
  step left p iid a e =
      ap
        (λ b.
          decide (provider.destroy p iid).1 b
            (destroy_with_retry t provider left (provider.destroy p iid).1 iid))
        e

  -- Either a first answer within the retries decides, its result is returned and no destroy is sent after it,
  -- or all the retries are sent, none decides, and the destroy failed.
  pub destroy_with_retry_lem :
      (retries : ℕ) (p : P) (iid : String)
      → ((k : ℕ) × (d : Destroyed) × Settled retries p iid k d) ⊎ Exhausted retries p iid
  unfolding destroy_with_retry after Undecided
  destroy_with_retry_lem zero p iid = inr (tt, refl)
  destroy_with_retry_lem (suc left) p iid =
      by_answer (decisive t (provider.destroy p iid).0) refl
        (destroy_with_retry_lem left (provider.destroy p iid).1 iid)
    where
      by_answer :
          (a : Option Destroyed)
          → decisive t (provider.destroy p iid).0 ≡ a
          → ((k : ℕ) × (d : Destroyed) × Settled left (provider.destroy p iid).1 iid k d)
            ⊎ Exhausted left (provider.destroy p iid).1 iid
          → ((k : ℕ) × (d : Destroyed) × Settled (suc left) p iid k d) ⊎ Exhausted (suc left) p iid
      by_answer (some d) e ih = inl (0, d, (omega arith, tt, e, step left p iid (some d) e))
      by_answer none e (inl (k, d, (lt, un, an, eq))) =
          inl (suc k, d, (omega (arith, lt), (e, un), an, step left p iid none e ∙ eq))
      by_answer none e (inr (un, eq)) = inr ((e, un), step left p iid none e ∙ eq)
