-- ===== src/Store/Keys.antt =====
-- The keys of src/run_farm/store.py: of one run, and of two.
use Prim.Native.String.{◌++◌, count}
use text.Mathlib.TextLemmas.{
  append_cancel_left, append_cancel_right, append_inj, append_assoc, length-append,
}
use run_farm.Prelude.{
  ◌≡◌, refl, ◌∙◌, ap, sym, String, false, ◌==◌, string_eq, inl, inr, Bool-cases, arith,
}
use run_farm.Store.{key}

-- Texts that end differently are different.
ends_apart : (s t u v : String) → count u ≡ count v → (u == v) ≡ false → s ++ u ≡ t ++ v → ⊥
ends_apart s t u v len differ e =
    let (left, right) =
      append_inj e (omega (arith, ap count e, length-append s u, length-append t v)) in
    ground (arith, right, string_eq.beq_iff u v)

module _ (base : String) where
  key_inj : (n m p : String) → key base n p ≡ key base m p → n ≡ m
  unfolding key
  key_inj n m p e = append_cancel_right n m ("/" ++ p) (
      append_cancel_left "/" (n ++ ("/" ++ p)) (m ++ ("/" ++ p))
        (append_cancel_left base ("/" ++ (n ++ ("/" ++ p))) ("/" ++ (m ++ ("/" ++ p))) e))

  pub key_same : (n m p : String) → (key base n p == key base m p) ≡ (n == m)
  key_same n m p = elim (Bool-cases (n == m)) [
    | inl e ↦
        (string_eq.beq_iff (key base n p) (key base m p)).1
          (ap (λ t. key base t p) ((string_eq.beq_iff n m).0 e))
        ∙ sym e
    | inr ne ↦ ground (
      arith,
      string_eq.beq_iff (key base n p) (key base m p),
      string_eq.beq_iff n m,
      key_inj n m p,
    )
  ]

  key_ends :
      (n p u : String)
      → base ++ ("/" ++ (n ++ ("/" ++ (p ++ u)))) ≡ (base ++ ("/" ++ (n ++ ("/" ++ p)))) ++ u
  key_ends n p u = simp append_assoc

  key_apart :
      (n m p q u v : String)
      → count u ≡ count v
      → (u == v) ≡ false
      → (key base n (p ++ u) == key base m (q ++ v)) ≡ false
  unfolding key
  key_apart n m p q u v len differ =
      elim (Bool-cases (key base n (p ++ u) == key base m (q ++ v))) [
        | inl e ↦ absurd (
            ends_apart (base ++ ("/" ++ (n ++ ("/" ++ p)))) (base ++ ("/" ++ (m ++ ("/" ++ q)))) u v
              len differ
              (sym (key_ends n p u)
                ∙ (string_eq.beq_iff (key base n (p ++ u)) (key base m (q ++ v))).0 e
                ∙ key_ends m q v))
        | inr ne ↦ ne
      ]

  pub done-config : (n m : String) → (key base n "DONE.json" == key base m "config.json") ≡ false
  done-config n m = key_apart n m "DON" "confi" "E.json" "g.json" refl refl

  pub checkpoint-config :
      (n m : String) → (key base n "checkpoint.npz" == key base m "config.json") ≡ false
  checkpoint-config n m = key_apart n m "checkpoint" "config." ".npz" "json" refl refl

  pub checkpoint-done :
      (n m : String) → (key base n "checkpoint.npz" == key base m "DONE.json") ≡ false
  checkpoint-done n m = key_apart n m "checkpoint" "DONE." ".npz" "json" refl refl

  pub done-checkpoint :
      (n m : String) → (key base n "DONE.json" == key base m "checkpoint.npz") ≡ false
  done-checkpoint n m = key_apart n m "DONE." "checkpoint" "json" ".npz" refl refl

  pub config-done : (n m : String) → (key base n "config.json" == key base m "DONE.json") ≡ false
  config-done n m = key_apart n m "confi" "DON" "g.json" "E.json" refl refl

  pub config-checkpoint :
      (n m : String) → (key base n "config.json" == key base m "checkpoint.npz") ≡ false
  config-checkpoint n m = key_apart n m "config." "checkpoint" "json" ".npz" refl refl
