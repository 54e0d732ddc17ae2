-- ===== src/Reap/Closed.antt =====
-- What a ledger charges after the closing by src/run_farm/reap.py.
use run_farm.Prelude.{
  ℕ, ◌≡◌, refl, sym, ◌∙◌, ap, String, Bool, true, false, not, ◌&&◌, ◌||◌, List, ◌++◌, map, has, any,
  any-append, any_mono, any-sorted, sorted, ◌==◌, string_eq, arith, ◌⊎◌, inl, inr, Bool-cases,
}
use run_farm.Ledger.{Line, rows}
use run_farm.Ledger.Open.{rents, destroys}
use run_farm.Budget.Cap.{Burns, Burns-iff}
use run_farm.Reap.Leaks.{
  Ids, members, of_list, minus, leaked_ids, rent_rows, close_ledger_rows, close_rows,
}
use run_farm.Reap.Destroy.{Instance, Swept}
use run_farm.Reap.Sets.{has-minus, has-of_list, any-members, has-leaked_ids, sees, confirms}
use run_farm.Reap.{past_grace, vanished, killed_ids, close}
use run_farm.Reap.Closing.{Keyed-rent_rows, close_rows-any, has-keep_past_grace}

-- The listing has the id.
abbrev pub is_live : String → List Instance → Bool
is_live x live = any (λ (i : String). i == x) (map (λ (i : Instance). i.id) live)

-- What burns is leaked.
leaked_of_burning :
    (lines : List Line) (x : String)
    → any (rents x) (rows lines) ≡ true
    → any (destroys x) (rows lines) ≡ false
    → has x (leaked_ids lines) ≡ true
leaked_of_burning lines x r d =
    let seen = any_mono (rents x) (sees x) (rows lines) (λ y e. ground arith) r in
    let open_ =
      elim (Bool-cases (any (confirms x) (rows lines)))
        as (λ _. any (confirms x) (rows lines) ≡ false) [
          | inl c ↦
              let bad = any_mono (confirms x) (destroys x) (rows lines) (λ y e. ground arith) c in
              ground arith
          | inr c ↦ c
        ] in
    ground (arith, has-leaked_ids lines x)

has-vanished :
    (lines : List Line) (live : List Instance) (killed : Ids) (now : ℕ) (x : String)
    → has x (vanished lines live killed now) ≡ (
        ((has x (leaked_ids lines) && not (is_live x live)) && not (has x killed))
        && past_grace now (rent_rows lines) x)
unfolding vanished
has-vanished lines live killed now x =
    let gone = of_list (map (λ (i : Instance). i.id) live) in
    let m1 = has-minus (leaked_ids lines) gone x in
    let m2 = has-minus (minus (leaked_ids lines) gone) killed x in
    let o = has-of_list (map (λ (i : Instance). i.id) live) x in
    has-keep_past_grace now (rent_rows lines) (minus (minus (leaked_ids lines) gone) killed) x
    ∙ ap (λ b. b && past_grace now (rent_rows lines) x) (ground arith)

any_of_closed :
    (killed lost : Ids) (x : String)
    → any (λ i. i == x) (sorted (members killed) ++ sorted (members lost))
      ≡ (has x killed || has x lost)
any_of_closed killed lost x =
    let p = λ (i : String). i == x in
    any-append p (sorted (members killed)) (sorted (members lost))
    ∙ ground (
      arith,
      any-sorted p (members killed),
      any-sorted p (members lost),
      any-members killed x,
      any-members lost x,
    )

or_false_left : (a b : Bool) → (a || b) ≡ false → a ≡ false
or_false_left a b h = ground arith

or_false_right : (a b : Bool) → (a || b) ≡ false → b ≡ false
or_false_right a b h = ground arith

or_false : (a b : Bool) → a ≡ false → b ≡ false → (a || b) ≡ false
or_false a b h k = ground arith

-- A row that was open stays open unless its id is killed, or lost: leaked, unseen, and past the grace.
stays_open :
    (leaked live killed past lost : Bool)
    → leaked ≡ true
    → lost ≡ (((leaked && not live) && not killed) && past)
    → ((killed || lost) ≡ false → (killed ≡ false) × (live ≡ true ⊎ past ≡ false))
      × (killed ≡ false → live ≡ true ⊎ past ≡ false → (killed || lost) ≡ false)
stays_open true true killed past lost l e = (λ h. (ground arith, inl refl), λ k o. ground arith)
stays_open true false killed true lost l e = (λ h. ground arith, λ k o. ground arith)
stays_open true false killed false lost l e = (λ h. (ground arith, inr refl), λ k o. ground arith)
stays_open false live killed past lost l e = ground arith

-- What burns after the closing burned before it, was not killed by this call, and is in the listing or
-- within the grace period; and whatever is so still burns.
pub close-Burns :
    (lines : List Line) (live : List Instance) (s : Swept) (now : ℕ) (x : String)
    → (Burns (rows (close lines live s now).0) x
        → Burns (rows lines) x
          × has x (killed_ids s) ≡ false
          × (is_live x live ≡ true ⊎ past_grace now (rent_rows lines) x ≡ false))
      × (Burns (rows lines) x
          → has x (killed_ids s) ≡ false
          → is_live x live ≡ true ⊎ past_grace now (rent_rows lines) x ≡ false
          → Burns (rows (close lines live s now).0) x)
unfolding close close_ledger_rows
close-Burns lines live s now x =
    let killed = killed_ids s in
    let lost = vanished lines live killed now in
    let ids = sorted (members killed) ++ sorted (members lost) in
    let rs = rent_rows lines in
    let after = close_rows rs now (λ i. has i killed) lines ids in
    let (d, r) = close_rows-any rs (Keyed-rent_rows lines) now (λ i. has i killed) lines ids x in
    let d' = d ∙ ap (λ b. any (destroys x) (rows lines) || b) (any_of_closed killed lost x) in
    let v = has-vanished lines live killed now x in
    let (to, from) = Burns-iff (rows after) x in
    let (to0, from0) = Burns-iff (rows lines) x in
    let open_ = λ (b : Burns (rows lines) x).
      stays_open (has x (leaked_ids lines)) (is_live x live) (has x killed) (past_grace now rs x)
        (has x lost) (leaked_of_burning lines x (to0 b).0 (to0 b).1) v in
    (
      λ b.
          let (r1, d1) = to b in
          let b0 = from0 (sym r ∙ r1) (
            or_false_left (any (destroys x) (rows lines)) (has x killed || has x lost)
              (sym d' ∙ d1)) in
          let rest = (open_ b0).0 (
            or_false_right (any (destroys x) (rows lines)) (has x killed || has x lost)
              (sym d' ∙ d1)) in
          (b0, rest.0, rest.1),
      λ b0 k o.
          let (r0, d0) = to0 b0 in
          from (r ∙ r0) (
            d'
            ∙ or_false (any (destroys x) (rows lines)) (has x killed || has x lost) d0
                ((open_ b0).1 k o)),
    )
