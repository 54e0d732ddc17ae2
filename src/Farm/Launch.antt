-- ===== src/Farm/Launch.antt =====
-- src/run_farm/farm.py, `launch_gate`: the launched configs are the planned ones.
use run_farm.Prelude.{
  ◌≡◌, ◌↔◌, refl, String, Bool, true, false, List, [], ◌∷◌, ◌++◌, Dict, lookup, insert, has,
  has-insert, ◌==◌, string_eq, if◌then◌else◌, concat, join, sorted, append-eq-nil, arith, beq_refl,
}
use run_farm.Config.{Config}

-- `{c.config_hash(): c.params["rid"] for c in configs}`
unfoldable pub rids_by_hash : Dict String String → List Config → Dict String String
rids_by_hash acc [] = acc
rids_by_hash acc (c ∷ cs) = rids_by_hash (insert c.config_hash c.rid acc) cs

-- `[p[h] for h in set(p) - set(q)]`; the order is lost in `sorted`.
unfoldable pub rids_outside : Dict String String → Dict String String → List String
rids_outside [] q = []
rids_outside ((h, rid) ∷ p) q = if has h q then rids_outside p q else rid ∷ rids_outside p q

-- The `repr` of a list of texts, up to escapes.
unfoldable pub repr : List String → String
repr ss = concat ("['" ∷ join "', '" ss ∷ "']" ∷ [])

unfoldable pub set_violation : String → List String → List String
set_violation what [] = []
set_violation what (rid ∷ rids) =
    concat (what ∷ " legs at launch: " ∷ repr (sorted (rid ∷ rids)) ∷ []) ∷ []

unfoldable pub launch_gate : List Config → List Config → List String
launch_gate planned launched =
    let p = rids_by_hash [] planned in
    let q = rids_by_hash [] launched in
    set_violation "MISSING" (rids_outside p q) ++ set_violation "UNPLANNED" (rids_outside q p)

-- The hash is that of one of the configs.
abbrev pub hashes : List Config → String → Bool
hashes [] h = false
hashes (c ∷ cs) h = if c.config_hash == h then true else hashes cs h

has-rids_by_hash :
    (acc : Dict String String) (cs : List Config) (h : String)
    → has h (rids_by_hash acc cs) ≡ (if has h acc then true else hashes cs h)
unfolding rids_by_hash
has-rids_by_hash acc [] h = ground arith
has-rids_by_hash acc (c ∷ cs) h = ground (
  arith,
  has-insert c.config_hash h c.rid acc,
  has-rids_by_hash (insert c.config_hash c.rid acc) cs h,
)

has-cons :
    (h k r : String) (p : Dict String String)
    → has h ((k, r) ∷ p) ≡ (if k == h then true else has h p)
unfolding has lookup
has-cons h k r p = ground arith

rids_outside-eq-nil :
    (p q : Dict String String)
    → rids_outside p q ≡ []
    → (h : String) → has h p ≡ true
    → has h q ≡ true
unfolding rids_outside
rids_outside-eq-nil [] q e h t = absurd (unfold has lookup in cc)
rids_outside-eq-nil ((k, r) ∷ p) q e h t =
    ground
      (arith, has-cons h k r p, string_eq.beq_iff k h, rids_outside-eq-nil p q (ground arith) h)

rids_outside_none :
    (p q : Dict String String)
    → ((h : String) → has h p ≡ true → has h q ≡ true)
    → rids_outside p q ≡ []
unfolding rids_outside
rids_outside_none [] q sub = refl
rids_outside_none ((k, r) ∷ p) q sub = ground (
  arith,
  sub k,
  has-cons k k r p,
  beq_refl k,
  rids_outside_none p q (λ h t. sub h (ground (arith, has-cons h k r p))),
)

has-planned : (cs : List Config) (h : String) → has h (rids_by_hash [] cs) ≡ hashes cs h
unfolding has lookup
has-planned cs h = has-rids_by_hash [] cs h

set_violation-eq-nil :
    (what : String) (rids : List String) → set_violation what rids ≡ [] → rids ≡ []
unfolding set_violation
set_violation-eq-nil what [] e = refl
set_violation-eq-nil what (rid ∷ rids) e = cc

module _ (planned launched : List Config) where
  abbrev p : Dict String String
  p = rids_by_hash [] planned

  abbrev q : Dict String String
  q = rids_by_hash [] launched

  nothing_outside :
      launch_gate planned launched ≡ [] → (rids_outside p q ≡ []) × (rids_outside q p ≡ [])
  unfolding launch_gate
  nothing_outside e =
      let (e1, e2) = append-eq-nil (set_violation "MISSING" (rids_outside p q)) _ e in
      (set_violation-eq-nil "MISSING" _ e1, set_violation-eq-nil "UNPLANNED" _ e2)

  same_hashes :
      launch_gate planned launched ≡ [] → (h : String) → hashes planned h ≡ hashes launched h
  same_hashes e h =
      let (e1, e2) = nothing_outside e in
      ground (
        arith,
        rids_outside-eq-nil p q e1 h,
        rids_outside-eq-nil q p e2 h,
        has-planned planned h,
        has-planned launched h,
      )

  gate_passes :
      ((h : String) → hashes planned h ≡ hashes launched h) → launch_gate planned launched ≡ []
  unfolding launch_gate set_violation
  gate_passes same = rw (
    rids_outside_none p q
        (λ h t. ground (arith, same h, has-planned planned h, has-planned launched h)),
    rids_outside_none q p
        (λ h t. ground (arith, same h, has-planned planned h, has-planned launched h)),
  )

-- The gate finds no violation exactly when the config hashes launched are the ones planned.
pub launch_gate-eq-nil :
    (planned launched : List Config)
    → (launch_gate planned launched ≡ []) ↔ ((h : String) → hashes planned h ≡ hashes launched h)
launch_gate-eq-nil planned launched = (same_hashes planned launched, gate_passes planned launched)
