-- ===== src/Farm/Shipment/Verified.antt =====
-- What an accepted shipment is (src/run_farm/farm.py, `verify_shipment`).
use run_farm.Prelude.{
  append-eq-nil, String, true, Option, none, some, List, [], ◌∷◌, ◌≡◌, ◌↔◌, ◌⊎◌, refl, arith, Dict,
  lookup, string_eq, inl, inr,
}
use run_farm.Json.{
  Value, null, flag, number, text, array, object, items_of, as_dict, is_text, Hashing, Dumped,
  dumped, refused, sha256_json,
}
use run_farm.Farm.Shipment.{
  contract_keys, dict_violation, dict_or_empty, key_violation, shape_violations, product_violation,
  product_violations, sha_violation, sha_violations, verify_shipment, after_shape,
  content_violations,
}

-- The shipment has a dictionary under the key.
abbrev pub HasDict : Dict String Value → String → Dict String Value → Type 0
HasDict shipment key d = (v : Value) × (lookup key shipment ≡ some v) × (as_dict v ≡ some d)

-- Each product hashes to what the sidecar has under its name.
abbrev pub Intact : Hashing → Dict String Value → Dict String Value → Type 0
Intact h sidecar [] = Unit
Intact h sidecar ((name, obj) ∷ products) =
    ((digest : String) × (sha256_json h obj ≡ dumped digest)
      × (lookup name sidecar ≡ some (text digest)))
    × Intact h sidecar products

-- Each required slot was attested with the required digest.
abbrev pub Attested : Dict String Value → Dict String String → Type 0
Attested attested [] = Unit
Attested attested ((slot, sha) ∷ required) =
    (lookup slot attested ≡ some (text sha)) × Attested attested required

pub record IsVerified (h : Hashing) (shipment : Value) (required : Dict String String)
    : Type 0 where
  pub dict : Dict String Value
  pub products : Dict String Value
  pub sidecar : Dict String Value
  pub attested : Dict String Value
  pub is_dict : as_dict shipment ≡ some dict
  pub has_products : HasDict dict "products" products
  pub has_sidecar : HasDict dict "sidecar" sidecar
  pub has_attested : HasDict dict "attested_shas" attested
  pub intact : Intact h sidecar products
  pub engines : Attested attested required

is_text_iff : (v : Option Value) (s : String) → (is_text v s ≡ true) ↔ (v ≡ some (text s))
is_text_iff none s = (λ h. cc, λ h. cc)
is_text_iff (some (text t)) s =
    (λ h. ground (arith, string_eq.beq_iff t s), λ h. ground (arith, string_eq.beq_iff t s))
is_text_iff (some null) s = (λ h. cc, λ h. cc)
is_text_iff (some (flag b)) s = (λ h. cc, λ h. cc)
is_text_iff (some (number n)) s = (λ h. cc, λ h. cc)
is_text_iff (some (array xs)) s = (λ h. cc, λ h. cc)
is_text_iff (some (object fs)) s = (λ h. cc, λ h. cc)

Dumped-cases : (d : Dumped) → ((s : String) × (d ≡ dumped s)) ⊎ ((m : String) × (d ≡ refused m))
Dumped-cases (dumped s) = inl (s, refl)
Dumped-cases (refused m) = inr (m, refl)

module _ (h : Hashing) where
  product_violation-eq-nil :
      (sidecar : Dict String Value) (name : String) (obj : Value)
      → (product_violation h sidecar name obj ≡ []) ↔ (
          (digest : String) × (sha256_json h obj ≡ dumped digest)
          × (lookup name sidecar ≡ some (text digest)))
  unfolding product_violation
  product_violation-eq-nil sidecar name obj = (
    λ e. elim (Dumped-cases (sha256_json h obj)) [
      | inl (digest, hashed) ↦
          (digest, hashed, (is_text_iff (lookup name sidecar) digest).0 (ground arith))
      | inr (m, bad) ↦ ground arith
    ],
    λ (digest, hashed, found). ground (arith, (is_text_iff (lookup name sidecar) digest).1 found),
  )

  product_violations-eq-nil :
      (sidecar products : Dict String Value)
      → (product_violations h sidecar products ≡ []) ↔ Intact h sidecar products
  unfolding product_violations
  product_violations-eq-nil sidecar [] = (λ _. tt, λ _. refl)
  product_violations-eq-nil sidecar ((name, obj) ∷ products) =
      let one = product_violation-eq-nil sidecar name obj in
      let rest = product_violations-eq-nil sidecar products in
      (
        λ e.
            let (e1, e2) = append-eq-nil (product_violation h sidecar name obj) _ e in
            (one.0 e1, rest.0 e2),
        λ v. ground (arith, one.1 v.0, rest.1 v.1),
      )

  sha_violation-eq-nil :
      (attested : Dict String Value) (slot sha : String)
      → sha_violation h attested slot sha ≡ []
      → is_text (lookup slot attested) sha ≡ true
  unfolding sha_violation
  sha_violation-eq-nil attested slot sha e = ground arith

  sha_violations-eq-nil :
      (attested : Dict String Value) (required : Dict String String)
      → (sha_violations h attested required ≡ []) ↔ Attested attested required
  unfolding sha_violations sha_violation
  sha_violations-eq-nil attested [] = (λ _. tt, λ _. refl)
  sha_violations-eq-nil attested ((slot, sha) ∷ required) =
      let rest = sha_violations-eq-nil attested required in
      let found = is_text_iff (lookup slot attested) sha in
      (
        λ e.
            let (e1, e2) = append-eq-nil (sha_violation h attested slot sha) _ e in
            (found.0 (sha_violation-eq-nil attested slot sha e1), rest.0 e2),
        λ v. ground (arith, found.1 v.0, rest.1 v.1),
      )

abbrev IsDict : Option Value → Dict String Value → Type 0
IsDict o d = (v : Value) × (o ≡ some v) × (as_dict v ≡ some d)

dict_violation-eq-nil :
    (key : String) (o : Option Value) → dict_violation key o ≡ [] → IsDict o (dict_or_empty o)
unfolding dict_violation
dict_violation-eq-nil key none e = cc
dict_violation-eq-nil key (some (object fs)) e = (object fs, refl, refl)
dict_violation-eq-nil key (some _) e = cc

dict_violation-IsDict :
    (key : String) (o : Option Value) (d : Dict String Value)
    → IsDict o d
    → (dict_violation key o ≡ []) × (dict_or_empty o ≡ d)
unfolding dict_violation
dict_violation-IsDict key none d (v, found, dict) = cc
dict_violation-IsDict key (some (object fs)) d (v, found, dict) = (refl, cc)
dict_violation-IsDict key (some w) d (v, found, dict) = absurd (cc)

module _ (h : Hashing) (required : Dict String String) where
  after_shape-eq-nil :
      (vs : List String) (d : Dict String Value)
      → after_shape h vs d required ≡ []
      → (vs ≡ []) × (content_violations h d required ≡ [])
  after_shape-eq-nil [] d e = (refl, e)
  after_shape-eq-nil (v ∷ vs) d e = cc

  accepted :
      (shipment : Value) (d : Dict String Value)
      → as_dict shipment ≡ some d
      → after_shape h (shape_violations d contract_keys) d required ≡ []
      → IsVerified h shipment required
  unfolding shape_violations key_violation
  accepted shipment d is e =
      let (shape, content) = after_shape-eq-nil (shape_violations d contract_keys) d e in
      let ps = lookup "products" d in
      let sc = lookup "sidecar" d in
      let ats = lookup "attested_shas" d in
      let (e1, e23) = append-eq-nil (dict_violation "products" ps) _ shape in
      let (e2, e3) = append-eq-nil (dict_violation "sidecar" sc) _ e23 in
      let (e3', _) = append-eq-nil (dict_violation "attested_shas" ats) _ e3 in
      let (c1, c2) =
        append-eq-nil (product_violations h (dict_or_empty sc) (dict_or_empty ps)) _ content in
      record {
        dict = d;
        products = dict_or_empty ps;
        sidecar = dict_or_empty sc;
        attested = dict_or_empty ats;
        is_dict = is;
        has_products = dict_violation-eq-nil "products" ps e1;
        has_sidecar = dict_violation-eq-nil "sidecar" sc e2;
        has_attested = dict_violation-eq-nil "attested_shas" ats e3';
        intact = (product_violations-eq-nil h (dict_or_empty sc) (dict_or_empty ps)).0 c1;
        engines = (sha_violations-eq-nil h (dict_or_empty ats) required).0 c2;
      }

  checked :
      (d ps sc ats : Dict String Value)
      → HasDict d "products" ps
      → HasDict d "sidecar" sc
      → HasDict d "attested_shas" ats
      → Intact h sc ps
      → Attested ats required
      → after_shape h (shape_violations d contract_keys) d required ≡ []
  unfolding shape_violations key_violation
  checked d ps sc ats hp hs ha intact engines =
      let (p, p') = dict_violation-IsDict "products" (lookup "products" d) ps hp in
      let (s, s') = dict_violation-IsDict "sidecar" (lookup "sidecar" d) sc hs in
      let (a, a') = dict_violation-IsDict "attested_shas" (lookup "attested_shas" d) ats ha in
      rw (
        p,
        s,
        a,
        p',
        s',
        a',
        (product_violations-eq-nil h sc ps).1 intact,
        (sha_violations-eq-nil h ats required).1 engines,
      )

-- `verify_shipment` finds no violation exactly when the shipment is a dictionary with its three
-- dictionaries, each product hashes to its sidecar entry, and each required slot is attested.
pub verify_shipment-eq-nil :
    (h : Hashing) (shipment : Value) (required : Dict String String)
    → (verify_shipment h shipment required ≡ []) ↔ IsVerified h shipment required
unfolding verify_shipment
verify_shipment-eq-nil h (object fs) required = (
  accepted h required (object fs) (items_of fs) refl,
  λ v.
      let same : items_of fs ≡ v.dict = cc (v.is_dict) in
      rw same (
        checked h required v.dict v.products v.sidecar v.attested v.has_products v.has_sidecar
          v.has_attested v.intact v.engines),
)
verify_shipment-eq-nil h _ required = (λ e. cc, λ v. cc (v.is_dict))
