-- ===== src/Gauntlet/Facts.antt =====
-- What is known where a check of src/run_farm/gauntlet.py lets a launch through.
use run_farm.Prelude.{
  ℕ, ◌%◌, ◌≤◌, ◌≡◌, refl, ap, String, Bool, true, false, inl, inr, Option, none, some, List, [],
  ◌∷◌, string_eq, map, length, leb, suffixed, concat, join, Bool-cases, All, if◌then◌else◌, arith,
}
use run_farm.Fleet.{Paths}
use run_farm.Gauntlet.{Fallible, returns, throws, CheckResult, blocking, is_in}
use run_farm.Gauntlet.Checks.{
  Desk, Vendor, fingerprint, text_fingerprint, present, ssh_key_present, ssh_key_registered,
  payload_closed, out_dir_writable, offers_available, on_problems, on_write, on_keys, with_key,
  on_offers, lacking, on_missing,
}
use run_farm.Gauntlet.Launch.{Launch}
use run_farm.Gauntlet.Cleared.{Lets}

test_passes :
    (b : Bool) (x y : CheckResult)
    → blocking (if b then x else y) ≡ false
    → blocking y ≡ true
    → b ≡ true
test_passes true x y h k = refl
test_passes false x y h k = cc

test_returns :
    {P : Type 0} (b : Bool) (x : Fallible CheckResult × P) (r : CheckResult) (q : P)
    → Lets (if b then x else (returns r, q)).0
    → blocking r ≡ true
    → b ≡ true
test_returns true x r q h k = refl
test_returns false x r q h k = cc

module _ {P : Type 0} (desk : Desk P) (vendor : Vendor P) (paths : Paths) (launch : Launch) where
  -- ssh can offer the key, and its public half is there.
  abbrev pub KeyUsable : P → Type 0
  KeyUsable p =
      (desk.exists p launch.key ≡ true)
      × (desk.mode p launch.key % 64 ≡ 0)
      × (desk.exists p (suffixed launch.key ".pub") ≡ true)

  -- The provider has the key on file, asked on the state `p`.
  abbrev pub Registered : P → Type 0
  Registered p =
      (mine : String) × (lister : P → Fallible (List String) × P) × (entries : List String)
      × (fingerprint desk p (suffixed launch.key ".pub") ≡ some mine)
      × (vendor.registered_ssh_keys ≡ some lister)
      × ((lister p).0 ≡ returns entries)
      × (is_in mine (present (map (text_fingerprint desk (lister p).1) entries)) ≡ true)

  abbrev pub Offered : P → Type 0
  Offered p =
      (prices : List ℕ) × ((vendor.offers p).0 ≡ returns prices) × (launch.minimum ≤ length prices)

  abbrev pub PayloadRuns : Bool → P → Type 0
  PayloadRuns true p = (desk.validate_flat p).0 ≡ returns []
  PayloadRuns false p = Unit

  abbrev pub after_payload : Bool → P → P
  after_payload true p = (payload_closed desk p).1
  after_payload false p = p

  pub key_lem : (p : P) → Lets (returns (ssh_key_present desk launch.key p)) → KeyUsable p
  unfolding ssh_key_present
  key_lem p h = ground (arith, h)

  pub dir_lem :
      (p : P)
      → Lets (returns (out_dir_writable desk launch.out_dir p).0)
      → (desk.write_probe p launch.out_dir).0 ≡ returns tt
  unfolding out_dir_writable
  dir_lem p h = by_write (desk.write_probe p launch.out_dir) h
    where
      by_write :
          (w : Fallible (Unit {0}) × P)
          → blocking (on_write desk launch.out_dir w).0 ≡ false
          → w.0 ≡ returns tt
      by_write (returns u, q) h = refl
      by_write (throws e, q) h = cc

  pub missing_lem :
      (ms absent : List String) → blocking (on_missing vendor ms absent) ≡ false → ms ≡ []
  unfolding concat join
  missing_lem [] absent h = refl
  missing_lem (m ∷ ms) absent h = cc

  pub lacking_lem :
      (ms : List String) → lacking vendor ms ≡ [] → All (λ m. vendor.has_method m ≡ true) ms
  lacking_lem [] h = tt
  lacking_lem (m ∷ ms) h = elim (Bool-cases (vendor.has_method m)) [
    | inl there ↦ (there, lacking_lem ms (rw there at h))
    | inr absent ↦ cc (rw absent at h)
  ]

  pub payload_lem : (p : P) → Lets (payload_closed desk p).0 → (desk.validate_flat p).0 ≡ returns []
  unfolding payload_closed
  payload_lem p h = by_problems (desk.validate_flat p) h
    where
      by_problems :
          (w : Fallible (List String) × P) → Lets (on_problems desk w).0 → w.0 ≡ returns []
      by_problems (returns [], q) h = refl
      by_problems (returns (x ∷ xs), q) h = cc
      by_problems (throws e, q) h = absurd h

  pub registered_lem : (p : P) → Lets (ssh_key_registered desk vendor launch.key p).0 → Registered p
  unfolding ssh_key_registered
  registered_lem p h =
      by_key (fingerprint desk p (suffixed launch.key ".pub")) vendor.registered_ssh_keys refl refl
        h
    where
      by_answer :
          (mine : String) (lister : P → Fallible (List String) × P) (w : Fallible (List String) × P)
          → fingerprint desk p (suffixed launch.key ".pub") ≡ some mine
          → vendor.registered_ssh_keys ≡ some lister
          → lister p ≡ w
          → Lets (on_keys desk mine w).0
          → Registered p
      by_answer mine lister (returns entries, q) e f g h = (
        mine,
        lister,
        entries,
        e,
        f,
        ap (λ w. w.0) g,
        rw g
            (test_passes (is_in mine (present (map (text_fingerprint desk q) entries))) _ _ h refl),
      )
      by_answer mine lister (throws x, q) e f g h = absurd h

      by_key :
          (o : Option String) (l : Option (P → Fallible (List String) × P))
          → fingerprint desk p (suffixed launch.key ".pub") ≡ o
          → vendor.registered_ssh_keys ≡ l
          → Lets (with_key desk o l p).0
          → Registered p
      by_key none l e f h = cc
      by_key (some mine) none e f h = cc
      by_key (some mine) (some lister) e f h = by_answer mine lister (lister p) e f refl h

  pub offers_lem : (p : P) → Lets (offers_available vendor launch.minimum p).0 → Offered p
  unfolding offers_available
  offers_lem p h = by_offers (vendor.offers p) h
    where
      by_offers :
          (w : Fallible (List ℕ) × P)
          → Lets (on_offers vendor launch.minimum w).0
          → (prices : List ℕ) × (w.0 ≡ returns prices) × (launch.minimum ≤ length prices)
      by_offers (returns ds, q) h =
          let enough = test_returns (leb launch.minimum (length ds)) _ _ q h refl in
          (ds, refl, ground (arith, enough))
      by_offers (throws e, q) h = absurd h
