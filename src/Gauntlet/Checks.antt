-- ===== src/Gauntlet/Checks.antt =====
-- src/run_farm/gauntlet.py: the checks of a fleet's launch and of the local machine.
--
-- `P` is the state of the machine and the providers. Amounts of money are micro-dollars, paths have no `~`. The texts
-- of details are shortened to what differs from case to case, those of `proves` to their first claim.
use package.text.Mathlib.Text.{starts_with}
use run_farm.Prelude.{
  ℕ, ◌%◌, String, Bool, true, false, not, Option, none, some, List, [], ◌∷◌, ◌==◌, string_eq, leb,
  nat_beq, length, map, keep_if, join, concat, suffixed, if◌then◌else◌,
}
use run_farm.Gauntlet.{Fallible, returns, throws, CheckResult, is_in}

-- The files, ssh-keygen (its exit code and output, or `none` where it cannot run), an ssh to a host, and the flat
-- run of the payload (run_farm/payload.py), which answers with its problems. `write_probe` makes the directory and
-- writes a file in it; `throws` is an OSError.
pub record Desk (P : Type 0) : Type 0 where
  pub exists : P → String → Bool
  pub mode : P → String → ℕ
  pub keygen : P → String → Option (ℕ × String)
  pub keygen_of_text : P → String → Option (ℕ × String)
  pub words : String → List String
  pub ssh : P → String → (ℕ × String) × P
  pub validate_flat : P → Fallible (List String) × P
  pub write_probe : P → String → Fallible (Unit {0}) × P

-- The provider: whether a name is a method of it, `registered_ssh_keys` where it has one, and the prices of the
-- offers that meet the spec.
pub record Vendor (P : Type 0) : Type 0 where
  pub name : String
  pub has_method : String → Bool
  pub registered_ssh_keys : Option (P → Fallible (List String) × P)
  pub offers : P → Fallible (List ℕ) × P

module _ (name proves : String) where
  abbrev pub passing : String → CheckResult
  passing detail = record {
    name = name;
    passed = true;
    detail = detail;
    proves = proves;
    fatal = true;
  }

  abbrev pub failing : Bool → String → CheckResult
  failing fatal detail = record {
    name = name;
    passed = false;
    detail = detail;
    proves = proves;
    fatal = fatal;
  }

-- next((p for p in parts if p.startswith("SHA256:")), None)
unfoldable pub first_digest : List String → Option String
first_digest [] = none
first_digest (w ∷ ws) = if starts_with w "SHA256:" then some w else first_digest ws

-- The texts that are there and not empty.
unfoldable pub present : List (Option String) → List String
present [] = []
present (none ∷ os) = present os
present (some s ∷ os) = if s == "" then present os else s ∷ present os

-- min(o.dph for o in offers)
unfoldable pub cheapest : List ℕ → Option ℕ
cheapest [] = none
cheapest (d ∷ ds) = elim (cheapest ds) [ none ↦ some d | some e ↦ some (if leb d e then d else e) ]

module _ {P : Type 0} (desk : Desk P) where
  -- `_fingerprint`, of what ssh-keygen answers.
  abbrev pub digest_in : Option (ℕ × String) → Option String
  digest_in none = none
  digest_in (some (rc, out)) = if nat_beq rc 0 then first_digest (desk.words out) else none

  unfoldable pub fingerprint : P → String → Option String
  fingerprint p path = digest_in (desk.keygen p path)

  unfoldable pub text_fingerprint : P → String → Option String
  text_fingerprint p text = digest_in (desk.keygen_of_text p text)

  unfoldable pub ssh_key_present : String → P → CheckResult
  ssh_key_present key p =
      let fail =
        failing "ssh-key-present" "ssh has a private key to offer, and its public half is readable."
          true in
      let pass =
        passing "ssh-key-present"
          "ssh has a private key to offer, and its public half is readable." in
      if not (desk.exists p key)
      then fail (concat (key ∷ " does not exist" ∷ []))
      else if not (nat_beq (desk.mode p key % 64) 0)
      then fail (concat (key ∷ ": ssh refuses group/world-readable private keys" ∷ []))
      else if not (desk.exists p (suffixed key ".pub"))
      then fail (concat (key ∷ ".pub is missing" ∷ []))
      else pass (concat (key ∷ " present" ∷ []))

  abbrev pub registered_name : String
  registered_name = "ssh-key-registered"

  abbrev pub registered_proves : String
  registered_proves = "the key ssh will offer is one the provider has on file."

  -- The provider's answer, for the fingerprint of the local key.
  abbrev pub on_keys : String → Fallible (List String) × P → Fallible CheckResult × P
  on_keys mine (throws e, p) = (throws e, p)
  on_keys mine (returns entries, p) = (
    returns (
        if is_in mine (present (map (text_fingerprint p) entries))
        then passing registered_name registered_proves (concat (mine ∷ " is registered" ∷ []))
        else failing registered_name registered_proves true
            (concat (mine ∷ " is NOT among the keys" ∷ []))),
    p,
  )

  abbrev pub with_key :
      Option String → Option (P → Fallible (List String) × P) → P → Fallible CheckResult × P
  with_key none lister p =
      (returns (failing registered_name registered_proves true "cannot fingerprint"), p)
  with_key (some mine) none p = (
    returns (failing registered_name registered_proves true "exposes no registered_ssh_keys()"),
    p,
  )
  with_key (some mine) (some lister) p = on_keys mine (lister p)

  unfoldable pub ssh_key_registered : Vendor P → String → P → Fallible CheckResult × P
  ssh_key_registered vendor key p =
      with_key (fingerprint p (suffixed key ".pub")) vendor.registered_ssh_keys p

  unfoldable pub ssh_handshake : String → P → CheckResult × P
  ssh_handshake host p =
      let fail = failing "ssh-handshake" "ssh authenticated to THIS host and ran a command." true in
      let pass = passing "ssh-handshake" "ssh authenticated to THIS host and ran a command." in
      let ((rc, out), p') = desk.ssh p host in
      if nat_beq rc 0
      then (pass (concat ("authenticated to " ∷ host ∷ [])), p')
      else (fail (concat (host ∷ ": " ∷ out ∷ [])), p')

  abbrev pub on_problems : Fallible (List String) × P → Fallible CheckResult × P
  on_problems (throws e, p) = (throws e, p)
  on_problems (returns [], p) =
      (returns (passing "payload-closed" "every shipped file exists" "run flat"), p)
  on_problems (returns (x ∷ xs), p) =
      (returns (failing "payload-closed" "every shipped file exists" true (join "; " (x ∷ xs))), p)

  unfoldable pub payload_closed : P → Fallible CheckResult × P
  payload_closed p = on_problems (desk.validate_flat p)

  abbrev pub on_write : String → Fallible (Unit {0}) × P → CheckResult × P
  on_write path (throws e, p) = (
    failing "out-dir-writable"
        "this process can create and write files under the output dir right now." true
        (concat (path ∷ ": " ∷ e ∷ [])),
    p,
  )
  on_write path (returns u, p) = (
    passing "out-dir-writable"
        "this process can create and write files under the output dir right now."
        (concat (path ∷ " writable" ∷ [])),
    p,
  )

  unfoldable pub out_dir_writable : String → P → CheckResult × P
  out_dir_writable path p = on_write path (desk.write_probe p path)

module _ {P : Type 0} (vendor : Vendor P) where
  -- `min` of no offers is a ValueError.
  abbrev pub on_offers : ℕ → Fallible (List ℕ) × P → Fallible CheckResult × P
  on_offers minimum (throws e, p) = (throws e, p)
  on_offers minimum (returns ds, p) =
      let fail =
        failing "offers-available"
          "the provider listed rentable offers meeting the spec at this moment." true in
      let pass =
        passing "offers-available"
          "the provider listed rentable offers meeting the spec at this moment." in
      if leb minimum (length ds)
      then (
        elim (cheapest ds) [
          | none ↦ throws "min() iterable argument is empty"
          | some d ↦ returns (pass "offer(s)")
        ],
        p,
      )
      else (returns (fail "too few offer(s) meet the spec"), p)

  unfoldable pub offers_available : ℕ → P → Fallible CheckResult × P
  offers_available minimum p = on_offers minimum (vendor.offers p)

  abbrev pub lacking : List String → List String
  lacking names = keep_if (λ m. not (vendor.has_method m)) names

  abbrev pub on_missing : List String → List String → CheckResult
  on_missing [] absent =
      passing "provider-capable" "the provider exposes the methods named as required"
        (concat ("has all required; absent optional: " ∷ join ", " absent ∷ []))
  on_missing (m ∷ ms) absent =
      failing "provider-capable" "the provider exposes the methods named as required" true
        (concat ("MISSING required method(s): " ∷ join ", " (m ∷ ms) ∷ []))

  unfoldable pub provider_capable : List String → List String → CheckResult
  provider_capable required optional = on_missing (lacking required) (lacking optional)
