-- ===== src/Gauntlet/Ready.antt =====
-- What is known of a fleet's launch that `standard_gauntlet` of src/run_farm/gauntlet.py lets through.
use run_farm.Prelude.{
  ◌≡◌, refl, sym, ap, String, Bool, true, false, ◌⊎◌, inl, inr, List, [], ◌∷◌, ◌++◌, string_eq, All,
}
use run_farm.Fleet.{Paths}
use run_farm.Gauntlet.{
  returns, CheckResult, Check, is_in, cleared, run_check, require_gauntlet, unskipped,
}
use run_farm.Gauntlet.Checks.{
  Desk, Vendor, ssh_key_registered, payload_closed, out_dir_writable, provider_capable, lacking,
}
use run_farm.Gauntlet.Launch.{
  Launch, payload_check, resume_check, registered_check, offers_check, all_checks,
  standard_gauntlet, only_if, is_some_leg,
}
use run_farm.Gauntlet.Cleared.{AllClear, require_gauntlet-Justified}
use run_farm.Gauntlet.Facts.{
  KeyUsable, Registered, Offered, PayloadRuns, after_payload, key_lem, dir_lem, missing_lem,
  lacking_lem, payload_lem, registered_lem, offers_lem,
}

justified-Clear :
    {P : Type 0} (cs : List (Check P)) (p : P) (rs : List CheckResult)
    → (require_gauntlet cs [] p).0 ≡ cleared rs
    → AllClear [] cs p
justified-Clear cs p rs h = (rw h at (require_gauntlet-Justified cs [] p)).1

module _ {P : Type 0} (desk : Desk P) (vendor : Vendor P) (paths : Paths) (launch : Launch) where
  unnamed : (name : String) {A : Type 0} → (is_in name [] ≡ true) ⊎ A → A
  unfolding is_in
  unnamed name (inl e) = cc
  unnamed name (inr a) = a

  abbrev last_checks : List (Check P)
  last_checks =
      registered_check desk vendor paths launch ∷ offers_check desk vendor paths launch ∷ []

  abbrev EndsReady : P → Type 0
  EndsReady p =
      Registered desk vendor paths launch p
      × Offered desk vendor paths launch (ssh_key_registered desk vendor launch.key p).1

  last_lem : (p : P) → AllClear [] last_checks p → EndsReady p
  unfolding AllClear run_check is_in
  last_lem p h = (
    registered_lem desk vendor paths launch p (unnamed "ssh-key-registered" h.0),
    offers_lem desk vendor paths launch (ssh_key_registered desk vendor launch.key p).1
        (unnamed "offers-available" h.1.0),
  )

  resume_lem :
      (b : Bool) (p : P)
      → AllClear [] (only_if b (resume_check desk vendor paths launch) ++ last_checks) p
      → EndsReady p
  unfolding AllClear run_check is_in
  resume_lem true p h = last_lem p h.1
  resume_lem false p h = last_lem p h

  abbrev later_checks : Bool → List (Check P)
  later_checks b =
      only_if b (payload_check desk vendor paths launch)
      ++ (only_if (is_some_leg launch.legs) (resume_check desk vendor paths launch) ++ last_checks)

  later_lem :
      (b : Bool) (p : P)
      → AllClear [] (later_checks b) p
      → PayloadRuns desk vendor paths launch b p
        × EndsReady (after_payload desk vendor paths launch b p)
  unfolding AllClear run_check is_in
  later_lem true p h = (
    payload_lem desk vendor paths launch p (unnamed "payload-closed" h.0),
    resume_lem (is_some_leg launch.legs) (payload_closed desk p).1 h.1,
  )
  later_lem false p h = (tt, resume_lem (is_some_leg launch.legs) p h)

  -- What holds on the states that the checks see: the first one, that after the probe of the directory, that after
  -- the payload ran, and that after the provider listed its keys.
  abbrev pub Ready : P → Type 0
  Ready p =
      let written = (out_dir_writable desk launch.out_dir p).1 in
      KeyUsable desk vendor paths launch p
      × ((desk.write_probe p launch.out_dir).0 ≡ returns tt)
      × All (λ m. vendor.has_method m ≡ true) launch.required
      × PayloadRuns desk vendor paths launch launch.payload written
      × EndsReady (after_payload desk vendor paths launch launch.payload written)

  clear-Ready : (p : P) → AllClear [] (all_checks desk vendor paths launch) p → Ready p
  unfolding AllClear run_check is_in all_checks provider_capable
  clear-Ready p h =
      let (key, rest) = h in
      let (dir, rest2) = rest in
      let (method, later) = rest2 in
      let (runs, ends) =
        later_lem launch.payload (out_dir_writable desk launch.out_dir p).1 later in
      (
        key_lem desk vendor paths launch p (unnamed "ssh-key-present" key),
        dir_lem desk vendor paths launch p (unnamed "out-dir-writable" dir),
        lacking_lem desk vendor paths launch launch.required (
            missing_lem desk vendor paths launch (lacking vendor launch.required)
              (lacking vendor launch.optional) (unnamed "provider-capable" method)),
        runs,
        ends,
      )

  all_kept : (cs : List (Check P)) → unskipped [] cs ≡ cs
  unfolding unskipped is_in
  all_kept [] = refl
  all_kept (c ∷ cs) = ap (λ ds. c ∷ ds) (all_kept cs)

  -- A launch that `require_gauntlet` lets through on the standard checks, with none skipped, is ready: the private
  -- key is there, closed to others, with its public half; the output directory can be written; the provider has the
  -- methods that are required; a payload that is given runs flat; the provider has the key of that public half on
  -- file; and it offers at least the hosts asked for. Each holds on the state on which it was checked.
  pub standard_gauntlet-Ready :
      (p : P) (rs : List CheckResult)
      → (require_gauntlet (standard_gauntlet desk vendor paths launch []) [] p).0 ≡ cleared rs
      → Ready p
  unfolding standard_gauntlet
  standard_gauntlet-Ready p rs h = clear-Ready p (
      rw (sym (all_kept (all_checks desk vendor paths launch)))
        (justified-Clear (standard_gauntlet desk vendor paths launch []) p rs h))
