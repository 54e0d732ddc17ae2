-- ===== src/Fleet/Landing/Intact.antt =====
-- The artifacts behind a result OK of src/run_farm/fleet.py.
use run_farm.Prelude.{
  ℕ, ◌≡◌, refl, sym, ◌∙◌, String, Bool, true, false, not, ◌&&◌, ◌||◌, none, List, [], ◌∷◌, ◌==◌,
  string_eq, all, arith,
}
use run_farm.Arrival.Report.{is_ok, verify_report}
use run_farm.Arrival.Intact.{passes, verify_report_ok}
use run_farm.Fleet.{FleetLeg, ok_, gives, Site, Paths, Settings, marker}
use run_farm.Fleet.Host.{validate_artifacts, complete}
use run_farm.Fleet.Leg.{Pool, State, LegEnd, result, halted, run_leg}
use run_farm.Fleet.Leg.Sound.{Delivered, EndOk, run_leg-Ok}
use run_farm.Fleet.Landing.{Local, has_output, target, damage, wired}

-- The parts of a conjunction with what `all` adds at its end.
and_parts :
    (a b c : Bool) → (a && b && true && (c && true)) ≡ true → (a ≡ true) × (b ≡ true) × (c ≡ true)
and_parts true true true h = (refl, refl, refl)
and_parts true true false h = cc
and_parts true false c h = cc
and_parts false b c h = cc

marked : (a b : Bool) → ((not a && b) || a) ≡ true → (a || b) ≡ true
marked a b h = ground (arith, h)

module _ {P C : Type 0} (local_side : Local P C) (site : Site P) (paths : Paths)
    (settings : Settings) (leg : FleetLeg) where
  -- The marker is in the output, and the directory that was fetched is there, with each file in it residue of a
  -- write or one that verifies.
  abbrev pub Intact : P → Type 0
  Intact p =
      let disk = local_side.disk p in
      let root = target local_side paths p leg in
      ((marker paths leg == "" || has_output local_side paths p leg.label (marker paths leg))
        ≡ true)
      × (disk.exists root ≡ true)
      × (disk.is_dir root ≡ true)
      × (all (passes disk) (disk.rglob root "*") ≡ true)

  -- If the leg ends with OK, its output was intact when its host was closed, as the last thing.
  abbrev pub EndIntact : LegEnd × Pool × State P → Type 0
  EndIntact (result r, pool, s) =
      r.status ≡ ok_
      → (host : String) × (p : P) × Intact p × (site.close p host ≡ (gives tt, s.world))
  EndIntact (halted e, pool, s) = Unit

  damage_lem :
      (p : P)
      → damage local_side paths p leg ≡ none
      → is_ok (verify_report (local_side.disk p) (target local_side paths p leg) [] ("*" ∷ []))
        ≡ true
  unfolding damage
  damage_lem p h = ground (arith, h)

  Delivered-Intact :
      (p : P)
      → settings.validate_artifacts ≡ true
      → (leg.fetch == "") ≡ false
      → Delivered (wired local_side paths site) paths settings leg p
      → Intact p
  unfolding complete validate_artifacts
  Delivered-Intact p on fetches (placed, undamaged, passed) =
      let clean = damage_lem p (rw (on, fetches) at undamaged) in
      let root = target local_side paths p leg in
      let (there, walked, verified) =
        and_parts _ _ _ (sym (verify_report_ok (local_side.disk p) root [] ("*" ∷ [])) ∙ clean) in
      (
        marked (marker paths leg == "") (has_output local_side paths p leg.label (marker paths leg))
            placed,
        there,
        walked,
        verified,
      )

  end-Intact :
      (end : LegEnd × Pool × State P)
      → settings.validate_artifacts ≡ true
      → (leg.fetch == "") ≡ false
      → EndOk (wired local_side paths site) paths settings leg end
      → EndIntact end
  end-Intact (result r, pool, s) on fetches h = λ ok.
      let (p0, offer, host, p1, rented, (p, worked, delivered, closed)) = h ok in
      (host, p, Delivered-Intact p on fetches delivered, closed)
  end-Intact (halted e, pool, s) on fetches h = tt

  -- Where artifacts are validated and the leg fetches something and is not resumable, it ends with OK only if, when
  -- its host was closed as the last thing, its marker, if it has one, was in the local output, the fetched directory,
  -- or the leg's where that is missing, was there, and each file under it was residue of a write or passed
  -- `verify_file`. Of resumable legs, beside whose command another thread fetches, nothing is said.
  pub run_leg-Intact :
      (n : ℕ) (os : List String) (s : State P)
      → settings.validate_artifacts ≡ true
      → (leg.fetch == "") ≡ false
      → leg.resumable ≡ false
      → EndIntact (run_leg (wired local_side paths site) paths settings leg n os s)
  run_leg-Intact n os s on fetches plain =
      end-Intact (run_leg (wired local_side paths site) paths settings leg n os s) on fetches
        (run_leg-Ok (wired local_side paths site) paths settings leg n os s plain)
