-- ===== src/Hosted/Run.antt =====
-- src/run_farm/provider_exec.py, ProviderExecutor.run: the walk over the offers.
use run_farm.Prelude.{take, String, Bool, true, false, List, [], ◌∷◌, if◌then◌else◌}
use run_farm.Config.{Config}
use run_farm.Fleet.{
  Raised, host_probe_failed, timed_out, rent_unavailable, budget_exceeded, leak_risk, other, Try,
  gives, raises, and_then,
}
use run_farm.Hosted.{Cloud, Parsing, Settings, Result}
use run_farm.Hosted.Worker.{run_config, has_error, host_dead, on_death, wait_engine_ready}

-- How `run` ends: with the records, with a RuntimeError of its own, or with an exception of the provider's.
pub data End : Type 0 where
  results : List Result → End
  admission_given no_offers all_failed : End
  raised : Raised → End

-- The exceptions after which the next offer is tried.
abbrev pub fails_over : Raised → Bool
fails_over (host_probe_failed m) = true
fails_over (timed_out m) = true
fails_over (rent_unavailable m) = true
fails_over (budget_exceeded m) = false
fails_over (leak_risk m) = false
fails_over (other m) = false

module _ {P : Type 0} (cloud : Cloud P) (parsing : Parsing) (settings : Settings) where
  abbrev pub add_record : Result → Try (List Result) × P → Try (List Result) × P
  add_record r (gives rs, p) = (gives (r ∷ rs), p)
  add_record r (raises e, p) = (raises e, p)

  -- An error on a host that is confirmed dead raises; the configs go on after any other record.
  abbrev pub after_record :
      String → Result → Try Bool → P → (P → Try (List Result) × P) → Try (List Result) × P
  after_record host r (raises e) p next = (raises e, p)
  after_record host r (gives false) p next = add_record r (next p)
  after_record host r (gives true) p next =
      on_death (host_dead cloud parsing settings p host).0
        (λ why. (raises (host_probe_failed why), (host_dead cloud parsing settings p host).1))
        (add_record r (next (host_dead cloud parsing settings p host).1))

  unfoldable pub run_configs : String → List Config → P → Try (List Result) × P
  run_configs host [] p = (gives [], p)
  run_configs host (c ∷ cs) p =
      let (r, p') = run_config cloud parsing settings host c p in
      after_record host r (has_error cloud parsing settings r) p' (λ q. run_configs host cs q)

  -- The body of the `with`.
  unfoldable pub on_host : String → List Config → P → Try (List Result) × P
  on_host host cs p =
      and_then (wait_engine_ready cloud parsing settings host p)
        (λ u p1. and_then (run_configs host cs p1) (λ rs p2. (gives rs, cloud.scp_down p2 host)))

  -- What the exit of `rent` raises replaces what the body gave or raised.
  abbrev pub leave : Try (List Result) → Try (Unit {0}) → Try (List Result)
  leave body (gives u) = body
  leave body (raises e) = raises e

  unfoldable pub use_host : List Config → Try String × P → Try (List Result) × P
  use_host cs (raises e, p) = (raises e, p)
  use_host cs (gives host, p) =
      let (body, p') = on_host host cs p in
      let (exit, p'') = cloud.close p' host in (leave body exit, p'')

  unfoldable pub attempt : List Config → String → P → Try (List Result) × P
  attempt cs offer p = use_host cs (cloud.rent p offer)

  abbrev pub judge : Try (List Result) → P → End × P → End × P
  judge (gives rs) p next = (results rs, p)
  judge (raises e) p next = if fails_over e then next else (raised e, p)

  unfoldable pub try_offers : List Config → List String → P → End × P
  try_offers cs [] p = (all_failed, p)
  try_offers cs (o ∷ os) p =
      let (r, p') = attempt cs o p in let next = try_offers cs os p' in judge r p' next

  -- What `offers` raises leaves `run`, whatever it is.
  abbrev pub on_offers : List Config → Try (List String) → P → End × P
  on_offers cs (raises e) p = (raised e, p)
  on_offers cs (gives []) p = (no_offers, p)
  on_offers cs (gives (o ∷ os)) p = try_offers cs (take settings.max_attempts (o ∷ os)) p

  -- `run`: whether an admission is given, and the configs.
  unfoldable pub run : Bool → List Config → P → End × P
  run true cs p = (admission_given, p)
  run false [] p = (results [], p)
  run false (c ∷ cs) p = let (answer, p') = cloud.offers p in on_offers (c ∷ cs) answer p'
