-- ===== src/Hosted/Ends.antt =====
-- How ProviderExecutor.run of src/run_farm/provider_exec.py ends.
use run_farm.Prelude.{
  take, ◌≡◌, refl, ◌⊎◌, inl, inr, String, Bool, true, false, Option, none, some, List, [], ◌∷◌,
  if_ind,
}
use run_farm.Json.{Value}
use run_farm.Config.{Config}
use run_farm.Fleet.{Try, gives, raises, and_then}
use run_farm.Hosted.{Cloud, Parsing, Settings, Result, reported, failed, worker_command}
use run_farm.Hosted.Worker.{
  host_dead, wait_engine_ready, run_worker, result_line, parsed, run_config, has_error,
}
use run_farm.Hosted.Run.{
  End, results, admission_given, no_offers, all_failed, raised, fails_over, add_record,
  after_record, run_configs, on_host, leave, use_host, attempt, judge, try_offers, on_offers, run,
}
use run_farm.Hosted.Single.{death_ind}

-- A record of an error that `_run_config` makes itself names the config.
abbrev pub Answers : Config → Result → Type 0
Answers c (reported v) = Unit {0}
Answers c (failed name message) = name ≡ c.run_name

-- One record for each config, in their order.
abbrev pub AnswersAll : List Config → List Result → Type 0
AnswersAll [] [] = Unit {0}
AnswersAll [] (r ∷ rs) = ⊥
AnswersAll (c ∷ cs) [] = ⊥
AnswersAll (c ∷ cs) (r ∷ rs) = Answers c r × AnswersAll cs rs

-- The provider answers with at least one offer.
abbrev pub SomeOffered : Try (List String) → Type 0
SomeOffered offers = (o : String) × (os : List String) × (offers ≡ gives (o ∷ os))

-- What each way to end says, where `offers` is what the provider answers.
abbrev pub Explained : Try (List String) → Bool → List Config → End → Type 0
Explained offers given cs (results rs) = (given ≡ false) × AnswersAll cs rs
Explained offers given cs admission_given = given ≡ true
Explained offers given cs no_offers = offers ≡ gives []
Explained offers given cs all_failed = SomeOffered offers
Explained offers given cs (raised e) = (fails_over e ≡ false) ⊎ (offers ≡ raises e)

abbrev GivesAll : List Config → Try (List Result) → Type 0
GivesAll cs (gives rs) = AnswersAll cs rs
GivesAll cs (raises e) = Unit {0}

module _ {P : Type 0} (cloud : Cloud P) (parsing : Parsing) (settings : Settings) where
  parsed-Answers : (c : Config) (o : Option String) → Answers c (parsed cloud parsing settings c o)
  parsed-Answers c none = refl
  parsed-Answers c (some payload) = by_json (parsing.loads payload)
    where
      by_json :
          (o : Option Value)
          → Answers c (elim o as (λ _. Result) [
            | none ↦ failed c.run_name "malformed result line"
            | some v ↦ reported v
          ])
      by_json none = refl
      by_json (some v) = tt

  run_config-Answers :
      (host : String) (c : Config) (p : P)
      → Answers c (run_config cloud parsing settings host c p).0
  unfolding run_config
  run_config-Answers host c p =
      let ((rc, out), p') =
        run_worker cloud parsing settings host (worker_command parsing settings c) p in
      parsed-Answers c (result_line cloud parsing settings (parsing.split_lines out))

  add_record-GivesAll :
      (c : Config) (cs : List Config) (r : Result) (rs : Try (List Result) × P)
      → Answers c r
      → GivesAll cs rs.0
      → GivesAll (c ∷ cs) (add_record cloud parsing settings r rs).0
  add_record-GivesAll c cs r (gives rs, p) a g = (a, g)
  add_record-GivesAll c cs r (raises e, p) a g = tt

  after_record-GivesAll :
      (host : String) (c : Config) (cs : List Config) (r : Result) (b : Try Bool) (p : P)
      (next : P → Try (List Result) × P)
      → Answers c r
      → ((q : P) → GivesAll cs (next q).0)
      → GivesAll (c ∷ cs) (after_record cloud parsing settings host r b p next).0
  unfolding host_dead
  after_record-GivesAll host c cs r (raises e) p next a f = tt
  after_record-GivesAll host c cs r (gives false) p next a f =
      add_record-GivesAll c cs r (next p) a (f p)
  after_record-GivesAll host c cs r (gives true) p next a f =
      let q = (host_dead cloud parsing settings p host).1 in
      death_ind (λ (x : Try (List Result) × P). GivesAll (c ∷ cs) x.0)
        (host_dead cloud parsing settings p host).0 (λ why. tt)
        (add_record-GivesAll c cs r (next q) a (f q))

  run_configs-GivesAll :
      (host : String) (cs : List Config) (p : P)
      → GivesAll cs (run_configs cloud parsing settings host cs p).0
  unfolding run_configs
  run_configs-GivesAll host [] p = tt
  run_configs-GivesAll host (c ∷ cs) p =
      let (r, p') = run_config cloud parsing settings host c p in
      after_record-GivesAll host c cs r (has_error cloud parsing settings r) p'
        (λ q. run_configs cloud parsing settings host cs q) (run_config-Answers host c p)
        (λ q. run_configs-GivesAll host cs q)

  then-GivesAll :
      {A : Type 0} (cs : List Config) (r : Try A × P) (f : A → P → Try (List Result) × P)
      → ((a : A) (p : P) → GivesAll cs (f a p).0)
      → GivesAll cs (and_then r f).0
  then-GivesAll cs (gives a, p) f h = h a p
  then-GivesAll cs (raises e, p) f h = tt

  synced-GivesAll :
      (host : String) (cs : List Config) (r : Try (List Result) × P)
      → GivesAll cs r.0
      → GivesAll cs (and_then r (λ rs p2. (gives rs, cloud.scp_down p2 host))).0
  synced-GivesAll host cs (gives rs, p) g = g
  synced-GivesAll host cs (raises e, p) g = tt

  on_host-GivesAll :
      (host : String) (cs : List Config) (p : P)
      → GivesAll cs (on_host cloud parsing settings host cs p).0
  unfolding on_host
  on_host-GivesAll host cs p =
      then-GivesAll cs (wait_engine_ready cloud parsing settings host p) _ (λ u p1.
        synced-GivesAll host cs (run_configs cloud parsing settings host cs p1)
          (run_configs-GivesAll host cs p1))

  leave-GivesAll :
      (cs : List Config) (body : Try (List Result)) (exit : Try (Unit {0}))
      → GivesAll cs body
      → GivesAll cs (leave cloud parsing settings body exit)
  leave-GivesAll cs body (gives u) g = g
  leave-GivesAll cs body (raises e) g = tt

  use_host-GivesAll :
      (cs : List Config) (r : Try String × P) → GivesAll cs (use_host cloud parsing settings cs r).0
  unfolding use_host
  use_host-GivesAll cs (raises e, p) = tt
  use_host-GivesAll cs (gives host, p) =
      let (body, p') = on_host cloud parsing settings host cs p in
      leave-GivesAll cs body (cloud.close p' host).0 (on_host-GivesAll host cs p)

  judge-Explained :
      (os : Try (List String)) (cs : List Config) (r : Try (List Result)) (p : P) (next : End × P)
      → GivesAll cs r
      → Explained os false cs next.0
      → Explained os false cs (judge cloud parsing settings r p next).0
  judge-Explained os cs (gives rs) p next g k = (refl, g)
  judge-Explained os cs (raises e) p next g k =
      if_ind (λ (x : End × P). Explained os false cs x.0) (fails_over e) (λ _. k) (λ h. inl h)

  try_offers-Explained :
      (found : Try (List String)) (cs : List Config) (os : List String) (p : P)
      → SomeOffered found
      → Explained found false cs (try_offers cloud parsing settings cs os p).0
  unfolding try_offers attempt
  try_offers-Explained found cs [] p some_found = some_found
  try_offers-Explained found cs (o ∷ os) p some_found =
      let (r, p') = attempt cloud parsing settings cs o p in
      judge-Explained found cs r p' (try_offers cloud parsing settings cs os p')
        (use_host-GivesAll cs (cloud.rent p o)) (try_offers-Explained found cs os p' some_found)

  on_offers-Explained :
      (answer : Try (List String)) (cs : List Config) (p : P)
      → Explained answer false cs (on_offers cloud parsing settings cs answer p).0
  unfolding try_offers
  on_offers-Explained (raises e) cs p = inr refl
  on_offers-Explained (gives []) cs p = refl
  on_offers-Explained (gives (o ∷ os)) cs p =
      try_offers-Explained (gives (o ∷ os)) cs (take settings.max_attempts (o ∷ os)) p (o, os, refl)

  -- Every way in which `run` ends: with records only when no admission is given, and then one for each config in
  -- their order, those of errors made here under the config's name; with NotImplementedError only when an
  -- admission is given; with "no offers match" only when the provider offers none, and with "all attempts failed"
  -- only when it offers some; and an exception that leaves `run` is either none of those after which the next offer is
  -- tried, or the one that the question for the offers raised.
  pub run-Explained :
      (given : Bool) (cs : List Config) (p : P)
      → Explained (cloud.offers p).0 given cs (run cloud parsing settings given cs p).0
  unfolding run
  run-Explained true cs p = refl
  run-Explained false [] p = (refl, tt)
  run-Explained false (c ∷ cs) p =
      on_offers-Explained (cloud.offers p).0 (c ∷ cs) (cloud.offers p).1
