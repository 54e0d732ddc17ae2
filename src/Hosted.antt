-- ===== src/Hosted.antt =====
-- src/run_farm/provider_exec.py, ProviderExecutor: the configs of a campaign on one rented host, with failover.
--
-- `P` is the state of everything outside: the cloud, the hosts, the clock. Times are whole seconds. The texts of
-- messages are shortened where the program does not read them.
pub mod Worker
pub mod Run
pub mod Single
pub mod Held
pub mod Released
pub mod Ends
pub mod Fuel
use run_farm.Prelude.{
  ℕ, ◌+◌, String, Bool, Option, none, some, List, [], ◌∷◌, map, Dict, lookup, ◌==◌, string_eq,
  concat, join, sorted, if◌then◌else◌,
}
use run_farm.Json.{Value}
use run_farm.Config.{Config}
use run_farm.Fleet.{Try}

-- The provider, the ssh and scp of the file, and the clock.
pub record Cloud (P : Type 0) : Type 0 where
  pub offers : P → Try (List String) × P
  pub rent : P → String → Try String × P
  pub close : P → String → Try (Unit {0}) × P
  pub dead_reason : P → String → Try (Option String) × P
  pub ssh : P → String → String → ℕ → (ℕ × String) × P
  pub scp_down : P → String → P
  pub clock : P → ℕ
  pub sleep : P → ℕ → P

-- `str` of a number of seconds or attempts, `shlex.quote`, `str.splitlines`, `json.loads` (`none` is a JSONDecodeError), `bool(x)`, the module of a RunFn
-- reference, and what is asked of a config besides its name.
pub record Parsing : Type 0 where
  pub digits : ℕ → String
  pub quote : String → String
  pub split_lines : String → List String
  pub loads : String → Option Value
  pub is_true : Option Value → Bool
  pub module_of : String → String
  pub to_json : Config → String
  pub class_of : Config → String

pub record Settings : Type 0 where
  pub run_fn_ref : String
  pub engine_module : Option String
  pub config_class : Option String
  pub remote_python : String
  pub remote_work_dir : String
  pub ready_timeout : ℕ
  pub run_timeout : ℕ
  pub max_attempts : ℕ
  pub remote_env : Dict String String
  pub reattach_attempts : ℕ
  pub reattach_backoff_s : ℕ

-- What `_run_config` returns: the JSON of the worker's line, or a record of an error.
pub data Result : Type 0 where
  reported : Value → Result
  failed : String → String → Result

-- `a or b` for texts.
abbrev pub or_text : Option String → String → String
or_text none b = b
or_text (some a) b = if a == "" then b else a

abbrev pub assignment : (String → String) → Dict String String → String → String
assignment quote env k = elim (lookup k env) [ none ↦ k | some v ↦ concat (k ∷ "=" ∷ quote v ∷ []) ]

module _ (parsing : Parsing) (settings : Settings) where
  -- The environment of the worker, which is not empty, in front of the command.
  abbrev pub with_env : Dict String String → String → String
  with_env [] cmd = cmd
  with_env (kv ∷ env) cmd = concat (
      "env "
      ∷ join " " (map (assignment parsing.quote (kv ∷ env)) (sorted (map (λ e. e.0) (kv ∷ env))))
      ∷ " "
      ∷ cmd
      ∷ [])

  -- `_envify`
  unfoldable pub envify : String → String
  envify cmd = with_env settings.remote_env cmd

  unfoldable pub ready_command : String
  ready_command = envify (
      concat (
        settings.remote_python
        ∷ " -c 'import "
        ∷ or_text settings.engine_module (parsing.module_of settings.run_fn_ref)
        ∷ "'"
        ∷ []))

  unfoldable pub worker_command : Config → String
  worker_command c = envify (
      concat (
        settings.remote_python
        ∷ " -m run_farm.worker --config-json "
        ∷ parsing.quote (parsing.to_json c)
        ∷ " --run-fn "
        ∷ parsing.quote settings.run_fn_ref
        ∷ " --config-class "
        ∷ parsing.quote (or_text settings.config_class (parsing.class_of c))
        ∷ " --work-dir "
        ∷ parsing.quote settings.remote_work_dir
        ∷ []))
