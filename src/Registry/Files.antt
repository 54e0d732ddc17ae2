-- ===== src/Registry/Files.antt =====
-- src/run_farm/reference.py, FileRunRegistry, over `run_dir` and the checkpoints of
-- src/run_farm/config.py. A handle comes from `register`, so its directory is there. The state `S` is the state as the
-- npz file keeps it: what numpy makes of its arrays on the way in and out is left out.
use run_farm.Prelude.{
  ℕ, ◌≡◌, String, Bool, true, Option, none, some, List, [], ◌∷◌, ◌++◌, ◌==◌, string_eq, pair_eq,
  if◌then◌else◌, Dict, lookup, insert, has, lookup-insert, has-insert, arith,
}
use run_farm.Json.{Value}
use run_farm.Config.{Config}
use run_farm.Registry.{RunRegistry, IsRegistry}

-- What a file holds.
pub data File (S : Type 0) : Type 0 where
  config : Value → File S
  checkpoint : S → ℕ → File S
  result : Value → File S

-- The files by run directory and name, and MANIFEST.jsonl.
pub record Base (S : Type 0) : Type 0 where
  pub files : Dict (String × String) (File S)
  pub manifest : List (String × Value)

module _ {S : Type 0} where
  -- `run_dir`
  unfoldable pub register : Base S → Config → Base S
  register base c = if has (c.run_name, "config.json") base.files then base else record {
    files = insert (c.run_name, "config.json") (config c.json) base.files;
    manifest = base.manifest ++ (c.run_name, c.json) ∷ [];
  }

  abbrev registered : Base S → Config → Bool
  registered base c = has (c.run_name, "config.json") base.files

  unfoldable pub is_complete : Base S → Config → Bool
  is_complete base c = has (c.run_name, "DONE.json") base.files

  -- `load_checkpoint`: the file under this name is a checkpoint, written by `save`.
  abbrev pub load_checkpoint : Option (File S) → Option (S × ℕ)
  load_checkpoint (some (checkpoint s k)) = some (s, k)
  load_checkpoint _ = none

  unfoldable pub load : Base S → Config → Option (S × ℕ)
  load base c = load_checkpoint (lookup (c.run_name, "checkpoint.npz") base.files)

  unfoldable pub save : Base S → Config → S → ℕ → Base S
  save base c s k = record base {
    files = insert (c.run_name, "checkpoint.npz") (checkpoint s k) base.files;
  }

  unfoldable pub finish : Base S → Config → Value → Base S
  finish base c v = record base { files = insert (c.run_name, "DONE.json") (result v) base.files }

  -- The result in DONE.json.
  abbrev pub read_result : Option (File S) → Option Value
  read_result (some (result v)) = some v
  read_result _ = none

  unfoldable pub done : Base S → Config → Option Value
  done base c = read_result (lookup (c.run_name, "DONE.json") base.files)

  abbrev pub empty : Base S
  empty = record { files = []; manifest = [] }

abbrev pub file_registry : (S : Type 0) → RunRegistry S (Base S)
file_registry S = record {
  register = register;
  is_complete = is_complete;
  load = load;
  save = save;
  finish = finish;
}

module _ (S : Type 0) where
  registered-register :
      (w : Base S) (c d : Config)
      → registered (register w c) d ≡ (if c.run_name == d.run_name then true else registered w d)
  unfolding register
  registered-register w c d = ground (
    arith,
    string_eq.beq_iff c.run_name d.run_name,
    has-insert (c.run_name, "config.json") (d.run_name, "config.json") (config c.json) w.files,
  )

  registered-save :
      (w : Base S) (c d : Config) (s : S) (k : ℕ) → registered (save w c s k) d ≡ registered w d
  unfolding save
  registered-save w c d s k = ground (
    arith,
    has-insert (c.run_name, "checkpoint.npz") (d.run_name, "config.json") (checkpoint s k) w.files,
  )

  registered-finish :
      (w : Base S) (c d : Config) (v : Value) → registered (finish w c v) d ≡ registered w d
  unfolding finish
  registered-finish w c d v =
      ground
        (arith, has-insert (c.run_name, "DONE.json") (d.run_name, "config.json") (result v) w.files)

  register_again : (w : Base S) (c : Config) → registered w c ≡ true → register w c ≡ w
  unfolding register
  register_again w c h = rw h

  complete-register : (w : Base S) (c d : Config) → is_complete (register w c) d ≡ is_complete w d
  unfolding register is_complete
  complete-register w c d = ground (
    arith,
    has-insert (c.run_name, "config.json") (d.run_name, "DONE.json") (config c.json) w.files,
  )

  load-register : (w : Base S) (c d : Config) → load (register w c) d ≡ load w d
  unfolding register load
  load-register w c d = ground (
    arith,
    lookup-insert (c.run_name, "config.json") (d.run_name, "checkpoint.npz") (config c.json)
        w.files,
  )

  complete-save :
      (w : Base S) (c d : Config) (s : S) (k : ℕ) → is_complete (save w c s k) d ≡ is_complete w d
  unfolding save is_complete
  complete-save w c d s k = ground (
    arith,
    has-insert (c.run_name, "checkpoint.npz") (d.run_name, "DONE.json") (checkpoint s k) w.files,
  )

  load-save :
      (w : Base S) (c d : Config) (s : S) (k : ℕ)
      → load (save w c s k) d ≡ (if c.run_name == d.run_name then some (s, k) else load w d)
  unfolding save load
  load-save w c d s k = ground (
    arith,
    lookup-insert (c.run_name, "checkpoint.npz") (d.run_name, "checkpoint.npz") (checkpoint s k)
        w.files,
  )

  complete-finish :
      (w : Base S) (c d : Config) (v : Value)
      → is_complete (finish w c v) d ≡ (if c.run_name == d.run_name then true else is_complete w d)
  unfolding finish is_complete
  complete-finish w c d v =
      ground
        (arith, has-insert (c.run_name, "DONE.json") (d.run_name, "DONE.json") (result v) w.files)

  load-finish : (w : Base S) (c d : Config) (v : Value) → load (finish w c v) d ≡ load w d
  unfolding finish load
  load-finish w c d v = ground (
    arith,
    lookup-insert (c.run_name, "DONE.json") (d.run_name, "checkpoint.npz") (result v) w.files,
  )

-- The file registry keeps the contract: registering is idempotent and changes no completion or
-- checkpoint, `load` returns the last `save` of its run, and `finish` completes its run alone.
pub file_registry-IsRegistry : (S : Type 0) → IsRegistry (file_registry S)
file_registry-IsRegistry S = record {
  registered = registered;
  registered-register = registered-register S;
  registered-save = registered-save S;
  registered-finish = registered-finish S;
  register_again = register_again S;
  complete-register = complete-register S;
  load-register = load-register S;
  complete-save = complete-save S;
  load-save = load-save S;
  complete-finish = complete-finish S;
  load-finish = load-finish S;
}
