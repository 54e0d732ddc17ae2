-- ===== src/Arrival.antt =====
-- src/run_farm/arrival.py: the trees of files that a fetch moves, and what `publish` does with them.
--
-- The destination is a map from paths, relative to it, to what is there. Each operation of the file system
-- is a step of its own, so that what an observer sees between two of them is a value. A marker stands as
-- the parts of its path, none for the empty text.
pub mod Written
pub mod Publish
pub mod Files
pub mod Report
pub mod Intact
pub mod Order
pub mod Marker
pub mod Early
pub mod Interleaved
pub mod Atomic
pub mod Beside
use Prim.Native.String.{compare}
use package.text.Mathlib.Text.{is_le}
use run_farm.Prelude.{
  ◌≡◌, String, Bool, true, false, not, Option, none, some, List, [], ◌∷◌, ◌++◌, map, Dict, lookup,
  insert, ◌==◌, string_eq, list_eq, keep_if, if◌then◌else◌,
}

abbrev pub FilePath : Type 0
FilePath = List String

-- What is at a path. `C` is the content of a file.
pub data Kind (C : Type 0) : Type 0 where
  file : C → Kind C
  directory : Kind C

-- A staged tree.
mutual
  pub data Node (C : Type 0) : Type 0 where
    leaf : C → Node C
    branch : Entries C → Node C

  pub data Entries (C : Type 0) : Type 0 where
    end : Entries C
    entry : String → Node C → Entries C → Entries C

-- `mkdir(exist_ok=True)` and `os.replace` onto a path.
pub data Op (C : Type 0) : Type 0 where
  mkdir : FilePath → Op C
  place : FilePath → C → Op C

-- `Path(marker).parts[0]` and `Path(marker).name`.
abbrev pub first_part : FilePath → String
first_part [] = ""
first_part (n ∷ p) = n

abbrev pub last_part : FilePath → String
last_part [] = ""
last_part (n ∷ []) = n
last_part (n ∷ m ∷ p) = last_part (m ∷ p)

-- The operations on the entries of a directory, by their names.
abbrev pub Kids : Type 0 → Type 0
Kids C = List (String × List (Op C))

module _ {C : Type 0} where
  -- An operation below the entry `n`.
  abbrev pub under : String → Op C → Op C
  under n (mkdir p) = mkdir (n ∷ p)
  under n (place p c) = place (n ∷ p) c

  -- `sorted(d.iterdir())`
  unfoldable pub insert_kid : String → List (Op C) → Kids C → Kids C
  insert_kid n x [] = (n, x) ∷ []
  insert_kid n x ((m, y) ∷ ks) =
      let rest = (m, y) ∷ insert_kid n x ks in
      if is_le (compare n m) then (n, x) ∷ (m, y) ∷ ks else rest

  unfoldable pub sort_kids : Kids C → Kids C
  unfolding insert_kid
  sort_kids [] = []
  sort_kids ((n, x) ∷ ks) = insert_kid n x (sort_kids ks)

  -- The entries of other names, and then those of this name.
  abbrev pub name_last : String → Kids C → Kids C
  name_last name ks = keep_if (λ k. not (k.0 == name)) ks ++ keep_if (λ k. k.0 == name) ks

  unfoldable pub all_ops : Kids C → List (Op C)
  all_ops [] = []
  all_ops ((n, x) ∷ ks) = map (under n) x ++ all_ops ks

-- `_merge_dir` for a directory, `os.replace` for a file; the paths are those below the node.
unfoldable mutual
  unfolding sort_kids all_ops

  pub node_ops : {C : Type 0} → FilePath → Node C → List (Op C)
  node_ops marker (leaf c) = place [] c ∷ []
  node_ops marker (branch es) =
      mkdir [] ∷ all_ops (name_last (last_part marker) (sort_kids (kids marker es)))

  pub kids : {C : Type 0} → FilePath → Entries C → Kids C
  kids marker end = []
  kids marker (entry n x es) = (n, node_ops marker x) ∷ kids marker es

module _ {C : Type 0} where
  -- `publish`: the operations it performs, in their order.
  unfoldable pub publish_ops : FilePath → Entries C → List (Op C)
  unfolding node_ops sort_kids all_ops
  publish_ops marker es =
      mkdir [] ∷ all_ops (name_last (first_part marker) (sort_kids (kids marker es)))

  -- `none` is the OSError of a directory onto a file, or a file onto a directory.
  unfoldable pub perform : Op C → Dict FilePath (Kind C) → Option (Dict FilePath (Kind C))
  perform (mkdir p) dest = elim (lookup p dest) [
    | some (file c) ↦ none
    | other ↦ some (insert p directory dest)
  ]
  perform (place p c) dest = elim (lookup p dest) [
    | some directory ↦ none
    | other ↦ some (insert p (file c) dest)
  ]

  -- All of them, up to the first that raises.
  unfoldable pub perform_all : List (Op C) → Dict FilePath (Kind C) → Bool × Dict FilePath (Kind C)
  unfolding perform
  perform_all [] dest = (true, dest)
  perform_all (op ∷ ops) dest = elim (perform op dest) [
    | none ↦ (false, dest)
    | some dest' ↦ perform_all ops dest'
  ]

  -- `false` is the exception; the staging is then still there.
  unfoldable pub publish :
      FilePath → Entries C → Dict FilePath (Kind C) → Bool × Dict FilePath (Kind C)
  unfolding publish_ops perform_all
  publish marker es dest = perform_all (publish_ops marker es) dest

-- What an observer can find between two of the operations.
pub data Instant {C : Type 0}
    : List (Op C) → Dict FilePath (Kind C) → Dict FilePath (Kind C) → Type 0 where
  now :
      {ops : List (Op C)} {dest seen : Dict FilePath (Kind C)} → dest ≡ seen → Instant ops dest seen
  later :
      {op : Op C} {ops : List (Op C)} {dest dest' seen : Dict FilePath (Kind C)}
      → perform op dest ≡ some dest'
      → Instant ops dest' seen
      → Instant (op ∷ ops) dest seen
