-- ===== src/Arrival/Atomic.antt =====
-- src/run_farm/arrival.py: `atomic_write`.
--
-- Files are by path, with their bytes in the pieces that were written. What is only in a cache, and `fsync`, are left
-- out.
pub mod Whole
use run_farm.Prelude.{
  String, Bool, true, false, List, [], ◌∷◌, ◌++◌, Dict, lookup, insert, erase, string_eq,
  if◌then◌else◌,
}

-- How the writing ends: `write_fn` and the replacing go through, or one of them raises.
pub data Ending : Type 0 where
  replaced raised : Ending

abbrev pub Files : Type 0 → Type 0
Files B = Dict String (List B)

module _ {B : Type 0} (path tmp : String) where
  -- What the directory looks like with each piece written to the temporary file, after those that were.
  unfoldable pub writing : List B → List B → Files B → List (Files B)
  unfolding insert
  writing before [] files = insert tmp before files ∷ []
  writing before (b ∷ bs) files = insert tmp before files ∷ writing (before ++ b ∷ []) bs files

  unfoldable pub ended : Ending → List B → Files B → Files B
  unfolding insert erase
  ended replaced pieces files = erase tmp (insert path pieces files)
  ended raised pieces files = erase tmp files

  -- `atomic_write`, with the pieces that `write_fn` writes before it returns or raises: all that an observer can
  -- find, in order, and the end.
  unfoldable pub atomic_write : List B → Ending → Files B → List (Files B) × Files B
  unfolding insert erase
  atomic_write pieces ending files =
      let last = ended ending pieces files in (files ∷ writing [] pieces files ++ last ∷ [], last)
