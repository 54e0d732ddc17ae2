-- ===== src/Arrival/Atomic/Whole.antt =====
-- A file is never seen half-written, through `atomic_write` of src/run_farm/arrival.py.
use run_farm.Prelude.{
  ◌≡◌, ◌⊎◌, inl, inr, refl, String, false, none, some, List, [], ◌∷◌, ◌++◌, All, lookup, insert,
  lookup-insert, lookup-erase, ◌==◌, string_eq, beq_refl,
}
use run_farm.Arrival.Atomic.{Ending, replaced, raised, Files, writing, ended, atomic_write}

All-snoc :
    {A : Type 0} (Q : A → Type 0) (xs : List A) (x : A) → All Q xs → Q x → All Q (xs ++ x ∷ [])
All-snoc Q [] x h k = (k, tt)
All-snoc Q (y ∷ ys) x h k = (h.0, All-snoc Q ys x h.1 k)

module _ {B : Type 0} (path tmp : String) (apart : (tmp == path) ≡ false) where
  -- The path has its old content, or, if the writing goes through, the whole new one.
  abbrev pub Whole : Ending → List B → Files B → Files B → Type 0
  Whole ending pieces files seen =
      (lookup path seen ≡ lookup path files)
      ⊎ ((ending ≡ replaced) × (lookup path seen ≡ some pieces))

  writing-Whole :
      (ending : Ending) (pieces before bs : List B) (files : Files B)
      → All (Whole ending pieces files) (writing path tmp before bs files)
  unfolding writing
  writing-Whole ending pieces before [] files =
      (inl (rw (lookup-insert tmp path before files, apart) refl), tt)
  writing-Whole ending pieces before (b ∷ bs) files = (
    inl (rw (lookup-insert tmp path before files, apart) refl),
    writing-Whole ending pieces (before ++ b ∷ []) bs files,
  )

  -- What the end leaves at the path.
  abbrev pub Left : Ending → List B → Files B → Files B → Type 0
  Left replaced pieces files last = lookup path last ≡ some pieces
  Left raised pieces files last = lookup path last ≡ lookup path files

  ended-Left :
      (ending : Ending) (pieces : List B) (files : Files B)
      → Left ending pieces files (ended path tmp ending pieces files)
  unfolding ended
  ended-Left replaced pieces files =
      rw (lookup-erase tmp path (insert path pieces files), apart)
        (rw (lookup-insert path path pieces files, beq_refl path) refl)
  ended-Left raised pieces files = rw (lookup-erase tmp path files, apart) refl

  ended-Whole :
      (ending : Ending) (pieces : List B) (files : Files B)
      → Whole ending pieces files (ended path tmp ending pieces files)
  ended-Whole replaced pieces files = inr (refl, ended-Left replaced pieces files)
  ended-Whole raised pieces files = inl (ended-Left raised pieces files)

  no_temporary :
      (ending : Ending) (pieces : List B) (files : Files B)
      → lookup tmp (ended path tmp ending pieces files) ≡ none
  unfolding ended
  no_temporary replaced pieces files =
      rw (lookup-erase tmp tmp (insert path pieces files), beq_refl tmp) refl
  no_temporary raised pieces files = rw (lookup-erase tmp tmp files, beq_refl tmp) refl

  -- Whoever reads the path while `atomic_write` is at work, or after it, finds what was there, or, if it went
  -- through, the whole of what was written; what it leaves has the new content if it went through, the old if it
  -- raised, and no temporary file.
  pub atomic_write-Whole :
      (pieces : List B) (ending : Ending) (files : Files B)
      → All (Whole ending pieces files) (atomic_write path tmp pieces ending files).0
        × Left ending pieces files (atomic_write path tmp pieces ending files).1
        × (lookup tmp (atomic_write path tmp pieces ending files).1 ≡ none)
  unfolding atomic_write
  atomic_write-Whole pieces ending files = (
    (
      inl refl,
      All-snoc (Whole ending pieces files) (writing path tmp [] pieces files)
          (ended path tmp ending pieces files) (writing-Whole ending pieces [] pieces files)
          (ended-Whole ending pieces files),
    ),
    ended-Left ending pieces files,
    no_temporary ending pieces files,
  )
