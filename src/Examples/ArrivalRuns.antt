-- ===== src/Examples/ArrivalRuns.antt =====
-- A fetched directory, moved by `publish` of src/run_farm/arrival.py into an empty one.
use run_farm.Prelude.{
  ℕ, ◌≡◌, ◌≢◌, refl, String, true, false, none, some, [], ◌∷◌, Dict, lookup, insert, string_eq,
  List, All, ◌⊎◌, inl, inr, list_eq, ◌==◌, if◌then◌else◌, sorted, ◌&&◌, not,
}
use run_farm.Arrival.{
  FilePath, Kind, file, directory, Node, leaf, branch, Entries, end, entry, Op, mkdir, place,
  insert_kid, sort_kids, all_ops, node_ops, kids, publish_ops, perform, perform_all, publish,
  Instant, now, later,
}
use run_farm.Arrival.Publish.{entries_at, Unique, UniqueNode}
use run_farm.Arrival.Marker.{tree_at, marker_after_payload}
use run_farm.Arrival.Files.{Disk, bad_zip, read, loaded}
use run_farm.Arrival.Report.{is_ok, verify_report}
use run_farm.Arrival.Intact.{passes, verify_report_ok}
use run_farm.Arrival.Early.{directory_marker_early}
use run_farm.Arrival.Atomic.{Files, replaced, raised, atomic_write}
use run_farm.Arrival.Atomic.Whole.{Whole, Left, atomic_write-Whole}
use run_farm.Arrival.Interleaved.{Beside, over, first, second}
use run_farm.Arrival.Beside.{Covers, marker-Beside}

-- A results file, the manifest that is the marker, and a directory.
abbrev staged : Entries ℕ
staged =
    entry "manifest.json" (leaf 2)
      (entry "plots" (branch (entry "a.png" (leaf 3) end)) (entry "field.npz" (leaf 1) end))

abbrev empty : Dict FilePath (Kind ℕ)
empty = []

abbrev published : Dict FilePath (Kind ℕ)
published =
    ([], directory)
    ∷ ("field.npz" ∷ [], file 1)
    ∷ ("plots" ∷ [], directory)
    ∷ ("plots" ∷ "a.png" ∷ [], file 3)
    ∷ ("manifest.json" ∷ [], file 2)
    ∷ []

-- What `scp -r` of a directory lands.
abbrev fetched : Entries ℕ
fetched = entry "out" (branch (entry "field.npz" (leaf 1) end)) end

abbrev nested : Entries ℕ
nested =
    entry "out"
      (branch (entry "run" (branch (entry "done" (leaf 2) end)) (entry "z.npz" (leaf 1) end))) end

abbrev moved : Dict FilePath (Kind ℕ)
moved = ([], directory) ∷ ("out" ∷ [], directory) ∷ ("out" ∷ "field.npz" ∷ [], file 1) ∷ []

fetched-Unique : Unique fetched
unfolding Unique UniqueNode
fetched-Unique = (tt, (tt, tt, tt), tt)

fetched_moves : publish ("out" ∷ []) fetched empty ≡ (true, moved)
unfolding publish lookup insert
fetched_moves = refl

publish_ops_test :
    publish_ops ("manifest.json" ∷ []) staged
    ≡ mkdir []
      ∷ place ("field.npz" ∷ []) 1
      ∷ mkdir ("plots" ∷ [])
      ∷ place ("plots" ∷ "a.png" ∷ []) 3
      ∷ place ("manifest.json" ∷ []) 2
      ∷ []
unfolding publish_ops
publish_ops_test = refl

publish_test : publish ("manifest.json" ∷ []) staged empty ≡ (true, published)
unfolding publish lookup insert
publish_test = refl

staged-Unique : Unique staged
unfolding Unique UniqueNode
staged-Unique = ((refl, (refl, tt)), tt, ((refl, tt), (tt, tt, tt), (tt, tt, tt)))

all_seen : Instant (publish_ops ("manifest.json" ∷ []) staged) empty published
unfolding publish_ops perform lookup insert
all_seen = later refl (later refl (later refl (later refl (later refl (now refl)))))

shown : lookup ("manifest.json" ∷ []) published ≢ none
unfolding lookup
shown = λ h. cc

marker_after_payload_example : lookup ("field.npz" ∷ []) published ≡ some (file 1)
unfolding tree_at lookup entries_at
marker_after_payload_example =
    marker_after_payload ("manifest.json" ∷ []) staged 2 empty published tt staged-Unique refl refl
      all_seen shown "field.npz" [] (file 1) refl

-- The directory itself is the marker.
directory_marker_early_example :
    (seen : Dict FilePath (Kind ℕ)) × Instant (publish_ops ("out" ∷ []) fetched) empty seen
    × (lookup ("out" ∷ []) seen ≡ some directory)
    × ((q : String) (p : FilePath) → lookup ("out" ∷ q ∷ p) seen ≡ lookup ("out" ∷ q ∷ p) empty)
unfolding entries_at
directory_marker_early_example =
    directory_marker_early "out" fetched empty moved fetched-Unique refl fetched_moves

-- A marker two directories deep is seen before a file beside the inner directory.
deep : Instant (publish_ops ("out" ∷ "run" ∷ "done" ∷ []) nested) empty (
    ([], directory)
    ∷ ("out" ∷ [], directory)
    ∷ ("out" ∷ "run" ∷ [], directory)
    ∷ ("out" ∷ "run" ∷ "done" ∷ [], file 2)
    ∷ [])
unfolding publish_ops perform lookup insert
deep = later refl (later refl (later refl (later refl (now refl))))

-- A root with an archive that is torn, and what a dead writer left.
abbrev disk : Disk
disk = record {
  exists = λ p. true;
  is_dir = λ p. p == "out";
  is_file = λ p. not (p == "out");
  size = λ p. 7;
  name = λ p. p;
  suffixes = λ p. if p == "field.npz" then ".npz" ∷ [] else ".tmp" ∷ [];
  child = λ root rel. rel;
  rglob = λ root pat. "state.tmp" ∷ "field.npz" ∷ [];
  zip = λ p. bad_zip "not a zip file";
  gzip = λ p. none;
  tar = λ p. none;
  read_text = λ p. read "{}";
  strip = λ s. s;
  json_error = λ s. none;
  npy = λ p. loaded;
  lower = λ s. s;
}

torn : is_ok (verify_report disk "out" [] ("*" ∷ [])) ≡ false
unfolding is_ok verify_report sorted run_farm.Arrival.Report.visit run_farm.Arrival.Files.is_residue
    run_farm.Arrival.Files.verifier_for run_farm.Arrival.Files.verify_file
torn = refl

verify_report_ok_example : is_ok (verify_report disk "out" ("field.npz" ∷ []) ("*" ∷ [])) ≡ (
    true
    && true
    && (true && true)
    && (passes disk "state.tmp" && (passes disk "field.npz" && true) && true))
verify_report_ok_example = verify_report_ok disk "out" ("field.npz" ∷ []) ("*" ∷ [])

-- A final fetch, and a pull from before the run ended that publishes beside it, and after it.
abbrev whole : Entries ℕ
whole = entry "manifest.json" (leaf 2) (entry "field.npz" (leaf 1) end)

abbrev early : Entries ℕ
early = entry "field.npz" (leaf 9) end

abbrev done : FilePath
done = "manifest.json" ∷ []

abbrev beside_ops : List (Op ℕ)
beside_ops =
    mkdir []
    ∷ mkdir []
    ∷ place ("field.npz" ∷ []) 1
    ∷ place done 2
    ∷ place ("field.npz" ∷ []) 9
    ∷ []

-- The marker is there, and the file beside it is the one of the early pull.
abbrev stale : Dict FilePath (Kind ℕ)
stale = ([], directory) ∷ ("field.npz" ∷ [], file 9) ∷ (done, file 2) ∷ []

in_turn : Beside (publish_ops done whole) (publish_ops done early) beside_ops
unfolding publish_ops
in_turn = first (second (first (first (second over))))

stale_seen : Instant beside_ops empty stale
unfolding perform lookup insert
stale_seen = later refl (later refl (later refl (later refl (later refl (now refl)))))

whole-Unique : Unique whole
unfolding Unique UniqueNode
whole-Unique = ((refl, tt), tt, (tt, tt, tt))

early-Unique : Unique early
unfolding Unique UniqueNode
early-Unique = (tt, tt, tt)

marker-Beside_example : Covers done whole stale ⊎ Covers done early stale
unfolding tree_at entries_at lookup
marker-Beside_example =
    marker-Beside done whole early beside_ops empty stale tt whole-Unique early-Unique
      (inr (2, refl)) (inl refl) refl in_turn stale_seen (λ e. cc)

-- A file that is written anew, and a writing that raises after one piece.
abbrev saved : Files ℕ
saved = ("state", 1 ∷ []) ∷ []

write_test :
    ((atomic_write "state" "state.tmp" (2 ∷ 3 ∷ []) replaced saved).1 ≡ ("state", 2 ∷ 3 ∷ []) ∷ [])
    × ((atomic_write "state" "state.tmp" (2 ∷ []) raised saved).1 ≡ saved)
unfolding atomic_write run_farm.Arrival.Atomic.ended
write_test = (refl, refl)

atomic_write-Whole_example :
    All
      (Whole "state" "state.tmp" refl replaced (2 ∷ 3 ∷ []) saved)
      (atomic_write "state" "state.tmp" (2 ∷ 3 ∷ []) replaced saved).0
    × Left "state" "state.tmp" refl replaced
        (2 ∷ 3 ∷ [])
        saved
        (atomic_write "state" "state.tmp" (2 ∷ 3 ∷ []) replaced saved).1
    × (lookup "state.tmp" (atomic_write "state" "state.tmp" (2 ∷ 3 ∷ []) replaced saved).1 ≡ none)
atomic_write-Whole_example = atomic_write-Whole "state" "state.tmp" refl (2 ∷ 3 ∷ []) replaced saved
