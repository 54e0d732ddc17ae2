-- ===== src/Arrival/Intact.antt =====
-- When a report of src/run_farm/arrival.py is all clear, and what it lists.
use run_farm.Prelude.{
  ◌≡◌, refl, String, Bool, true, false, not, ◌&&◌, ◌||◌, Option, none, some, List, [], ◌∷◌,
  any-append, all, sorted, all-sorted, is_some, if◌then◌else◌, arith,
}
use run_farm.Arrival.Files.{
  ArrivalProblem, Disk, Verifier, ZipRead, TextRead, read, text_os_error, NpyRead, on_zip,
  on_stream, on_npy, on_text, verify, verify_zip, verify_gzip, verify_tar, verify_json, verify_npy,
  verify_by, verifier_for, verify_file, is_residue, damaged,
}
use run_farm.Arrival.Report.{
  ArrivalReport, no_report, note, harmless, is_ok, filed, visit, walk, walks, required,
  warn_if_empty, verify_report,
}

abbrev fatal_of : Option ArrivalProblem → Bool
fatal_of none = false
fatal_of (some p) = p.fatal

on_zip_fatal : (p : String) (z : ZipRead) → fatal_of (on_zip p z) ≡ is_some (on_zip p z)
on_zip_fatal p z = ground arith

on_stream_fatal :
    (p : String) (o : Option String) → fatal_of (on_stream p o) ≡ is_some (on_stream p o)
on_stream_fatal p o = ground arith

module _ (disk : Disk) where
  on_text_fatal :
      (p : String) (t : TextRead) → fatal_of (on_text disk p t) ≡ is_some (on_text disk p t)
  on_text_fatal p (text_os_error e) = refl
  on_text_fatal p (read s) = ground (arith, on_stream_fatal p (disk.json_error s))

  on_npy_fatal : (p : String) (n : NpyRead) → fatal_of (on_npy p n) ≡ is_some (on_npy p n)
  on_npy_fatal p n = ground arith

  verify_fatal :
      (v : Verifier) (p : String) → fatal_of (verify disk v p) ≡ is_some (verify disk v p)
  unfolding verify
  verify_fatal verify_zip p = on_zip_fatal p (disk.zip p)
  verify_fatal verify_gzip p = on_stream_fatal p (disk.gzip p)
  verify_fatal verify_tar p = on_stream_fatal p (disk.tar p)
  verify_fatal verify_json p = on_text_fatal p (disk.read_text p)
  verify_fatal verify_npy p = on_npy_fatal p (disk.npy p)

  verify_by_fatal :
      (v : Option Verifier) (p : String)
      → fatal_of (verify_by disk v p) ≡ is_some (verify_by disk v p)
  unfolding verify
  verify_by_fatal none p = refl
  verify_by_fatal (some v) p = verify_fatal v p

  -- What `verify_file` finds is fatal.
  verify_file_fatal : (p : String) → fatal_of (verify_file disk p) ≡ is_some (verify_file disk p)
  unfolding verify_file
  verify_file_fatal p = ground (arith, verify_by_fatal (verifier_for disk p) p)

  is_ok-note :
      (o : Option ArrivalProblem) (r : ArrivalReport)
      → is_ok (note o r) ≡ (is_ok r && not (fatal_of o))
  unfolding is_ok
  is_ok-note none r = ground arith
  is_ok-note (some p) r =
      ground (arith, any-append (λ (q : ArrivalProblem). q.fatal) r.problems (p ∷ []))

  -- A path of the walk is no obstacle: no file, residue, or a file that verifies.
  abbrev pub passes : String → Bool
  passes p = not (disk.is_file p) || is_residue disk p || not (is_some (verify_file disk p))

  is_ok-filed :
      (v : Option Verifier) (p : String) (r : ArrivalReport) → is_ok (filed disk v p r) ≡ is_ok r
  unfolding is_ok
  is_ok-filed none p r = refl
  is_ok-filed (some v) p r = refl

  is_ok-visit : (p : String) (r : ArrivalReport) → is_ok (visit disk p r) ≡ (is_ok r && passes p)
  unfolding visit
  is_ok-visit p r = ground (
    arith,
    is_ok-filed (verifier_for disk p) p (note (verify_file disk p) r),
    is_ok-note (verify_file disk p) r,
    verify_file_fatal p,
    is_ok-note (harmless p "tmp_residue" "leftover temp file") r,
  )

  is_ok-walk :
      (ps : List String) (r : ArrivalReport) → is_ok (walk disk ps r) ≡ (is_ok r && all passes ps)
  unfolding walk
  is_ok-walk [] r = ground arith
  is_ok-walk (p ∷ ps) r = ground (arith, is_ok-walk ps (visit disk p r), is_ok-visit p r)

  is_ok-walks :
      (root : String) (pats : List String) (r : ArrivalReport)
      → is_ok (walks disk root pats r)
        ≡ (is_ok r && all (λ pat. all passes (disk.rglob root pat)) pats)
  unfolding walks
  is_ok-walks root [] r = ground arith
  is_ok-walks root (pat ∷ pats) r = ground (
    arith,
    is_ok-walks root pats (walk disk (sorted (disk.rglob root pat)) r),
    is_ok-walk (sorted (disk.rglob root pat)) r,
    all-sorted passes (disk.rglob root pat),
  )

  is_ok-required :
      (root : String) (rels : List String) (r : ArrivalReport)
      → is_ok (required disk root rels r)
        ≡ (is_ok r && all (λ rel. disk.exists (disk.child root rel)) rels)
  unfolding required
  is_ok-required root [] r = ground arith
  is_ok-required root (rel ∷ rels) r = ground (
    arith,
    is_ok-required root rels (
        note
          (if disk.exists (disk.child root rel)
            then none
            else damaged (disk.child root rel) "missing" "required artifact absent")
          r),
    is_ok-note
        (if disk.exists (disk.child root rel)
          then none
          else damaged (disk.child root rel) "missing" "required artifact absent")
        r,
  )

  is_ok_empty : is_ok no_report ≡ true
  unfolding is_ok
  is_ok_empty = refl

  is_ok-warn : (root : String) (r : ArrivalReport) → is_ok (warn_if_empty disk root r) ≡ is_ok r
  is_ok-warn root r = ground (arith, is_ok-note (harmless root "empty" "fetch produced no files") r)

  -- A report is ok exactly when the root is a directory that is there, each required path under it is there, and
  -- each file that a pattern lists is residue of a write or passes `verify_file`.
  pub verify_report_ok :
      (root : String) (require patterns : List String)
      → is_ok (verify_report disk root require patterns) ≡ (
          disk.exists root
          && disk.is_dir root
          && all (λ rel. disk.exists (disk.child root rel)) require
          && all (λ pat. all passes (disk.rglob root pat)) patterns)
  unfolding verify_report
  verify_report_ok root require patterns = ground (
    arith,
    is_ok-note (damaged root "missing" "output root does not exist") no_report,
    is_ok-note (damaged root "missing" "output root is not a directory") no_report,
    is_ok-warn root (walks disk root patterns (required disk root require no_report)),
    is_ok-walks root patterns (required disk root require no_report),
    is_ok-required root require no_report,
    is_ok_empty,
  )
