-- ===== src/Arrival/Files.antt =====
-- src/run_farm/arrival.py: `verify_file`. What a library says of the bytes is an answer; an exception that a verifier
-- does not catch (text that is no UTF-8, a broken deflate stream, an encrypted archive) is left out.
--
-- What zipfile, gzip, tarfile, json and numpy make of the bytes at a path, and what the file system says of a
-- path, are fields of `Disk`. The texts of the details are shortened.
use Prim.Native.String.{len, slice}
use mathlib.Core.List.{reverse}
use run_farm.Prelude.{
  ℕ, zero, suc, ◌-◌, map, String, Bool, true, not, ◌&&◌, Option, none, some, List, [], ◌∷◌, Dict,
  lookup, ◌==◌, string_eq, nat_beq, leb, any, if◌then◌else◌,
}

pub record ArrivalProblem : Type 0 where
  pub path : String
  pub kind : String
  pub detail : String
  pub fatal : Bool

-- What `testzip` and `namelist` say, or what opening the file raises.
pub data ZipRead : Type 0 where
  bad_member : String → ZipRead
  members : ℕ → ZipRead
  bad_zip : String → ZipRead
  zip_os_error : String → ZipRead

pub data TextRead : Type 0 where
  read : String → TextRead
  text_os_error : String → TextRead

pub data NpyRead : Type 0 where
  loaded no_numpy : NpyRead
  load_failed : String → NpyRead

-- `none` is a full read of a gzip or tar file, `some` what it raised; `json_error` is that of `json.loads`.
pub record Disk : Type 0 where
  pub exists : String → Bool
  pub is_dir : String → Bool
  pub is_file : String → Bool
  pub size : String → ℕ
  pub name : String → String
  pub suffixes : String → List String
  pub child : String → String → String
  pub rglob : String → String → List String
  pub zip : String → ZipRead
  pub gzip : String → Option String
  pub tar : String → Option String
  pub read_text : String → TextRead
  pub strip : String → String
  pub json_error : String → Option String
  pub npy : String → NpyRead
  pub lower : String → String

pub data Verifier : Type 0 where
  verify_zip verify_gzip verify_tar verify_json verify_npy : Verifier

-- _VERIFIERS
abbrev pub verifiers : Dict String Verifier
verifiers =
    (".zip", verify_zip)
    ∷ (".npz", verify_zip)
    ∷ (".whl", verify_zip)
    ∷ (".gz", verify_gzip)
    ∷ (".gzip", verify_gzip)
    ∷ (".tar", verify_tar)
    ∷ (".tgz", verify_tar)
    ∷ (".json", verify_json)
    ∷ (".npy", verify_npy)
    ∷ []

-- RESIDUE_SUFFIXES
abbrev pub residue_suffixes : List String
residue_suffixes = ".tmp" ∷ ".part" ∷ ".partial" ∷ ".crdownload" ∷ ".filepart" ∷ []

-- s.endswith(t)
unfoldable pub ends_with : String → String → Bool
ends_with s t = leb (len t) (len s) && slice s (len s - len t) (len s) == t

abbrev pub damaged : String → String → String → Option ArrivalProblem
damaged p kind detail = some (record { path = p; kind = kind; detail = detail; fatal = true })

abbrev pub on_zip : String → ZipRead → Option ArrivalProblem
on_zip p (bad_member m) = damaged p "truncated" m
on_zip p (members zero) = damaged p "empty" "zip contains no members"
on_zip p (members (suc n)) = none
on_zip p (bad_zip e) = damaged p "truncated" e
on_zip p (zip_os_error e) = damaged p "unreadable" e

-- A gzip or tar file.
abbrev pub on_stream : String → Option String → Option ArrivalProblem
on_stream p none = none
on_stream p (some e) = damaged p "truncated" e

abbrev pub on_npy : String → NpyRead → Option ArrivalProblem
on_npy p loaded = none
on_npy p no_numpy = none
on_npy p (load_failed e) = damaged p "truncated" e

module _ (disk : Disk) where
  abbrev pub on_text : String → TextRead → Option ArrivalProblem
  on_text p (text_os_error e) = damaged p "unreadable" e
  on_text p (read s) =
      if disk.strip s == ""
      then damaged p "empty" "zero-length JSON"
      else on_stream p (disk.json_error s)

  -- The five verifiers.
  unfoldable pub verify : Verifier → String → Option ArrivalProblem
  verify verify_zip p = on_zip p (disk.zip p)
  verify verify_gzip p = on_stream p (disk.gzip p)
  verify verify_tar p = on_stream p (disk.tar p)
  verify verify_json p = on_text p (disk.read_text p)
  verify verify_npy p = on_npy p (disk.npy p)

  -- By the suffixes, the last one first.
  abbrev pub by_suffixes : List String → Option Verifier
  by_suffixes [] = lookup "" verifiers
  by_suffixes (s ∷ []) = lookup s verifiers
  by_suffixes (s ∷ t ∷ ss) = if t == ".tar" then some verify_tar else lookup s verifiers

  -- `_verifier_for`
  unfoldable pub verifier_for : String → Option Verifier
  unfolding lookup
  verifier_for p = by_suffixes (reverse (map disk.lower (disk.suffixes p)))

  abbrev pub verify_by : Option Verifier → String → Option ArrivalProblem
  unfolding verify
  verify_by none p = none
  verify_by (some v) p = verify v p

  unfoldable pub verify_file : String → Option ArrivalProblem
  unfolding verifier_for verify_by verify
  verify_file p =
      if not (disk.exists p)
      then damaged p "missing" "does not exist"
      else if disk.is_dir p
      then none
      else if nat_beq (disk.size p) 0
      then damaged p "empty" "zero bytes"
      else verify_by (verifier_for p) p

  -- `_is_residue`
  unfoldable pub is_residue : String → Bool
  unfolding ends_with
  is_residue p = any (λ s. ends_with (disk.lower (disk.name p)) s) residue_suffixes
