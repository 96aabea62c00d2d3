-- ===== src/ReleasePlan/Run.antt =====
-- The dry run of port/release/verify.py: `package_candidates`, `semver_baseline`, `dry_run_packages` and
-- `main`. What it prints is the value of the run.
pub mod Laws
use symaira_corekit.Base.{
  ℕ, Bool, false, not, ◌&&◌, Option, none, some, List, [], ◌∷◌, ◌++◌, Text, str, any, if◌then◌else◌,
  is_empty, length, select,
}
use symaira_corekit.Base.Strings.{join}
use symaira_corekit.Base.Verdict.{Verdict, accepts, crashes, refuses, require, ◌and_then◌}
use symaira_corekit.Consumer.Paths.{path_parts}
use symaira_corekit.Consumer.World.{Location}
use symaira_corekit.Json.{Fields, Value, as_list, get, get_in, is_str, text}
use symaira_corekit.ReleasePlan.{Plan, as_bool, validate_manifest_shape}
use symaira_corekit.ReleasePlan.Sources.{
  Machine, cargo_metadata, every, read_json, runs, safe_repository_path, validate_adoption,
  validate_clean_source, validate_git_provenance, validate_workspace,
}

-- A crate stands in the publish order.
unfoldable pub is_candidate : List Value → Text × Fields → Bool
unfolding is_str
is_candidate order (name, crate) = any (λ v. is_str v name) order

unfoldable pub package_candidates : Plan → List (Text × Fields)
unfolding is_candidate
package_candidates plan = select (is_candidate plan.order) plan.crates

-- The text of a field that is a text.
abbrev field_text : Fields → Text → Text
field_text d k = elim (get d k) [ text t ↦ t | _ ↦ [] ]

unfoldable pub is_publishable : Text × Fields → Bool
unfolding as_bool get is_str str
is_publishable (name, crate) =
    elim (as_bool (get crate (str "publishable"))) [ some b ↦ b | none ↦ false ]
    && not (is_str (get crate (str "version")) (str "0.0.0"))

unfoldable pub released_names : List (Text × Fields) → List Text
unfolding get str
released_names [] = []
released_names ((name, crate) ∷ crates) =
    (name ++ (str " v" ++ field_text crate (str "version"))) ∷ released_names crates

-- The crates that have a baseline; without one the check of the interfaces shows nothing.
unfoldable pub semver_baseline : List (Text × Fields) → Option Text
unfolding is_publishable released_names join str
semver_baseline candidates =
    let released = select is_publishable candidates in
    if is_empty released
    then none
    else some (str "semver baseline: " ++ join (str ",") (released_names released))

-- `target / "package" / f"{name}-{version}.crate"`
unfoldable pub archive_of : Machine → Text → Fields → Location
unfolding get str
archive_of m name crate =
    m.target
    ++ str "package"
      ∷ (name ++ (str "-" ++ (field_text crate (str "version") ++ str ".crate")))
      ∷ []

unfoldable pub package_command : Machine → Text → List Text
unfolding join str
package_command m name =
    str "cargo"
    ∷ str "package"
    ∷ str "--locked"
    ∷ str "--target-dir"
    ∷ (str "/" ++ join (str "/") m.target)
    ∷ str "--package"
    ∷ name
    ∷ []

-- The digest of the archive of one crate.
unfoldable pub dry_run_package : Machine → Text × Fields → Verdict (Text × Text)
unfolding runs package_command archive_of
dry_run_package m (name, crate) = require (runs m (package_command m name)) (
    require (m.is_file (archive_of m name crate)) (elim (m.file_digest (archive_of m name crate)) [
      | none ↦ refuses
      | some digest ↦ accepts (name, digest)
    ]))

unfoldable pub dry_run_packages : Machine → List (Text × Fields) → Verdict (List (Text × Text))
unfolding dry_run_package ◌and_then◌
dry_run_packages m [] = accepts []
dry_run_packages m (c ∷ cs) = dry_run_package m c and_then λ result.
    dry_run_packages m cs and_then λ results. accepts (result ∷ results)

-- One of the input files of the provenance.
unfoldable pub check_input : Machine → Value → Verdict Unit
unfolding safe_repository_path ◌and_then◌
check_input m v = safe_repository_path m v and_then λ path. require (m.is_file path) (accepts tt)

unfoldable pub input_digest : Machine → Value → Verdict Text
unfolding path_parts
input_digest m (text relative) = elim (m.file_digest (m.resolve (m.root ++ path_parts relative))) [
  | none ↦ refuses
  | some digest ↦ accepts digest
]
input_digest m v = crashes

unfoldable pub input_digests : Machine → List Value → Verdict (List Text)
unfolding input_digest ◌and_then◌
input_digests m [] = accepts []
input_digests m (v ∷ vs) = input_digest m v and_then λ digest.
    input_digests m vs and_then λ digests. accepts (digest ∷ digests)

-- `release["provenance"]["input_files"]`
unfoldable pub input_files : Fields → List Value
unfolding as_list get_in get str
input_files release = elim (as_list (get_in (get release (str "provenance")) (str "input_files"))) [
  | none ↦ []
  | some files ↦ files
]

-- What a successful run reports.
pub record Summary : Type 0 where
  pub revision : Text
  pub workspace_packages : ℕ
  pub candidates : List (Text × Fields)
  pub archives : List (Text × Text)
  pub inputs : List Text
  pub baseline : Option Text

-- The packaging, once the sources are valid.
unfoldable pub pack : Machine → Plan → Text → ℕ → Verdict Summary
unfolding package_candidates dry_run_packages input_digests input_files semver_baseline ◌and_then◌
pack m plan revision packages =
    let candidates = package_candidates plan in
    require (not (is_empty candidates)) (
      dry_run_packages m candidates and_then λ archives.
      input_digests m (input_files plan.release) and_then λ inputs. accepts (record {
        revision = revision;
        workspace_packages = packages;
        candidates = candidates;
        archives = archives;
        inputs = inputs;
        baseline = semver_baseline candidates;
      }))

-- The tests of the sources, in the order of `main`: the revision.
unfoldable pub check_sources : Machine → Plan → Option Text → List Value → Verdict Text
unfolding validate_workspace validate_adoption validate_git_provenance validate_clean_source every
    check_input input_files ◌and_then◌
check_sources m plan selected metadata = validate_workspace m plan metadata and_then λ workspace.
    validate_adoption m plan and_then λ adoption.
    validate_git_provenance m plan.release selected and_then λ revision.
    validate_clean_source m and_then λ clean.
    every (check_input m) (input_files plan.release) and_then λ inputs. accepts revision

unfoldable pub dry_run : Machine → Location → Option Text → Verdict Summary
unfolding read_json validate_manifest_shape cargo_metadata check_sources pack ◌and_then◌
dry_run m manifest_path selected = read_json m (m.resolve manifest_path) and_then λ manifest.
    validate_manifest_shape m.format manifest and_then λ plan. cargo_metadata m and_then λ metadata.
    check_sources m plan selected metadata and_then λ revision.
    pack m plan revision (length metadata)

-- The exit status; `none` is an exception that leaves the program, and the command line without `--dry-run` is
-- refused with the status 2.
unfoldable pub main : Machine → Location → Bool → Option Text → Option ℕ
unfolding dry_run
main m manifest_path dry_run_only selected =
    if not dry_run_only then some 2 else elim (dry_run m manifest_path selected) [
      | accepts summary ↦ some 0
      | refuses ↦ some 1
      | crashes ↦ none
    ]
