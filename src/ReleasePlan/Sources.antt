-- ===== src/ReleasePlan/Sources.antt =====
-- The sources of a release in port/release/verify.py: `read_json`, `safe_repository_path`,
-- `cargo_metadata`, `validate_workspace`, `validate_adoption`, `validate_git_provenance` and
-- `validate_clean_source`.
pub mod Laws
use symaira_corekit.Base.{
  Bool, true, false, not, ◌&&◌, ◌||◌, Option, none, some, List, [], ◌∷◌, ◌++◌, Text, str, all, any,
  contains, if◌then◌else◌, is_empty, ◌==◌, nat_eq, list_eq, option_eq, bool_eq, pair_eq,
}
use symaira_corekit.Base.Strings.{split_lines, starts_with, strip}
use symaira_corekit.Base.Verdict.{Verdict, accepts, crashes, refuses, require, ◌and_then◌}
use symaira_corekit.Consumer.Paths.{is_prefix, path_parts}
use symaira_corekit.Consumer.Patterns.{is_release_tag}
use symaira_corekit.Consumer.World.{
  Contents, Location, commit_of, contents, undecodable, unreadable,
}
use symaira_corekit.Json.{
  Fields, Value, arr, as_dict, as_list, bool, get, get_in, get_or, has, int, is_str, neg, nil, null,
  obj, text, text_that, to_list, value_eq,
}
use symaira_corekit.ReleasePlan.{Plan, as_bool, crate_names, is_adopted}

-- What the program asks of the system; the answers do not change while it runs.
pub record Machine : Type 0 where
  -- `ROOT`, and the directory for the archives.
  pub root : Location
  pub target : Location
  -- `run`: the output, unless the command fails.
  pub run : List Text → Option Text
  pub read_text : Location → Contents
  pub json_loads : Text → Option Value
  pub is_symlink : Location → Bool
  pub is_file : Location → Bool
  -- `path.resolve()`, and `Path(t).resolve()`
  pub resolve : Location → Location
  pub absolute : Text → Location
  -- `sha256(path)`, unless it cannot be read.
  pub file_digest : Location → Option Text
  -- `str(v)`
  pub format : Value → Text

-- A refusal whose message needs the path below the root.
unfoldable pub refuse_path : {A : Type 0} → Machine → Location → Verdict A
unfolding is_prefix
refuse_path m path = if is_prefix m.root path then refuses else crashes

unfoldable pub read_json : Machine → Location → Verdict Fields
unfolding refuse_path as_dict
read_json m path = elim (m.read_text path) [
  | unreadable ↦ refuse_path m path
  | undecodable ↦ crashes
  | contents t ↦ elim (m.json_loads t) [
    | none ↦ refuse_path m path
    | some v ↦ elim (as_dict v) [ none ↦ refuse_path m path | some d ↦ accepts d ]
  ]
]

-- `FORBIDDEN_PATH_PARTS`
unfoldable pub excluded_parts : List Text
unfolding str
excluded_parts = str ".worktrees" ∷ str "target" ∷ str "vendor" ∷ []

-- The loop over the parts.
unfoldable pub has_no_link : Machine → Location → List Text → Bool
has_no_link m current [] = true
has_no_link m current (p ∷ ps) =
    not (m.is_symlink (current ++ p ∷ [])) && has_no_link m (current ++ p ∷ []) ps

unfoldable pub safe_repository_path : Machine → Value → Verdict Location
unfolding path_parts excluded_parts has_no_link strip starts_with str
safe_repository_path m (text relative) =
    let parts = path_parts relative in
    require (not (is_empty (strip relative) || starts_with (str "/") relative)) (
      require (not (contains parts (str ".."))) (
        require (not (any (contains excluded_parts) parts))
          (require (has_no_link m m.root parts) (accepts (m.root ++ parts)))))
safe_repository_path m v = refuses

-- `cargo_metadata`: the packages.
unfoldable pub cargo_metadata : Machine → Verdict (List Value)
unfolding as_list get_in str
cargo_metadata m =
    elim (m.run (
      str "cargo"
      ∷ str "metadata"
      ∷ str "--locked"
      ∷ str "--all-features"
      ∷ str "--format-version"
      ∷ str "1"
      ∷ str "--no-deps"
      ∷ [])) [
        | none ↦ refuses
        | some output ↦ elim (m.json_loads output) [
          | none ↦ refuses
          | some v ↦ elim (as_list (get_in v (str "packages"))) [
            | none ↦ refuses
            | some packages ↦ accepts packages
          ]
        ]
      ]

-- The packages with a name.
unfoldable pub named_packages : List Value → List (Text × Fields)
unfolding get str
named_packages [] = []
named_packages (obj d ∷ vs) =
    let rest = named_packages vs in
    elim (get d (str "name")) [ text name ↦ (name, d) ∷ rest | _ ↦ rest ]
named_packages (v ∷ vs) = named_packages vs

-- `packages[name]`: the last package of that name.
unfoldable pub package_of : List (Text × Fields) → Text → Option Fields
package_of [] name = none
package_of ((k, d) ∷ packages) name = elim (package_of packages name) [
  | some found ↦ some found
  | none ↦ if k == name then some d else none
]

unfoldable pub same_names : List Text → List Text → Bool
same_names xs ys = all (contains ys) xs && all (contains xs) ys

-- The tests of a package behind its manifest path.
unfoldable pub check_declared : Machine → Fields → Fields → Location → Bool
unfolding value_eq get as_bool str
check_declared m crate member expected =
    let closed = value_eq (get member (str "publish")) (arr nil) in
    value_eq (get member (str "version")) (get crate (str "version"))
    && elim (as_bool (get crate (str "publishable"))) [
      | some publishable ↦ if publishable then not closed else closed
      | none ↦ false
    ]
    && m.is_file expected

-- The manifest path of Cargo is the declared one.
unfoldable pub check_place : Machine → Fields → Fields → Location → Value → Verdict Unit
unfolding check_declared
check_place m crate member path (text t) =
    require (m.absolute t == m.resolve path)
      (require (check_declared m crate member (m.resolve path)) (accepts tt))
check_place m crate member path v = crashes

-- The body of the loop over the crates.
unfoldable pub check_member : Machine → List (Text × Fields) → Text × Fields → Verdict Unit
unfolding package_of safe_repository_path is_prefix check_place get get_or ◌and_then◌ str
check_member m packages (name, crate) = elim (package_of packages name) [
  | none ↦ crashes
  | some member ↦ safe_repository_path m (get crate (str "manifest")) and_then λ path.
      require (is_prefix (m.resolve m.root) (m.resolve path))
        (check_place m crate member path (get_or member (str "manifest_path") (text [])))
]

-- A loop that stops at the first failure.
unfoldable pub every : {A : Type 0} → (A → Verdict Unit) → List A → Verdict Unit
unfolding ◌and_then◌
every f [] = accepts tt
every f (x ∷ xs) = f x and_then λ done. every f xs

unfoldable pub validate_workspace : Machine → Plan → List Value → Verdict Unit
unfolding named_packages same_names crate_names check_member every
validate_workspace m plan metadata =
    let packages = named_packages metadata in
    require (same_names (crate_names packages) (crate_names plan.crates))
      (every (check_member m packages) plan.crates)

-- `evidence.get("consumers", [])`, iterated.
unfoldable pub consumers_of : Fields → Verdict (List Value)
unfolding has get as_list str
consumers_of evidence =
    if not (has evidence (str "consumers"))
    then accepts []
    else elim (get evidence (str "consumers")) [
      | arr l ↦ accepts (to_list l)
      | obj d ↦ accepts []
      | text t ↦ accepts []
      | null ↦ crashes
      | bool b ↦ crashes
      | int n ↦ crashes
      | neg n ↦ crashes
    ]

-- `expected[crate]`
unfoldable pub adopters_of : Text → List Value → List Text
unfolding is_str get_in str
adopters_of name [] = []
adopters_of name (v ∷ vs) =
    let rest = adopters_of name vs in
    if is_str (get_in v (str "crate")) name
    then (elim (get_in v (str "repository")) [ text t ↦ t ∷ rest | _ ↦ rest ])
    else rest

-- The adopters of an adopted crate are the recorded ones.
unfoldable pub check_adopters : List Value → Text × Fields → Bool
unfolding is_adopted adopters_of as_list get is_str text_that str
check_adopters consumers (name, crate) =
    let recorded = adopters_of name consumers in
    not (is_adopted (name, crate)) || elim (as_list (get crate (str "adopters"))) [
      | none ↦ false
      | some adopters ↦
          all (text_that (contains recorded)) adopters
          && all (λ n. any (λ v. is_str v n) adopters) recorded
    ]

abbrev evidence_path : Location
evidence_path = str "testdata" ∷ str "rust-port" ∷ str "adoption" ∷ str "evidence.json" ∷ []

unfoldable pub validate_adoption : Machine → Plan → Verdict Unit
unfolding read_json consumers_of check_adopters ◌and_then◌ str
validate_adoption m plan = read_json m (m.root ++ evidence_path) and_then λ evidence.
    consumers_of evidence and_then λ consumers.
    require (all (check_adopters consumers) plan.crates) (accepts tt)

-- `selected_tag or release["tag"]` is a tag, and a selected tag is the release's.
unfoldable pub check_selected : Fields → Option Text → Bool
unfolding is_release_tag is_str get text_that str
check_selected release none = text_that is_release_tag (get release (str "tag"))
check_selected release (some t) =
    (if is_empty t then text_that is_release_tag (get release (str "tag")) else is_release_tag t)
    && is_str (get release (str "tag")) t

abbrev pub is_rust_tag : Text → Bool
is_rust_tag t =
    starts_with (str "rust-v") t || starts_with (str "rust/") t || starts_with (str "crate-v") t

unfoldable pub runs : Machine → List Text → Bool
runs m command = elim (m.run command) [ none ↦ false | some output ↦ true ]

-- The output of a command, or a refusal.
unfoldable pub output_of : Machine → List Text → Verdict Text
output_of m command = elim (m.run command) [ none ↦ refuses | some output ↦ accepts output ]

unfoldable pub commit_exists : Machine → Text → Bool
unfolding commit_of runs str
commit_exists m commit = runs m (str "git" ∷ str "cat-file" ∷ str "-e" ∷ commit_of commit ∷ [])

-- The recorded source revision is the checkout.
unfoldable pub check_source_revision : Machine → Text → Value → Bool
unfolding commit_exists str
check_source_revision m current (text t) = t == str "HEAD" || commit_exists m t && t == current
check_source_revision m current v = false

-- The tags and the revision, at the output of `rev-parse HEAD`.
unfoldable pub check_tags : Machine → Text → Text → Verdict Text
unfolding split_lines starts_with strip str
check_tags m head tags =
    require (not (any is_rust_tag (split_lines tags)))
      (require (not (is_empty (strip head))) (accepts (strip head)))

unfoldable pub check_checkout_head : Machine → Fields → Text → Verdict Text
unfolding check_source_revision commit_exists output_of check_tags ◌and_then◌ get get_in strip str
check_checkout_head m release head =
    require (check_source_revision m (strip head) (get release (str "source_revision"))) (
      require
        (commit_exists m (m.format (get_in (get release (str "provenance")) (str "oracle_commit"))))
        (output_of m (str "git" ∷ str "tag" ∷ str "--list" ∷ []) and_then check_tags m head))

unfoldable pub validate_git_provenance : Machine → Fields → Option Text → Verdict Text
unfolding check_selected output_of check_checkout_head ◌and_then◌ str
validate_git_provenance m release selected = require (check_selected release selected) (
    output_of m (str "git" ∷ str "rev-parse" ∷ str "HEAD" ∷ [])
    and_then check_checkout_head m release)

unfoldable pub validate_clean_source : Machine → Verdict Unit
unfolding output_of ◌and_then◌ strip str
validate_clean_source m =
    output_of m (str "git" ∷ str "status" ∷ str "--porcelain=v1" ∷ str "--untracked-files=all" ∷ [])
    and_then λ status. require (is_empty (strip status)) (accepts tt)
