-- ===== src/Consumer/Provenance.antt =====
-- `_check_rust_build_provenance` of port/consumer/verify.py.
pub mod Laws
use symaira_corekit.Base.{
  ℕ, Bool, true, false, not, ◌&&◌, ◌||◌, List, [], ◌∷◌, ◌++◌, Option, none, some, Text, str, ◌==◌,
  list_eq, option_eq, nat_eq, contains, all, is_empty, if◌then◌else◌,
}
use symaira_corekit.Base.Strings.{strip, starts_with, split_lines, join}
use symaira_corekit.Json.{
  Value, Fields, get, get_in, get_or, is_text, text, as_dict, as_list, text_that, is_zero, entries,
}
use symaira_corekit.Consumer.Findings.{Report, add, need, Check, returns, raises, ◌then_check◌}
use symaira_corekit.Consumer.Patterns.{is_digest, is_revision}
use symaira_corekit.Consumer.World.{World, Location, git, succeeds, commit_of}
use symaira_corekit.Consumer.Paths.{
  Guarded, safe, unsafe, failed, path_parts, safe_non_symlink_child, regular_non_symlink,
}
use symaira_corekit.Consumer.Release.{repository_of, checked}
use symaira_corekit.Consumer.Rollback.{all_texts, is_option}
use symaira_corekit.Consumer.Status.{expected_rust}

-- The two commits: of the build, and of the consumer's release.
unfoldable pub build_commits : Fields → Value → Option (Text × Text)
unfolding checked
build_commits record' provenance = elim (as_dict provenance) [
  | none ↦ none
  | some d ↦ elim (checked is_revision (get d (str "source_commit"))) [
    | none ↦ none
    | some source ↦
        elim (checked is_revision (get_in (get record' (str "consumer_release")) (str "commit"))) [
          | none ↦ none
          | some release ↦ some (source, release)
        ]
  ]
]

abbrev text_or_none : Value → List Text
text_or_none (text t) = t ∷ []
text_or_none v = []

-- The report and the artifact of each evidence item.
unfoldable pub item_paths : List (Text × Value) → List Text
item_paths [] = []
item_paths ((name, item) ∷ items) =
    text_or_none (get_in item (str "report"))
    ++ (text_or_none (get_in item (str "artifact")) ++ item_paths items)

-- `allowed_changes`
unfoldable pub allowed_changes : Option Fields → List Text
unfolding item_paths
allowed_changes none = []
allowed_changes (some rust) = elim (as_dict (get rust (str "evidence"))) [
  | none ↦ []
  | some evidence ↦ item_paths (entries evidence)
]

-- `build_command[:2] == ["cargo", "build"]`, and the two options.
unfoldable pub is_locked_build : List Text → Bool
is_locked_build (a ∷ b ∷ rest) =
    a == str "cargo"
    && b == str "build"
    && contains (a ∷ b ∷ rest) (str "--locked")
    && contains (a ∷ b ∷ rest) (str "--release")
is_locked_build _ = false

-- The negation of the condition on the recorded build.
unfoldable pub is_observed_build : Value → Bool
unfolding strip starts_with all_texts is_locked_build
is_observed_build provenance =
    let observed = get_in provenance (str "observed") in
    text_that (starts_with (str "cargo ")) (get_in provenance (str "cargo_version"))
    && text_that (starts_with (str "rustc ")) (get_in provenance (str "rustc_version"))
    && text_that (λ t. not (is_empty (strip t))) (get_in provenance (str "target"))
    && elim (as_list (get_in observed (str "command"))) [
      | none ↦ false
      | some values ↦ elim (all_texts values) [
        | none ↦ false
        | some command ↦ is_locked_build command
      ]
    ]
    && is_zero (get_in observed (str "exit_code"))
    && is_text (get_in observed (str "stdout"))
    && is_text (get_in observed (str "stderr"))

-- `str(Path(cargo_root) / "Cargo.lock")`
unfoldable pub lock_path_text : Text → Text
unfolding path_parts join
lock_path_text root =
    (if starts_with (str "/") root then str "/" else [])
    ++ join (str "/") (path_parts root ++ str "Cargo.lock" ∷ [])

-- The lock file's path in the checkout, and its digest. An error of the two leaves the default path.
unfoldable pub lock_file : World → Location → Value → Text × Option Text
unfolding lock_path_text safe_non_symlink_child regular_non_symlink
lock_file w checkout (text root) =
    let relative = lock_path_text root in
    elim (safe_non_symlink_child w checkout (text relative)) [
      | safe path ↦
          if regular_non_symlink w path
          then elim (w.file_digest path) [
            | none ↦ (str "Cargo.lock", none)
            | some digest ↦ (relative, some digest)
          ]
          else (relative, none)
      | unsafe ↦ (str "Cargo.lock", none)
      | failed ↦ (str "Cargo.lock", none)
    ]
lock_file w checkout v = (str "Cargo.lock", none)

-- `rust.get("cargo_root", ".") if rust else "."`
unfoldable pub cargo_root : Option Fields → Value
cargo_root none = text (str ".")
cargo_root (some rust) = get_or rust (str "cargo_root") (text (str "."))

-- `_evidence_error` for the build of the named report.
abbrev pub build_finding : Text → Text → Text → Report
build_finding repository name suffix =
    add repository (str "evidence." ++ name ++ str ".build" ++ suffix)

-- The checks of a build between two full commits.
unfoldable pub check_build :
    World → Text → Location → Value → Option Fields → Text → Text → Text → Report
unfolding allowed_changes is_observed_build lock_file cargo_root
check_build w repository checkout provenance rust source release name =
    let finding : Text → Report = build_finding repository name in
    let lock = lock_file w checkout (cargo_root rust) in
    let lock_digest = get_in provenance (str "cargo_lock_sha256") in
    let change = str "diff" ∷ str "--name-only" ∷ source ∷ release ∷ str "--" ∷ [] in
    need
      (succeeds w (str "cat-file" ∷ str "-e" ∷ commit_of source ∷ []) checkout
        && succeeds w (str "merge-base" ∷ str "--is-ancestor" ∷ source ∷ release ∷ []) checkout)
      (finding (str ".source"))
    ++ (need
          (succeeds w change checkout
            && all (contains (allowed_changes rust)) (split_lines (git w change checkout).stdout))
          (finding (str ".source"))
        ++ (need (is_observed_build provenance) (finding [])
            ++ need
                (succeeds w (str "diff" ∷ str "--quiet" ∷ source ∷ release ∷ str "--" ∷ lock.0 ∷ [])
                    checkout
                  && text_that is_digest lock_digest
                  && is_option lock_digest lock.1)
                (finding (str ".lock"))))

unfoldable pub check_rust_build_provenance :
    World → Fields → Fields → Location → Text → Check Report
unfolding build_commits check_build expected_rust
check_rust_build_provenance w report record' checkout name =
    let repository = repository_of record' in
    let provenance = get report (str "rust_build") in
    elim (build_commits record' provenance) [
      | none ↦ returns (build_finding repository name [])
      | some (source, release) ↦ elim (expected_rust record') [
        | raises e ↦ raises e
        | returns rust ↦
            returns (check_build w repository checkout provenance rust source release name)
      ]
    ]
