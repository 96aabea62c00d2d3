-- ===== src/Tests/Releases.antt =====
-- One consumer that passes all checks of the Git-pinned stage.
use symaira_corekit.Base.{
  ◌≡◌, refl, true, false, not, none, some, List, [], ◌∷◌, ◌++◌, Text, str, if◌then◌else◌, length,
  list_beq, option_beq, ◌==◌, nat_eq, list_eq, option_eq, bool_eq, pair_eq,
}
use symaira_corekit.Base.Strings.{split_lines, starts_with}
use symaira_corekit.Consumer.Evidence.{check_evidence}
use symaira_corekit.Consumer.Findings.{returns}
use symaira_corekit.Consumer.GoImports.{go_imports, import_block, skip_go_ignored}
use symaira_corekit.Consumer.GoImports.Ends.{Lexes, Reads, Skips, go_imports_ends}
use symaira_corekit.Consumer.Paths.{forbidden_parts, last_part, valid_parts}
use symaira_corekit.Consumer.Patterns.{is_digest, is_release_tag, is_revision}
use symaira_corekit.Consumer.Rollback.{is_option}
use symaira_corekit.Consumer.Rust.{check_rust}
use symaira_corekit.Consumer.Rust.Laws.{RustCase, check_rust_cases}
use symaira_corekit.Consumer.Snapshot.{check_checkout_snapshot}
use symaira_corekit.Consumer.Snapshot.Laws.{IsSnapshot, check_checkout_snapshot-IsSnapshot}
use symaira_corekit.Consumer.Status.{validate_rust_status}
use symaira_corekit.Consumer.Verify.{
  Arguments, Verification, git_pinned_consumers, main, verification,
}
use symaira_corekit.Consumer.Verify.Laws.{IsReleased, main-IsReleased}
use symaira_corekit.Consumer.Verify.Listing.{IsListing, verification-IsListing}
use symaira_corekit.Consumer.World.{
  Location, World, contents, folder, git, no_branch, prints, regular, succeeds,
}
use symaira_corekit.Json.{
  Fields, Value, arr, as_dict, as_list, cons, end, entries, get, get_in, get_or, has, is_str,
  is_text, is_zero, keys, nil, obj, size, text, text_that, value_eq,
}
use symaira_corekit.Tests.Consumers.{commit, digest, entry, release, shown}
use symaira_corekit.Tests.Evidences.{evidence, rollback_report, standalone_report}

abbrev pinned : Text
pinned = str "https://github.com/danieljustus/symaira-corekit"

-- The commands that the verifier runs, by their arguments.
abbrev answer : List Text → Text
answer (a ∷ args) =
    if a == str "rev-parse" then commit else if not (a == str "ls-files") then [] else elim args [
      | [] ↦ []
      | b ∷ rest ↦ elim rest [
        | [] ↦ str "go.mod" ++ 0 ∷ str "main.go" ++ 0 ∷ str "Cargo.toml" ++ 0 ∷ str "Cargo.lock"
        | c ∷ paths ↦ elim paths [
          | [] ↦ str "main.go"
          | path ∷ others ↦ if b == str "-z" then str "main.go" else path
        ]
      ]
    ]
answer [] = []

abbrev dependency : Fields
dependency =
    entry "version" (text (str "=1.2.0"))
      (entry "git" (text pinned) (entry "rev" (text commit) end))

abbrev cargo_toml : Fields
cargo_toml = entry "dependencies" (obj (entry "symaira-core-version" (obj dependency) end)) end

abbrev locked : Fields
locked = entry "name" (text (str "symaira-core-version")) (
    entry "version" (text (str "1.2.0")) (
      entry "source"
        (text (str "git+" ++ (pinned ++ (str "?rev=" ++ (commit ++ (str "#" ++ commit)))))) end))

abbrev cargo_lock : Fields
cargo_lock = entry "package" (arr (cons (obj locked) nil)) end

abbrev rust : Fields
rust = entry "status" (text (str "git")) (
    entry "package" (text (str "symaira-core-version")) (
      entry "manifest_paths" (arr (cons (text (str "Cargo.toml")) nil)) (
        entry "version" (text (str "1.2.0")) (
          entry "revision" (text commit) (
            entry "release" (obj release) (
              entry "release_source" (text (str "corekit"))
                (entry "evidence" (obj evidence) end)))))))

abbrev consumer : Fields
consumer = entry "repo" (text (str "team/app")) (
    entry "checkout_commit" (text commit) (
      entry "consumer_release" (obj release)
        (entry "pins" (arr (cons (text (str "go.mod")) nil)) (entry "rust" (obj rust) end))))

abbrev registry : Fields
registry =
    entry "package" (text (str "symaira-core-version"))
      (entry "status" (text (str "not_released")) end)

abbrev corekit : Fields
corekit = entry "repository" (text (str "danieljustus/symaira-corekit")) (
    entry "go_module" (text (str "github.com/danieljustus/symaira-corekit")) (
      entry "rust_registry" (obj registry)
        (entry "release_tag" (text (str "v1.2.0")) (entry "release_commit" (text commit) end))))

abbrev document : Fields
document = entry "corekit" (obj corekit) (entry "consumers" (arr (cons (obj consumer) nil)) end)

abbrev file_text : Text → Text
file_text name =
    if name == str "go.mod"
    then str "require github.com/danieljustus/symaira-corekit v1.2.0"
    else if name == str "main.go"
    then str "import \"github.com/danieljustus/symaira-corekit/x\""
    else name

abbrev decoded : Text → Value
decoded name =
    if name == str "a.json"
    then obj standalone_report
    else if name == str "b.json"
    then obj rollback_report
    else obj document

abbrev world : World
world = record {
  run_git = λ args cwd. record { returncode = 0; stdout = answer args; stderr = [] };
  lstat = λ l. regular;
  resolve = λ l. l;
  is_dir = λ l. true;
  is_file = λ l. true;
  json_limit = λ t. none;
  is_writable = λ l. true;
  read_text = λ l. contents (file_text (last_part l));
  tree = λ l. folder no_branch (str "main.go" ∷ []);
  letters = record { alpha = λ c. false; alnum = λ c. false };
  toml_loads = λ t. some (if t == str "Cargo.lock" then obj cargo_lock else obj cargo_toml);
  json_loads = λ t. some (decoded t);
  file_digest = λ l. some digest;
  text_digest = λ t. some digest;
  format = shown;
  format-text = λ t. refl;
}

abbrev place : Location
place = str "work" ∷ str "app" ∷ []

abbrev args : Arguments
args = record {
  stage = git_pinned_consumers;
  manifest = str "consumers.json" ∷ [];
  workspace = some (str "work" ∷ []);
  corekit = some (str "core" ∷ []);
  report = some (str "report.json" ∷ []);
}

program : Unit {0}
unfolding check_checkout_snapshot get list_beq option_beq is_revision git succeeds prints
    starts_with split_lines as_dict as_list get_in get_or has is_str is_zero is_text text_that
    entries keys size value_eq is_release_tag is_digest valid_parts forbidden_parts last_part
    is_option
program = tt

clean_snapshot : check_checkout_snapshot world consumer place ≡ []
unfolding program
clean_snapshot = refl

check_checkout_snapshot_example : IsSnapshot world consumer place
check_checkout_snapshot_example =
    check_checkout_snapshot-IsSnapshot world consumer place clean_snapshot

known_status : validate_rust_status consumer ≡ returns []
unfolding program validate_rust_status
known_status = refl

clean_rust : check_rust world consumer place (str "core" ∷ []) registry ≡ returns []
unfolding program check_rust
clean_rust = refl

check_rust_example : RustCase world consumer place (str "core" ∷ []) registry
check_rust_example =
    check_rust_cases world consumer place (str "core" ∷ []) registry known_status clean_rust

clean_evidence : check_evidence world consumer place ≡ returns []
unfolding program check_evidence
clean_evidence = refl

passes_all : main world [] args ≡ returns 0
unfolding program main
passes_all = refl

main-IsReleased_example : IsReleased world [] args
main-IsReleased_example = main-IsReleased world [] args passes_all

abbrev outcome : Verification
outcome = record {
  passed = true;
  consumer_count = 1;
  checked_repositories = str "corekit" ∷ str "team/app" ∷ [];
  findings = [];
}

verified : verification world [] args ≡ returns outcome
unfolding program verification
verified = refl

verification_example : IsListing world args outcome
verification_example = verification-IsListing world [] args outcome verified

abbrev source_text : Text
source_text = str "import \"a\""

go_imports_ends_example :
    Skips source_text (skip_go_ignored source_text)
    × Reads world.letters source_text
        (import_block world.letters (length source_text) source_text).0
        (import_block world.letters (length source_text) source_text).1
    × Lexes world.letters source_text (go_imports world.letters source_text)
go_imports_ends_example = go_imports_ends world.letters source_text
