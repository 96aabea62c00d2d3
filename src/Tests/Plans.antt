-- ===== src/Tests/Plans.antt =====
-- A release plan with one adopted crate, and its dry run.
use symaira_corekit.Base.{
  ◌≡◌, refl, true, false, none, some, List, [], ◌∷◌, Text, str, if◌then◌else◌, list_beq, option_beq,
  ◌==◌, nat_eq, list_eq, option_eq, bool_eq, pair_eq,
}
use symaira_corekit.Base.Strings.{split_lines, starts_with, strip}
use symaira_corekit.Base.Verdict.{accepts}
use symaira_corekit.Consumer.Paths.{last_part, path_parts}
use symaira_corekit.Consumer.Patterns.{is_release_tag, is_revision}
use symaira_corekit.Consumer.Status.{is_hashable}
use symaira_corekit.Consumer.World.{contents}
use symaira_corekit.Json.{
  Fields, Value, arr, as_dict, as_list, bool, cons, end, get, get_in, get_or, has, has_duplicates,
  int, is_str, is_text, nil, obj, text, text_that, value_eq,
}
use symaira_corekit.ReleasePlan.{Plan, is_version, validate_manifest_shape}
use symaira_corekit.ReleasePlan.Run.{Summary, dry_run}
use symaira_corekit.ReleasePlan.Run.Laws.{IsReady, dry_run-IsReady}
use symaira_corekit.ReleasePlan.Shape.{IsPlan, validate_manifest_shape-IsPlan}
use symaira_corekit.ReleasePlan.Sources.{Machine}
use symaira_corekit.Tests.Consumers.{commit, digest, entry, shown}

abbrev crate_name : Text
crate_name = str "core"

abbrev adopters : Value
adopters = arr (cons (text (str "team/a")) (cons (text (str "team/b")) nil))

abbrev crate : Fields
crate = entry "name" (text crate_name) (
    entry "manifest" (text (str "core/Cargo.toml")) (
      entry "version" (text (str "1.0.0")) (
        entry "adopted" (bool true) (
          entry "publishable" (bool false)
            (entry "adopters" adopters (entry "reason" (text (str "shared")) end))))))

abbrev provenance : Fields
provenance = entry "oracle_commit" (text commit) (
    entry "input_files" (arr (cons (text (str "Cargo.lock")) nil))
      (entry "source_revision_policy" (text (str "the checkout")) end))

abbrev sbom : Fields
sbom =
    entry "required" (bool true)
      (entry "format" (text (str "cargo-metadata-json")) (entry "command" (text (str "cargo")) end))

abbrev planned_release : Fields
planned_release = entry "tag" (text (str "v1.2.0")) (
    entry "source_revision" (text (str "HEAD")) (
      entry "publish" (bool false) (
        entry "publication_status" (text (str "not-run")) (
          entry "registry" (text (str "https://crates.io")) (
            entry "planned_publish_order" (arr (cons (text crate_name) nil)) (
              entry "crates" (arr (cons (obj crate) nil))
                (entry "provenance" (obj provenance) (entry "sbom" (obj sbom) end))))))))

abbrev repository : Fields
repository = entry "slug" (text (str "danieljustus/symaira-corekit")) (
    entry "url" (text (str "https://github.com"))
      (entry "go_module" (text (str "github.com/danieljustus/symaira-corekit")) end))

abbrev manifest : Fields
manifest =
    entry "schema_version" (int 1)
      (entry "repository" (obj repository) (entry "release" (obj planned_release) end))

abbrev cargo_package : Fields
cargo_package = entry "name" (text crate_name) (
    entry "manifest_path" (text (str "/repo/core/Cargo.toml"))
      (entry "version" (text (str "1.0.0")) (entry "publish" (arr nil) end)))

abbrev adoption : Text → Value
adoption team = obj (entry "crate" (text crate_name) (entry "repository" (text team) end))

abbrev decoded : Text → Value
decoded name =
    if name == str "metadata"
    then obj (entry "packages" (arr (cons (obj cargo_package) nil)) end)
    else if name == str "evidence.json"
    then obj (
        entry "consumers"
          (arr (cons (adoption (str "team/a")) (cons (adoption (str "team/b")) nil))) end)
    else obj manifest

abbrev answer : List Text → Text
answer (a ∷ b ∷ args) =
    if b == str "rev-parse" then commit else if b == str "metadata" then str "metadata" else []
answer args = []

abbrev machine : Machine
machine = record {
  root = str "repo" ∷ [];
  target = str "tmp" ∷ str "target" ∷ [];
  run = λ args. some (answer args);
  read_text = λ l. contents (last_part l);
  json_loads = λ t. some (decoded t);
  is_symlink = λ l. false;
  is_file = λ l. true;
  resolve = λ l. l;
  absolute = path_parts;
  file_digest = λ l. some digest;
  format = shown;
}

program : Unit {0}
unfolding dry_run get list_beq option_beq as_list as_dict get_in get_or has is_str is_text text_that
    value_eq has_duplicates is_release_tag is_revision is_version starts_with split_lines strip
    path_parts last_part is_hashable
program = tt

abbrev plan : Plan
plan = record {
  release = planned_release;
  crates = (crate_name, crate) ∷ [];
  order = text crate_name ∷ [];
}

accepted_plan : validate_manifest_shape shown manifest ≡ accepts plan
unfolding program validate_manifest_shape
accepted_plan = refl

validate_manifest_shape_example : IsPlan shown manifest plan
validate_manifest_shape_example = validate_manifest_shape-IsPlan shown manifest plan accepted_plan

abbrev summary : Summary
summary = record {
  revision = commit;
  workspace_packages = 1;
  candidates = (crate_name, crate) ∷ [];
  archives = (crate_name, digest) ∷ [];
  inputs = digest ∷ [];
  baseline = none;
}

successful_run : dry_run machine (str "repo" ∷ str "manifest.json" ∷ []) none ≡ accepts summary
unfolding program
successful_run = refl

dry_run_example : IsReady machine (str "repo" ∷ str "manifest.json" ∷ []) none summary
dry_run_example =
    dry_run-IsReady machine (str "repo" ∷ str "manifest.json" ∷ []) none summary successful_run
