-- ===== src/Tests/Evidences.antt =====
-- The evidence of a small consumer: a standalone run and a rollback, with a report each.
use symaira_corekit.Base.{
  ◌≡◌, refl, true, false, none, some, List, [], ◌∷◌, Text, str, if◌then◌else◌, list_beq, option_beq,
  ◌==◌, nat_eq, list_eq, option_eq, bool_eq, pair_eq,
}
use symaira_corekit.Base.Strings.{split_lines, starts_with}
use symaira_corekit.Consumer.Evidence.{check_evidence}
use symaira_corekit.Consumer.Evidence.Laws.{IsEvidence, check_evidence-IsEvidence}
use symaira_corekit.Consumer.Findings.{returns}
use symaira_corekit.Consumer.Paths.{forbidden_parts, last_part, valid_parts}
use symaira_corekit.Consumer.Patterns.{is_digest, is_revision}
use symaira_corekit.Consumer.Rollback.{is_option}
use symaira_corekit.Consumer.Status.{expected_rust, validate_rust_status}
use symaira_corekit.Consumer.Status.Laws.{HasStatus, validate_rust_status_iff}
use symaira_corekit.Consumer.World.{
  World, contents, folder, git, no_branch, prints, regular, succeeds,
}
use symaira_corekit.Json.{
  Fields, Value, as_dict, as_list, end, entries, get, get_in, get_or, has, int, is_str, is_text,
  is_zero, keys, obj, size, text, text_that, value_eq,
}
use symaira_corekit.Tests.Builds.{provenance}
use symaira_corekit.Tests.Consumers.{checkout, commit, digest, entry, release, report, shown}

abbrev result : Fields
result = entry "exit_code" (int 0) (entry "stdout" (text []) (entry "stderr" (text []) end))

abbrev item : Text → Text → Value
item path artifact = obj (
    entry "status" (text (str "verified")) (
      entry "report" (text path) (
        entry "artifact" (text artifact) (
          entry "command" (text (str "run"))
            (entry "result" (obj result) (entry "report_sha256" (text digest) end))))))

abbrev claims : Text → Fields → Fields
claims artifact rest = entry "tag" (text (str "v1.2.0")) (
    entry "commit" (text commit) (
      entry "artifact" (text artifact) (
        entry "artifact_sha256" (text digest)
          (entry "observed" (obj (entry "command" (text (str "run")) result)) rest))))

abbrev pub standalone_report : Fields
standalone_report = claims (str "bin/new") (entry "rust_build" (obj provenance) end)

abbrev pub rollback_report : Fields
rollback_report = claims (str "bin/old") report

abbrev pub evidence : Fields
evidence =
    entry "standalone" (item (str "reports/a.json") (str "bin/new"))
      (entry "rollback" (item (str "reports/b.json") (str "bin/old")) end)

abbrev rust : Fields
rust =
    entry "status" (text (str "registry"))
      (entry "release" (obj release) (entry "evidence" (obj evidence) end))

abbrev consumer : Fields
consumer = entry "rust" (obj rust) (entry "consumer_release" (obj release) end)

-- The path that `ls-files --error-unmatch --` asks for.
abbrev asked : List Text → Text
asked (a ∷ b ∷ c ∷ path ∷ []) = path
asked args = []

abbrev world : World
world = record {
  run_git = λ args cwd. record { returncode = 0; stdout = asked args; stderr = [] };
  lstat = λ l. regular;
  resolve = λ l. l;
  is_dir = λ l. true;
  is_file = λ l. true;
  json_limit = λ t. none;
  is_writable = λ l. true;
  read_text = λ l. contents (last_part l);
  tree = λ l. folder no_branch [];
  letters = record { alpha = λ c. false; alnum = λ c. false };
  toml_loads = λ t. none;
  json_loads = λ t. some (if t == str "a.json" then obj standalone_report else obj rollback_report);
  file_digest = λ l. some digest;
  text_digest = λ t. some digest;
  format = shown;
  format-text = λ t. refl;
}

program : Unit {0}
unfolding check_evidence expected_rust list_beq option_beq starts_with split_lines as_dict as_list
    get get_in get_or has is_str is_zero is_text text_that entries keys size value_eq is_revision
    is_digest git succeeds prints valid_parts forbidden_parts last_part is_option
program = tt

adopted : expected_rust consumer ≡ returns (some rust)
unfolding program
adopted = refl

clean_evidence : check_evidence world consumer checkout ≡ returns []
unfolding program
clean_evidence = refl

check_evidence_example : IsEvidence world consumer checkout rust
check_evidence_example =
    check_evidence-IsEvidence world consumer checkout rust adopted clean_evidence

known_status : validate_rust_status consumer ≡ returns []
unfolding program validate_rust_status
known_status = refl

validate_rust_status_example : HasStatus consumer
validate_rust_status_example = (validate_rust_status_iff consumer).0 known_status
