-- ===== src/Tests/Builds.antt =====
-- The build provenance of a small consumer, whose Git answers each command with one path.
use symaira_corekit.Base.{
  ◌≡◌, refl, true, false, none, some, [], ◌∷◌, Text, str, list_beq, option_beq,
}
use symaira_corekit.Base.Strings.{split_lines, starts_with}
use symaira_corekit.Consumer.Findings.{returns}
use symaira_corekit.Consumer.Paths.{forbidden_parts, valid_parts}
use symaira_corekit.Consumer.Patterns.{is_digest, is_revision}
use symaira_corekit.Consumer.Provenance.{check_rust_build_provenance}
use symaira_corekit.Consumer.Provenance.Laws.{
  IsProvenance, check_rust_build_provenance-IsProvenance,
}
use symaira_corekit.Consumer.Rollback.{is_option}
use symaira_corekit.Consumer.Status.{expected_rust}
use symaira_corekit.Consumer.World.{World, contents, folder, git, no_branch, regular, succeeds}
use symaira_corekit.Json.{
  Fields, Value, arr, as_dict, as_list, cons, end, entries, get, get_in, get_or, int, is_str,
  is_text, is_zero, nil, obj, text, text_that,
}
use symaira_corekit.Tests.Consumers.{commit, digest, entry, shown}

abbrev path : Text
path = str "reports/run.json"

abbrev world : World
world = record {
  run_git = λ args cwd. record { returncode = 0; stdout = path; stderr = [] };
  lstat = λ l. regular;
  resolve = λ l. l;
  is_dir = λ l. true;
  is_file = λ l. true;
  json_limit = λ t. none;
  is_writable = λ l. true;
  read_text = λ l. contents [];
  tree = λ l. folder no_branch [];
  letters = record { alpha = λ c. false; alnum = λ c. false };
  toml_loads = λ t. none;
  json_loads = λ t. none;
  file_digest = λ l. some digest;
  text_digest = λ t. some digest;
  format = shown;
  format-text = λ t. refl;
}

abbrev texts : Text → Text → Text → Text → Value
texts a b c d = arr (cons (text a) (cons (text b) (cons (text c) (cons (text d) nil))))

abbrev consumer : Fields
consumer = entry "consumer_release" (obj (entry "commit" (text commit) end)) (
    entry "rust"
      (obj (
        entry "status" (text (str "git")) (
          entry "evidence" (obj (entry "standalone" (obj (entry "report" (text path) end)) end))
            end)))
      end)

abbrev observed : Fields
observed =
    entry "command" (texts (str "cargo") (str "build") (str "--locked") (str "--release"))
      (entry "exit_code" (int 0) (entry "stdout" (text []) (entry "stderr" (text []) end)))

abbrev pub provenance : Fields
provenance = entry "source_commit" (text commit) (
    entry "cargo_version" (text (str "cargo 1")) (
      entry "rustc_version" (text (str "rustc 1")) (
        entry "target" (text (str "linux"))
          (entry "observed" (obj observed) (entry "cargo_lock_sha256" (text digest) end)))))

abbrev report : Fields
report = entry "rust_build" (obj provenance) end

program : Unit {0}
unfolding check_rust_build_provenance expected_rust list_beq option_beq starts_with as_dict as_list
    get split_lines is_zero is_text get_in get_or is_str text_that entries is_revision is_digest git
    succeeds valid_parts forbidden_parts is_option
program = tt

clean_build :
    check_rust_build_provenance world report consumer (str "work" ∷ []) (str "standalone")
    ≡ returns []
unfolding program
clean_build = refl

check_rust_build_provenance_example : IsProvenance world report consumer (str "work" ∷ [])
check_rust_build_provenance_example =
    check_rust_build_provenance-IsProvenance world report consumer (str "work" ∷ [])
      (str "standalone") clean_build
