-- ===== src/Tests/Consumers.antt =====
-- The checks of the consumer verifier at small records, with a Git that knows one commit.
use Prim.Native.String.{String}
use symaira_corekit.Base.{
  ◌≡◌, refl, true, false, none, some, [], ◌∷◌, ◌++◌, Text, str, list_beq, option_beq, replicate,
}
use symaira_corekit.Base.Strings.{starts_with}
use symaira_corekit.Consumer.Findings.{returns}
use symaira_corekit.Consumer.Paths.{forbidden_parts, safe, safe_non_symlink_child, valid_parts}
use symaira_corekit.Consumer.Paths.Laws.{IsGuarded, safe_non_symlink_child-IsGuarded}
use symaira_corekit.Consumer.Patterns.{is_digest, is_index_url, is_release_tag, is_revision}
use symaira_corekit.Consumer.Registry.{check_registry_readback, corekit_package, is_uniform}
use symaira_corekit.Consumer.Registry.Laws.{IsReadback, check_registry_readback_iff}
use symaira_corekit.Consumer.Release.{check_consumer_release, check_release_ancestry}
use symaira_corekit.Consumer.Release.Ancestry.{IsAncestral, check_release_ancestry_iff}
use symaira_corekit.Consumer.Release.Laws.{IsConsumerRelease, check_consumer_release_iff}
use symaira_corekit.Consumer.Rollback.{Programs, check_rollback_transition}
use symaira_corekit.Consumer.Rollback.Laws.{IsRollback, check_rollback_transition-IsRollback}
use symaira_corekit.Consumer.World.{
  Location, World, contents, folder, no_branch, prints, regular, succeeds,
}
use symaira_corekit.Json.{
  Fields, Value, arr, as_dict, as_list, cons, end, field, get, get_in, get_or, has_duplicates, int,
  is_str, nil, obj, text, text_that,
}

-- Forty and sixty-four digits.
abbrev pub commit : Text
commit = replicate 39 b'a' ++ b'1' ∷ []

abbrev pub digest : Text
digest = replicate 63 b'a' ++ b'1' ∷ []

abbrev pub shown : Value → Text
shown (text t) = t
shown v = []

abbrev world : World
world = record {
  run_git = λ args cwd. record { returncode = 0; stdout = commit; stderr = [] };
  lstat = λ path. regular;
  resolve = λ path. path;
  is_dir = λ path. true;
  is_file = λ path. true;
  json_limit = λ t. none;
  is_writable = λ l. true;
  read_text = λ path. contents [];
  tree = λ l. folder no_branch [];
  letters = record { alpha = λ c. false; alnum = λ c. false };
  toml_loads = λ t. none;
  json_loads = λ t. none;
  file_digest = λ path. some digest;
  text_digest = λ t. some digest;
  format = shown;
  format-text = λ t. refl;
}

abbrev pub entry : String → Value → Fields → Fields
entry k v d = field (str k) v d

abbrev pub checkout : Location
checkout = str "work" ∷ []

abbrev pub release : Fields
release = entry "tag" (text (str "v1.2.0")) (entry "commit" (text commit) end)

abbrev consumer : Fields
consumer = entry "consumer_release" (obj release) (entry "checkout_commit" (text commit) end)

abbrev rust : Fields
rust = entry "status" (text (str "git")) (
    entry "release" (obj release)
      (entry "release_source" (text (str "corekit")) (entry "revision" (text commit) end)))

abbrev readback : Fields
readback = entry "package" (text (str "symaira-core-version")) (
    entry "version" (text (str "1.2.0")) (
      entry "owners" (arr (cons (text (str "team")) nil)) (
        entry "index" (text (str "https://index.crates.io/sy/ma/symaira-core-version")) (
          entry "source" (text (str "https://crates.io/api/v1/crates/symaira-core-version/1.2.0"))
            (entry "checksum" (text digest) (entry "public_bytes" (text digest) end))))))

abbrev registry : Fields
registry = entry "status" (text (str "released")) (entry "readback" (obj readback) end)

abbrev step : String → String → Value
step runtime artifact = obj (
    entry "runtime" (text (str runtime)) (
      entry "artifact" (text (str artifact)) (
        entry "artifact_sha256" (text digest) (
          entry "state_readback_sha256" (text digest) (
            entry "observed"
              (obj (
                entry "command" (arr (cons (text (str "./" ++ str artifact)) nil)) (
                  entry "exit_code" (int 0)
                    (entry "stdout" (text (str "done")) (entry "stderr" (text []) end)))))
              end)))))

abbrev pub report : Fields
report =
    entry "transition"
      (arr (
        cons (step "go" "bin/old") (cons (step "rust" "bin/new") (cons (step "go" "bin/old") nil))))
      (entry "synthetic_state_sha256" (text digest) end)

abbrev programs : Programs
programs = record {
  go_artifact = str "bin/old";
  go_digest = digest;
  rust_artifact = some (str "bin/new");
  rust_digest = some digest;
}

program : Unit {0}
unfolding check_consumer_release check_release_ancestry check_registry_readback
    check_rollback_transition safe_non_symlink_child list_beq option_beq as_dict as_list get get_in
    get_or is_str text_that has_duplicates starts_with is_release_tag is_revision is_digest
    is_index_url succeeds prints corekit_package is_uniform valid_parts forbidden_parts
program = tt

clean_release : check_consumer_release world consumer checkout ≡ []
unfolding program
clean_release = refl

clean_ancestry : check_release_ancestry world (str "corekit") rust checkout ≡ []
unfolding program
clean_ancestry = refl

clean_registry :
    check_registry_readback world (str "corekit") registry (text (str "1.2.0")) (text digest) ≡ []
unfolding program
clean_registry = refl

clean_rollback : check_rollback_transition world report consumer checkout programs ≡ returns []
unfolding program
clean_rollback = refl

safe_binary :
    safe_non_symlink_child world checkout (text (str "bin/old"))
    ≡ safe (str "work" ∷ str "bin" ∷ str "old" ∷ [])
unfolding program
safe_binary = refl

check_consumer_release_example : IsConsumerRelease world consumer checkout
check_consumer_release_example =
    (check_consumer_release_iff world consumer checkout).0 clean_release

check_release_ancestry_example : IsAncestral world rust checkout
check_release_ancestry_example =
    (check_release_ancestry_iff world (str "corekit") rust checkout).0 clean_ancestry

check_registry_readback_example : IsReadback world registry (text (str "1.2.0")) (text digest)
check_registry_readback_example =
    (check_registry_readback_iff world (str "corekit") registry (text (str "1.2.0"))
        (text digest)).0
      clean_registry

check_rollback_transition_example : IsRollback world report checkout programs
check_rollback_transition_example =
    check_rollback_transition-IsRollback world report consumer checkout programs clean_rollback

safe_non_symlink_child_example :
    IsGuarded world checkout (text (str "bin/old")) (str "work" ∷ str "bin" ∷ str "old" ∷ [])
safe_non_symlink_child_example =
    safe_non_symlink_child-IsGuarded world checkout (text (str "bin/old"))
      (str "work" ∷ str "bin" ∷ str "old" ∷ []) safe_binary
