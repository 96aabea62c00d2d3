-- ===== src/Consumer/Reports.antt =====
-- The committed reports of `_check_evidence` of port/consumer/verify.py, and their tests.
use symaira_corekit.Base.{
  Bool, false, not, ◌&&◌, ◌||◌, [], ◌∷◌, ◌++◌, Option, none, some, Text, str, ◌==◌, list_eq,
  option_eq, nat_eq, contains, all, is_empty, if◌then◌else◌,
}
use symaira_corekit.Base.Strings.{strip}
use symaira_corekit.Json.{
  Value, Fields, field, get, get_in, has, is_text, text, null, obj, as_dict, text_that, is_zero,
  value_eq, keys,
}
use symaira_corekit.Consumer.Findings.{Raised, Report, add, need}
use symaira_corekit.Consumer.Patterns.{is_digest}
use symaira_corekit.Consumer.World.{
  World, Location, contents, unreadable, undecodable, succeeds, prints,
}
use symaira_corekit.Consumer.Paths.{
  safe, unsafe, failed, safe_non_symlink_child, regular_non_symlink,
}
use symaira_corekit.Consumer.Rollback.{is_option}

abbrev pub filled : Text → Bool
filled t = not (is_empty (strip t))

-- The guarded path of a regular file, if there is one.
unfoldable pub regular_file : World → Location → Text → Option Location
unfolding safe_non_symlink_child regular_non_symlink
regular_file w checkout relative = elim (safe_non_symlink_child w checkout (text relative)) [
  | safe path ↦ if regular_non_symlink w path then some path else none
  | unsafe ↦ none
  | failed ↦ none
]

-- The file stands in the index, with nothing staged, nothing changed and nothing that differs from HEAD.
unfoldable pub is_committed : World → Location → Text → Bool
is_committed w checkout relative =
    prints w (str "ls-files" ∷ str "--error-unmatch" ∷ str "--" ∷ relative ∷ []) checkout relative
    && succeeds w (str "diff" ∷ str "--cached" ∷ str "--quiet" ∷ []) checkout
    && succeeds w (str "diff" ∷ str "--quiet" ∷ str "--" ∷ relative ∷ []) checkout
    && succeeds w (str "diff" ∷ str "--quiet" ∷ str "HEAD" ∷ str "--" ∷ relative ∷ []) checkout

-- The decoded report of a file.
unfoldable pub read_report : World → Location → Option Fields
read_report w path = elim (w.read_text path) [
  | unreadable ↦ none
  | undecodable ↦ none
  | contents t ↦ elim (w.json_loads t) [ none ↦ none | some v ↦ as_dict v ]
]

-- The report that an item names, and its path. All that keeps it out draws the same finding.
unfoldable pub committed_report : World → Location → Text → Option (Location × Fields)
unfolding regular_file is_committed read_report
committed_report w checkout relative = elim (regular_file w checkout relative) [
  | none ↦ none
  | some path ↦
      let report = read_report w path in
      if is_committed w checkout relative
      then elim report [ none ↦ none | some d ↦ some (path, d) ]
      else none
]

-- The exception of `json.loads` that is not caught where the report is read.
unfoldable pub report_limit : World → Location → Text → Option Raised
unfolding regular_file is_committed
report_limit w checkout relative = elim (regular_file w checkout relative) [
  | none ↦ none
  | some path ↦ if not (is_committed w checkout relative) then none else elim (w.read_text path) [
    | unreadable ↦ none
    | undecodable ↦ none
    | contents t ↦ w.json_limit t
  ]
]

-- The keys and values of an observed successful result.
unfoldable pub is_result : Value → Bool
unfolding is_zero is_text
is_result (obj d) =
    all (contains (str "exit_code" ∷ str "stdout" ∷ str "stderr" ∷ [])) (keys d)
    && has d (str "exit_code")
    && has d (str "stdout")
    && has d (str "stderr")
    && is_zero (get d (str "exit_code"))
    && is_text (get d (str "stdout"))
    && is_text (get d (str "stderr"))
is_result v = false

-- `{"command": command, **result}`, or None.
unfoldable pub expected_observed : Value → Value → Value
expected_observed (text command) (obj result) =
    obj (if has result (str "command") then result else field (str "command") (text command) result)
expected_observed command result = null

unfoldable pub is_command : Value → Bool
is_command v =
    text_that (λ t. filled t && not (strip t == str "true" || strip t == str "/bin/true")) v

abbrev pub evidence_finding : Text → Text → Text → Report
evidence_finding repository name suffix = add repository (str "evidence." ++ name ++ suffix)

-- The tests of an item that do not need its report.
unfoldable pub check_claims : Text → Text → Value → Report
unfolding is_command is_result
check_claims repository name item =
    need (text_that filled (get_in item (str "artifact")))
      (evidence_finding repository name (str ".artifact"))
    ++ (need (is_command (get_in item (str "command")))
          (evidence_finding repository name (str ".command"))
        ++ need (is_result (get_in item (str "result")))
            (evidence_finding repository name (str ".result")))

-- The tests of a report against its item and against the release of the Rust entry.
unfoldable pub check_report : World → Text → Fields → Text → Value → Location → Fields → Report
unfolding expected_observed
check_report w repository rust name item path report =
    let digest = get_in item (str "report_sha256") in
    let release = get rust (str "release") in
    need (text_that is_digest digest && is_option digest (w.file_digest path))
      (evidence_finding repository name (str ".report.sha256"))
    ++ (need
          (value_eq (get report (str "tag")) (get_in release (str "tag"))
            && value_eq (get report (str "commit")) (get_in release (str "commit")))
          (evidence_finding repository name (str ".release"))
        ++ (need (value_eq (get report (str "artifact")) (get_in item (str "artifact")))
              (evidence_finding repository name (str ".artifact"))
            ++ need
                (value_eq (get report (str "observed"))
                  (expected_observed (get_in item (str "command")) (get_in item (str "result"))))
                (evidence_finding repository name (str ".result"))))
