-- ===== src/Consumer/Verify.antt =====
-- `canonical_checkout`, `verify_manifest` and `main` of port/consumer/verify.py. What is printed is left out.
pub mod Reported
pub mod Corekit
pub mod Listing
pub mod Laws
use symaira_corekit.Base.{
  ℕ, Bool, true, false, not, ◌&&◌, ◌||◌, Option, none, some, List, [], ◌∷◌, ◌++◌, Text, str,
  if◌then◌else◌, is_empty, length, ◌==◌, nat_eq, list_eq, option_eq, bool_eq, pair_eq,
}
use symaira_corekit.Base.Sorting.{sorted, text_le}
use symaira_corekit.Consumer.Findings.{
  Check, Report, add, need, os_error, raises, returns, runtime_error, toml_error, type_error,
  value_error, ◌then_check◌,
}
use symaira_corekit.Consumer.GoMod.{corekit_module}
use symaira_corekit.Consumer.Paths.{last_part, path_parts}
use symaira_corekit.Consumer.Patterns.{is_release_tag, is_revision}
use symaira_corekit.Consumer.Records.{Options, check_records, checked_repositories}
use symaira_corekit.Consumer.Registry.{check_registry_readback, corekit_package, registry_readback}
use symaira_corekit.Consumer.Release.{check_tag, checked}
use symaira_corekit.Consumer.Status.{is_hashable}
use symaira_corekit.Consumer.World.{
  Location, World, contents, git, succeeds, undecodable, unreadable,
}
use symaira_corekit.Json.{Fields, Value, as_dict, as_list, get, get_in, is_str, null}

-- `path.parent`
unfoldable pub parent : Location → Location
parent [] = []
parent (p ∷ []) = []
parent (p ∷ q ∷ rest) = p ∷ parent (q ∷ rest)

abbrev pub common_dir : List Text
common_dir = str "rev-parse" ∷ str "--path-format=absolute" ∷ str "--git-common-dir" ∷ []

unfoldable pub canonical_checkout : World → Location → Check Location
unfolding succeeds git path_parts last_part parent str
canonical_checkout w repo_root =
    if not (succeeds w common_dir repo_root)
    then raises runtime_error
    else let common = path_parts (git w common_dir repo_root).stdout in
      returns (if last_part common == str ".git" then parent common else common)

-- The read-back of a released registry, against itself.
unfoldable pub check_corekit_registry : World → Fields → Report
unfolding registry_readback check_registry_readback is_str get str
check_corekit_registry w registry =
    if is_str (get registry (str "status")) (str "released")
    then elim (registry_readback registry) [
      | none ↦ check_registry_readback w (str "corekit") registry null null
      | some readback ↦
          check_registry_readback w (str "corekit") registry (get readback (str "version"))
            (get readback (str "checksum"))
    ]
    else []

unfoldable pub check_corekit_release : World → Location → Fields → Report
unfolding checked check_tag get str
check_corekit_release w corekit_root corekit =
    elim (checked is_release_tag (get corekit (str "release_tag"))) [
      | none ↦ add (str "corekit") (str "release.shape")
      | some tag ↦ elim (checked is_revision (get corekit (str "release_commit"))) [
        | none ↦ add (str "corekit") (str "release.shape")
        | some commit ↦ check_tag w (str "corekit") corekit_root tag commit
      ]
    ]

-- The registry's state has to fit the stage.
unfoldable pub check_registry_stage : Options → Fields → Report
unfolding is_str get str
check_registry_stage o registry =
    need
      (not (o.git_release_stage && not (is_str (get registry (str "status")) (str "not_released"))))
      (add (str "corekit") (str "stage.registry"))
    ++ need
        (not
          (o.registry_release_stage && not (is_str (get registry (str "status")) (str "released"))))
        (add (str "corekit") (str "stage.registry"))

-- The CoreKit entry and its registry entry, or the exception that refuses the document.
unfoldable pub corekit_entry : Value → Check (Fields × Fields)
unfolding as_dict get_in get is_str corekit_module corekit_package is_hashable str
corekit_entry document = elim (as_dict (get_in document (str "corekit"))) [
  | none ↦ raises value_error
  | some corekit ↦
      if not (
        is_str (get corekit (str "repository")) (str "danieljustus/symaira-corekit")
        && is_str (get corekit (str "go_module")) corekit_module)
      then raises value_error
      else elim (as_dict (get corekit (str "rust_registry"))) [
        | none ↦ raises value_error
        | some registry ↦
            let status = get registry (str "status") in
            if not (is_str (get registry (str "package")) corekit_package)
            then raises value_error
            else if not (is_hashable status)
            then raises type_error
            else if is_str status (str "not_released") || is_str status (str "released")
            then returns (corekit, registry)
            else raises value_error
      ]
]

-- `json.loads(manifest_path.read_text(encoding="utf-8"))`
unfoldable pub load_manifest : World → Location → Check Value
load_manifest w path = elim (w.read_text path) [
  | unreadable ↦ raises os_error
  | undecodable ↦ raises value_error
  | contents t ↦ elim (w.json_limit t) [
    | some e ↦ raises e
    | none ↦ elim (w.json_loads t) [ none ↦ raises value_error | some document ↦ returns document ]
  ]
]

-- `workspace_root` and `corekit_root`, where they are left out.
unfoldable pub roots : World → Options → Check (Location × Location)
unfolding canonical_checkout parent
roots w o = elim o.workspace_root [
  | some workspace_root ↦ elim o.corekit_root [
    | some corekit_root ↦ returns (workspace_root, corekit_root)
    | none ↦ elim (canonical_checkout w o.root) [
      | raises e ↦ raises e
      | returns corekit_root ↦ returns (workspace_root, corekit_root)
    ]
  ]
  | none ↦ elim (canonical_checkout w o.root) [
    | raises e ↦ raises e
    | returns own ↦ returns (parent own, elim o.corekit_root [ some r ↦ r | none ↦ own ])
  ]
]

-- The findings over a non-empty list of records.
unfoldable pub findings_of :
    World → Options → Location → Location → Fields → Fields → List Value → Check Report
unfolding check_registry_stage check_corekit_registry check_corekit_release check_records
    ◌then_check◌ str
findings_of w o workspace_root corekit_root corekit registry records =
    returns (check_registry_stage o registry)
    then_check returns
        (check_corekit_registry w registry ++ check_corekit_release w corekit_root corekit)
    then_check check_records w o workspace_root corekit_root registry (str "corekit" ∷ []) records

-- The report, without the texts that no test depends on.
pub record Verification : Type 0 where
  pub passed : Bool
  pub consumer_count : ℕ
  pub checked_repositories : List Text
  pub findings : Report

unfoldable pub report_of : List Value → Report → Verification
unfolding sorted text_le checked_repositories str
report_of records findings = record {
  passed = is_empty findings;
  consumer_count = length records;
  checked_repositories = sorted text_le (checked_repositories (str "corekit" ∷ []) records);
  findings = findings;
}

unfoldable pub verify_records : World → Options → Fields → Fields → List Value → Check Verification
unfolding roots findings_of report_of
verify_records w o corekit registry records = elim (roots w o) [
  | raises e ↦ raises e
  | returns (workspace_root, corekit_root) ↦
      elim (findings_of w o workspace_root corekit_root corekit registry records) [
        | raises e ↦ raises e
        | returns findings ↦ returns (report_of records findings)
      ]
]

unfoldable pub verify_document : World → Options → Value → Check Verification
unfolding corekit_entry as_list get_in verify_records str
verify_document w o document = elim (corekit_entry document) [
  | raises e ↦ raises e
  | returns (corekit, registry) ↦ elim (as_list (get_in document (str "consumers"))) [
    | none ↦ raises value_error
    | some records ↦
        if is_empty records then raises value_error else verify_records w o corekit registry records
  ]
]

unfoldable pub verify_manifest : World → Location → Options → Check Verification
unfolding load_manifest verify_document
verify_manifest w manifest_path o = elim (load_manifest w manifest_path) [
  | raises e ↦ raises e
  | returns document ↦ verify_document w o document
]

-- The parsed command line: one of the two stages, and the paths.
pub data Stage : Type 0 where
  released_consumers git_pinned_consumers : Stage

pub record Arguments : Type 0 where
  pub stage : Stage
  pub manifest : Location
  pub workspace : Option Location
  pub corekit : Option Location
  pub report : Option Location

unfoldable pub is_released : Stage → Bool
is_released released_consumers = true
is_released git_pinned_consumers = false

-- The keyword arguments, with both roots resolved.
unfoldable pub options : World → Location → Arguments → Check Options
unfolding canonical_checkout is_released
options w root args =
    let found : Check Location = elim args.corekit [
      | some path ↦ returns (w.resolve path)
      | none ↦ canonical_checkout w root
    ] in
    elim found [
      | raises e ↦ raises e
      | returns corekit_root ↦ returns (record {
        root = root;
        workspace_root = elim args.workspace [ some path ↦ some (w.resolve path) | none ↦ none ];
        corekit_root = some corekit_root;
        git_release_stage = not (is_released args.stage);
        registry_release_stage = is_released args.stage;
      })
    ]

unfoldable pub verification : World → Location → Arguments → Check Verification
unfolding options verify_manifest
verification w root args = elim (options w root args) [
  | raises e ↦ raises e
  | returns o ↦ verify_manifest w (w.resolve args.manifest) o
]

-- `if args.report: ...`: an OSError of the directory or of the file is not caught.
unfoldable pub write_report : World → Option Location → Check Unit
write_report w none = returns tt
write_report w (some path) = if w.is_writable path then returns tt else raises os_error

-- The exit status of a result. Of a verification, a TypeError is not caught.
unfoldable pub exit_status : World → Arguments → Check Verification → Check ℕ
unfolding write_report
exit_status w args (returns report) = elim (write_report w args.report) [
  | raises e ↦ raises e
  | returns written ↦ returns (if report.passed then 0 else 1)
]
exit_status w args (raises type_error) = raises type_error
exit_status w args (raises os_error) = returns 2
exit_status w args (raises value_error) = returns 2
exit_status w args (raises toml_error) = returns 2
exit_status w args (raises runtime_error) = returns 2

unfoldable pub main : World → Location → Arguments → Check ℕ
unfolding verification exit_status
main w root args = exit_status w args (verification w root args)
