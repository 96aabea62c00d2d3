-- ===== src/Consumer/Evidence.antt =====
-- `_check_evidence` of port/consumer/verify.py: the standalone and the rollback evidence of a consumer.
pub mod Items
pub mod Found
pub mod Laws
use symaira_corekit.Base.{
  ℕ, Bool, true, false, not, ◌&&◌, ◌||◌, List, [], ◌∷◌, ◌++◌, Option, none, some, Text, str, ◌==◌,
  list_eq, option_eq, nat_eq, contains, all, is_empty, if◌then◌else◌,
}
use symaira_corekit.Base.Strings.{strip}
use symaira_corekit.Json.{
  Value, Fields, field, get, get_in, has, is_str, is_text, text, null, obj, as_dict, text_that,
  is_zero, value_eq, keys,
}
use symaira_corekit.Consumer.Findings.{Report, add, need, Check, returns, raises, ◌then_check◌}
use symaira_corekit.Consumer.Patterns.{is_digest}
use symaira_corekit.Consumer.World.{
  World, Location, Contents, contents, unreadable, undecodable, succeeds, prints,
}
use symaira_corekit.Consumer.Paths.{
  Guarded, safe, unsafe, failed, safe_non_symlink_child, regular_non_symlink,
}
use symaira_corekit.Consumer.Release.{repository_of, checked}
use symaira_corekit.Consumer.Rollback.{Programs, is_option, check_rollback_transition}
use symaira_corekit.Consumer.Status.{expected_rust}
use symaira_corekit.Consumer.Provenance.{check_rust_build_provenance}
use symaira_corekit.Consumer.Reports.{
  filled, regular_file, committed_report, report_limit, evidence_finding, check_claims,
  check_report,
}

-- The bytes of an item's artifact: no artifact is named, it cannot be taken, or its digest as the report
-- records it and as the file has it.
pub data Binary : Type 0 where
  unnamed : Binary
  rejected : Text → Binary
  measured : Text → Text → Text → Binary

unfoldable pub binary : World → Location → Value → Fields → Binary
unfolding regular_file checked
binary w checkout item report = elim (checked filled (get_in item (str "artifact"))) [
  | none ↦ unnamed
  | some artifact ↦ elim (regular_file w checkout artifact) [
    | none ↦ rejected (str ".artifact")
    | some path ↦ elim (checked is_digest (get report (str "artifact_sha256"))) [
      | none ↦ rejected (str ".artifact.sha256")
      | some recorded ↦ elim (w.file_digest path) [
        | none ↦ rejected (str ".artifact.sha256")
        | some actual ↦ measured artifact recorded actual
      ]
    ]
  ]
]

-- `standalone_artifact` and `standalone_digest`
pub record Standalone : Type 0 where
  pub artifact : Option Text
  pub digest : Option Text

unfoldable pub accept : Text → Binary → Standalone → Standalone
accept name (measured artifact recorded actual) s =
    if name == str "standalone" && actual == recorded
    then record { artifact = some artifact; digest = some recorded }
    else s
accept name unnamed s = s
accept name (rejected suffix) s = s

-- The artifact's tests, and the rollback check where the item is the rollback.
unfoldable pub check_binary :
    World → Fields → Location → Text → Text → Fields → Standalone → Binary → Check Report
unfolding ◌then_check◌ check_rollback_transition
check_binary w record' checkout repository name report s unnamed = returns []
check_binary w record' checkout repository name report s (rejected suffix) =
    returns (evidence_finding repository name suffix)
check_binary w record' checkout repository name report s (measured artifact recorded actual) =
    let programs : Programs = record {
      go_artifact = artifact;
      go_digest = recorded;
      rust_artifact = s.artifact;
      rust_digest = s.digest;
    } in
    returns (need (actual == recorded) (evidence_finding repository name (str ".artifact.sha256")))
    then_check (if name == str "rollback"
        then check_rollback_transition w report record' checkout programs
        else returns [])

-- The body of the loop once the report is read.
unfoldable pub check_read :
    World
    → Fields
    → Location
    → Text
    → Fields
    → Text
    → Value
    → Standalone
    → Location × Fields
    → Check Report
unfolding check_report check_binary binary accept check_rust_build_provenance ◌then_check◌
check_read w record' checkout repository rust name item s (path, report) =
    returns (check_report w repository rust name item path report)
    then_check (if name == str "standalone"
        then check_rust_build_provenance w report record' checkout name
        else returns [])
    then_check let b = binary w checkout item report in
      check_binary w record' checkout repository name report (accept name b s) b

-- The item of one name, if it is verified and names a report.
unfoldable pub verified_item : Fields → Text → Option (Value × Option Text)
unfolding checked
verified_item evidence name =
    let item = get evidence name in
    if is_str (get_in item (str "status")) (str "verified")
    then some (item, checked filled (get_in item (str "report")))
    else none

unfoldable pub check_item :
    World → Fields → Location → Text → Fields → Fields → Standalone → Text → Check Report
unfolding verified_item check_claims report_limit committed_report check_read
check_item w record' checkout repository rust evidence s name = elim (verified_item evidence name) [
  | none ↦ returns (evidence_finding repository name [])
  | some (item, relative) ↦ elim relative [
    | none ↦ returns (evidence_finding repository name (str ".report"))
    | some path ↦
        returns (check_claims repository name item) then_check elim (report_limit w checkout path) [
          | some e ↦ raises e
          | none ↦ elim (committed_report w checkout path) [
            | none ↦ returns (evidence_finding repository name (str ".report"))
            | some found ↦ check_read w record' checkout repository rust name item s found
          ]
        ]
  ]
]

-- The program that the item leaves accepted.
unfoldable pub next_standalone : World → Location → Fields → Standalone → Text → Standalone
unfolding verified_item committed_report binary accept
next_standalone w checkout evidence s name = elim (verified_item evidence name) [
  | none ↦ s
  | some (item, relative) ↦ elim relative [
    | none ↦ s
    | some path ↦ elim (committed_report w checkout path) [
      | none ↦ s
      | some (place, report) ↦ accept name (binary w checkout item report) s
    ]
  ]
]

unfoldable pub check_names :
    World → Fields → Location → Text → Fields → Fields → Standalone → List Text → Check Report
unfolding check_item next_standalone ◌then_check◌
check_names w record' checkout repository rust evidence s [] = returns []
check_names w record' checkout repository rust evidence s (name ∷ names) =
    check_item w record' checkout repository rust evidence s name
    then_check check_names w record' checkout repository rust evidence
        (next_standalone w checkout evidence s name) names

-- `_go_retired`
unfoldable pub go_retired : Fields → Bool
go_retired record' = is_str (get record' (str "go_status")) (str "retired")

-- A consumer without Go has no old program to go back to.
unfoldable pub evidence_names : Fields → List Text
unfolding go_retired
evidence_names record' =
    if go_retired record' then str "standalone" ∷ [] else str "standalone" ∷ str "rollback" ∷ []

unfoldable pub check_evidence : World → Fields → Location → Check Report
unfolding expected_rust check_names evidence_names
check_evidence w record' checkout =
    let repository = repository_of record' in
    elim (expected_rust record') [
      | raises e ↦ raises e
      | returns none ↦ returns []
      | returns (some rust) ↦ elim (as_dict (get rust (str "evidence"))) [
        | none ↦ returns (add repository (str "evidence.missing"))
        | some evidence ↦
            check_names w record' checkout repository rust evidence
              (record { artifact = none; digest = none }) (evidence_names record')
      ]
    ]
