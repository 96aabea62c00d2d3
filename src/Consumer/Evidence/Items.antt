-- ===== src/Consumer/Evidence/Items.antt =====
-- What an accepted item of the evidence shows (`_check_evidence` of port/consumer/verify.py).
use symaira_corekit.Base.{
  Bool, true, ◌≡◌, ◌≢◌, refl, ap, subst, ◌∙◌, inl, inr, [], Option, none, some, Text, str, ◌==◌,
  list_eq, list_beq_iff, nat_eq, if◌then◌else◌, arith, Bool-cases, Option-cases,
}
use symaira_corekit.Json.{
  Value, Fields, null, bool, int, neg, arr, get, get_in, text, text_that, obj, is_str, value_eq,
}
use symaira_corekit.Json.Laws.{is_str_iff}
use symaira_corekit.Consumer.Findings.{Report, need, Check, returns, ◌then_check◌}
use symaira_corekit.Consumer.World.{World, Location}
use symaira_corekit.Consumer.Patterns.{is_digest}
use symaira_corekit.Consumer.Release.{checked}
use symaira_corekit.Consumer.Rollback.{Programs, check_rollback_transition}
use symaira_corekit.Consumer.Findings.Laws.{then_check-nil, returns-injective}
use symaira_corekit.Consumer.Provenance.{check_rust_build_provenance}
use symaira_corekit.Consumer.Reports.{
  filled, regular_file, committed_report, is_result, check_report, evidence_finding,
}
use symaira_corekit.Consumer.Evidence.{
  Binary, unnamed, rejected, measured, binary, Standalone, accept, check_binary, check_read,
  verified_item, next_standalone,
}

-- An item with a committed report about the release, a successful run, and the artifact's digest.
pub record IsVerified (w : World) (checkout : Location) (rust evidence : Fields) (name : Text)
    : Type 0 where
  pub path : Text
  pub place : Location
  pub report : Fields
  pub artifact : Text
  pub digest : Text
  pub status : get_in (get evidence name) (str "status") ≡ text (str "verified")
  pub committed : committed_report w checkout path ≡ some (place, report)
  pub success : is_result (get_in (get evidence name) (str "result")) ≡ true
  pub same_tag :
      value_eq (get report (str "tag")) (get_in (get rust (str "release")) (str "tag")) ≡ true
  pub same_commit :
      value_eq (get report (str "commit")) (get_in (get rust (str "release")) (str "commit")) ≡ true
  pub same_digest : binary w checkout (get evidence name) report ≡ measured artifact digest digest

-- The program that a rollback is checked against.
abbrev pub programs_of : Text → Text → Standalone → Programs
programs_of artifact digest s = record {
  go_artifact = artifact;
  go_digest = digest;
  rust_artifact = s.artifact;
  rust_digest = s.digest;
}

-- The checks of a clean item that depend on its name.
pub record Clean (w : World) (record' : Fields) (checkout : Location) (rust evidence : Fields)
    (s : Standalone) (name : Text) : Type 0 where
  pub verified : IsVerified w checkout rust evidence name
  pub later :
      next_standalone w checkout evidence s name
      ≡ accept name (measured verified.artifact verified.digest verified.digest) s
  pub provenance :
      (name == str "standalone") ≡ true
      → check_rust_build_provenance w verified.report record' checkout name ≡ returns []
  pub rollback :
      (name == str "rollback") ≡ true
      → check_rollback_transition w verified.report record' checkout (
          programs_of verified.artifact verified.digest
            (next_standalone w checkout evidence s name))
        ≡ returns []

data BinaryCase (b : Binary) : Type 0 where
  is_unnamed : b ≡ unnamed → BinaryCase b
  is_rejected : (t : Text) → b ≡ rejected t → BinaryCase b
  is_measured : (a r d : Text) → b ≡ measured a r d → BinaryCase b

Binary-cases : (b : Binary) → BinaryCase b
Binary-cases unnamed = is_unnamed refl
Binary-cases (rejected t) = is_rejected t refl
Binary-cases (measured a r d) = is_measured a r d refl

pub verified_item_lem :
    (evidence : Fields) (name : Text) (item : Value) (relative : Option Text)
    → verified_item evidence name ≡ some (item, relative)
    → (get evidence name ≡ item)
      × (get_in (get evidence name) (str "status") ≡ text (str "verified"))
unfolding verified_item
verified_item_lem evidence name item relative h =
    elim (Bool-cases (is_str (get_in (get evidence name) (str "status")) (str "verified"))) [
      | inl e ↦ (ground (arith, h, e), (is_str_iff _ (str "verified")).0 e)
      | inr e ↦ absurd (ground (arith, h, e))
    ]

checked-none : (p : Text → Bool) (v : Value) → text_that p v ≡ true → checked p v ≢ none
unfolding text_that checked
checked-none p (text t) h k = absurd (ground (arith, h, k))
checked-none p null h k = absurd (ground (arith, h))
checked-none p (bool b) h k = absurd (ground (arith, h))
checked-none p (int n) h k = absurd (ground (arith, h))
checked-none p (neg n) h k = absurd (ground (arith, h))
checked-none p (arr l) h k = absurd (ground (arith, h))
checked-none p (obj d) h k = absurd (ground (arith, h))

-- A named artifact is rejected or measured.
named_lem :
    (w : World) (checkout : Location) (item : Value) (report : Fields)
    → text_that filled (get_in item (str "artifact")) ≡ true
    → binary w checkout item report ≢ unnamed
unfolding binary
named_lem w checkout item report h k =
    let named = checked-none filled (get_in item (str "artifact")) h in
    elim (Option-cases (checked filled (get_in item (str "artifact")))) [
      | inl e ↦ absurd (named e)
      | inr (artifact, e) ↦ elim (Option-cases (regular_file w checkout artifact)) [
        | inl f ↦ absurd (ground (arith, k, e, f))
        | inr (path, f) ↦
            elim (Option-cases (checked is_digest (get report (str "artifact_sha256")))) [
              | inl g ↦ absurd (ground (arith, k, e, f, g))
              | inr (recorded, g) ↦ elim (Option-cases (w.file_digest path)) [
                | inl m ↦ absurd (ground (arith, k, e, f, g, m))
                | inr (actual, m) ↦ absurd (ground (arith, k, e, f, g, m))
              ]
            ]
      ]
    ]

-- What the tests of the artifact leave.
pub binary_lem :
    (w : World) (record' : Fields) (checkout : Location) (repository name : Text) (report : Fields)
    (s : Standalone) (item : Value)
    → text_that filled (get_in item (str "artifact")) ≡ true
    → check_binary w record' checkout repository name report s (binary w checkout item report)
      ≡ returns []
    → (artifact : Text) × (digest : Text) × (binary w checkout item report
        ≡ measured artifact digest digest)
      × ((name == str "rollback") ≡ true
          → check_rollback_transition w report record' checkout (programs_of artifact digest s)
            ≡ returns [])
unfolding check_binary ◌then_check◌
binary_lem w record' checkout repository name report s item filled' h =
    elim (Binary-cases (binary w checkout item report)) [
      | is_unnamed e ↦ absurd (named_lem w checkout item report filled' e)
      | is_rejected t e ↦ absurd (ground (arith, h, e))
      | is_measured a r d e ↦
          let clean : check_binary w record' checkout repository name report s (measured a r d)
              ≡ returns [] =
            subst (λ b. check_binary w record' checkout repository name report s b ≡ returns []) e
              h in
          let own =
            returns (need (d == r) (evidence_finding repository name (str ".artifact.sha256"))) in
          let next : Check Report =
            if name == str "rollback"
            then check_rollback_transition w report record' checkout (programs_of a r s)
            else returns [] in
          let (x, y) = then_check-nil own next clean in
          let same : d ≡ r = (list_beq_iff d r).0 (ground (arith, x)) in
          (a, r, e ∙ ap (measured a r) same, λ k. ground (arith, y, k))
    ]

-- The three checks of a report that is read.
pub read_lem :
    (w : World) (record' : Fields) (checkout : Location) (repository : Text) (rust : Fields)
    (name : Text) (item : Value) (s : Standalone) (path : Location) (report : Fields)
    → check_read w record' checkout repository rust name item s (path, report) ≡ returns []
    → (check_report w repository rust name item path report ≡ [])
      × ((name == str "standalone") ≡ true
          → check_rust_build_provenance w report record' checkout name ≡ returns [])
      × (check_binary w record' checkout repository name report
            (accept name (binary w checkout item report) s)
            (binary w checkout item report)
          ≡ returns [])
unfolding check_read
read_lem w record' checkout repository rust name item s path report h =
    let (front, b) = then_check-nil _ _ h in
    let (r, p) = then_check-nil _ _ front in
    (returns-injective _ [] r, λ e. ground (arith, p, e), b)
