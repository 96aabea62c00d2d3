-- ===== src/Consumer/Verify/Laws.antt =====
-- What the exit status says (`verify_manifest` and `main` of port/consumer/verify.py).
use symaira_corekit.Base.{
  ◌≡◌, refl, ap, ◌∙◌, ◌≢◌, inl, inr, true, some, List, [], ◌∷◌, ◌++◌, arith, str, Bool-cases,
  Option-cases, is_empty, is_empty_iff,
}
use symaira_corekit.Consumer.Findings.{
  Check, os_error, raises, returns, runtime_error, toml_error, type_error, value_error,
  ◌then_check◌,
}
use symaira_corekit.Consumer.Findings.Laws.{Check-cases, returns-injective, then_check-nil}
use symaira_corekit.Consumer.Go.{listed}
use symaira_corekit.Consumer.Records.{Options, check_records}
use symaira_corekit.Consumer.Records.Laws.{AllChecked, check_records-AllChecked}
use symaira_corekit.Consumer.Verify.{
  Arguments, Verification, check_corekit_registry, check_corekit_release, check_registry_stage,
  corekit_entry, exit_status, findings_of, load_manifest, main, options, report_of, roots,
  verification, verify_document, verify_manifest, verify_records, write_report,
}
use symaira_corekit.Consumer.Verify.Corekit.{IsCorekit, corekit_lem}
use symaira_corekit.Consumer.Verify.Reported.{Reported, verification-Reported}
use symaira_corekit.Consumer.World.{Location, World}
use symaira_corekit.Json.{Fields, Value, as_list, get, get_in, text}
use symaira_corekit.Json.Laws.{is_str_iff}

-- A manifest all of whose checks pass.
pub record IsVerified (w : World) (o : Options) (document : Value) : Type 0 where
  pub corekit : Fields
  pub registry : Fields
  pub records : List Value
  pub workspace_root : Location
  pub corekit_root : Location
  pub entry : corekit_entry document ≡ returns (corekit, registry)
  pub listed : as_list (get_in document (str "consumers")) ≡ some records
  pub some_record : records ≢ []
  pub places : roots w o ≡ returns (workspace_root, corekit_root)
  pub before_publication :
      o.git_release_stage ≡ true → get registry (str "status") ≡ text (str "not_released")
  pub after_publication :
      o.registry_release_stage ≡ true → get registry (str "status") ≡ text (str "released")
  pub release : IsCorekit w corekit_root corekit registry
  pub consumers : AllChecked w o workspace_root corekit_root registry (str "corekit" ∷ []) records

stage_lem :
    (o : Options) (registry : Fields)
    → check_registry_stage o registry ≡ []
    → (o.git_release_stage ≡ true → get registry (str "status") ≡ text (str "not_released"))
      × (o.registry_release_stage ≡ true → get registry (str "status") ≡ text (str "released"))
unfolding check_registry_stage
stage_lem o registry h =
    let status = get registry (str "status") in
    (
      λ s. (is_str_iff status (str "not_released")).0 (ground (arith, h, s)),
      λ s. (is_str_iff status (str "released")).0 (ground (arith, h, s)),
    )

records_lem :
    (w : World) (o : Options) (document : Value) (corekit registry : Fields) (records : List Value)
    (report : Verification)
    → corekit_entry document ≡ returns (corekit, registry)
    → as_list (get_in document (str "consumers")) ≡ some records
    → records ≢ []
    → verify_records w o corekit registry records ≡ returns report
    → report.findings ≡ []
    → IsVerified w o document
unfolding verify_records report_of findings_of
records_lem w o document corekit registry records report entry listed some_record h clean =
    elim (Check-cases (roots w o)) [
      | inr (x, e) ↦ absurd (ground (arith, h, e))
      | inl ((workspace_root, corekit_root), e) ↦
          elim (Check-cases
            (findings_of w o workspace_root corekit_root corekit registry records)) [
              | inr (x, f) ↦ absurd (ground (arith, h, e, f))
              | inl (findings, f) ↦
                  let none_found : findings ≡ [] = ground (arith, h, e, f, clean) in
                  let own =
                    check_corekit_registry w registry
                    ++ check_corekit_release w corekit_root corekit in
                  let front = returns (check_registry_stage o registry) then_check returns own in
                  let (first_checks, consumers) =
                    then_check-nil front
                      (check_records w o workspace_root corekit_root registry (str "corekit" ∷ [])
                        records)
                      (f ∙ ap returns none_found) in
                  let (stage, release) =
                    then_check-nil (returns (check_registry_stage o registry)) (returns own)
                      first_checks in
                  let (before_publication, after_publication) =
                    stage_lem o registry (returns-injective _ [] stage) in
                  record {
                    corekit = corekit;
                    registry = registry;
                    records = records;
                    workspace_root = workspace_root;
                    corekit_root = corekit_root;
                    entry = entry;
                    listed = listed;
                    some_record = some_record;
                    places = e;
                    before_publication = before_publication;
                    after_publication = after_publication;
                    release =
                        corekit_lem w corekit_root corekit registry
                          (returns-injective _ [] release);
                    consumers =
                        check_records-AllChecked w o workspace_root corekit_root registry
                          (str "corekit" ∷ []) records consumers;
                  }
            ]
    ]

document_lem :
    (w : World) (o : Options) (document : Value) (report : Verification)
    → verify_document w o document ≡ returns report
    → report.findings ≡ []
    → IsVerified w o document
unfolding verify_document
document_lem w o document report h clean = elim (Check-cases (corekit_entry document)) [
  | inr (x, e) ↦ absurd (ground (arith, h, e))
  | inl ((corekit, registry), e) ↦
      elim (Option-cases (as_list (get_in document (str "consumers")))) [
        | inl f ↦ absurd (ground (arith, h, e, f))
        | inr (records, f) ↦ elim (Bool-cases (is_empty records)) [
          | inl b ↦ absurd (ground (arith, h, e, f, b))
          | inr b ↦
              records_lem w o document corekit registry records report e f
                (λ k. let gone = (is_empty_iff records).1 k in absurd (ground (arith, b, gone)))
                (ground (arith, h, e, f, b)) clean
        ]
      ]
]

-- The manifest that the command line names, and its verification.
pub record IsReleased (w : World) (root : Location) (args : Arguments) : Type 0 where
  pub o : Options
  pub document : Value
  pub given : options w root args ≡ returns o
  pub loaded : load_manifest w (w.resolve args.manifest) ≡ returns document
  pub verified : IsVerified w o document

released_lem :
    (w : World) (root : Location) (args : Arguments) (report : Verification)
    → verification w root args ≡ returns report
    → report.findings ≡ []
    → IsReleased w root args
unfolding verification verify_manifest
released_lem w root args report h clean = elim (Check-cases (options w root args)) [
  | inr (x, e) ↦ absurd (ground (arith, h, e))
  | inl (o, e) ↦ elim (Check-cases (load_manifest w (w.resolve args.manifest))) [
    | inr (x, f) ↦ absurd (ground (arith, h, e, f))
    | inl (document, f) ↦ record {
      o = o;
      document = document;
      given = e;
      loaded = f;
      verified = document_lem w o document report (ground (arith, h, e, f)) clean;
    }
  ]
]

-- The status 0 is returned only for a report without findings.
zero_lem :
    (w : World) (args : Arguments) (r : Check Verification)
    → exit_status w args r ≡ returns 0
    → (report : Verification) × (r ≡ returns report) × (report.passed ≡ true)
unfolding exit_status
zero_lem w args (returns report) h = elim (Check-cases (write_report w args.report)) [
  | inl (written, e) ↦ (report, refl, ground (arith, h, e))
  | inr (x, e) ↦ absurd (ground (arith, h, e))
]
zero_lem w args (raises os_error) h = absurd (ground (arith, h))
zero_lem w args (raises value_error) h = absurd (ground (arith, h))
zero_lem w args (raises toml_error) h = absurd (ground (arith, h))
zero_lem w args (raises runtime_error) h = absurd (ground (arith, h))
zero_lem w args (raises type_error) h = absurd (ground (arith, h))

passed_lem :
    (document : Value) (report : Verification)
    → Reported document report
    → report.passed ≡ is_empty report.findings
unfolding report_of
passed_lem document report (records, findings, listed, e) = ground (arith, e)

-- The exit status 0 means that the manifest passes: CoreKit's entry is valid and its release tag exists and
-- leads to the recorded commit, the registry fits the stage, and every record names a new repository
-- whose checkout, a directory of the workspace and no link, is the recorded snapshot and release and passes the Go, Rust
-- and evidence checks.
pub main-IsReleased :
    (w : World) (root : Location) (args : Arguments)
    → main w root args ≡ returns 0
    → IsReleased w root args
unfolding main
main-IsReleased w root args h =
    let (report, e, passed) = zero_lem w args (verification w root args) h in
    let (document, loaded, reported) = verification-Reported w root args report e in
    let shown = passed_lem document report reported in
    released_lem w root args report e
      ((is_empty_iff report.findings).0 (ground (arith, shown, passed)))
