-- ===== src/Consumer/Evidence/Found.antt =====
-- A clean item of the evidence is a verified one (`_check_evidence` of port/consumer/verify.py).
use symaira_corekit.Base.{
  true, ◌≡◌, sym, ap, subst, ◌∙◌, inl, inr, [], some, Text, str, list_eq, nat_eq, arith,
  Option-cases,
}
use symaira_corekit.Json.{Value, Fields, get, get_in, text, text_that, value_eq}
use symaira_corekit.Consumer.Findings.{raises, returns}
use symaira_corekit.Consumer.World.{World, Location}
use symaira_corekit.Consumer.Rollback.{check_rollback_transition}
use symaira_corekit.Consumer.Findings.Laws.{then_check-nil, returns-injective}
use symaira_corekit.Consumer.Reports.{
  filled, committed_report, report_limit, is_result, check_claims, check_report, evidence_finding,
}
use symaira_corekit.Consumer.Evidence.{
  binary, Standalone, accept, check_read, verified_item, check_item, next_standalone,
}
use symaira_corekit.Consumer.Evidence.Items.{
  Clean, programs_of, verified_item_lem, binary_lem, read_lem,
}

claims_lem :
    (repository name : Text) (item : Value)
    → check_claims repository name item ≡ []
    → (text_that filled (get_in item (str "artifact")) ≡ true)
      × (is_result (get_in item (str "result")) ≡ true)
unfolding check_claims
claims_lem repository name item h = (ground (arith, h), ground (arith, h))

report_lem :
    (w : World) (repository : Text) (rust : Fields) (name : Text) (item : Value) (path : Location)
    (report : Fields)
    → check_report w repository rust name item path report ≡ []
    → (value_eq (get report (str "tag")) (get_in (get rust (str "release")) (str "tag")) ≡ true)
      × (value_eq (get report (str "commit")) (get_in (get rust (str "release")) (str "commit"))
          ≡ true)
unfolding check_report
report_lem w repository rust name item path report h = (ground (arith, h), ground (arith, h))

-- A clean item, once its report is found.
found_lem :
    (w : World) (record' : Fields) (checkout : Location) (repository : Text)
    (rust evidence : Fields) (s : Standalone) (name path : Text) (place : Location)
    (report : Fields)
    → get_in (get evidence name) (str "status") ≡ text (str "verified")
    → committed_report w checkout path ≡ some (place, report)
    → next_standalone w checkout evidence s name
      ≡ accept name (binary w checkout (get evidence name) report) s
    → check_claims repository name (get evidence name) ≡ []
    → check_read w record' checkout repository rust name (get evidence name) s (place, report)
      ≡ returns []
    → Clean w record' checkout rust evidence s name
found_lem w record' checkout repository rust evidence s name path place report status g step claims
      read =
    let item = get evidence name in
    let (tests, provenance, bytes) =
      read_lem w record' checkout repository rust name item s place report read in
    let (named, success) = claims_lem repository name item claims in
    let (same_tag, same_commit) = report_lem w repository rust name item place report tests in
    let (a, d, q, rollback) =
      binary_lem w record' checkout repository name report
        (accept name (binary w checkout item report) s) item named bytes in
    record {
      verified = record {
        path = path;
        place = place;
        report = report;
        artifact = a;
        digest = d;
        status = status;
        committed = g;
        success = success;
        same_tag = same_tag;
        same_commit = same_commit;
        same_digest = q;
      };
      later = step ∙ ap (λ b. accept name b s) q;
      provenance = provenance;
      rollback = λ k.
          subst
            (λ z.
              check_rollback_transition w report record' checkout (programs_of a d z) ≡ returns [])
            (sym step) (rollback k);
    }

-- A clean item.
pub item_lem :
    (w : World) (record' : Fields) (checkout : Location) (repository : Text)
    (rust evidence : Fields) (s : Standalone) (name : Text)
    → check_item w record' checkout repository rust evidence s name ≡ returns []
    → Clean w record' checkout rust evidence s name
unfolding check_item next_standalone
item_lem w record' checkout repository rust evidence s name h =
    elim (Option-cases (verified_item evidence name)) [
      | inl e ↦ absurd (ground (arith, h, e))
      | inr ((v, relative), e') ↦
          let (same, status) = verified_item_lem evidence name v relative e' in
          let item = get evidence name in
          let e : verified_item evidence name ≡ some (item, relative) =
            subst (λ x. verified_item evidence name ≡ some (x, relative)) (sym same) e' in
          elim (Option-cases relative) [
            | inl f ↦ absurd (ground (arith, h, e, f))
            | inr (path, f) ↦ elim (Option-cases (report_limit w checkout path)) [
              | inr (x, l) ↦
                  let (_, bad) =
                    then_check-nil (returns (check_claims repository name item)) (raises x)
                      (ground (arith, h, e, f, l)) in
                  absurd (ground (arith, bad))
              | inl l ↦ elim (Option-cases (committed_report w checkout path)) [
                | inl g ↦
                    let (_, bad) =
                      then_check-nil (returns (check_claims repository name item))
                        (returns (evidence_finding repository name (str ".report")))
                        (ground (arith, h, e, f, g, l)) in
                    absurd (ground (arith, bad))
                | inr ((place, report), g) ↦
                    let (claims, read) =
                      then_check-nil (returns (check_claims repository name item))
                        (check_read w record' checkout repository rust name item s (place, report))
                        (ground (arith, h, e, f, g, l)) in
                    found_lem w record' checkout repository rust evidence s name path place report
                      status g (ground (arith, e, f, g)) (returns-injective _ [] claims) read
              ]
            ]
          ]
    ]
