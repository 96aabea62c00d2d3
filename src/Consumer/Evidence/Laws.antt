-- ===== src/Consumer/Evidence/Laws.antt =====
-- What accepted evidence shows (`_check_evidence` of port/consumer/verify.py).
use symaira_corekit.Base.{
  false, ◌≡◌, refl, subst, ◌∙◌, inl, inr, List, [], ◌∷◌, none, some, Text, str, list_eq, list_beq,
  list_beq_iff, nat_eq, if◌then◌else◌, arith, Option-cases,
}
use symaira_corekit.Json.{Fields, get, obj, as_dict}
use symaira_corekit.Json.Laws.{as_dict_iff}
use symaira_corekit.Consumer.Findings.{returns}
use symaira_corekit.Consumer.World.{World, Location}
use symaira_corekit.Consumer.Release.{repository_of}
use symaira_corekit.Consumer.Findings.Laws.{then_check-nil}
use symaira_corekit.Consumer.Rollback.Laws.{IsRollback, check_rollback_transition-IsRollback}
use symaira_corekit.Consumer.Status.{expected_rust}
use symaira_corekit.Consumer.Provenance.Laws.{
  IsProvenance, check_rust_build_provenance-IsProvenance,
}
use symaira_corekit.Consumer.Evidence.{
  Binary, unnamed, rejected, measured, Standalone, accept, check_item, next_standalone, check_names,
  go_retired, evidence_names, check_evidence,
}
use symaira_corekit.Consumer.Evidence.Items.{IsVerified, Clean, programs_of}
use symaira_corekit.Consumer.Evidence.Found.{item_lem}

abbrev first : Standalone
first = record { artifact = none; digest = none }

accept_standalone :
    (a d : Text) (s : Standalone)
    → accept (str "standalone") (measured a d d) s ≡ record { artifact = some a; digest = some d }
unfolding accept
accept_standalone a d s =
    let name = (list_beq_iff (str "standalone") (str "standalone")).1 refl in
    let same = (list_beq_iff d d).1 refl in ground (arith, name, same)

accept_rollback : (b : Binary) (s : Standalone) → accept (str "rollback") b s ≡ s
unfolding accept str list_beq
accept_rollback unnamed s = refl
accept_rollback (rejected t) s = refl
accept_rollback (measured a r d) s = refl

-- The evidence of a consumer that adopts the crate.
pub record IsEvidence (w : World) (record' : Fields) (checkout : Location) (rust : Fields)
    : Type 0 where
  pub evidence : Fields
  pub evidence_field : get rust (str "evidence") ≡ obj evidence
  pub standalone : IsVerified w checkout rust evidence (str "standalone")
  pub provenance : IsProvenance w standalone.report record' checkout
  pub rollback :
      go_retired record' ≡ false
      → (r : IsVerified w checkout rust evidence (str "rollback")) × IsRollback w r.report checkout
          (programs_of r.artifact r.digest
            (record { artifact = some standalone.artifact; digest = some standalone.digest }))

names_lem :
    (w : World) (record' : Fields) (checkout : Location) (repository : Text)
    (rust evidence : Fields) (s : Standalone) (name : Text) (names : List Text)
    → check_names w record' checkout repository rust evidence s (name ∷ names) ≡ returns []
    → Clean w record' checkout rust evidence s name
      × (check_names w record' checkout repository rust evidence
            (next_standalone w checkout evidence s name)
            names
          ≡ returns [])
unfolding check_names
names_lem w record' checkout repository rust evidence s name names h =
    let (item, rest) =
      then_check-nil (check_item w record' checkout repository rust evidence s name)
        (check_names w record' checkout repository rust evidence
          (next_standalone w checkout evidence s name) names)
        h in
    (item_lem w record' checkout repository rust evidence s name item, rest)

rollback_lem :
    (w : World) (record' : Fields) (checkout : Location) (repository : Text)
    (rust evidence : Fields) (a d : Text) (s : Standalone)
    → s ≡ record { artifact = some a; digest = some d }
    → check_names w record' checkout repository rust evidence s (str "rollback" ∷ []) ≡ returns []
    → (r : IsVerified w checkout rust evidence (str "rollback")) × IsRollback w r.report checkout
        (programs_of r.artifact r.digest (record { artifact = some a; digest = some d }))
rollback_lem w record' checkout repository rust evidence a d s same h =
    let (clean, _) =
      names_lem w record' checkout repository rust evidence s (str "rollback") [] h in
    let r = clean.verified in
    let kept = clean.later ∙ accept_rollback (measured r.artifact r.digest r.digest) s ∙ same in
    let run = clean.rollback ((list_beq_iff (str "rollback") (str "rollback")).1 refl) in
    (
      r,
      subst (λ z. IsRollback w r.report checkout (programs_of r.artifact r.digest z)) kept
          (check_rollback_transition-IsRollback w r.report record' checkout _ run),
    )

evidence_lem :
    (w : World) (record' : Fields) (checkout : Location) (repository : Text)
    (rust evidence : Fields)
    → get rust (str "evidence") ≡ obj evidence
    → check_names w record' checkout repository rust evidence first (evidence_names record')
      ≡ returns []
    → IsEvidence w record' checkout rust
unfolding evidence_names
evidence_lem w record' checkout repository rust evidence field h =
    let tail : List Text = if go_retired record' then [] else str "rollback" ∷ [] in
    let split : evidence_names record' ≡ str "standalone" ∷ tail = ground arith in
    let (clean, rest) =
      names_lem w record' checkout repository rust evidence first (str "standalone") tail (
        subst (λ l. check_names w record' checkout repository rust evidence first l ≡ returns [])
          split h) in
    let v = clean.verified in
    let run = clean.provenance ((list_beq_iff (str "standalone") (str "standalone")).1 refl) in
    let kept = clean.later ∙ accept_standalone v.artifact v.digest first in
    record {
      evidence = evidence;
      evidence_field = field;
      standalone = v;
      provenance =
          check_rust_build_provenance-IsProvenance w v.report record' checkout (str "standalone")
            run;
      rollback = λ kept_go.
          let two : tail ≡ str "rollback" ∷ [] = ground (arith, kept_go) in
          rollback_lem w record' checkout repository rust evidence v.artifact v.digest
            (next_standalone w checkout evidence first (str "standalone")) kept
            (subst
              (λ l.
                check_names w record' checkout repository rust evidence
                  (next_standalone w checkout evidence first (str "standalone")) l
                ≡ returns [])
              two rest);
    }

-- Clean evidence of a consumer with an adopted crate has a verified standalone item, whose report proves
-- the build, and, unless the consumer's Go is retired, a verified rollback item, whose report shows the
-- return from exactly the standalone artifact to the rollback's own artifact. Each item's report is committed and
-- names the adopted release, its result is a success, and the digest it records is that of the artifact's bytes.
pub check_evidence-IsEvidence :
    (w : World) (record' : Fields) (checkout : Location) (rust : Fields)
    → expected_rust record' ≡ returns (some rust)
    → check_evidence w record' checkout ≡ returns []
    → IsEvidence w record' checkout rust
unfolding check_evidence
check_evidence-IsEvidence w record' checkout rust status h =
    let repository = repository_of record' in
    elim (Option-cases (as_dict (get rust (str "evidence")))) [
      | inl e ↦ absurd (ground (arith, h, status, e))
      | inr (evidence, e) ↦
          let names : check_names w record' checkout repository rust evidence first
                (evidence_names record')
              ≡ returns [] =
            ground (arith, h, status, e) in
          evidence_lem w record' checkout repository rust evidence ((as_dict_iff _ evidence).0 e)
            names
    ]
