-- ===== src/Consumer/Rollback/Laws.antt =====
-- What an accepted rollback report shows (`_check_rollback_transition` of port/consumer/verify.py).
use symaira_corekit.Base.{
  List, true, ◌≡◌, ap, subst, ◌∙◌, inl, inr, [], ◌∷◌, none, some, Text, str, list_eq, option_eq,
  option_beq_iff, nat_eq, arith, Option-cases,
}
use symaira_corekit.Json.{Value, Fields, text, get, as_list}
use symaira_corekit.Consumer.Findings.{returns}
use symaira_corekit.Consumer.Patterns.{is_digest}
use symaira_corekit.Consumer.World.{World, Location}
use symaira_corekit.Consumer.Release.{checked, repository_of}
use symaira_corekit.Consumer.Release.Laws.{checked_iff}
use symaira_corekit.Consumer.Rollback.{
  Programs, check_steps, is_sequence, check_distinct, check_rollback_transition,
}
use symaira_corekit.Consumer.Findings.Laws.{then_check-nil, returns-injective}
use symaira_corekit.Consumer.Rollback.Steps.{IsStep, sequence_lem, steps_lem}

-- The report shows a run of the old program, one of the new, and one of the old again.
pub record IsRollback (w : World) (report : Fields) (checkout : Location) (programs : Programs)
    : Type 0 where
  pub state : Text
  pub rust_artifact : Text
  pub rust_digest : Text
  pub first : Value
  pub second : Value
  pub third : Value
  pub transition : as_list (get report (str "transition")) ≡ some (first ∷ second ∷ third ∷ [])
  pub state_field : get report (str "synthetic_state_sha256") ≡ text state
  pub state_full : is_digest state ≡ true
  pub accepted_artifact : programs.rust_artifact ≡ some rust_artifact
  pub accepted_digest : programs.rust_digest ≡ some rust_digest
  pub before : IsStep w checkout state programs.go_artifact programs.go_digest first
  pub during : IsStep w checkout state rust_artifact rust_digest second
  pub after : IsStep w checkout state programs.go_artifact programs.go_digest third
  pub distinct : ¬ ((rust_artifact ≡ programs.go_artifact) × (rust_digest ≡ programs.go_digest))

distinct_lem :
    (programs : Programs) (repository artifact digest : Text)
    → check_distinct programs repository ≡ []
    → programs.rust_artifact ≡ some artifact
    → programs.rust_digest ≡ some digest
    → ¬ ((artifact ≡ programs.go_artifact) × (digest ≡ programs.go_digest))
unfolding check_distinct
distinct_lem programs repository artifact digest h a d (p, q) =
    let first =
      (option_beq_iff programs.rust_artifact (some programs.go_artifact)).1 (a ∙ ap some p) in
    let second =
      (option_beq_iff programs.rust_digest (some programs.go_digest)).1 (d ∙ ap some q) in
    absurd (ground (arith, h, first, second))

-- A report whose three steps are clean.
accepted_lem :
    (w : World) (report : Fields) (checkout : Location) (programs : Programs)
    (repository state : Text) (steps : List Value)
    → as_list (get report (str "transition")) ≡ some steps
    → checked is_digest (get report (str "synthetic_state_sha256")) ≡ some state
    → is_sequence steps ≡ true
    → check_steps w checkout repository state programs none steps ≡ returns []
    → check_distinct programs repository ≡ []
    → IsRollback w report checkout programs
accepted_lem w report checkout programs repository state steps e f sequence clean apart =
    let (a, b, c, split, ga, rb, gc) = sequence_lem steps sequence in
    let (x, (artifact, digest, p, q, y), z) =
      steps_lem w checkout repository state programs a b c ga rb gc (
        subst (λ l. check_steps w checkout repository state programs none l ≡ returns []) split
          clean) in
    let (state_field, state_full) =
      (checked_iff is_digest (get report (str "synthetic_state_sha256")) state).0 f in
    record {
      state = state;
      rust_artifact = artifact;
      rust_digest = digest;
      first = a;
      second = b;
      third = c;
      transition = e ∙ ap some split;
      state_field = state_field;
      state_full = state_full;
      accepted_artifact = p;
      accepted_digest = q;
      before = x;
      during = y;
      after = z;
      distinct = distinct_lem programs repository artifact digest apart p q;
    }

-- A clean check shows three runs, of the old program, of the accepted new program and of the old one
-- again. Each ran the artifact that its step names, whose bytes in the checkout have the recorded digest,
-- and the digest of each captured output is the one synthetic state. The two programs differ in the artifact or the digest.
pub check_rollback_transition-IsRollback :
    (w : World) (report record' : Fields) (checkout : Location) (programs : Programs)
    → check_rollback_transition w report record' checkout programs ≡ returns []
    → IsRollback w report checkout programs
unfolding check_rollback_transition
check_rollback_transition-IsRollback w report record' checkout programs h =
    let repository = repository_of record' in
    elim (Option-cases (as_list (get report (str "transition")))) [
      | inl e ↦ absurd (ground (arith, h, e))
      | inr (steps, e) ↦
          elim (Option-cases (checked is_digest (get report (str "synthetic_state_sha256")))) [
            | inl f ↦ absurd (ground (arith, h, e, f))
            | inr (state, f) ↦
                let (clean, apart) =
                  then_check-nil (check_steps w checkout repository state programs none steps)
                    (returns (check_distinct programs repository)) (ground (arith, h, e, f)) in
                accepted_lem w report checkout programs repository state steps e f
                  (ground (arith, h, e, f)) clean (returns-injective _ [] apart)
          ]
    ]
