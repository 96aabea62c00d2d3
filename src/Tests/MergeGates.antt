-- ===== src/Tests/MergeGates.antt =====
-- The merge gate on a small set of jobs.
use symaira_corekit.Base.{◌≡◌, refl, ◌≢◌, ◌↔◌, inl, none, some, [], ◌∷◌, Text, str, list_beq}
use symaira_corekit.Base.Sorting.{sorted, text_le}
use symaira_corekit.Json.{
  Fields, Value, end, entries, field, get, get_in, is_str, keys, null, obj, text,
}
use symaira_corekit.MergeGate.{
  always, check_job, evaluate, expected, gate, main, missing, missing_jobs, scope_text,
  wrong_result,
}
use symaira_corekit.MergeGate.Laws.{
  IsComplaint, IsGreen, evaluate_iff, main_iff, named, named-evaluate_lem,
}

abbrev success : Value
success = obj (field (str "result") (text (str "success")) end)

abbrev needs : Fields
needs = field (str "test") success (
    field (str "changes") success
      (field (str "lint") success (field (str "deploy") success (field (str "extra") null end))))

program : Unit {0}
unfolding evaluate missing expected check_job always gate main text_le sorted str list_beq entries
    keys get get_in is_str
program = tt

full_scope :
    evaluate needs (str "true")
    ≡ missing_jobs (str "audit" ∷ []) ∷ wrong_result (str "extra") null (str "success") ∷ []
unfolding program
full_scope = refl

named-evaluate_example : IsComplaint needs (str "true") (named (evaluate needs (str "true")))
named-evaluate_example = named-evaluate_lem needs (str "true") (inl refl)

evaluate_example : (evaluate needs (str "true") ≡ []) ↔ IsGreen needs (str "true")
evaluate_example = evaluate_iff needs (str "true")

main_example : (main (λ t. some (obj needs)) (some (str "{}")) none ≡ 0) ↔ (
    (t : Text) × (d : Fields) × (some (str "{}") ≡ some t)
    × (some (obj needs) ≡ some (obj d))
    × (entries d ≢ [])
    × IsGreen d (scope_text none))
main_example = main_iff (λ t. some (obj needs)) (some (str "{}")) none
