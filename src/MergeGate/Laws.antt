-- ===== src/MergeGate/Laws.antt =====
-- What a green merge gate says of the jobs (scripts/rust-port/ci_merge_gate.py).
use mathlib.Core.List.{append_assoc}
use symaira_corekit.Base.{
  ◌≡◌, refl, sym, ap, ◌∙◌, subst, ◌≢◌, ◌↔◌, ◌⊎◌, inl, inr, Bool, true, false, not, ◌&&◌, ◌||◌,
  Option, none, some, List, [], ◌∷◌, ◌++◌, map, arith, Text, str, All, All-map, Bool-cases,
  Option-cases, all, any, append-eq-nil, contains, contains-select, flat_map, flat_map-eq-nil,
  if◌then◌else◌, is_empty, is_empty_iff, list_beq_iff, select, select-eq-nil, ◌==◌, nat_eq, list_eq,
  option_eq, bool_eq, pair_eq,
}
use symaira_corekit.Base.Sorting.{
  All-sorted, IsSorted, IsSorted-select, any-sorted, contains-sorted, sorted, sorted-IsSorted,
  sorted-eq-nil, text_le, text_le_total, text_le_trans,
}
use symaira_corekit.Json.{
  Fields, Value, arr, bool, entries, get_in, int, is_str, keys, neg, null, obj, text,
}
use symaira_corekit.Json.Laws.{is_str_iff}
use symaira_corekit.MergeGate.{
  Problem, always, bad_scope, check_job, evaluate, expected, gate, key_le, main, missing,
  missing_jobs, scope_text, wrong_result,
}

-- A job has to succeed: it runs on every pull request, or the scope is the full one.
abbrev pub MustSucceed : Text → Text → Type 0
MustSucceed full job = (contains always job ≡ true) ⊎ (full ≡ str "true")

-- The gate's purpose, job by job.
pub record IsGreen (needs : Fields) (full : Text) : Type 0 where
  pub scope : (full ≡ str "true") ⊎ (full ≡ str "false")
  pub present : All (λ job. contains (keys needs) job ≡ true) always
  pub results :
      All
        (λ p.
          (MustSucceed full p.0 → get_in p.1 (str "result") ≡ text (str "success"))
          × (¬ MustSucceed full p.0 → get_in p.1 (str "result") ≡ text (str "skipped")))
        (entries needs)

expected_must : (full job : Text) → MustSucceed full job → expected full job ≡ str "success"
unfolding expected
expected_must full job m = ground (arith, list_beq_iff full (str "true"))

expected_else : (full job : Text) → ¬ MustSucceed full job → expected full job ≡ str "skipped"
unfolding expected
expected_else full job m = ground (arith, list_beq_iff full (str "true"))

MustSucceed-cases : (full job : Text) → MustSucceed full job ⊎ (¬ MustSucceed full job)
MustSucceed-cases full job = elim (Bool-cases (contains always job || full == str "true")) [
  | inl h ↦ inl (ground (arith, list_beq_iff full (str "true")))
  | inr h ↦ inr (λ m. ground (arith, list_beq_iff full (str "true")))
]

check_job-eq-nil :
    (full : Text) (p : Text × Value)
    → (check_job full p ≡ []) ↔ (get_in p.1 (str "result") ≡ text (expected full p.0))
unfolding check_job
check_job-eq-nil full p =
    let e = is_str_iff (get_in p.1 (str "result")) (expected full p.0) in
    (λ h. e.0 (ground arith), λ h. ground (arith, e.1 h))

-- The single expected word says what the two rules of `IsGreen` say.
abbrev Rule : Text → Text × Value → Type 0
Rule full p =
    (MustSucceed full p.0 → get_in p.1 (str "result") ≡ text (str "success"))
    × (¬ MustSucceed full p.0 → get_in p.1 (str "result") ≡ text (str "skipped"))

expected-Rule :
    (full : Text) (p : Text × Value)
    → (get_in p.1 (str "result") ≡ text (expected full p.0)) ↔ Rule full p
expected-Rule full p = (
  λ h. (λ m. h ∙ ap text (expected_must full p.0 m), λ m. h ∙ ap text (expected_else full p.0 m)),
  λ (must, else'). elim (MustSucceed-cases full p.0) [
    | inl m ↦ must m ∙ ap text (sym (expected_must full p.0 m))
    | inr m ↦ else' m ∙ ap text (sym (expected_else full p.0 m))
  ],
)

jobs_iff :
    (full : Text) (l : List (Text × Value))
    → (flat_map (check_job full) (sorted key_le l) ≡ []) ↔ All (Rule full) l
jobs_iff full l =
    let each = λ (p : Text × Value). check_job-eq-nil full p in
    let rule = λ (p : Text × Value). expected-Rule full p in
    let order = All-sorted key_le (Rule full) l in
    let lines = flat_map-eq-nil (check_job full) (sorted key_le l) in
    (
      λ h. order.0 (All-map (λ p q. (rule p).0 ((each p).0 q)) _ (lines.0 h)),
      λ h. lines.1 (All-map (λ p q. (each p).1 ((rule p).1 q)) _ (order.1 h)),
    )

missing-eq-nil :
    (needs : Fields) → (missing needs ≡ []) ↔ All (λ job. contains (keys needs) job ≡ true) always
unfolding missing
missing-eq-nil needs =
    let absent = λ (job : Text). not (contains (keys needs) job) in
    let order = sorted-eq-nil text_le (select absent always) in
    let kept = select-eq-nil absent always in
    (
      λ h. All-map (λ job m. ground arith) _ (kept.0 (order.0 h)),
      λ h. order.1 (kept.1 (All-map (λ job m. ground arith) _ h)),
    )

-- The gate reports no problem exactly when the scope is "true" or "false", every job that always
-- runs is among the results, and each result is "success" for a job that always runs or under the
-- full scope, and "skipped" for any other.
pub evaluate_iff : (needs : Fields) (full : Text) → (evaluate needs full ≡ []) ↔ IsGreen needs full
unfolding evaluate
evaluate_iff needs full =
    let yes_scope = list_beq_iff full (str "true") in
    let no_scope = list_beq_iff full (str "false") in
    let names = missing-eq-nil needs in
    let none_missing = is_empty_iff (missing needs) in
    let jobs = jobs_iff full (entries needs) in
    let lines = flat_map (check_job full) (sorted key_le (entries needs)) in
    let parts =
      append-eq-nil (if is_empty (missing needs) then [] else missing_jobs (missing needs) ∷ [])
        lines in
    (
      λ h. record {
        scope = ground arith;
        present = names.0 (none_missing.0 (ground arith));
        results = jobs.0 (ground arith);
      },
      λ g.
          let whole = none_missing.1 (names.1 g.present) in
          let green = jobs.1 g.results in ground arith,
    )

-- The jobs that the problems name, in the order of the problems.
pub named : List Problem → List Text
named [] = []
named (bad_scope full ∷ ps) = named ps
named (missing_jobs jobs ∷ ps) = jobs ++ named ps
named (wrong_result job value wanted ∷ ps) = job ∷ named ps

-- The result is not the expected one.
abbrev pub fails : Text → Text × Value → Bool
fails full p = not (is_str (get_in p.1 (str "result")) (expected full p.0))

named-append : (ps qs : List Problem) → named (ps ++ qs) ≡ named ps ++ named qs
unfolding named
named-append [] qs = refl
named-append (bad_scope f ∷ ps) qs = named-append ps qs
named-append (missing_jobs l ∷ ps) qs =
    ap (λ r. l ++ r) (named-append ps qs) ∙ sym (append_assoc l (named ps) (named qs))
named-append (wrong_result j v t ∷ ps) qs = ap (λ l. j ∷ l) (named-append ps qs)

named-check_job :
    (full : Text) (l : List (Text × Value))
    → named (flat_map (check_job full) l) ≡ map (λ p. p.0) (select (fails full) l)
unfolding named check_job
named-check_job full [] = refl
named-check_job full (p ∷ l) =
    elim (Bool-cases (is_str (get_in p.1 (str "result")) (expected full p.0))) [
      | inl e ↦ rw e (named-check_job full l)
      | inr e ↦ rw e (ap (λ k. p.0 ∷ k) (named-check_job full l))
    ]

named-missing :
    (l : List Text) (ps : List Problem)
    → named ((if is_empty l then [] else missing_jobs l ∷ []) ++ ps) ≡ l ++ named ps
unfolding named
named-missing [] ps = refl
named-missing (job ∷ l) ps = refl

named-evaluate :
    (needs : Fields) (full : Text)
    → (full ≡ str "true") ⊎ (full ≡ str "false")
    → named (evaluate needs full)
      ≡ missing needs ++ map (λ p. p.0) (select (fails full) (sorted key_le (entries needs)))
unfolding evaluate
named-evaluate needs full h =
    let t = list_beq_iff full (str "true") in
    let f = list_beq_iff full (str "false") in
    let valid : (not (full == str "true" || full == str "false")) ≡ false = ground arith in
    let jobs = sorted key_le (entries needs) in
    rw valid (
      named-missing (missing needs) (flat_map (check_job full) jobs)
      ∙ ap (λ r. missing needs ++ r) (named-check_job full jobs))

all-map-key :
    (k : Text) (l : List (Text × Value))
    → all (text_le k) (map (λ p. p.0) l) ≡ all (λ p. text_le k p.0) l
all-map-key k [] = refl
all-map-key k (p ∷ l) = ground (arith, all-map-key k l)

IsSorted-map-key :
    (l : List (Text × Value)) → IsSorted key_le l → IsSorted text_le (map (λ p. p.0) l)
IsSorted-map-key [] h = tt
IsSorted-map-key (p ∷ l) (h, k) = (all-map-key p.0 l ∙ h, IsSorted-map-key l k)

contains-map-key :
    (q : Text × Value → Bool) (job : Text) (l : List (Text × Value))
    → contains (map (λ p. p.0) (select q l)) job ≡ any (λ p. job == p.0 && q p) l
contains-map-key q job [] = refl
contains-map-key q job (p ∷ l) = ground (arith, contains-map-key q job l)

-- The list is made of two: the jobs that always run and have no result, and those whose result is not the expected
-- one, each in ascending order.
pub record IsComplaint (needs : Fields) (full : Text) (jobs : List Text) : Type 0 where
  pub absent : List Text
  pub failed : List Text
  pub parts : jobs ≡ absent ++ failed
  pub absent_in_order : IsSorted text_le absent
  pub failed_in_order : IsSorted text_le failed
  pub absent_jobs :
      (job : Text) → contains absent job ≡ (contains always job && not (contains (keys needs) job))
  pub failed_jobs :
      (job : Text) → contains failed job ≡ any (λ p. job == p.0 && fails full p) (entries needs)

-- Under a scope that is "true" or "false" the problems name, in ascending order, exactly the jobs that always run and
-- have no result, and then, in ascending order, exactly the jobs that have an entry without the result that is
-- expected of it; they name no other job.
pub named-evaluate_lem :
    (needs : Fields) (full : Text)
    → (full ≡ str "true") ⊎ (full ≡ str "false")
    → IsComplaint needs full (named (evaluate needs full))
unfolding missing
named-evaluate_lem needs full h =
    let l = entries needs in
    let absent = λ (job : Text). not (contains (keys needs) job) in
    record {
      absent = missing needs;
      failed = map (λ p. p.0) (select (fails full) (sorted key_le l));
      parts = named-evaluate needs full h;
      absent_in_order = sorted-IsSorted text_le text_le_total text_le_trans (select absent always);
      failed_in_order = IsSorted-map-key _ (
          IsSorted-select key_le (fails full) (sorted key_le l) (
            sorted-IsSorted key_le (λ p q. text_le_total p.0 q.0)
              (λ p q r. text_le_trans p.0 q.0 r.0) l));
      absent_jobs =
          λ job. contains-sorted (select absent always) job ∙ contains-select absent always job;
      failed_jobs = λ job.
          contains-map-key (fails full) job (sorted key_le l)
          ∙ any-sorted key_le (λ p. job == p.0 && fails full p) l;
    }

gate_iff :
    (v : Value) (full : Text)
    → (gate v full ≡ 0)
      ↔ ((needs : Fields) × (v ≡ obj needs) × (entries needs ≢ []) × IsGreen needs full)
unfolding gate
gate_iff (obj needs) full =
    let e = is_empty_iff (entries needs) in
    let p = is_empty_iff (evaluate needs full) in
    let g = evaluate_iff needs full in
    (
      λ h. (needs, refl, λ q. ground (arith, e.1 q), g.0 (p.0 (ground arith))),
      λ (d, q, some_jobs, green).
          let same : needs ≡ d = cc q in
          ground (arith, p.1 (g.1 (subst (λ n. IsGreen n full) (sym same) green))),
    )
gate_iff null full = (λ h. cc, λ h. cc (h.1))
gate_iff (bool b) full = (λ h. cc, λ h. cc (h.1))
gate_iff (int n) full = (λ h. cc, λ h. cc (h.1))
gate_iff (neg n) full = (λ h. cc, λ h. cc (h.1))
gate_iff (text t) full = (λ h. cc, λ h. cc (h.1))
gate_iff (arr l) full = (λ h. cc, λ h. cc (h.1))

-- The status is 0 exactly when the results are there, decode to an object with at least one job,
-- and are green for the scope; an unset scope counts as the empty text.
pub main_iff :
    (loads : Text → Option Value) (json scope : Option Text)
    → (main loads json scope ≡ 0) ↔ (
        (t : Text) × (needs : Fields) × (json ≡ some t)
        × (loads t ≡ some (obj needs))
        × (entries needs ≢ [])
        × IsGreen needs (scope_text scope))
unfolding main
main_iff loads none scope = (λ h. ground arith, λ h. cc (h.2))
main_iff loads (some t) scope = elim (Option-cases (loads t)) [
  | inl e ↦ rw (e, main) (λ h. ground arith, λ h. cc (h.2, h.3, e))
  | inr (v, e) ↦
      rw (e, main)
        (
          λ h.
              let (d, q, some_jobs, green) = (gate_iff v (scope_text scope)).0 h in
              (t, d, refl, e ∙ ap some q, some_jobs, green),
          λ (u, d, same, l, some_jobs, green).
              (gate_iff v (scope_text scope)).1 (d, cc (e, same, l), some_jobs, green),
        )
]
