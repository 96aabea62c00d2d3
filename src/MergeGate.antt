-- ===== src/MergeGate.antt =====
-- scripts/rust-port/ci_merge_gate.py: the merge gate over the jobs of a pull request.
-- A problem keeps what its printed line interpolates; the wording is not modelled.
pub mod Laws
use symaira_corekit.Base.{
  ℕ, Bool, true, false, not, ◌&&◌, ◌||◌, List, [], ◌∷◌, ◌++◌, Option, none, some, Text, str, ◌==◌,
  list_eq, nat_eq, contains, select, is_empty, flat_map, if◌then◌else◌,
}
use symaira_corekit.Base.Sorting.{text_le, sorted}
use symaira_corekit.Json.{Value, null, obj, Fields, entries, keys, get_in, is_str}

-- Jobs that run on every pull request regardless of the selected scope.
unfoldable pub always : List Text
always = str "changes" ∷ str "test" ∷ str "lint" ∷ str "audit" ∷ []

pub data Problem : Type 0 where
  bad_scope : Text → Problem
  missing_jobs : List Text → Problem
  wrong_result : Text → Value → Text → Problem

abbrev pub key_le : Text × Value → Text × Value → Bool
key_le (j, v) (k, w) = text_le j k

-- `"success" if job in ALWAYS or full == "true" else "skipped"`
unfoldable pub expected : Text → Text → Text
expected full job =
    if contains always job || full == str "true" then str "success" else str "skipped"

-- The body of the loop over `sorted(needs.items())`.
unfoldable pub check_job : Text → Text × Value → List Problem
check_job full (job, info) =
    let result = get_in info (str "result") in
    if is_str result (expected full job)
    then []
    else wrong_result job result (expected full job) ∷ []

unfoldable pub missing : Fields → List Text
missing needs = sorted text_le (select (λ job. not (contains (keys needs) job)) always)

unfoldable pub evaluate : Fields → Text → List Problem
evaluate needs full =
    if not (full == str "true" || full == str "false")
    then bad_scope full ∷ []
    else (if is_empty (missing needs) then [] else missing_jobs (missing needs) ∷ [])
      ++ flat_map (check_job full) (sorted key_le (entries needs))

-- `os.environ.get("CI_FULL_SCOPE", "")`
abbrev pub scope_text : Option Text → Text
scope_text none = str ""
scope_text (some full) = full

-- The exit status, once `NEEDS_JSON` is decoded.
unfoldable pub gate : Value → Text → ℕ
gate (obj needs) full =
    if is_empty (entries needs) then 1 else if is_empty (evaluate needs full) then 0 else 1
gate _ full = 1

-- The exit status over `NEEDS_JSON` and `CI_FULL_SCOPE` of the environment. `loads` is
-- `json.loads`; `none` stands for the error that it raises.
unfoldable pub main : (Text → Option Value) → Option Text → Option Text → ℕ
main loads none scope = 1
main loads (some json) scope = elim (loads json) [
  | none ↦ 1
  | some needs ↦ gate needs (scope_text scope)
]
