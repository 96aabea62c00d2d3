-- ===== src/Consumer/Rollback.antt =====
-- `_artifact_digest` and `_check_rollback_transition` of port/consumer/verify.py.
pub mod Laws
pub mod Steps
use symaira_corekit.Base.{
  Bool, true, false, not, ◌&&◌, List, [], ◌∷◌, ◌++◌, Option, none, some, Text, str, ◌==◌, list_eq,
  nat_eq, option_eq, is_empty, if◌then◌else◌,
}
use symaira_corekit.Base.Strings.{strip, remove_prefix}
use symaira_corekit.Json.{
  Value, Fields, get, get_in, is_str, is_text, text, null, as_list, text_that, is_zero,
}
use symaira_corekit.Consumer.Findings.{
  Report, add, need, Check, returns, raises, value_error, ◌then_check◌,
}
use symaira_corekit.Consumer.Patterns.{is_digest}
use symaira_corekit.Consumer.World.{World, Location}
use symaira_corekit.Consumer.Paths.{
  safe, unsafe, failed, safe_non_symlink_child, regular_non_symlink,
}
use symaira_corekit.Consumer.Release.{repository_of, checked}

-- `none` is its `None`, also for the errors that it catches.
unfoldable pub artifact_digest : World → Location → Value → Option Text
unfolding strip safe_non_symlink_child regular_non_symlink
artifact_digest w checkout (text relative) =
    if is_empty (strip relative)
    then none
    else elim (safe_non_symlink_child w checkout (text relative)) [
      | safe path ↦ if regular_non_symlink w path then w.file_digest path else none
      | unsafe ↦ none
      | failed ↦ none
    ]
artifact_digest w checkout _ = none

-- A list of texts, and nothing else.
unfoldable pub all_texts : List Value → Option (List Text)
all_texts [] = some []
all_texts (text t ∷ l) = elim (all_texts l) [ none ↦ none | some ts ↦ some (t ∷ ts) ]
all_texts (v ∷ l) = none

-- The command line and the output of a step that was observed to succeed.
unfoldable pub observed_run : Value → Option (Text × Text)
unfolding all_texts is_zero is_text
observed_run step =
    let observed = get_in step (str "observed") in
    elim (as_list (get_in observed (str "command"))) [
      | none ↦ none
      | some values ↦ elim (all_texts values) [
        | none ↦ none
        | some [] ↦ none
        | some (executable ∷ arguments) ↦ elim (get_in observed (str "stdout")) [
          | text stdout ↦
              if is_zero (get_in observed (str "exit_code"))
                && is_text (get_in observed (str "stderr"))
              then some (executable, stdout)
              else none
          | _ ↦ none
        ]
      ]
    ]

-- `command[0]` with forward slashes, less a leading `./`
unfoldable pub slashes : Text → Text
slashes [] = []
slashes (c ∷ t) = (if c == 92 then 47 else c) ∷ slashes t

unfoldable pub invoked : Text → Text
unfolding slashes remove_prefix str
invoked executable = remove_prefix (str "./") (slashes executable)

-- A value that equals an optional text, with None for none.
unfoldable pub is_option : Value → Option Text → Bool
is_option v (some t) = is_str v t
is_option null none = true
is_option v none = false

-- The pair of an artifact and its digest, if both are texts.
unfoldable pub identity_of : Value → Value → Option (Text × Text)
identity_of (text artifact) (text digest) = some (artifact, digest)
identity_of _ _ = none

unfoldable pub same_identity : Option (Text × Text) → Option (Text × Text) → Bool
same_identity none none = true
same_identity (some (a, d)) (some (b, e)) = a == b && d == e
same_identity _ _ = false

abbrev pub finding_of : Text → Text → Report
finding_of repository suffix = add repository (str "evidence.rollback." ++ suffix)

-- What the reports say of the two programs: the old one, and the new one if it was accepted.
pub record Programs : Type 0 where
  pub go_artifact : Text
  pub go_digest : Text
  pub rust_artifact : Option Text
  pub rust_digest : Option Text

-- A step's captured output: its digest is the read-back of the one state.
unfoldable pub check_output : World → Text → Text → Value → Check Report
unfolding observed_run invoked
check_output w repository state step = elim (observed_run step) [
  | none ↦ returns (finding_of repository (str "transition.result"))
  | some (executable, stdout) ↦ elim (w.text_digest stdout) [
    | none ↦ raises value_error
    | some output ↦
        let readback = get_in step (str "state_readback_sha256") in
        returns (
          need (is_str (get_in step (str "artifact")) (invoked executable))
            (finding_of repository (str "transition.command"))
          ++ need (is_str readback state && is_str readback output)
              (finding_of repository (str "state")))
  ]
]

-- `actual != digest`, with the shape of the digest.
unfoldable pub check_artifact : World → Location → Text → Value → Report
unfolding artifact_digest
check_artifact w checkout repository step =
    let digest = get_in step (str "artifact_sha256") in
    need
      (text_that is_digest digest
        && is_option digest (artifact_digest w checkout (get_in step (str "artifact"))))
      (finding_of repository (str "transition.artifact"))

-- The step of the new program.
unfoldable pub check_rust_step : Programs → Text → Value → Report
unfolding is_option
check_rust_step programs repository step =
    if is_str (get_in step (str "runtime")) (str "rust")
    then need
        (is_option (get_in step (str "artifact")) programs.rust_artifact
          && is_option (get_in step (str "artifact_sha256")) programs.rust_digest)
        (finding_of repository (str "transition.rust"))
    else []

-- A step of the old program, after the steps that left `identity`.
unfoldable pub check_go_step : Programs → Text → Option (Text × Text) → Value → Report
unfolding identity_of same_identity
check_go_step programs repository identity step =
    let this = identity_of (get_in step (str "artifact")) (get_in step (str "artifact_sha256")) in
    let finding = finding_of repository (str "transition.go") in
    let expected : Option (Text × Text) = some (programs.go_artifact, programs.go_digest) in
    if is_str (get_in step (str "runtime")) (str "go")
    then need (same_identity this expected) finding
      ++ elim identity [ none ↦ [] | some i ↦ need (same_identity this (some i)) finding ]
    else []

-- `go_identity` after the step.
unfoldable pub next_identity : Option (Text × Text) → Value → Option (Text × Text)
unfolding identity_of
next_identity (some i) step = some i
next_identity none step =
    if is_str (get_in step (str "runtime")) (str "go")
    then identity_of (get_in step (str "artifact")) (get_in step (str "artifact_sha256"))
    else none

unfoldable pub check_steps :
    World → Location → Text → Text → Programs → Option (Text × Text) → List Value → Check Report
unfolding check_output check_artifact check_rust_step check_go_step next_identity ◌then_check◌
check_steps w checkout repository state programs identity [] = returns []
check_steps w checkout repository state programs identity (step ∷ steps) =
    check_output w repository state step
    then_check returns (
        check_artifact w checkout repository step
        ++ (check_rust_step programs repository step
            ++ check_go_step programs repository identity step))
    then_check check_steps w checkout repository state programs (next_identity identity step) steps

-- Three steps: the old program, the new one, and the old one again.
unfoldable pub is_sequence : List Value → Bool
is_sequence (a ∷ b ∷ c ∷ []) =
    is_str (get_in a (str "runtime")) (str "go")
    && is_str (get_in b (str "runtime")) (str "rust")
    && is_str (get_in c (str "runtime")) (str "go")
is_sequence _ = false

-- The old program is not the new one.
unfoldable pub check_distinct : Programs → Text → Report
check_distinct programs repository =
    need
      (not (
        programs.rust_artifact == some programs.go_artifact
        && programs.rust_digest == some programs.go_digest))
      (finding_of repository (str "transition.go"))

-- Both early returns add the same finding.
unfoldable pub check_rollback_transition :
    World → Fields → Fields → Location → Programs → Check Report
unfolding is_sequence check_steps check_distinct
check_rollback_transition w report record' checkout programs =
    let repository = repository_of record' in
    let finding = finding_of repository (str "transition") in
    elim (as_list (get report (str "transition"))) [
      | none ↦ returns finding
      | some steps ↦ elim (checked is_digest (get report (str "synthetic_state_sha256"))) [
        | none ↦ returns finding
        | some state ↦
            if is_sequence steps
            then check_steps w checkout repository state programs none steps
              then_check returns (check_distinct programs repository)
            else returns finding
      ]
    ]
