-- ===== src/Consumer/Rollback/Steps.antt =====
-- What a clean step of a rollback report shows (`_check_rollback_transition` of port/consumer/verify.py).
use symaira_corekit.Base.{
  ◌≡◌, refl, sym, ap, ◌∙◌, subst, inl, inr, Bool, true, ◌&&◌, Option, none, some, List, [], ◌∷◌,
  ◌++◌, arith, Text, str, Option-cases, and_iff, append-eq-nil, list_beq_iff, ◌==◌, nat_eq, list_eq,
  option_eq, bool_eq, pair_eq,
}
use symaira_corekit.Consumer.Findings.{returns}
use symaira_corekit.Consumer.Findings.Laws.{returns-injective, then_check-nil}
use symaira_corekit.Consumer.Patterns.{is_digest}
use symaira_corekit.Consumer.Rollback.{
  Programs, artifact_digest, check_artifact, check_go_step, check_output, check_rust_step,
  check_steps, invoked, is_option, is_sequence, next_identity, observed_run,
}
use symaira_corekit.Consumer.World.{Location, World}
use symaira_corekit.Json.{Value, arr, bool, get_in, int, is_str, neg, null, obj, text, text_that}
use symaira_corekit.Json.Laws.{is_str_iff, text-injective}

-- A step that ran the artifact with the digest, and read the state back.
pub record IsStep (w : World) (checkout : Location) (state artifact digest : Text) (step : Value)
    : Type 0 where
  pub executable : Text
  pub stdout : Text
  pub artifact_field : get_in step (str "artifact") ≡ text artifact
  pub digest_field : get_in step (str "artifact_sha256") ≡ text digest
  pub full : is_digest digest ≡ true
  pub present : artifact_digest w checkout (text artifact) ≡ some digest
  pub run : observed_run step ≡ some (executable, stdout)
  pub invokes : artifact ≡ invoked executable
  pub readback : get_in step (str "state_readback_sha256") ≡ text state
  pub captured : w.text_digest stdout ≡ some state

pub is_option-some :
    (v : Value) (o : Option Text) (p : Text → Bool)
    → (text_that p v && is_option v o) ≡ true
    → (t : Text) × (v ≡ text t) × (p t ≡ true) × (o ≡ some t)
unfolding is_option is_str text_that
is_option-some (text t) (some u) p h =
    let (b, c) = (and_iff (p t) (t == u)).0 h in
    (t, refl, b, ap some (sym ((list_beq_iff t u).0 c)))
is_option-some (text t) none p h = absurd (ground (arith, h))
is_option-some null o p h = absurd (ground (arith, h))
is_option-some (bool b) o p h = absurd (ground (arith, h))
is_option-some (int n) o p h = absurd (ground (arith, h))
is_option-some (neg n) o p h = absurd (ground (arith, h))
is_option-some (arr l) o p h = absurd (ground (arith, h))
is_option-some (obj d) o p h = absurd (ground (arith, h))

has_text :
    (w : World) (checkout : Location) (v : Value) (digest : Text)
    → artifact_digest w checkout v ≡ some digest
    → (t : Text) × (v ≡ text t)
unfolding artifact_digest
has_text w checkout (text t) digest h = (t, refl)
has_text w checkout null digest h = absurd (ground (arith, h))
has_text w checkout (bool b) digest h = absurd (ground (arith, h))
has_text w checkout (int n) digest h = absurd (ground (arith, h))
has_text w checkout (neg n) digest h = absurd (ground (arith, h))
has_text w checkout (arr l) digest h = absurd (ground (arith, h))
has_text w checkout (obj d) digest h = absurd (ground (arith, h))

-- The artifact that a step names, and its digest.
artifact_lem :
    (w : World) (checkout : Location) (repository : Text) (step : Value)
    → check_artifact w checkout repository step ≡ []
    → (artifact : Text) × (digest : Text) × (get_in step (str "artifact") ≡ text artifact)
      × (get_in step (str "artifact_sha256") ≡ text digest)
      × (is_digest digest ≡ true)
      × (artifact_digest w checkout (text artifact) ≡ some digest)
unfolding check_artifact
artifact_lem w checkout repository step h =
    let a = get_in step (str "artifact") in
    let (digest, e, full, found) =
      is_option-some (get_in step (str "artifact_sha256")) (artifact_digest w checkout a) is_digest
        (ground (arith, h)) in
    let (artifact, f) = has_text w checkout a digest found in
    (artifact, digest, f, e, full, subst (λ x. artifact_digest w checkout x ≡ some digest) f found)

-- The output that a step records.
output_lem :
    (w : World) (repository state : Text) (step : Value)
    → check_output w repository state step ≡ returns []
    → (executable : Text) × (stdout : Text) × (observed_run step ≡ some (executable, stdout))
      × (get_in step (str "artifact") ≡ text (invoked executable))
      × (get_in step (str "state_readback_sha256") ≡ text state)
      × (w.text_digest stdout ≡ some state)
unfolding check_output
output_lem w repository state step h = elim (Option-cases (observed_run step)) [
  | inl e ↦ absurd (ground (arith, h, e))
  | inr ((executable, stdout), e) ↦ elim (Option-cases (w.text_digest stdout)) [
    | inl f ↦ absurd (ground (arith, h, e, f))
    | inr (output, f) ↦
        let readback = get_in step (str "state_readback_sha256") in
        let named =
          (is_str_iff (get_in step (str "artifact")) (invoked executable)).0
            (ground (arith, h, e, f)) in
        let first = (is_str_iff readback state).0 (ground (arith, h, e, f)) in
        let second = (is_str_iff readback output).0 (ground (arith, h, e, f)) in
        let same : output ≡ state = text-injective output state (sym second ∙ first) in
        (executable, stdout, e, named, first, subst (λ x. w.text_digest stdout ≡ some x) same f)
  ]
]

-- The output and the artifact of a step.
step-IsStep :
    (w : World) (checkout : Location) (repository state : Text) (step : Value)
    → check_output w repository state step ≡ returns []
    → check_artifact w checkout repository step ≡ []
    → (artifact : Text) × (digest : Text) × IsStep w checkout state artifact digest step
step-IsStep w checkout repository state step h k =
    let (artifact, digest, a, d, full, present) = artifact_lem w checkout repository step k in
    let (executable, stdout, run, named, readback, captured) =
      output_lem w repository state step h in
    (
      artifact,
      digest,
      record {
        executable = executable;
        stdout = stdout;
        artifact_field = a;
        digest_field = d;
        full = full;
        present = present;
        run = run;
        invokes = text-injective artifact (invoked executable) (sym a ∙ named);
        readback = readback;
        captured = captured;
      },
    )

-- A Go step names the old program.
go_lem :
    (programs : Programs) (repository : Text) (identity : Option (Text × Text)) (step : Value)
    (artifact digest : Text)
    → is_str (get_in step (str "runtime")) (str "go") ≡ true
    → get_in step (str "artifact") ≡ text artifact
    → get_in step (str "artifact_sha256") ≡ text digest
    → check_go_step programs repository identity step ≡ []
    → (artifact ≡ programs.go_artifact) × (digest ≡ programs.go_digest)
unfolding check_go_step
go_lem programs repository identity step artifact digest g a d h = ground (
  arith,
  h,
  g,
  a,
  d,
  list_beq_iff artifact programs.go_artifact,
  list_beq_iff digest programs.go_digest,
)

option_lem : (t : Text) (o : Option Text) → is_option (text t) o ≡ true → o ≡ some t
unfolding is_option is_str
option_lem t (some u) h = ap some (sym ((list_beq_iff t u).0 h))
option_lem t none h = absurd (ground (arith, h))

-- The Rust step names the new program.
rust_lem :
    (programs : Programs) (repository : Text) (step : Value) (artifact digest : Text)
    → is_str (get_in step (str "runtime")) (str "rust") ≡ true
    → get_in step (str "artifact") ≡ text artifact
    → get_in step (str "artifact_sha256") ≡ text digest
    → check_rust_step programs repository step ≡ []
    → (programs.rust_artifact ≡ some artifact) × (programs.rust_digest ≡ some digest)
unfolding check_rust_step
rust_lem programs repository step artifact digest g a d h = (
  option_lem artifact programs.rust_artifact (ground (arith, h, g, a)),
  option_lem digest programs.rust_digest (ground (arith, h, g, d)),
)

pub sequence_lem :
    (l : List Value)
    → is_sequence l ≡ true
    → (a : Value) × (b : Value) × (c : Value) × (l ≡ a ∷ b ∷ c ∷ [])
      × (is_str (get_in a (str "runtime")) (str "go") ≡ true)
      × (is_str (get_in b (str "runtime")) (str "rust") ≡ true)
      × (is_str (get_in c (str "runtime")) (str "go") ≡ true)
unfolding is_sequence
sequence_lem (a ∷ b ∷ c ∷ []) h =
    (a, b, c, refl, ground (arith, h), ground (arith, h), ground (arith, h))
sequence_lem [] h = absurd (ground (arith, h))
sequence_lem (a ∷ []) h = absurd (ground (arith, h))
sequence_lem (a ∷ b ∷ []) h = absurd (ground (arith, h))
sequence_lem (a ∷ b ∷ c ∷ d ∷ l) h = absurd (ground (arith, h))

-- A clean step, and clean steps after it.
step_lem :
    (w : World) (checkout : Location) (repository state : Text) (programs : Programs)
    (identity : Option (Text × Text)) (step : Value) (steps : List Value)
    → check_steps w checkout repository state programs identity (step ∷ steps) ≡ returns []
    → (check_output w repository state step ≡ returns [])
      × (check_artifact w checkout repository step ≡ [])
      × (check_rust_step programs repository step ≡ [])
      × (check_go_step programs repository identity step ≡ [])
      × (check_steps w checkout repository state programs (next_identity identity step) steps
          ≡ returns [])
unfolding check_steps
step_lem w checkout repository state programs identity step steps h =
    let artifact = check_artifact w checkout repository step in
    let rust = check_rust_step programs repository step in
    let go = check_go_step programs repository identity step in
    let (front, rest) = then_check-nil _ _ h in
    let (output, others) =
      then_check-nil (check_output w repository state step) (returns (artifact ++ (rust ++ go)))
        front in
    let (a, tail) =
      (append-eq-nil artifact (rust ++ go)).0
        (returns-injective (artifact ++ (rust ++ go)) [] others) in
    let (r, g) = (append-eq-nil rust go).0 tail in (output, a, r, g, rest)

go_step_lem :
    (w : World) (checkout : Location) (repository state : Text) (programs : Programs)
    (identity : Option (Text × Text)) (step : Value)
    → is_str (get_in step (str "runtime")) (str "go") ≡ true
    → check_output w repository state step ≡ returns []
    → check_artifact w checkout repository step ≡ []
    → check_go_step programs repository identity step ≡ []
    → IsStep w checkout state programs.go_artifact programs.go_digest step
go_step_lem w checkout repository state programs identity step g o k h =
    let (artifact, digest, it) = step-IsStep w checkout repository state step o k in
    let (a, d) =
      go_lem programs repository identity step artifact digest g it.artifact_field it.digest_field
        h in
    subst (λ x. IsStep w checkout state x programs.go_digest step) a
      (subst (λ x. IsStep w checkout state artifact x step) d it)

-- The three steps of a clean run.
pub steps_lem :
    (w : World) (checkout : Location) (repository state : Text) (programs : Programs)
    (a b c : Value)
    → is_str (get_in a (str "runtime")) (str "go") ≡ true
    → is_str (get_in b (str "runtime")) (str "rust") ≡ true
    → is_str (get_in c (str "runtime")) (str "go") ≡ true
    → check_steps w checkout repository state programs none (a ∷ b ∷ c ∷ []) ≡ returns []
    → IsStep w checkout state programs.go_artifact programs.go_digest a
      × ((artifact : Text) × (digest : Text) × (programs.rust_artifact ≡ some artifact)
          × (programs.rust_digest ≡ some digest)
          × IsStep w checkout state artifact digest b)
      × IsStep w checkout state programs.go_artifact programs.go_digest c
steps_lem w checkout repository state programs a b c ga rb gc h =
    let (o1, k1, r1, g1, h1) =
      step_lem w checkout repository state programs none a (b ∷ c ∷ []) h in
    let (o2, k2, r2, g2, h2) = step_lem w checkout repository state programs _ b (c ∷ []) h1 in
    let (o3, k3, r3, g3, h3) = step_lem w checkout repository state programs _ c [] h2 in
    let (artifact, digest, it) = step-IsStep w checkout repository state b o2 k2 in
    let (p, q) =
      rust_lem programs repository b artifact digest rb it.artifact_field it.digest_field r2 in
    (
      go_step_lem w checkout repository state programs _ a ga o1 k1 g1,
      (artifact, digest, p, q, it),
      go_step_lem w checkout repository state programs _ c gc o3 k3 g3,
    )
