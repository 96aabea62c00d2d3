-- ===== src/Consumer/Records/Laws.antt =====
-- What a clean loop over the records shows (`verify_manifest` of port/consumer/verify.py).
use symaira_corekit.Base.{
  ◌≡◌, ◌⊎◌, inl, inr, true, false, none, some, List, [], ◌∷◌, ◌++◌, arith, Text, str, Bool-cases,
  Option-cases, contains, nat_eq, list_eq, option_eq,
}
use symaira_corekit.Consumer.Evidence.{check_evidence, go_retired}
use symaira_corekit.Consumer.Evidence.Laws.{IsEvidence, check_evidence-IsEvidence}
use symaira_corekit.Consumer.Findings.{add, returns, ◌then_check◌}
use symaira_corekit.Consumer.Findings.Laws.{Check-cases, returns-injective, then_check-nil}
use symaira_corekit.Consumer.Go.{check_go}
use symaira_corekit.Consumer.Go.Laws.{IsPinned, IsRetired, check_go_cases}
use symaira_corekit.Consumer.Paths.{path_parts, safe_child}
use symaira_corekit.Consumer.Records.{
  Options, check_checkout, check_record, check_records, check_selected, check_stage, checkout_name,
  named_record,
}
use symaira_corekit.Consumer.Release.{check_consumer_release}
use symaira_corekit.Consumer.Release.Laws.{IsConsumerRelease, check_consumer_release_iff}
use symaira_corekit.Consumer.Rust.{check_rust}
use symaira_corekit.Consumer.Rust.Laws.{RustCase, check_rust_cases}
use symaira_corekit.Consumer.Snapshot.{check_checkout_snapshot, is_link}
use symaira_corekit.Consumer.Snapshot.Laws.{IsSnapshot, check_checkout_snapshot-IsSnapshot}
use symaira_corekit.Consumer.Status.{expected_rust, validate_rust_status}
use symaira_corekit.Consumer.Status.Laws.{HasStatus, validate_rust_status_iff}
use symaira_corekit.Consumer.World.{Location, World}
use symaira_corekit.Json.{Fields, Value, get, get_in, text}
use symaira_corekit.Json.Laws.{is_str_iff}

-- An adopted crate has evidence.
pub data EvidenceCase (w : World) (record' : Fields) (checkout : Location) : Type 0 where
  unneeded : expected_rust record' ≡ returns none → EvidenceCase w record' checkout
  evident :
      (rust : Fields)
      → expected_rust record' ≡ returns (some rust)
      → IsEvidence w record' checkout rust
      → EvidenceCase w record' checkout

-- The consumer at a checkout.
pub record IsReleasable (w : World) (corekit_root : Location) (registry record' : Fields)
    (checkout : Location) : Type 0 where
  pub snapshot : IsSnapshot w record' checkout
  pub release : IsConsumerRelease w record' checkout
  pub go :
      ((go_retired record' ≡ true) × IsRetired w record' checkout)
      ⊎ ((go_retired record' ≡ false) × IsPinned w record' checkout)
  pub rust : RustCase w record' checkout corekit_root registry
  pub evidence : EvidenceCase w record' checkout

-- A record of the manifest that passes.
pub record IsChecked (w : World) (o : Options) (workspace_root corekit_root : Location)
    (registry : Fields) (repository : Text) (record' : Fields) : Type 0 where
  pub checkout : Location
  pub status : HasStatus record'
  pub git_stage :
      o.git_release_stage ≡ true
      → get_in (get record' (str "rust")) (str "status") ≡ text (str "git")
  pub registry_stage :
      o.registry_release_stage ≡ true
      → get_in (get record' (str "rust")) (str "status") ≡ text (str "registry")
  pub no_link : is_link w (workspace_root ++ path_parts (checkout_name repository)) ≡ false
  pub place : safe_child w workspace_root (text (checkout_name repository)) ≡ some checkout
  pub is_directory : w.is_dir checkout ≡ true
  pub releasable : IsReleasable w corekit_root registry record' checkout

evidence_lem :
    (w : World) (record' : Fields) (checkout : Location)
    → check_evidence w record' checkout ≡ returns []
    → EvidenceCase w record' checkout
unfolding check_evidence
evidence_lem w record' checkout h = elim (Check-cases (expected_rust record')) [
  | inr (e, f) ↦ absurd (ground (arith, h, f))
  | inl (none, f) ↦ unneeded f
  | inl (some rust, f) ↦ evident rust f (check_evidence-IsEvidence w record' checkout rust f h)
]

checkout_lem :
    (w : World) (corekit_root : Location) (registry record' : Fields) (checkout : Location)
    → validate_rust_status record' ≡ returns []
    → check_checkout w corekit_root registry record' checkout ≡ returns []
    → IsReleasable w corekit_root registry record' checkout
unfolding check_checkout
checkout_lem w corekit_root registry record' checkout valid h =
    let one = returns (check_checkout_snapshot w record' checkout) in
    let two = one then_check returns (check_consumer_release w record' checkout) in
    let three = two then_check check_go w record' checkout in
    let four = three then_check check_rust w record' checkout corekit_root registry in
    let (h4, evidence) = then_check-nil four (check_evidence w record' checkout) h in
    let (h3, rust) =
      then_check-nil three (check_rust w record' checkout corekit_root registry) h4 in
    let (h2, go) = then_check-nil two (check_go w record' checkout) h3 in
    let (snapshot, release) =
      then_check-nil one (returns (check_consumer_release w record' checkout)) h2 in
    record {
      snapshot =
          check_checkout_snapshot-IsSnapshot w record' checkout (returns-injective _ [] snapshot);
      release = (check_consumer_release_iff w record' checkout).0 (returns-injective _ [] release);
      go = check_go_cases w record' checkout go;
      rust = check_rust_cases w record' checkout corekit_root registry valid rust;
      evidence = evidence_lem w record' checkout evidence;
    }

-- The place of a checkout and what is checked there.
abbrev Selected : World → Location → Location → Fields → Text → Fields → Type 0
Selected w workspace_root corekit_root registry repository record' =
    (checkout : Location) × (is_link w (workspace_root ++ path_parts (checkout_name repository))
      ≡ false)
    × (safe_child w workspace_root (text (checkout_name repository)) ≡ some checkout)
    × (w.is_dir checkout ≡ true)
    × (check_checkout w corekit_root registry record' checkout ≡ returns [])

selected_lem :
    (w : World) (workspace_root corekit_root : Location) (registry : Fields) (repository : Text)
    (record' : Fields)
    → check_selected w workspace_root corekit_root registry repository record' ≡ returns []
    → Selected w workspace_root corekit_root registry repository record'
unfolding check_selected
selected_lem w workspace_root corekit_root registry repository record' h =
    let name = checkout_name repository in
    elim (Bool-cases (is_link w (workspace_root ++ path_parts name))) [
      | inl e ↦ absurd (ground (arith, h, e))
      | inr e ↦ elim (Option-cases (safe_child w workspace_root (text name))) [
        | inl f ↦ absurd (ground (arith, h, e, f))
        | inr (checkout, f) ↦ elim (Bool-cases (w.is_dir checkout)) [
          | inr g ↦ absurd (ground (arith, h, e, f, g))
          | inl g ↦ (checkout, e, f, g, ground (arith, h, e, f, g))
        ]
      ]
    ]

stage_lem :
    (o : Options) (repository : Text) (record' : Fields)
    → check_stage o repository record' ≡ []
    → (o.git_release_stage ≡ true
        → get_in (get record' (str "rust")) (str "status") ≡ text (str "git"))
      × (o.registry_release_stage ≡ true
          → get_in (get record' (str "rust")) (str "status") ≡ text (str "registry"))
unfolding check_stage
stage_lem o repository record' h =
    let status = get_in (get record' (str "rust")) (str "status") in
    (
      λ s. (is_str_iff status (str "git")).0 (ground (arith, h, s)),
      λ s. (is_str_iff status (str "registry")).0 (ground (arith, h, s)),
    )

record_lem :
    (w : World) (o : Options) (workspace_root corekit_root : Location) (registry : Fields)
    (repository : Text) (record' : Fields)
    → check_record w o workspace_root corekit_root registry repository record' ≡ returns []
    → IsChecked w o workspace_root corekit_root registry repository record'
unfolding check_record
record_lem w o workspace_root corekit_root registry repository record' h =
    let one = validate_rust_status record' then_check returns (check_stage o repository record') in
    let (front, selected) =
      then_check-nil one (check_selected w workspace_root corekit_root registry repository record')
        h in
    let (status, stage) =
      then_check-nil (validate_rust_status record') (returns (check_stage o repository record'))
        front in
    let (git_stage, registry_stage) =
      stage_lem o repository record' (returns-injective _ [] stage) in
    let (checkout, no_link, place, is_directory, clean) =
      selected_lem w workspace_root corekit_root registry repository record' selected in
    record {
      checkout = checkout;
      status = (validate_rust_status_iff record').0 status;
      git_stage = git_stage;
      registry_stage = registry_stage;
      no_link = no_link;
      place = place;
      is_directory = is_directory;
      releasable = checkout_lem w corekit_root registry record' checkout status clean;
    }

-- Every record passes, and names a repository that none before it names.
pub data AllChecked (w : World) (o : Options) (workspace_root corekit_root : Location)
    (registry : Fields) : List Text → List Value → Type 0 where
  finished : {seen : List Text} → AllChecked w o workspace_root corekit_root registry seen []
  checks :
      {seen : List Text} {v : Value} {vs : List Value} {repository : Text} {record' : Fields}
      → named_record v ≡ some (repository, record')
      → contains seen repository ≡ false
      → IsChecked w o workspace_root corekit_root registry repository record'
      → AllChecked w o workspace_root corekit_root registry (repository ∷ seen) vs
      → AllChecked w o workspace_root corekit_root registry seen (v ∷ vs)

pub check_records-AllChecked :
    (w : World) (o : Options) (workspace_root corekit_root : Location) (registry : Fields)
    (seen : List Text) (vs : List Value)
    → check_records w o workspace_root corekit_root registry seen vs ≡ returns []
    → AllChecked w o workspace_root corekit_root registry seen vs
unfolding check_records
check_records-AllChecked w o workspace_root corekit_root registry seen [] h = finished
check_records-AllChecked w o workspace_root corekit_root registry seen (v ∷ vs) h =
    let loop = check_records w o workspace_root corekit_root registry in
    elim (Option-cases (named_record v)) [
      | inl e ↦
          let (bad, _) =
            then_check-nil (returns (add (str "unknown") (str "record.shape"))) (loop seen vs)
              (ground (arith, h, e)) in
          absurd (ground (arith, bad))
      | inr ((repository, record'), e) ↦ elim (Bool-cases (contains seen repository)) [
        | inl f ↦
            let (bad, _) =
              then_check-nil (returns (add repository (str "record.duplicate"))) (loop seen vs)
                (ground (arith, h, e, f)) in
            absurd (ground (arith, bad))
        | inr f ↦
            let (clean, rest) =
              then_check-nil
                (check_record w o workspace_root corekit_root registry repository record')
                (loop (repository ∷ seen) vs) (ground (arith, h, e, f)) in
            checks e f
              (record_lem w o workspace_root corekit_root registry repository record' clean)
              (check_records-AllChecked w o workspace_root corekit_root registry (repository ∷ seen)
                vs rest)
      ]
    ]
