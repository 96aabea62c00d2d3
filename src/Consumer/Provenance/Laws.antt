-- ===== src/Consumer/Provenance/Laws.antt =====
-- What an accepted build provenance shows (`_check_rust_build_provenance` of
-- port/consumer/verify.py).
use symaira_corekit.Base.{
  true, ◌≡◌, subst, inl, inr, List, [], ◌∷◌, Option, some, Text, str, list_eq, option_eq, nat_eq,
  contains, All, all_iff, arith, Option-cases,
}
use symaira_corekit.Base.Strings.{split_lines}
use symaira_corekit.Json.{Value, Fields, get, get_in, text, obj, as_dict, as_list, is_zero}
use symaira_corekit.Json.Laws.{as_dict_iff}
use symaira_corekit.Consumer.Findings.{returns}
use symaira_corekit.Consumer.Findings.Laws.{Check-cases}
use symaira_corekit.Consumer.Patterns.{is_digest, is_revision}
use symaira_corekit.Consumer.World.{World, Location, git, commit_of}
use symaira_corekit.Consumer.Release.{repository_of, checked}
use symaira_corekit.Consumer.Release.Laws.{checked_iff, succeeds_iff}
use symaira_corekit.Consumer.Rollback.{all_texts}
use symaira_corekit.Consumer.Rollback.Steps.{is_option-some}
use symaira_corekit.Consumer.Status.{expected_rust}
use symaira_corekit.Consumer.Provenance.{
  build_commits, allowed_changes, is_locked_build, is_observed_build, lock_file, cargo_root,
  check_build, check_rust_build_provenance,
}

-- A recorded run of `cargo build` with the lock file kept and the release profile.
pub record IsObservedBuild (provenance : Value) : Type 0 where
  pub values : List Value
  pub command : List Text
  pub listed : as_list (get_in (get_in provenance (str "observed")) (str "command")) ≡ some values
  pub texts : all_texts values ≡ some command
  pub locked : is_locked_build command ≡ true
  pub success : is_zero (get_in (get_in provenance (str "observed")) (str "exit_code")) ≡ true

is_observed_build-IsObservedBuild :
    (provenance : Value) → is_observed_build provenance ≡ true → IsObservedBuild provenance
unfolding is_observed_build
is_observed_build-IsObservedBuild provenance h =
    elim (Option-cases (as_list (get_in (get_in provenance (str "observed")) (str "command")))) [
      | inl e ↦ absurd (ground (arith, h, e))
      | inr (values, e) ↦ elim (Option-cases (all_texts values)) [
        | inl f ↦ absurd (ground (arith, h, e, f))
        | inr (command, f) ↦ record {
          values = values;
          command = command;
          listed = e;
          texts = f;
          locked = ground (arith, h, e, f);
          success = ground (arith, h, e, f);
        }
      ]
    ]

-- The build was made from a commit below the release, and only evidence changed after it.
pub record IsBuilt (w : World) (checkout : Location) (provenance : Value) (rust : Option Fields)
    (source release : Text) : Type 0 where
  pub present : (git w (str "cat-file" ∷ str "-e" ∷ commit_of source ∷ []) checkout).returncode ≡ 0
  pub ancestor :
      (git w (str "merge-base" ∷ str "--is-ancestor" ∷ source ∷ release ∷ []) checkout).returncode
      ≡ 0
  pub compared :
      (git w
        (str "diff" ∷ str "--name-only" ∷ source ∷ release ∷ str "--" ∷ [])
        checkout).returncode
      ≡ 0
  pub only_evidence :
      All
        (λ path. contains (allowed_changes rust) path ≡ true)
        (split_lines
          (git w
            (str "diff" ∷ str "--name-only" ∷ source ∷ release ∷ str "--" ∷ [])
            checkout).stdout)
  pub observed : IsObservedBuild provenance
  pub lock_digest : Text
  pub recorded : get_in provenance (str "cargo_lock_sha256") ≡ text lock_digest
  pub full : is_digest lock_digest ≡ true
  pub lock_bytes : (lock_file w checkout (cargo_root rust)).1 ≡ some lock_digest
  pub lock_kept :
      (git w
        (str "diff"
          ∷ str "--quiet"
          ∷ source
          ∷ release
          ∷ str "--"
          ∷ (lock_file w checkout (cargo_root rust)).0
          ∷ [])
        checkout).returncode
      ≡ 0

check_build-IsBuilt :
    (w : World) (repository : Text) (checkout : Location) (provenance : Value)
    (rust : Option Fields) (source release name : Text)
    → check_build w repository checkout provenance rust source release name ≡ []
    → IsBuilt w checkout provenance rust source release
unfolding check_build
check_build-IsBuilt w repository checkout provenance rust source release name h =
    let lock = lock_file w checkout (cargo_root rust) in
    let change : List Text = str "diff" ∷ str "--name-only" ∷ source ∷ release ∷ str "--" ∷ [] in
    let recorded = get_in provenance (str "cargo_lock_sha256") in
    let (digest, e, full, bytes) = is_option-some recorded lock.1 is_digest (ground (arith, h)) in
    record {
      present = (succeeds_iff w _ checkout).0 (ground (arith, h));
      ancestor = (succeeds_iff w _ checkout).0 (ground (arith, h));
      compared = (succeeds_iff w _ checkout).0 (ground (arith, h));
      only_evidence =
          (all_iff (contains (allowed_changes rust)) (split_lines (git w change checkout).stdout)).0
            (ground (arith, h));
      observed = is_observed_build-IsObservedBuild provenance (ground (arith, h));
      lock_digest = digest;
      recorded = e;
      full = full;
      lock_bytes = bytes;
      lock_kept = (succeeds_iff w _ checkout).0 (ground (arith, h));
    }

-- The commits of the build and of the release, and the facts between them.
pub record IsProvenance (w : World) (report record' : Fields) (checkout : Location) : Type 0 where
  pub rust : Option Fields
  pub source : Text
  pub release : Text
  pub provenance : Fields
  pub found : get report (str "rust_build") ≡ obj provenance
  pub source_field : get provenance (str "source_commit") ≡ text source
  pub source_full : is_revision source ≡ true
  pub release_field : get_in (get record' (str "consumer_release")) (str "commit") ≡ text release
  pub release_full : is_revision release ≡ true
  pub status : expected_rust record' ≡ returns rust
  pub built : IsBuilt w checkout (obj provenance) rust source release

build_commits_lem :
    (record' : Fields) (v : Value) (source release : Text)
    → build_commits record' v ≡ some (source, release)
    → (d : Fields) × (v ≡ obj d)
      × (checked is_revision (get d (str "source_commit")) ≡ some source)
      × (checked is_revision (get_in (get record' (str "consumer_release")) (str "commit"))
          ≡ some release)
unfolding build_commits
build_commits_lem record' v source release h = elim (Option-cases (as_dict v)) [
  | inl e ↦ absurd (ground (arith, h, e))
  | inr (d, e) ↦ (d, (as_dict_iff v d).0 e, ground (arith, h, e), ground (arith, h, e))
]

-- A clean check of the provenance shows a build from a full commit that is present and an ancestor of
-- the tagged release commit, between which only reports and artifacts of the evidence changed. The
-- recorded command is a locked release build whose exit code equals 0, and the recorded digest of Cargo.lock
-- is that of the checkout's file, which did not change either.
pub check_rust_build_provenance-IsProvenance :
    (w : World) (report record' : Fields) (checkout : Location) (name : Text)
    → check_rust_build_provenance w report record' checkout name ≡ returns []
    → IsProvenance w report record' checkout
unfolding check_rust_build_provenance
check_rust_build_provenance-IsProvenance w report record' checkout name h =
    elim (Option-cases (build_commits record' (get report (str "rust_build")))) [
      | inl e ↦ absurd (ground (arith, h, e))
      | inr ((source, release), e) ↦ elim (Check-cases (expected_rust record')) [
        | inr (x, f) ↦ absurd (ground (arith, h, e, f))
        | inl (rust, f) ↦
            let (d, found, s, r) =
              build_commits_lem record' (get report (str "rust_build")) source release e in
            let (source_field, source_full) =
              (checked_iff is_revision (get d (str "source_commit")) source).0 s in
            let (release_field, release_full) =
              (checked_iff is_revision
                  (get_in (get record' (str "consumer_release")) (str "commit")) release).0
                r in
            let clean =
              check_build-IsBuilt w (repository_of record') checkout (get report (str "rust_build"))
                rust source release name (ground (arith, h, e, f)) in
            record {
              rust = rust;
              source = source;
              release = release;
              provenance = d;
              found = found;
              source_field = source_field;
              source_full = source_full;
              release_field = release_field;
              release_full = release_full;
              status = f;
              built = subst (λ v. IsBuilt w checkout v rust source release) found clean;
            }
      ]
    ]
