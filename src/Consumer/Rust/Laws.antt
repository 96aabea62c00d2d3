-- ===== src/Consumer/Rust/Laws.antt =====
-- What a clean Rust check shows (`_check_rust` of port/consumer/verify.py).
use symaira_corekit.Base.{
  ◌≡◌, ap, ◌∙◌, ◌≢◌, inl, inr, true, false, not, none, some, List, [], ◌++◌, arith, Text, str, All,
  All-map, Bool-cases, Option-cases, append-eq-nil, is_empty, is_empty_iff,
}
use symaira_corekit.Consumer.Cargo.Laws.{IsAbsent, check_not_adopted_rust-IsAbsent}
use symaira_corekit.Consumer.Findings.{Report, add, each, need, returns, ◌then_check◌}
use symaira_corekit.Consumer.Findings.Laws.{
  Check-cases, each_iff, returns-injective, then_check-nil,
}
use symaira_corekit.Consumer.Manifests.{Pin, check_spec, read_manifests, recorded_version}
use symaira_corekit.Consumer.Manifests.Laws.{Gives, IsPin, check_spec-IsPin, read_manifests-Gives}
use symaira_corekit.Consumer.Patterns.{is_semver}
use symaira_corekit.Consumer.Registry.{corekit_package}
use symaira_corekit.Consumer.Release.{check_release_ancestry, repository_of}
use symaira_corekit.Consumer.Release.Ancestry.{IsAncestral, check_release_ancestry_iff}
use symaira_corekit.Consumer.Rust.{
  check_adopted, check_adoption, check_lock, check_packages, check_published, check_rust,
  check_workspace, find_cargo_root, lock_items,
}
use symaira_corekit.Consumer.Rust.Locked.{IsLocked, check_packages-IsLocked}
use symaira_corekit.Consumer.Status.{expected_rust, is_hashable, validate_rust_status}
use symaira_corekit.Consumer.Status.Laws.{validate_rust_status_iff}
use symaira_corekit.Consumer.World.{Location, World}
use symaira_corekit.Json.{Fields, Value, as_list, get, get_in, is_str, text, text_that}
use symaira_corekit.Json.Laws.{as_dict_iff, is_str_iff, text_that_iff}

-- An adoption that the manifests, the lock file and CoreKit's history agree on.
pub record IsAdopted (w : World) (repository : Text) (checkout corekit_root : Location)
    (rust registry : Fields) : Type 0 where
  pub package_field : get rust (str "package") ≡ text corekit_package
  pub paths : List Value
  pub workspace_root : Location
  pub pins : List Pin
  pub items : List Value
  pub listed : as_list (get rust (str "manifest_paths")) ≡ some paths
  pub some_path : paths ≢ []
  pub root : find_cargo_root w checkout rust ≡ returns (inr workspace_root)
  pub manifests : Gives w repository checkout workspace_root (get rust (str "version")) paths pins
  pub some_pin : pins ≢ []
  pub version : (t : Text) × (recorded_version rust ≡ text t) × (is_semver t ≡ true)
  pub pinned : All (IsPin checkout rust) pins
  pub lock : lock_items w checkout workspace_root ≡ returns (inr items)
  pub locked : IsLocked w rust registry items
  pub ancestral : IsAncestral w rust corekit_root
  pub published :
      get rust (str "status") ≡ text (str "registry")
      → get_in (get rust (str "registry")) (str "status") ≡ text (str "published")

published_lem :
    (repository : Text) (rust : Fields)
    → check_published repository rust ≡ []
    → get rust (str "status") ≡ text (str "registry")
    → get_in (get rust (str "registry")) (str "status") ≡ text (str "published")
unfolding check_published
published_lem repository rust h registered =
    let status = (is_str_iff (get rust (str "status")) (str "registry")).1 registered in
    (is_str_iff (get_in (get rust (str "registry")) (str "status")) (str "published")).0
      (ground (arith, h, status))

-- The lock file part.
abbrev Resolves : World → Text → Location → Location → Location → Fields → Fields → Type 0
Resolves w repository checkout workspace_root corekit_root rust registry =
    (items : List Value) × (lock_items w checkout workspace_root ≡ returns (inr items))
    × IsLocked w rust registry items
    × IsAncestral w rust corekit_root
    × (check_published repository rust ≡ [])

lock_lem :
    (w : World) (repository : Text) (checkout workspace_root corekit_root : Location)
    (rust registry : Fields) (pins : List Pin)
    → check_lock w repository checkout workspace_root corekit_root rust registry pins ≡ returns []
    → Resolves w repository checkout workspace_root corekit_root rust registry
unfolding check_lock
lock_lem w repository checkout workspace_root corekit_root rust registry pins h =
    elim (Check-cases (lock_items w checkout workspace_root)) [
      | inr (x, e) ↦ absurd (ground (arith, h, e))
      | inl (inl code, e) ↦ absurd (ground (arith, h, e))
      | inl (inr items, e) ↦
          let ancestry = check_release_ancestry w repository rust corekit_root in
          let clean : check_packages w repository rust registry pins items
                ++ (ancestry ++ check_published repository rust)
              ≡ [] =
            ground (arith, h, e) in
          let (p, rest) =
            (append-eq-nil (check_packages w repository rust registry pins items)
                (ancestry ++ check_published repository rust)).0
              clean in
          let (q, published) = (append-eq-nil ancestry (check_published repository rust)).0 rest in
          (
            items,
            e,
            check_packages-IsLocked w repository rust registry pins items p,
            (check_release_ancestry_iff w repository rust corekit_root).0 q,
            published,
          )
    ]

workspace_lem :
    (w : World) (repository : Text) (checkout workspace_root corekit_root : Location)
    (rust registry : Fields) (paths : List Value)
    → get rust (str "package") ≡ text corekit_package
    → as_list (get rust (str "manifest_paths")) ≡ some paths
    → paths ≢ []
    → find_cargo_root w checkout rust ≡ returns (inr workspace_root)
    → check_workspace w repository checkout workspace_root corekit_root rust registry paths
      ≡ returns []
    → IsAdopted w repository checkout corekit_root rust registry
unfolding check_workspace
workspace_lem w repository checkout workspace_root corekit_root rust registry paths name listed
      some_path root h =
    elim (Check-cases
      (read_manifests w repository checkout workspace_root (get rust (str "version")) paths)) [
        | inr (x, e) ↦ absurd (ground (arith, h, e))
        | inl ((fs, pins), e) ↦
            let shape : Report =
              need (not (is_empty pins)) (add repository (str "rust.pin.missing"))
              ++ need (text_that is_semver (recorded_version rust))
                  (add repository (str "rust.version.shape")) in
            let (front, lock_clean) =
              then_check-nil
                (returns (fs ++ shape) then_check each (check_spec repository checkout rust) pins)
                (check_lock w repository checkout workspace_root corekit_root rust registry pins)
                (ground (arith, h, e)) in
            let (first_part, pins_clean) =
              then_check-nil (returns (fs ++ shape))
                (each (check_spec repository checkout rust) pins) front in
            let (no_finding, shaped) =
              (append-eq-nil fs shape).0 (returns-injective (fs ++ shape) [] first_part) in
            let (items, lock, locked, ancestral, published) =
              lock_lem w repository checkout workspace_root corekit_root rust registry pins
                lock_clean in
            record {
              package_field = name;
              paths = paths;
              workspace_root = workspace_root;
              pins = pins;
              items = items;
              listed = listed;
              some_path = some_path;
              root = root;
              manifests =
                  read_manifests-Gives w repository checkout workspace_root
                    (get rust (str "version")) paths pins
                    (e ∙ ap (λ x. returns (x, pins)) no_finding);
              some_pin = λ k.
                  let none_left = (is_empty_iff pins).1 k in
                  absurd (ground (arith, shaped, none_left));
              version =
                  (text_that_iff is_semver (recorded_version rust)).0 (ground (arith, shaped));
              pinned =
                  All-map (check_spec-IsPin repository checkout rust) pins
                    ((each_iff (check_spec repository checkout rust) pins).0 pins_clean);
              lock = lock;
              locked = locked;
              ancestral = ancestral;
              published = published_lem repository rust published;
            }
      ]

adopted_lem :
    (w : World) (repository : Text) (checkout corekit_root : Location) (rust registry : Fields)
    → check_adopted w repository checkout corekit_root rust registry ≡ returns []
    → IsAdopted w repository checkout corekit_root rust registry
unfolding check_adopted
adopted_lem w repository checkout corekit_root rust registry h =
    elim (Bool-cases (is_str (get rust (str "package")) corekit_package)) [
      | inr n ↦ absurd (ground (arith, h, n))
      | inl n ↦ elim (Option-cases (as_list (get rust (str "manifest_paths")))) [
        | inl e ↦ absurd (ground (arith, h, n, e))
        | inr (paths, e) ↦ elim (Bool-cases (is_empty paths)) [
          | inl b ↦ absurd (ground (arith, h, n, e, b))
          | inr b ↦ elim (Check-cases (find_cargo_root w checkout rust)) [
            | inr (x, f) ↦ absurd (ground (arith, h, n, e, b, f))
            | inl (inl code, f) ↦ absurd (ground (arith, h, n, e, b, f))
            | inl (inr place, f) ↦
                workspace_lem w repository checkout place corekit_root rust registry paths
                  ((is_str_iff (get rust (str "package")) corekit_package).0 n) e
                  (λ k. let gone = (is_empty_iff paths).1 k in absurd (ground (arith, b, gone))) f
                  (ground (arith, h, n, e, b, f))
          ]
        ]
      ]
    ]

-- A valid status that is not "not_adopted" is one of the two adopted ones.
status_lem :
    (record' : Fields)
    → validate_rust_status record' ≡ returns []
    → is_str (get_in (get record' (str "rust")) (str "status")) (str "not_adopted") ≡ false
    → expected_rust record' ≡ returns none
    → ⊥
unfolding expected_rust is_hashable get_in
status_lem record' valid e f =
    let r = (validate_rust_status_iff record').0 valid in
    let d = (as_dict_iff _ r.rust).1 r.entry in
    let status = get r.rust (str "status") in
    let no = is_str_iff status (str "not_adopted") in
    let git = is_str_iff status (str "git") in
    let registered = is_str_iff status (str "registry") in
    let entry = r.entry in
    elim r.status [
      | inl s ↦ absurd (ground (arith, e, no.1 s, entry))
      | inr (inl s) ↦ absurd (ground (arith, f, d, git.1 s, s))
      | inr (inr s) ↦ absurd (ground (arith, f, d, registered.1 s, s))
    ]

-- The two kinds of consumer.
pub data RustCase (w : World) (record' : Fields) (checkout corekit_root : Location)
    (registry : Fields) : Type 0 where
  without :
      get_in (get record' (str "rust")) (str "status") ≡ text (str "not_adopted")
      → IsAbsent w checkout
      → RustCase w record' checkout corekit_root registry
  with_adoption :
      (rust : Fields)
      → expected_rust record' ≡ returns (some rust)
      → IsAdopted w (repository_of record') checkout corekit_root rust registry
      → RustCase w record' checkout corekit_root registry

-- A clean Rust check of a record with a valid status shows one of two things. The status is "not_adopted" and
-- no tracked manifest or lock file has the package. Or the crate is adopted: the declared manifests are
-- read and pin exactly the recorded semantic version from the recorded source, the lock file resolves
-- exactly one record from that source to the same version, for a registry with a read-back that agrees, and the
-- adopted revision descends from the release.
pub check_rust_cases :
    (w : World) (record' : Fields) (checkout corekit_root : Location) (registry : Fields)
    → validate_rust_status record' ≡ returns []
    → check_rust w record' checkout corekit_root registry ≡ returns []
    → RustCase w record' checkout corekit_root registry
unfolding check_rust check_adoption
check_rust_cases w record' checkout corekit_root registry valid h =
    let repository = repository_of record' in
    let v = get_in (get record' (str "rust")) (str "status") in
    let (front, back) =
      then_check-nil (returns _) (check_adoption w record' checkout corekit_root registry) h in
    elim (Bool-cases (is_str v (str "not_adopted"))) [
      | inl e ↦
          without ((is_str_iff v (str "not_adopted")).0 e)
            (check_not_adopted_rust-IsAbsent w repository checkout (ground (arith, front, e)))
      | inr e ↦ elim (Check-cases (expected_rust record')) [
        | inr (x, f) ↦ absurd (ground (arith, back, f))
        | inl (none, f) ↦ absurd (status_lem record' valid e f)
        | inl (some rust, f) ↦
            with_adoption rust f (
              adopted_lem w repository checkout corekit_root rust registry
                (ground (arith, back, f)))
      ]
    ]
