-- ===== src/Consumer/Rust.antt =====
-- The lock file of `_check_rust` of port/consumer/verify.py, and the check as a whole.
pub mod Locked
pub mod Laws
use symaira_corekit.Base.{
  ◌⊎◌, inl, inr, Bool, not, ◌&&◌, ◌||◌, none, some, List, [], ◌∷◌, ◌++◌, Text, str, flat_map,
  if◌then◌else◌, is_empty, select,
}
use symaira_corekit.Base.Strings.{join}
use symaira_corekit.Consumer.Cargo.{check_not_adopted_rust, toml}
use symaira_corekit.Consumer.Findings.{
  Check, Report, add, each, need, os_error, raises, returns, type_error, value_error, ◌then_check◌,
}
use symaira_corekit.Consumer.Manifests.{
  Pin, check_spec, corekit_url, crates_io_source, has_key, pin_version, read_manifests,
  recorded_version, relative_to,
}
use symaira_corekit.Consumer.Paths.{
  failed, regular_non_symlink, safe, safe_non_symlink_child, unsafe,
}
use symaira_corekit.Consumer.Patterns.{is_digest, is_semver}
use symaira_corekit.Consumer.Registry.{check_registry_readback, corekit_package}
use symaira_corekit.Consumer.Release.{check_release_ancestry, is_null, repository_of}
use symaira_corekit.Consumer.Status.{expected_rust}
use symaira_corekit.Consumer.World.{Location, World, contents, undecodable, unreadable}
use symaira_corekit.Json.{
  Fields, Value, arr, as_list, bool, get, get_in, has, int, is_str, neg, null, obj, text, text_that,
  to_list, value_eq,
}

-- Iteration over `lock.get("package", [])`: a dict gives its keys and a text its characters, which are no
-- dicts, and a number is a TypeError.
unfoldable pub locked_items : Fields → Check (List Value)
unfolding as_list get has str
locked_items lock =
    if not (has lock (str "package")) then returns [] else elim (get lock (str "package")) [
      | arr l ↦ returns (to_list l)
      | obj d ↦ returns []
      | text t ↦ returns []
      | null ↦ raises type_error
      | bool b ↦ raises type_error
      | int n ↦ raises type_error
      | neg n ↦ raises type_error
    ]

-- The records of CoreKit.
unfoldable pub packages : List Value → List Value
unfolding is_str get_in corekit_package str
packages items = select (λ item. is_str (get_in item (str "name")) corekit_package) items

-- The source that a lock file names for the adoption.
unfoldable pub expected_lock_source : World → Fields → Text
unfolding corekit_url crates_io_source is_str get str
expected_lock_source w rust =
    if is_str (get rust (str "status")) (str "git")
    then (let revision = w.format (get rust (str "revision")) in
        str "git+" ++ (corekit_url ++ (str "?rev=" ++ (revision ++ (str "#" ++ revision)))))
    else crates_io_source

unfoldable pub from_source : Text → Value → Bool
unfolding is_str get_in str
from_source source item = is_str (get_in item (str "source")) source

-- `matching[0] if matching else packages[0]`
unfoldable pub chosen : List Value → Value → Value
chosen [] fallback = fallback
chosen (m ∷ ms) fallback = m

-- The source and the checksum of the chosen record.
unfoldable pub check_source_of : Text → Fields → Text → Value → Report
unfolding from_source is_str get_in has_key text_that str
check_source_of repository rust source item =
    if is_str (get rust (str "status")) (str "git")
    then need (from_source source item) (add repository (str "rust.lock.source"))
      ++ need (not (has_key item (str "checksum"))) (add repository (str "rust.lock.checksum"))
    else need (from_source source item) (add repository (str "rust.lock.registry_source"))
      ++ need (text_that is_digest (get_in item (str "checksum")))
          (add repository (str "rust.lock.checksum"))

-- A manifest pin against the resolved version.
unfoldable pub check_resolved : Text → Value → Pin → Report
unfolding pin_version is_str
check_resolved repository resolved (path, spec) = elim (pin_version spec) [
  | none ↦ []
  | some version ↦ need (is_str resolved version) (add repository (str "rust.lock.version"))
]

-- The tests of the only matching record.
unfoldable pub check_match : World → Text → Fields → Fields → List Pin → Value → Report
unfolding check_resolved recorded_version check_registry_readback value_eq is_str get get_in str
check_match w repository rust registry pins item =
    let resolved = get_in item (str "version") in
    need (value_eq resolved (recorded_version rust)) (add repository (str "rust.lock.version"))
    ++ (flat_map (check_resolved repository resolved) pins
        ++ (if is_str (get rust (str "status")) (str "registry")
            then check_registry_readback w repository registry resolved
                (get_in item (str "checksum"))
            else []))

unfoldable pub check_matching : World → Text → Fields → Fields → List Pin → List Value → Report
unfolding check_match
check_matching w repository rust registry pins (item ∷ []) =
    check_match w repository rust registry pins item
check_matching w repository rust registry pins items = add repository (str "rust.lock.unique")

-- The registry entry of the adoption.
unfoldable pub check_published : Text → Fields → Report
unfolding is_str get get_in str
check_published repository rust =
    let published = is_str (get_in (get rust (str "registry")) (str "status")) (str "published") in
    need (not (is_str (get rust (str "status")) (str "registry")) || published)
      (add repository (str "registry.status"))
    ++ need (not (is_str (get rust (str "status")) (str "git") && published))
        (add repository (str "registry.mismatch"))

-- The records of a lock file that holds the package.
unfoldable pub check_packages : World → Text → Fields → Fields → List Pin → List Value → Report
unfolding expected_lock_source from_source chosen check_source_of check_matching
check_packages w repository rust registry pins [] = add repository (str "rust.lock.unique")
check_packages w repository rust registry pins (item ∷ rest) =
    let source = expected_lock_source w rust in
    let matching = select (from_source source) (item ∷ rest) in
    check_source_of repository rust source (chosen matching item)
    ++ check_matching w repository rust registry pins matching

-- The lock file: no finding at its name, or the early return with one.
unfoldable pub lock_items : World → Location → Location → Check (Text ⊎ List Value)
unfolding relative_to safe_non_symlink_child regular_non_symlink toml locked_items packages join str
lock_items w checkout workspace_root =
    elim (relative_to (workspace_root ++ str "Cargo.lock" ∷ []) checkout) [
      | none ↦ returns (inl (str "rust.lock.path"))
      | some relative ↦ elim (safe_non_symlink_child w checkout (text (join (str "/") relative))) [
        | unsafe ↦ returns (inl (str "rust.lock.path"))
        | failed ↦ raises os_error
        | safe path ↦
            if not (regular_non_symlink w path)
            then returns (inl (str "rust.lock.missing"))
            else elim (w.read_text path) [
              | unreadable ↦ returns (inl (str "rust.lock.invalid"))
              | undecodable ↦ raises value_error
              | contents t ↦ elim (toml w t) [
                | none ↦ returns (inl (str "rust.lock.invalid"))
                | some lock ↦ elim (locked_items lock) [
                  | raises e ↦ raises e
                  | returns items ↦ elim (packages items) [
                    | [] ↦ returns (inl (str "rust.lock.unique"))
                    | item ∷ rest ↦ returns (inr (item ∷ rest))
                  ]
                ]
              ]
            ]
      ]
    ]

-- The lock file, the ancestry and, after a complete read, the registry entry.
unfoldable pub check_lock :
    World → Text → Location → Location → Location → Fields → Fields → List Pin → Check Report
unfolding lock_items check_packages check_release_ancestry check_published
check_lock w repository checkout workspace_root corekit_root rust registry pins =
    let ancestry = check_release_ancestry w repository rust corekit_root in
    elim (lock_items w checkout workspace_root) [
      | raises e ↦ raises e
      | returns found ↦ returns (elim found [
        | inl code ↦ add repository code ++ ancestry
        | inr items ↦
            check_packages w repository rust registry pins items
            ++ (ancestry ++ check_published repository rust)
      ])
    ]

-- `cargo_root`; `inl` is the early return with its finding.
unfoldable pub find_cargo_root : World → Location → Fields → Check (Text ⊎ Location)
unfolding is_null get safe_non_symlink_child str
find_cargo_root w checkout rust =
    let value = get rust (str "cargo_root") in
    if is_null value
    then returns (inr checkout)
    else elim (safe_non_symlink_child w checkout value) [
      | unsafe ↦ returns (inl (str "rust.cargo_root"))
      | failed ↦ returns (inl (str "rust.cargo_root"))
      | safe path ↦
          if w.is_file (path ++ str "Cargo.toml" ∷ [])
          then returns (inr path)
          else returns (inl (str "rust.cargo_root"))
    ]

-- The pins and the lock file below the Cargo root.
unfoldable pub check_workspace :
    World → Text → Location → Location → Location → Fields → Fields → List Value → Check Report
unfolding read_manifests recorded_version check_spec each check_lock text_that is_semver
    ◌then_check◌
check_workspace w repository checkout workspace_root corekit_root rust registry paths =
    elim (read_manifests w repository checkout workspace_root (get rust (str "version")) paths) [
      | raises e ↦ raises e
      | returns (fs, pins) ↦
          returns (
            fs
            ++ (need (not (is_empty pins)) (add repository (str "rust.pin.missing"))
                ++ need (text_that is_semver (recorded_version rust))
                    (add repository (str "rust.version.shape"))))
          then_check each (check_spec repository checkout rust) pins
          then_check check_lock w repository checkout workspace_root corekit_root rust registry pins
    ]

-- A Rust entry with the status "git" or "registry".
unfoldable pub check_adopted : World → Text → Location → Location → Fields → Fields → Check Report
unfolding is_str get as_list corekit_package find_cargo_root check_workspace str
check_adopted w repository checkout corekit_root rust registry =
    if not (is_str (get rust (str "package")) corekit_package)
    then returns (add repository (str "rust.package"))
    else elim (as_list (get rust (str "manifest_paths"))) [
      | none ↦ returns (add repository (str "rust.manifests"))
      | some paths ↦
          if is_empty paths
          then returns (add repository (str "rust.manifests"))
          else elim (find_cargo_root w checkout rust) [
            | raises e ↦ raises e
            | returns found ↦ elim found [
              | inl code ↦ returns (add repository code)
              | inr workspace_root ↦
                  check_workspace w repository checkout workspace_root corekit_root rust registry
                    paths
            ]
          ]
    ]

-- The adoption, if the record names one.
unfoldable pub check_adoption : World → Fields → Location → Location → Fields → Check Report
unfolding expected_rust check_adopted
check_adoption w record' checkout corekit_root registry = elim (expected_rust record') [
  | raises e ↦ raises e
  | returns adopted ↦ elim adopted [
    | none ↦ returns []
    | some rust ↦ check_adopted w (repository_of record') checkout corekit_root rust registry
  ]
]

unfoldable pub check_rust : World → Fields → Location → Location → Fields → Check Report
unfolding is_str get_in get check_not_adopted_rust check_adoption ◌then_check◌ str
check_rust w record' checkout corekit_root registry =
    returns (
      if is_str (get_in (get record' (str "rust")) (str "status")) (str "not_adopted")
      then check_not_adopted_rust w (repository_of record') checkout
      else [])
    then_check check_adoption w record' checkout corekit_root registry
