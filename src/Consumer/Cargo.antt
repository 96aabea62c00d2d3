-- ===== src/Consumer/Cargo.antt =====
-- The Cargo manifests of port/consumer/verify.py: `_dependency_tables`, `cargo_specs`,
-- `_tracked_cargo_files`, `_cargo_manifest_contains_package`, `_cargo_lock_contains_package` and
-- `_check_not_adopted_rust`.
pub mod Laws
use symaira_corekit.Base.{
  Bool, false, not, ◌||◌, Option, none, some, List, [], ◌∷◌, ◌++◌, Text, str, any, flat_map,
  if◌then◌else◌, select, ◌==◌, nat_eq, list_eq, option_eq, bool_eq, pair_eq,
}
use symaira_corekit.Consumer.Findings.{Report, add, need}
use symaira_corekit.Consumer.Go.{guarded_text, ls_files}
use symaira_corekit.Consumer.Paths.{path_name}
use symaira_corekit.Consumer.Registry.{corekit_package}
use symaira_corekit.Consumer.World.{Location, World}
use symaira_corekit.Json.{
  Fields, Value, as_dict, as_list, end, entries, field, get, get_in, is_str, obj,
}

-- `tomllib.loads` gives a dict.
unfoldable pub toml : World → Text → Option Fields
unfolding as_dict
toml w t = elim (w.toml_loads t) [ none ↦ none | some v ↦ as_dict v ]

-- The table of a key, if it is one.
unfoldable pub table_at : Value → Text → List Fields
unfolding as_dict get_in
table_at v key = elim (as_dict (get_in v key)) [ none ↦ [] | some d ↦ d ∷ [] ]

-- The three dependency tables of a document or of a target.
unfoldable pub tables_of : Value → List Fields
unfolding table_at str
tables_of v =
    table_at v (str "dependencies")
    ++ (table_at v (str "dev-dependencies") ++ table_at v (str "build-dependencies"))

-- The values of a dict.
unfoldable pub values : Fields → List Value
values end = []
values (field k v d) = v ∷ values d

-- `_dependency_tables`
unfoldable pub dependency_tables : Fields → List Fields
unfolding tables_of values table_at str
dependency_tables document =
    tables_of (obj document)
    ++ (flat_map (λ target. flat_map tables_of (values target))
          (table_at (obj document) (str "target"))
        ++ flat_map (λ workspace. table_at (obj workspace) (str "dependencies"))
            (table_at (obj document) (str "workspace")))

-- `cargo_specs` of a decoded manifest.
unfoldable pub cargo_specs : Fields → List (Text × Value)
unfolding dependency_tables entries
cargo_specs document = flat_map entries (dependency_tables document)

-- `_tracked_cargo_files`; `none` is its False.
unfoldable pub tracked_cargo_files : World → Location → Option (List Text)
unfolding ls_files path_name str
tracked_cargo_files w checkout = elim (ls_files w checkout []) [
  | none ↦ none
  | some paths ↦
      some (select (λ t. path_name t == str "Cargo.toml" || path_name t == str "Cargo.lock") paths)
]

-- A dependency is the package, by its key or by its renamed package.
unfoldable pub names_package : Text → Text × Value → Bool
unfolding is_str get_in str
names_package crate (dependency, spec) =
    dependency == crate || is_str (get_in spec (str "package")) crate

-- `_cargo_manifest_contains_package`
unfoldable pub cargo_manifest_contains_package : Fields → Text → Bool
unfolding cargo_specs names_package
cargo_manifest_contains_package document crate = any (names_package crate) (cargo_specs document)

-- `_cargo_lock_contains_package`
unfoldable pub cargo_lock_contains_package : Fields → Text → Bool
unfolding as_list is_str get_in str
cargo_lock_contains_package document crate = elim (as_list (get document (str "package"))) [
  | none ↦ false
  | some packages ↦ any (λ item. is_str (get_in item (str "name")) crate) packages
]

-- The package stands in a tracked manifest or lock file.
unfoldable pub contains_package : Text → Fields → Bool
unfolding path_name cargo_manifest_contains_package cargo_lock_contains_package str
contains_package relative document =
    if path_name relative == str "Cargo.lock"
    then cargo_lock_contains_package document corekit_package
    else cargo_manifest_contains_package document corekit_package

-- The decoded document of a tracked file that the guard lets pass.
unfoldable pub tracked_document : World → Location → Text → Option Fields
unfolding guarded_text toml
tracked_document w checkout relative = elim (guarded_text w checkout relative) [
  | none ↦ none
  | some t ↦ toml w t
]

unfoldable pub check_cargo_file : World → Text → Location → Text → Report
unfolding tracked_document contains_package
check_cargo_file w repository checkout relative = elim (tracked_document w checkout relative) [
  | none ↦ add repository (str "rust.manifest.read")
  | some document ↦
      need (not (contains_package relative document))
        (add repository (str "rust.not_adopted.present"))
]

unfoldable pub check_not_adopted_rust : World → Text → Location → Report
unfolding tracked_cargo_files check_cargo_file
check_not_adopted_rust w repository checkout = elim (tracked_cargo_files w checkout) [
  | none ↦ add repository (str "rust.manifests.unavailable")
  | some paths ↦ flat_map (check_cargo_file w repository checkout) paths
]
