-- ===== src/Consumer/Manifests.antt =====
-- The manifests and the pins of `_check_rust` of port/consumer/verify.py.
pub mod Laws
use symaira_corekit.Base.{
  Bool, true, false, not, ◌&&◌, ◌||◌, Option, none, some, List, [], ◌∷◌, ◌++◌, Text, str,
  if◌then◌else◌, ◌==◌, nat_eq, list_eq, option_eq, bool_eq, pair_eq,
}
use symaira_corekit.Consumer.Cargo.{cargo_specs, toml}
use symaira_corekit.Consumer.Findings.{
  Check, Report, add, need, os_error, raises, returns, value_error,
}
use symaira_corekit.Consumer.Paths.{failed, path_name, safe, safe_non_symlink_child, unsafe}
use symaira_corekit.Consumer.Provenance.{cargo_root}
use symaira_corekit.Consumer.Registry.{corekit_package}
use symaira_corekit.Consumer.Release.{is_null}
use symaira_corekit.Consumer.Status.{cargo_version, exact_cargo_version}
use symaira_corekit.Consumer.World.{Location, World, contents, undecodable, unreadable}
use symaira_corekit.Json.{
  Fields, Value, as_dict, bool, get, get_in, has, is_str, obj, text, value_eq,
}

-- `path.relative_to(root)`; `none` is its ValueError.
unfoldable pub relative_to : Location → Location → Option Location
relative_to path [] = some path
relative_to [] (r ∷ root) = none
relative_to (p ∷ path) (r ∷ root) =
    let rest = relative_to path root in if p == r then rest else none

-- `spec.get("workspace") is True`
unfoldable pub inherits : Value → Bool
unfolding get_in str
inherits spec = elim (get_in spec (str "workspace")) [ bool b ↦ b | _ ↦ false ]

-- What the workspace declares for a dependency, where it does.
unfoldable pub workspace_spec : Fields → Text → Value → Value
unfolding get_in has as_dict str
workspace_spec document dependency spec =
    elim (as_dict (get_in (get document (str "workspace")) (str "dependencies"))) [
      | none ↦ spec
      | some d ↦ if has d dependency then get d dependency else spec
    ]

-- The spec that counts. A workspace manifest that is no UTF-8 raises a ValueError.
unfoldable pub resolve_spec : World → Location → Text → Value → Check Value
unfolding inherits workspace_spec toml
resolve_spec w cargo_root dependency spec =
    let manifest : Location = cargo_root ++ str "Cargo.toml" ∷ [] in
    if not (inherits spec && w.is_file manifest)
    then returns spec
    else elim (w.read_text manifest) [
      | unreadable ↦ returns spec
      | undecodable ↦ raises value_error
      | contents t ↦ elim (toml w t) [
        | none ↦ returns spec
        | some document ↦ returns (workspace_spec document dependency spec)
      ]
    ]

-- A pin: the manifest and the spec.
abbrev pub Pin : Type 0
Pin = Location × Value

-- The pins of one manifest.
unfoldable pub pins_of : World → Location → Location → List (Text × Value) → Check (List Pin)
unfolding resolve_spec
pins_of w cargo_root path [] = returns []
pins_of w cargo_root path ((dependency, spec) ∷ specs) =
    let rest = pins_of w cargo_root path specs in
    elim (resolve_spec w cargo_root dependency spec) [
      | raises e ↦ raises e
      | returns resolved ↦ elim rest [
        | raises e ↦ raises e
        | returns pins ↦
            returns (if dependency == corekit_package then (path, resolved) ∷ pins else pins)
      ]
    ]

-- A version of the package itself that is not the recorded one.
unfoldable pub check_package : Text → Value → Fields → Report
unfolding is_null value_eq get_in str
check_package repository expected_version document =
    let crate = get document (str "package") in
    need
      (not (is_str (get_in crate (str "name")) corekit_package)
        || is_null expected_version
        || value_eq (get_in crate (str "version")) expected_version)
      (add repository (str "rust.version"))

-- The findings and the pins of one manifest path.
unfoldable pub read_manifest :
    World → Text → Location → Location → Value → Value → Check (Report × List Pin)
unfolding safe_non_symlink_child path_name toml cargo_specs pins_of check_package
read_manifest w repository checkout cargo_root expected_version (text relative) =
    if not (path_name relative == str "Cargo.toml")
    then returns (add repository (str "rust.manifest.path"), [])
    else elim (safe_non_symlink_child w checkout (text relative)) [
      | unsafe ↦ returns (add repository (str "rust.manifest.path"), [])
      | failed ↦ raises os_error
      | safe path ↦ elim (w.read_text path) [
        | unreadable ↦ returns (add repository (str "rust.manifest.read"), [])
        | undecodable ↦ returns (add repository (str "rust.manifest.read"), [])
        | contents t ↦ elim (toml w t) [
          | none ↦ returns (add repository (str "rust.manifest.read"), [])
          | some document ↦ elim (pins_of w cargo_root path (cargo_specs document)) [
            | raises e ↦ raises e
            | returns pins ↦ returns (check_package repository expected_version document, pins)
          ]
        ]
      ]
    ]
read_manifest w repository checkout cargo_root expected_version v =
    returns (add repository (str "rust.manifest.path"), [])

unfoldable pub read_manifests :
    World → Text → Location → Location → Value → List Value → Check (Report × List Pin)
unfolding read_manifest
read_manifests w repository checkout cargo_root expected_version [] = returns ([], [])
read_manifests w repository checkout cargo_root expected_version (v ∷ vs) =
    let rest = read_manifests w repository checkout cargo_root expected_version vs in
    elim (read_manifest w repository checkout cargo_root expected_version v) [
      | raises e ↦ raises e
      | returns (fs, pins) ↦ elim rest [
        | raises e ↦ raises e
        | returns (gs, more) ↦ returns (fs ++ gs, pins ++ more)
      ]
    ]

-- `_exact_cargo_version(_cargo_version(spec))`
unfoldable pub pin_version : Value → Option Text
unfolding cargo_version exact_cargo_version
pin_version spec = elim (cargo_version spec) [ none ↦ none | some t ↦ exact_cargo_version (text t) ]

-- `COREKIT_URL` and `CRATES_IO_SOURCE`
unfoldable pub corekit_url : Text
unfolding str
corekit_url = str "https://github.com/danieljustus/symaira-corekit"

unfoldable pub crates_io_source : Text
unfolding str
crates_io_source = str "registry+https://github.com/rust-lang/crates.io-index"

unfoldable pub is_git_pin : Value → Value → Bool
unfolding corekit_url is_str value_eq as_dict str
is_git_pin revision spec = elim (as_dict spec) [
  | none ↦ false
  | some d ↦ is_str (get d (str "git")) corekit_url && value_eq (get d (str "rev")) revision
]

unfoldable pub has_key : Value → Text → Bool
unfolding has
has_key (obj d) k = has d k
has_key v k = false

-- The condition on a registry pin that is a table, negated.
unfoldable pub is_registry_pin : Value → Bool
unfolding has_key get_in is_null is_str str
is_registry_pin spec =
    not (has_key spec (str "git"))
    && not (has_key spec (str "path"))
    && (is_null (get_in spec (str "registry"))
        || is_str (get_in spec (str "registry")) (str "crates-io"))

-- `recorded_version`
unfoldable pub recorded_version : Fields → Value
unfolding is_str get str
recorded_version rust =
    if is_str (get rust (str "status")) (str "git")
    then get rust (str "version")
    else get rust (str "registry_version")

unfoldable pub check_exact : Text → Value → Value → Report
unfolding pin_version is_str
check_exact repository recorded spec = elim (pin_version spec) [
  | none ↦ add repository (str "rust.pin.exact")
  | some version ↦ need (is_str recorded version) (add repository (str "rust.pin.version"))
]

-- The tests of a pin by the kind of adoption.
unfoldable pub check_kind : Text → Fields → Value → Report
unfolding is_git_pin has_key is_registry_pin pin_version is_str get str
check_kind repository rust spec =
    if is_str (get rust (str "status")) (str "git")
    then need (is_git_pin (get rust (str "revision")) spec) (add repository (str "rust.pin.git"))
      ++ need (not (has_key spec (str "path"))) (add repository (str "rust.pin.path"))
    else need (is_registry_pin spec) (add repository (str "rust.pin.registry"))
      ++ elim (pin_version spec) [
        | none ↦ []
        | some version ↦
            need (is_str (get rust (str "registry_version")) version)
              (add repository (str "rust.pin.registry_version"))
      ]

-- A table or a text.
unfoldable pub is_spec : Value → Bool
is_spec (text t) = true
is_spec (obj d) = true
is_spec v = false

-- One pin. A manifest outside the checkout raises the ValueError of `relative_to`.
unfoldable pub check_spec : Text → Location → Fields → Pin → Check Report
unfolding relative_to is_spec check_exact check_kind recorded_version
check_spec repository checkout rust (path, spec) = elim (relative_to path checkout) [
  | none ↦ raises value_error
  | some relative ↦ returns (
      if not (is_spec spec)
      then add repository (str "rust.pin.shape")
      else check_exact repository (recorded_version rust) spec ++ check_kind repository rust spec)
]
