-- ===== src/Consumer/Status.antt =====
-- `_expected_rust`, `_validate_rust_status`, `_cargo_version` and `_exact_cargo_version` of
-- port/consumer/verify.py.
pub mod Laws
use symaira_corekit.Base.{
  Bool, true, false, not, ◌==◌, nat_eq, ◌||◌, [], ◌∷◌, Option, none, some, Text, str, if◌then◌else◌,
}
use symaira_corekit.Json.{Value, Fields, get, has, is_str, as_dict, text, obj, arr, get_in}
use symaira_corekit.Consumer.Findings.{Report, add, Check, returns, raises, type_error}
use symaira_corekit.Consumer.Patterns.{is_semver}
use symaira_corekit.Consumer.Release.{repository_of}

-- The hash of a list or of a dict, which a lookup in a set asks for, is an error.
unfoldable pub is_hashable : Value → Bool
is_hashable (arr l) = false
is_hashable (obj d) = false
is_hashable v = true

-- The record's Rust entry, if its status is "git" or "registry".
unfoldable pub expected_rust : Fields → Check (Option Fields)
unfolding is_hashable
expected_rust record' = elim (as_dict (get record' (str "rust"))) [
  | none ↦ returns none
  | some rust ↦
      let status = get rust (str "status") in
      if not (is_hashable status)
      then raises type_error
      else returns
          (if is_str status (str "git") || is_str status (str "registry") then some rust else none)
]

-- `status in RUST_STATUSES`
unfoldable pub is_rust_status : Value → Bool
is_rust_status status =
    is_str status (str "not_adopted") || is_str status (str "git") || is_str status (str "registry")

unfoldable pub validate_rust_status : Fields → Check Report
unfolding is_hashable is_rust_status
validate_rust_status record' =
    let finding = add (repository_of record') (str "rust.status") in
    if not (has record' (str "rust"))
    then returns finding
    else elim (as_dict (get record' (str "rust"))) [
      | none ↦ returns finding
      | some rust ↦
          let status = get rust (str "status") in
          if not (is_hashable status)
          then raises type_error
          else returns (if is_rust_status status then [] else finding)
    ]

-- `_cargo_version`
unfoldable pub cargo_version : Value → Option Text
cargo_version (text t) = some t
cargo_version v = elim (get_in v (str "version")) [ text t ↦ some t | _ ↦ none ]

-- `_exact_cargo_version`: an equals sign before a semantic version. The dot of `EXACT_CARGO_RE` takes no
-- line feed, nor does `SEMVER_RE`.
unfoldable pub exact_cargo_version : Value → Option Text
unfolding is_semver
exact_cargo_version (text (c ∷ t)) =
    if c == 61 then (if is_semver t then some t else none) else none
exact_cargo_version v = none
