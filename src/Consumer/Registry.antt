-- ===== src/Consumer/Registry.antt =====
-- `_registry_readback` and `_check_registry_readback` of port/consumer/verify.py.
pub mod Laws
use symaira_corekit.Base.{
  Bool, true, false, not, ◌&&◌, ◌||◌, List, [], ◌∷◌, ◌++◌, Option, none, some, Text, str, ◌==◌,
  list_eq, nat_eq, all, any, is_empty, if◌then◌else◌,
}
use symaira_corekit.Base.Strings.{strip}
use symaira_corekit.Json.{
  Value, Fields, get, get_or, has, is_str, text, as_dict, as_list, text_that, value_eq,
  has_duplicates,
}
use symaira_corekit.Consumer.Findings.{Report, add, need}
use symaira_corekit.Consumer.Patterns.{is_digest, is_index_url}
use symaira_corekit.Consumer.World.{World}

-- `COREKIT_PACKAGE`
unfoldable pub corekit_package : Text
unfolding str
corekit_package = str "symaira-core-version"

unfoldable pub registry_readback : Fields → Option Fields
registry_readback registry =
    let nested = get_or registry (str "readback") (get registry (str "evidence")) in
    elim (as_dict nested) [
      | some d ↦ some d
      | none ↦
          if has registry (str "version")
            || has registry (str "owners")
            || has registry (str "checksum")
          then some registry
          else none
    ]

-- `isinstance(owner, str) and owner.strip()`
unfoldable pub is_filled : Value → Bool
unfolding strip
is_filled v = text_that (λ t. not (is_empty (strip t))) v

-- The negation of the condition on `owners`.
unfoldable pub good_owners : Value → Bool
unfolding is_filled
good_owners v = elim (as_list v) [
  | none ↦ false
  | some owners ↦ not (is_empty owners) && all is_filled owners && not (has_duplicates owners)
]

-- `len(set(s)) == 1`
unfoldable pub is_uniform : Text → Bool
is_uniform [] = false
is_uniform (c ∷ s) = all (λ d. d == c) s

-- The stable package endpoint.
unfoldable pub expected_source : World → Value → Text
expected_source w version =
    str "https://crates.io/api/v1/crates/" ++ corekit_package ++ str "/" ++ w.format version

-- The three checksum tests, of which the first that fails ends the function.
unfoldable pub check_checksums : Text → Value → Value → Value → Report
check_checksums repository checksum public_bytes lock_checksum =
    let values = checksum ∷ public_bytes ∷ lock_checksum ∷ [] in
    let finding = add repository (str "registry.checksum") in
    if not (all (text_that is_digest) values)
    then finding
    else if any (text_that is_uniform) values
    then finding
    else need (value_eq checksum lock_checksum && value_eq public_bytes checksum) finding

-- The body once a readback record is found.
unfoldable pub check_readback : World → Text → Fields → Value → Value → Report
unfolding expected_source good_owners check_checksums
check_readback w repository readback expected_version lock_checksum =
    need
      (is_str (get readback (str "package")) corekit_package
        && value_eq (get readback (str "version")) expected_version)
      (add repository (str "registry.identity"))
    ++ (need (good_owners (get readback (str "owners"))) (add repository (str "registry.owners"))
        ++ (need (text_that is_index_url (get readback (str "index")))
              (add repository (str "registry.index"))
            ++ (need
                  (is_str (get_or readback (str "source") (get readback (str "evidence_source")))
                    (expected_source w expected_version))
                  (add repository (str "registry.source"))
                ++ check_checksums repository (get readback (str "checksum"))
                    (get_or readback (str "public_bytes")
                      (get readback (str "public_bytes_sha256")))
                    lock_checksum)))

unfoldable pub check_registry_readback : World → Text → Fields → Value → Value → Report
unfolding registry_readback check_readback
check_registry_readback w repository registry expected_version lock_checksum =
    if not (is_str (get registry (str "status")) (str "released"))
    then add repository (str "registry.status")
    else elim (registry_readback registry) [
      | none ↦ add repository (str "registry.evidence")
      | some readback ↦ check_readback w repository readback expected_version lock_checksum
    ]
