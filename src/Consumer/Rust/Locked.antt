-- ===== src/Consumer/Rust/Locked.antt =====
-- What the lock file of a clean Rust check resolves the package to (`_check_rust` of
-- port/consumer/verify.py).
use symaira_corekit.Base.{
  ◌≡◌, refl, subst, true, false, List, [], ◌∷◌, arith, Text, str, append-eq-nil, flat_map, select,
}
use symaira_corekit.Consumer.Findings.{add, need}
use symaira_corekit.Consumer.Manifests.{Pin, has_key, recorded_version}
use symaira_corekit.Consumer.Registry.Laws.{IsReadback, check_registry_readback_iff}
use symaira_corekit.Consumer.Rust.{
  check_match, check_matching, check_packages, check_resolved, check_source_of, chosen,
  expected_lock_source, from_source,
}
use symaira_corekit.Consumer.World.{World, git}
use symaira_corekit.Json.{Fields, Value, get, get_in, text, value_eq}
use symaira_corekit.Json.Laws.{is_str_iff}

-- The only record of the package from the expected source.
pub record IsLocked (w : World) (rust registry : Fields) (items : List Value) : Type 0 where
  pub item : Value
  pub unique : select (from_source (expected_lock_source w rust)) items ≡ item ∷ []
  pub source : get_in item (str "source") ≡ text (expected_lock_source w rust)
  pub resolved : value_eq (get_in item (str "version")) (recorded_version rust) ≡ true
  pub from_git : get rust (str "status") ≡ text (str "git") → has_key item (str "checksum") ≡ false
  pub from_registry :
      get rust (str "status") ≡ text (str "registry")
      → IsReadback w registry (get_in item (str "version")) (get_in item (str "checksum"))

match_lem :
    (w : World) (repository : Text) (rust registry : Fields) (pins : List Pin) (item : Value)
    → check_match w repository rust registry pins item ≡ []
    → (value_eq (get_in item (str "version")) (recorded_version rust) ≡ true)
      × (get rust (str "status") ≡ text (str "registry")
          → IsReadback w registry (get_in item (str "version")) (get_in item (str "checksum")))
unfolding check_match
match_lem w repository rust registry pins item h =
    let resolved = get_in item (str "version") in
    let (same, rest) =
      (append-eq-nil
          (need (value_eq resolved (recorded_version rust))
            (add repository (str "rust.lock.version")))
          _).0
        h in
    let (_, readback) =
      (append-eq-nil (flat_map (check_resolved repository resolved) pins) _).0 rest in
    (
      ground (arith, same),
      λ registered.
          let status = (is_str_iff (get rust (str "status")) (str "registry")).1 registered in
          (check_registry_readback_iff w repository registry resolved
              (get_in item (str "checksum"))).0
            (ground (arith, readback, status)),
    )

matching_lem :
    (w : World) (repository : Text) (rust registry : Fields) (pins : List Pin) (items : List Value)
    → check_matching w repository rust registry pins items ≡ []
    → (item : Value) × (items ≡ item ∷ []) × (check_match w repository rust registry pins item ≡ [])
unfolding check_matching
matching_lem w repository rust registry pins [] h = absurd (ground (arith, h))
matching_lem w repository rust registry pins (item ∷ []) h = (item, refl, h)
matching_lem w repository rust registry pins (item ∷ other ∷ rest) h = absurd (ground (arith, h))

chosen_lem :
    (items : List Value) (item fallback : Value) → items ≡ item ∷ [] → chosen items fallback ≡ item
unfolding chosen
chosen_lem items item fallback h = rw h refl

source_of_lem :
    (repository : Text) (rust : Fields) (source : Text) (item : Value)
    → check_source_of repository rust source item ≡ []
    → (get_in item (str "source") ≡ text source)
      × (get rust (str "status") ≡ text (str "git") → has_key item (str "checksum") ≡ false)
unfolding check_source_of from_source
source_of_lem repository rust source item h =
    let status = is_str_iff (get rust (str "status")) (str "git") in
    (
      (is_str_iff (get_in item (str "source")) source).0 (ground (arith, h)),
      λ git. let s = status.1 git in ground (arith, h, s),
    )

pub check_packages-IsLocked :
    (w : World) (repository : Text) (rust registry : Fields) (pins : List Pin) (items : List Value)
    → check_packages w repository rust registry pins items ≡ []
    → IsLocked w rust registry items
unfolding check_packages
check_packages-IsLocked w repository rust registry pins [] h = absurd (ground (arith, h))
check_packages-IsLocked w repository rust registry pins (item ∷ rest) h =
    let source = expected_lock_source w rust in
    let matching = select (from_source source) (item ∷ rest) in
    let (p, q) =
      (append-eq-nil (check_source_of repository rust source (chosen matching item))
          (check_matching w repository rust registry pins matching)).0
        h in
    let (only, unique, clean) = matching_lem w repository rust registry pins matching q in
    let (found, git) = source_of_lem repository rust source only (
      subst (λ x. check_source_of repository rust source x ≡ [])
        (chosen_lem matching only item unique) p) in
    let (resolved, readback) = match_lem w repository rust registry pins only clean in
    record {
      item = only;
      unique = unique;
      source = found;
      resolved = resolved;
      from_git = git;
      from_registry = readback;
    }
