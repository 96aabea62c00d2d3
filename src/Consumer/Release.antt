-- ===== src/Consumer/Release.antt =====
-- `_check_consumer_release` and `_check_release_ancestry` of port/consumer/verify.py.
pub mod Laws
pub mod Ancestry
use symaira_corekit.Base.{
  Bool, true, false, not, ◌&&◌, ◌||◌, List, [], ◌∷◌, ◌++◌, Option, none, some, Text, str, ◌==◌,
  list_eq, nat_eq, if◌then◌else◌,
}
use symaira_corekit.Json.{Value, null, text, Fields, get, is_str, as_dict}
use symaira_corekit.Consumer.Findings.{Report, add, need}
use symaira_corekit.Consumer.Patterns.{is_revision, is_release_tag}
use symaira_corekit.Consumer.World.{World, Location, succeeds, prints, tag_commit, commit_of}

-- A text that passes the test: `isinstance(v, str) and RE.fullmatch(v)`, with the text.
unfoldable pub checked : (Text → Bool) → Value → Option Text
checked p (text t) = if p t then some t else none
checked p _ = none

-- `str(record.get("repo", "unknown"))`, for the records with a text that `verify_manifest` lets pass.
unfoldable pub repository_of : Fields → Text
repository_of record' = elim (get record' (str "repo")) [ text t ↦ t | _ ↦ str "unknown" ]

-- The tag and the commit of a release entry, if both have their shape.
unfoldable pub release_pair : Fields → Option (Text × Text)
unfolding checked
release_pair release = elim (checked is_release_tag (get release (str "tag"))) [
  | none ↦ none
  | some tag ↦ elim (checked is_revision (get release (str "commit"))) [
    | none ↦ none
    | some commit ↦ some (tag, commit)
  ]
]

unfoldable pub check_consumer_release : World → Fields → Location → Report
unfolding release_pair
check_consumer_release w record' checkout =
    let repository = repository_of record' in
    elim (as_dict (get record' (str "consumer_release"))) [
      | none ↦ add repository (str "consumer.release.missing")
      | some release ↦ elim (release_pair release) [
        | none ↦ add repository (str "consumer.release.shape")
        | some (tag, commit) ↦
            need (prints w (str "rev-parse" ∷ str "--verify" ∷ tag_commit tag ∷ []) checkout commit)
              (add repository (str "consumer.release.tag"))
            ++ need (is_str (get record' (str "checkout_commit")) commit)
                (add repository (str "consumer.release.snapshot"))
      ]
    ]

-- The tag is there, and leads to the commit.
unfoldable pub check_tag : World → Text → Location → Text → Text → Report
check_tag w repository root tag commit =
    let finding = add repository (str "release.tag") in
    if not (succeeds w (str "show-ref" ∷ str "--verify" ∷ (str "refs/tags/" ++ tag) ∷ []) root)
    then finding
    else need (prints w (str "rev-parse" ∷ tag_commit tag ∷ []) root commit) finding

-- `v is None`
unfoldable pub is_null : Value → Bool
is_null null = true
is_null _ = false

-- The revision that adopts the release.
unfoldable pub candidate : Fields → Value
unfolding is_null
candidate rust =
    if is_str (get rust (str "status")) (str "git")
    then get rust (str "revision")
    else let named = get rust (str "release_candidate") in
      if is_null named then get rust (str "revision") else named

-- The checks of a revision that is recorded.
unfoldable pub check_revision : World → Text → Location → Text → Value → Report
unfolding checked
check_revision w repository root commit v =
    let finding = add repository (str "rust.revision") in
    elim (checked is_revision v) [
      | none ↦ finding
      | some revision ↦
          if not (succeeds w (str "cat-file" ∷ str "-e" ∷ commit_of revision ∷ []) root)
          then finding
          else need
              (succeeds w (str "merge-base" ∷ str "--is-ancestor" ∷ commit ∷ revision ∷ []) root)
              (add repository (str "release.ancestry"))
    ]

unfoldable pub check_candidate : World → Text → Fields → Location → Text → Report
unfolding candidate check_revision is_null
check_candidate w repository rust root commit =
    if is_null (candidate rust)
    then need (not (is_str (get rust (str "status")) (str "git")))
        (add repository (str "rust.revision"))
    else check_revision w repository root commit (candidate rust)

unfoldable pub check_release_ancestry : World → Text → Fields → Location → Report
unfolding release_pair check_tag check_candidate
check_release_ancestry w repository rust root = elim (as_dict (get rust (str "release"))) [
  | none ↦ add repository (str "release.missing")
  | some release ↦
      need (is_str (get rust (str "release_source")) (str "corekit"))
        (add repository (str "release.namespace"))
      ++ elim (release_pair release) [
        | none ↦ add repository (str "release.shape")
        | some (tag, commit) ↦
            check_tag w repository root tag commit ++ check_candidate w repository rust root commit
      ]
]
