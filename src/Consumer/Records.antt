-- ===== src/Consumer/Records.antt =====
-- The loop over the records in `verify_manifest` of port/consumer/verify.py.
pub mod Laws
use symaira_corekit.Base.{
  Bool, not, ◌&&◌, Option, none, some, List, [], ◌∷◌, ◌++◌, Text, str, contains, if◌then◌else◌,
  nat_eq, list_eq, option_eq,
}
use symaira_corekit.Base.Strings.{split_on}
use symaira_corekit.Consumer.Evidence.{check_evidence}
use symaira_corekit.Consumer.Findings.{Check, Report, add, need, returns, ◌then_check◌}
use symaira_corekit.Consumer.Go.{check_go}
use symaira_corekit.Consumer.Paths.{last_part, path_parts, safe_child}
use symaira_corekit.Consumer.Release.{check_consumer_release}
use symaira_corekit.Consumer.Rust.{check_rust}
use symaira_corekit.Consumer.Snapshot.{check_checkout_snapshot, is_link}
use symaira_corekit.Consumer.Status.{validate_rust_status}
use symaira_corekit.Consumer.World.{Location, World}
use symaira_corekit.Json.{Fields, Value, as_dict, get, get_in, is_str, text}

-- The keyword arguments of `verify_manifest`; `root` is the repository of the program.
pub record Options : Type 0 where
  pub root : Location
  pub workspace_root : Option Location
  pub corekit_root : Option Location
  pub git_release_stage : Bool
  pub registry_release_stage : Bool

-- `repository.rsplit("/", 1)[1]`
unfoldable pub checkout_name : Text → Text
unfolding split_on last_part
checkout_name repository = last_part (split_on 47 repository)

-- A record of the manifest: its fields and its repository, if it has the shape.
unfoldable pub named_record : Value → Option (Text × Fields)
unfolding as_dict get str
named_record v = elim (as_dict v) [
  | none ↦ none
  | some record' ↦ elim (get record' (str "repo")) [
    | text repository ↦ if contains repository 47 then some (repository, record') else none
    | _ ↦ none
  ]
]

-- The stage's demand on the Rust entry.
unfoldable pub check_stage : Options → Text → Fields → Report
unfolding is_str get_in get str
check_stage o repository record' =
    let status = get_in (get record' (str "rust")) (str "status") in
    need (not (o.git_release_stage && not (is_str status (str "git"))))
      (add repository (str "stage.pin"))
    ++ need (not (o.registry_release_stage && not (is_str status (str "registry"))))
        (add repository (str "stage.pin"))

-- The five checks of a checkout.
unfoldable pub check_checkout : World → Location → Fields → Fields → Location → Check Report
unfolding check_checkout_snapshot check_consumer_release check_go check_rust check_evidence
    ◌then_check◌
check_checkout w corekit_root registry record' checkout =
    returns (check_checkout_snapshot w record' checkout)
    then_check returns (check_consumer_release w record' checkout)
    then_check check_go w record' checkout
    then_check check_rust w record' checkout corekit_root registry
    then_check check_evidence w record' checkout

-- The checkout that the workspace has for the name, and its checks.
unfoldable pub check_selected : World → Location → Location → Fields → Text → Fields → Check Report
unfolding checkout_name is_link path_parts safe_child check_checkout str
check_selected w workspace_root corekit_root registry repository record' =
    let name = checkout_name repository in
    if is_link w (workspace_root ++ path_parts name)
    then returns (add repository (str "checkout.path"))
    else elim (safe_child w workspace_root (text name)) [
      | none ↦ returns (add repository (str "checkout.path"))
      | some checkout ↦
          if w.is_dir checkout
          then check_checkout w corekit_root registry record' checkout
          else returns (add repository (str "checkout.missing"))
    ]

-- The body of the loop for a repository that is new.
unfoldable pub check_record :
    World → Options → Location → Location → Fields → Text → Fields → Check Report
unfolding validate_rust_status check_stage check_selected ◌then_check◌
check_record w o workspace_root corekit_root registry repository record' =
    validate_rust_status record'
    then_check returns (check_stage o repository record')
    then_check check_selected w workspace_root corekit_root registry repository record'

-- The loop, with the set `repositories`.
unfoldable pub check_records :
    World → Options → Location → Location → Fields → List Text → List Value → Check Report
unfolding named_record check_record ◌then_check◌
check_records w o workspace_root corekit_root registry repositories [] = returns []
check_records w o workspace_root corekit_root registry repositories (v ∷ vs) =
    elim (named_record v) [
      | none ↦
          returns (add (str "unknown") (str "record.shape"))
          then_check check_records w o workspace_root corekit_root registry repositories vs
      | some (repository, record') ↦
          if contains repositories repository
          then returns (add repository (str "record.duplicate"))
            then_check check_records w o workspace_root corekit_root registry repositories vs
          else check_record w o workspace_root corekit_root registry repository record'
            then_check check_records w o workspace_root corekit_root registry
                (repository ∷ repositories) vs
    ]

-- What the loop leaves in `repositories`.
unfoldable pub checked_repositories : List Text → List Value → List Text
unfolding named_record
checked_repositories repositories [] = repositories
checked_repositories repositories (v ∷ vs) = elim (named_record v) [
  | none ↦ checked_repositories repositories vs
  | some (repository, record') ↦
      if contains repositories repository
      then checked_repositories repositories vs
      else checked_repositories (repository ∷ repositories) vs
]
