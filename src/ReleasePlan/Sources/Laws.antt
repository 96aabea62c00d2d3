-- ===== src/ReleasePlan/Sources/Laws.antt =====
-- What accepted sources of a release are (port/release/verify.py).
use symaira_corekit.Base.{
  ◌≡◌, refl, sym, ap, ◌∙◌, subst, ◌⊎◌, inl, inr, true, false, not, Option, some, List, [], ◌∷◌,
  arith, Text, str, All, All-map, Bool-cases, Option-cases, all, any, contains, is_empty,
  is_empty_iff, list_beq_iff, ◌==◌, nat_eq, list_eq, option_eq, bool_eq, pair_eq,
}
use symaira_corekit.Base.Strings.{split_lines, strip}
use symaira_corekit.Base.Verdict.{
  Verdict, accepts, and_then-accepts, require, require-accepts, ◌and_then◌,
}
use symaira_corekit.Consumer.Paths.{is_prefix}
use symaira_corekit.Consumer.World.{Location}
use symaira_corekit.Json.{
  Fields, Value, arr, bool, get, get_in, get_or, int, neg, null, obj, text, value_eq,
}
use symaira_corekit.ReleasePlan.{Plan, crate_names}
use symaira_corekit.ReleasePlan.Sources.{
  Machine, check_checkout_head, check_declared, check_member, check_place, check_selected,
  check_source_revision, check_tags, commit_exists, every, is_rust_tag, named_packages, output_of,
  package_of, safe_repository_path, same_names, validate_clean_source, validate_git_provenance,
  validate_workspace,
}

pub every-All :
    {A : Type 0} (f : A → Verdict Unit) (xs : List A) (u : Unit)
    → every f xs ≡ accepts u
    → All (λ x. f x ≡ accepts tt) xs
unfolding every
every-All f [] u h = tt
every-All f (x ∷ xs) u h =
    let (tt, e, k) = and_then-accepts (f x) (λ done. every f xs) u h in (e, every-All f xs u k)

-- The Cargo package of a crate.
pub record IsMember (m : Machine) (packages : List (Text × Fields)) (c : Text × Fields)
    : Type 0 where
  pub member : Fields
  pub path : Location
  pub manifest_path : Text
  pub found : package_of packages c.0 ≡ some member
  pub safe_path : safe_repository_path m (get c.1 (str "manifest")) ≡ accepts path
  pub inside : is_prefix (m.resolve m.root) (m.resolve path) ≡ true
  pub same_path : get_or member (str "manifest_path") (text []) ≡ text manifest_path
  pub same_place : m.absolute manifest_path ≡ m.resolve path
  pub same_version : value_eq (get member (str "version")) (get c.1 (str "version")) ≡ true
  pub is_there : m.is_file (m.resolve path) ≡ true

declared_lem :
    (m : Machine) (crate member : Fields) (expected : Location)
    → check_declared m crate member expected ≡ true
    → (value_eq (get member (str "version")) (get crate (str "version")) ≡ true)
      × (m.is_file expected ≡ true)
unfolding check_declared
declared_lem m crate member expected h = (ground (arith, h), ground (arith, h))

place_lem :
    (m : Machine) (crate member : Fields) (path : Location) (v : Value) (u : Unit)
    → check_place m crate member path v ≡ accepts u
    → (t : Text) × (v ≡ text t)
      × (m.absolute t ≡ m.resolve path)
      × (check_declared m crate member (m.resolve path) ≡ true)
unfolding check_place
place_lem m crate member path (text t) u h =
    let (same, k) =
      require-accepts (m.absolute t == m.resolve path)
        (require (check_declared m crate member (m.resolve path)) (accepts tt)) u h in
    let (declared, _) =
      require-accepts (check_declared m crate member (m.resolve path)) (accepts tt) u k in
    (t, refl, (list_beq_iff (m.absolute t) (m.resolve path)).0 same, declared)
place_lem m crate member path null u h = absurd (ground (arith, h))
place_lem m crate member path (bool b) u h = absurd (ground (arith, h))
place_lem m crate member path (int n) u h = absurd (ground (arith, h))
place_lem m crate member path (neg n) u h = absurd (ground (arith, h))
place_lem m crate member path (arr l) u h = absurd (ground (arith, h))
place_lem m crate member path (obj d) u h = absurd (ground (arith, h))

member_lem :
    (m : Machine) (packages : List (Text × Fields)) (c : Text × Fields)
    → check_member m packages c ≡ accepts tt
    → IsMember m packages c
unfolding check_member
member_lem m packages (name, crate) h = elim (Option-cases (package_of packages name)) [
  | inl e ↦ absurd (ground (arith, h, e))
  | inr (member, e) ↦
      let rest : Location → Verdict Unit = λ path.
        require (is_prefix (m.resolve m.root) (m.resolve path))
          (check_place m crate member path (get_or member (str "manifest_path") (text []))) in
      let (path, f, k) =
        and_then-accepts (safe_repository_path m (get crate (str "manifest"))) rest tt
          (ground (arith, h, e)) in
      let (inside, l) =
        require-accepts (is_prefix (m.resolve m.root) (m.resolve path))
          (check_place m crate member path (get_or member (str "manifest_path") (text []))) tt k in
      let (t, g, place, declared) =
        place_lem m crate member path (get_or member (str "manifest_path") (text [])) tt l in
      let (version, is_there) = declared_lem m crate member (m.resolve path) declared in
      record {
        member = member;
        path = path;
        manifest_path = t;
        found = e;
        safe_path = f;
        inside = inside;
        same_path = g;
        same_place = place;
        same_version = version;
        is_there = is_there;
      }
]

-- The crates of the plan are the packages of the workspace.
pub record IsWorkspace (m : Machine) (plan : Plan) (metadata : List Value) : Type 0 where
  pub covered :
      all (contains (crate_names plan.crates)) (crate_names (named_packages metadata)) ≡ true
  pub complete :
      all (contains (crate_names (named_packages metadata))) (crate_names plan.crates) ≡ true
  pub members : All (IsMember m (named_packages metadata)) plan.crates

pub validate_workspace-IsWorkspace :
    (m : Machine) (plan : Plan) (metadata : List Value) (u : Unit)
    → validate_workspace m plan metadata ≡ accepts u
    → IsWorkspace m plan metadata
unfolding validate_workspace same_names
validate_workspace-IsWorkspace m plan metadata u h =
    let packages = named_packages metadata in
    let (same, k) =
      require-accepts (same_names (crate_names packages) (crate_names plan.crates))
        (every (check_member m packages) plan.crates) u h in
    record {
      covered = ground (arith, same);
      complete = ground (arith, same);
      members =
          All-map (member_lem m packages) plan.crates
            (every-All (check_member m packages) plan.crates u k);
    }

output_lem :
    (m : Machine) (command : List Text) (output : Text)
    → output_of m command ≡ accepts output
    → m.run command ≡ some output
unfolding output_of
output_lem m command output h = elim (Option-cases (m.run command)) [
  | inl e ↦ absurd (ground (arith, h, e))
  | inr (t, e) ↦ let same : t ≡ output = ground (arith, h, e) in e ∙ ap some same
]

-- The checkout is what the release names.
pub record IsCheckout (m : Machine) (release : Fields) (selected : Option Text) (revision : Text)
    : Type 0 where
  pub head : Text
  pub tags : Text
  pub at_head : m.run (str "git" ∷ str "rev-parse" ∷ str "HEAD" ∷ []) ≡ some head
  pub is_head : revision ≡ strip head
  pub some_head : is_empty revision ≡ false
  pub selection : check_selected release selected ≡ true
  pub source :
      (get release (str "source_revision") ≡ text (str "HEAD"))
      ⊎ (get release (str "source_revision") ≡ text revision)
  pub listed_tags : m.run (str "git" ∷ str "tag" ∷ str "--list" ∷ []) ≡ some tags
  pub no_rust_tag : any is_rust_tag (split_lines tags) ≡ false

revision_lem :
    (m : Machine) (current : Text) (v : Value)
    → check_source_revision m current v ≡ true
    → (v ≡ text (str "HEAD")) ⊎ (v ≡ text current)
unfolding check_source_revision
revision_lem m current (text t) h = elim (Bool-cases (t == str "HEAD")) [
  | inl e ↦ inl (ap text ((list_beq_iff t (str "HEAD")).0 e))
  | inr e ↦ inr (ap text ((list_beq_iff t current).0 (ground (arith, h, e))))
]
revision_lem m current null h = absurd (ground (arith, h))
revision_lem m current (bool b) h = absurd (ground (arith, h))
revision_lem m current (int n) h = absurd (ground (arith, h))
revision_lem m current (neg n) h = absurd (ground (arith, h))
revision_lem m current (arr l) h = absurd (ground (arith, h))
revision_lem m current (obj d) h = absurd (ground (arith, h))

tags_lem :
    (m : Machine) (head tags revision : Text)
    → check_tags m head tags ≡ accepts revision
    → (any is_rust_tag (split_lines tags) ≡ false)
      × (is_empty revision ≡ false)
      × (revision ≡ strip head)
unfolding check_tags
tags_lem m head tags revision h =
    let (no_tag, k) =
      require-accepts (not (any is_rust_tag (split_lines tags)))
        (require (not (is_empty (strip head))) (accepts (strip head))) revision h in
    let (some_head, l) =
      require-accepts (not (is_empty (strip head))) (accepts (strip head)) revision k in
    let same : revision ≡ strip head = ground (arith, l) in
    (
      ground (arith, no_tag),
      subst (λ r. is_empty r ≡ false) (sym same) (ground (arith, some_head)),
      same,
    )

pub validate_git_provenance-IsCheckout :
    (m : Machine) (release : Fields) (selected : Option Text) (revision : Text)
    → validate_git_provenance m release selected ≡ accepts revision
    → IsCheckout m release selected revision
unfolding validate_git_provenance check_checkout_head
validate_git_provenance-IsCheckout m release selected revision h =
    let rev_parse = output_of m (str "git" ∷ str "rev-parse" ∷ str "HEAD" ∷ []) in
    let tag_list = output_of m (str "git" ∷ str "tag" ∷ str "--list" ∷ []) in
    let (selection, k) =
      require-accepts (check_selected release selected)
        (rev_parse and_then check_checkout_head m release) revision h in
    let (head, e, l) = and_then-accepts rev_parse (check_checkout_head m release) revision k in
    let source_value = get release (str "source_revision") in
    let oracle = m.format (get_in (get release (str "provenance")) (str "oracle_commit")) in
    let (source, n) =
      require-accepts (check_source_revision m (strip head) source_value)
        (require (commit_exists m oracle) (tag_list and_then check_tags m head)) revision l in
    let (_, o) =
      require-accepts (commit_exists m oracle) (tag_list and_then check_tags m head) revision n in
    let (tags, f, p) = and_then-accepts tag_list (check_tags m head) revision o in
    let (no_tag, some_head, same) = tags_lem m head tags revision p in
    record {
      head = head;
      tags = tags;
      at_head = output_lem m _ head e;
      is_head = same;
      some_head = some_head;
      selection = selection;
      source =
          subst (λ r. (source_value ≡ text (str "HEAD")) ⊎ (source_value ≡ text r)) (sym same)
            (revision_lem m (strip head) source_value source);
      listed_tags = output_lem m _ tags f;
      no_rust_tag = no_tag;
    }

abbrev pub release_status : List Text
release_status = str "git" ∷ str "status" ∷ str "--porcelain=v1" ∷ str "--untracked-files=all" ∷ []

pub clean_source_lem :
    (m : Machine) (u : Unit)
    → validate_clean_source m ≡ accepts u
    → (status : Text) × (m.run release_status ≡ some status) × (strip status ≡ [])
unfolding validate_clean_source
clean_source_lem m u h =
    let (status, e, k) =
      and_then-accepts (output_of m release_status)
        (λ status. require (is_empty (strip status)) (accepts tt)) u h in
    let (blank, _) = require-accepts (is_empty (strip status)) (accepts tt) u k in
    (status, output_lem m release_status status e, (is_empty_iff (strip status)).0 blank)
