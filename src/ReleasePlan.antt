-- ===== src/ReleasePlan.antt =====
-- `validate_manifest_shape` of port/release/verify.py, with `validate_tag`. `TAG` and `SHA` match what
-- `RELEASE_TAG_RE` and `REVISION_RE` of Consumer/Patterns do.
pub mod Crates
pub mod Shape
pub mod Sources
pub mod Run
use symaira_corekit.Base.{
  Bool, true, false, not, ◌&&◌, ◌||◌, Option, none, some, List, [], ◌∷◌, Text, str, all, any,
  contains, if◌then◌else◌, is_empty, length, ltb, select, nat_eq, list_eq, option_eq,
}
use symaira_corekit.Base.Strings.{strip}
use symaira_corekit.Base.Verdict.{Verdict, accepts, crashes, refuses, require, ◌and_then◌}
use symaira_corekit.Consumer.Patterns.{is_release_tag, is_revision, triple}
use symaira_corekit.Consumer.Status.{is_hashable}
use symaira_corekit.Json.{
  Fields, Value, as_dict, as_list, bool, get, get_in, get_or, has, has_duplicates, int, is_str,
  is_text, neg, obj, text, text_that, value_eq,
}
use symaira_corekit.Regex.{fullmatch}

-- `isinstance(v, str) and v`
abbrev pub is_nonempty : Value → Bool
is_nonempty v = text_that (λ t. not (is_empty t)) v

abbrev pub is_explained : Value → Bool
is_explained v = text_that (λ t. not (is_empty (strip t))) v

-- `SEMVER`
unfoldable pub is_version : Text → Bool
unfolding fullmatch
is_version t = fullmatch triple t

-- `v is True` and `v is False`
unfoldable pub as_bool : Value → Option Bool
as_bool (bool b) = some b
as_bool v = none

abbrev required : List Text
required =
    str "name"
    ∷ str "manifest"
    ∷ str "version"
    ∷ str "adopted"
    ∷ str "publishable"
    ∷ str "adopters"
    ∷ str "reason"
    ∷ []

-- The elements of a set that is made of a list.
unfoldable pub elements : List Value → List Value
elements [] = []
elements (v ∷ vs) = let rest = elements vs in if any (value_eq v) vs then rest else v ∷ rest

-- The tests on the adoption of a crate.
unfoldable pub check_adoption : Bool → Bool → List Value → Bool
unfolding elements
check_adoption adopted publishable adopters =
    not (publishable && not adopted)
    && not (adopted && ltb (length (elements adopters)) 2)
    && not (not adopted && not (is_empty adopters))

-- The tests of an entry behind its name.
unfoldable pub check_fields : Fields → Bool
unfolding is_version as_bool check_adoption get str strip text_that
check_fields crate =
    is_nonempty (get crate (str "manifest"))
    && text_that is_version (get crate (str "version"))
    && elim (as_bool (get crate (str "adopted"))) [
      | none ↦ false
      | some adopted ↦ elim (as_bool (get crate (str "publishable"))) [
        | none ↦ false
        | some publishable ↦ elim (as_list (get crate (str "adopters"))) [
          | none ↦ false
          | some adopters ↦
              all is_nonempty adopters
              && is_explained (get crate (str "reason"))
              && check_adoption adopted publishable adopters
        ]
      ]
    ]

-- The name of an entry, and its other tests.
unfoldable pub check_name : List Text → Fields → Value → Verdict (Text × Fields)
unfolding check_fields
check_name names crate (text name) =
    require (not (is_empty name) && not (contains names name))
      (require (check_fields crate) (accepts (name, crate)))
check_name names crate v = refuses

-- One entry of `release.crates`: its name and its fields.
unfoldable pub check_crate : List Text → Value → Verdict (Text × Fields)
unfolding get has check_name str
check_crate names (obj crate) =
    require (all (has crate) required) (check_name names crate (get crate (str "name")))
check_crate names v = refuses

-- The loop over the entries, with the set `names`.
unfoldable pub check_crates : List Text → List Value → Verdict (List (Text × Fields))
unfolding check_crate ◌and_then◌
check_crates names [] = accepts []
check_crates names (v ∷ vs) = check_crate names v and_then λ (name, crate).
    check_crates (name ∷ names) vs and_then λ rest. accepts ((name, crate) ∷ rest)

unfoldable pub is_adopted : Text × Fields → Bool
unfolding as_bool get str
is_adopted (name, crate) = elim (as_bool (get crate (str "adopted"))) [ some b ↦ b | none ↦ false ]

unfoldable pub adopted_names : List (Text × Fields) → List Text
unfolding is_adopted
adopted_names [] = []
adopted_names ((name, crate) ∷ crates) =
    let rest = adopted_names crates in if is_adopted (name, crate) then name ∷ rest else rest

unfoldable pub crate_names : List (Text × Fields) → List Text
crate_names [] = []
crate_names ((name, crate) ∷ crates) = name ∷ crate_names crates

unfoldable pub is_number : Value → Bool
is_number (bool b) = true
is_number (int n) = true
is_number (neg n) = true
is_number v = false

-- `sorted` raises no TypeError: at most one element, or all of them texts, or all of them numbers.
unfoldable pub is_sortable : List Value → Bool
unfolding is_number is_text
is_sortable vs = ltb (length vs) 2 || all is_text vs || all is_number vs

-- The refusal of unknown crates, whose message sorts them.
unfoldable pub check_known : List Value → Verdict Unit
unfolding is_sortable
check_known unknown =
    if is_empty unknown then accepts tt else if is_sortable unknown then refuses else crashes

-- The tests of `planned_publish_order`; a list or a dict in it cannot stand in a set.
unfoldable pub check_order : List Value → List (Text × Fields) → Verdict Unit
unfolding is_hashable has_duplicates adopted_names crate_names is_str text_that check_known
    ◌and_then◌
check_order order crates =
    let unknown = select (λ v. not (text_that (contains (crate_names crates)) v)) order in
    if not (all is_hashable order)
    then crashes
    else require (not (has_duplicates order)) (
        check_known unknown and_then λ known.
        require
          (all (text_that (contains (adopted_names crates))) order
            && all (λ n. any (λ v. is_str v n) order) (adopted_names crates))
          (accepts tt))

-- `SHA.fullmatch(str(d.get(key, "")))`
unfoldable pub names_commit : (Value → Text) → Fields → Text → Bool
unfolding is_revision get_or
names_commit format d key = is_revision (format (get_or d key (text [])))

unfoldable pub check_provenance : (Value → Text) → Value → Bool
unfolding as_dict as_list get names_commit is_text strip text_that str
check_provenance format v = elim (as_dict v) [
  | none ↦ false
  | some provenance ↦
      names_commit format provenance (str "oracle_commit")
      && elim (as_list (get provenance (str "input_files"))) [
        | none ↦ false
        | some inputs ↦ not (is_empty inputs) && all is_text inputs
      ]
      && is_explained (get provenance (str "source_revision_policy"))
]

unfoldable pub check_sbom : Value → Bool
unfolding as_bool get_in is_str is_text str
check_sbom sbom =
    elim (as_bool (get_in sbom (str "required"))) [ some b ↦ b | none ↦ false ]
    && is_str (get_in sbom (str "format")) (str "cargo-metadata-json")
    && is_text (get_in sbom (str "command"))

unfoldable pub check_repository : Value → Bool
unfolding get_in is_str text_that str
check_repository repository =
    is_nonempty (get_in repository (str "slug"))
    && is_nonempty (get_in repository (str "url"))
    && is_nonempty (get_in repository (str "go_module"))
    && is_str (get_in repository (str "slug")) (str "danieljustus/symaira-corekit")

-- `v is False`
unfoldable pub is_false : Value → Bool
unfolding as_bool
is_false v = elim (as_bool v) [ some b ↦ not b | none ↦ false ]

-- The tests of `release` before its crates.
unfoldable pub check_release : (Value → Text) → Fields → Bool
unfolding is_release_tag names_commit is_false get is_str text_that str
check_release format release =
    text_that is_release_tag (get release (str "tag"))
    && (is_str (get release (str "source_revision")) (str "HEAD")
        || names_commit format release (str "source_revision"))
    && is_false (get release (str "publish"))
    && is_str (get release (str "publication_status")) (str "not-run")
    && is_str (get release (str "registry")) (str "https://crates.io")

-- The validated release: its fields, its crates by name and its publish order.
pub record Plan : Type 0 where
  pub release : Fields
  pub crates : List (Text × Fields)
  pub order : List Value

-- The lists of a release.
unfoldable pub check_lists : (Value → Text) → Fields → List Value → List Value → Verdict Plan
unfolding check_crates check_order check_provenance check_sbom get ◌and_then◌ str
check_lists format release order crates = check_crates [] crates and_then λ named.
    check_order order named and_then λ done.
    require (check_provenance format (get release (str "provenance"))) (
      require (check_sbom (get release (str "sbom")))
        (accepts (record { release = release; crates = named; order = order })))

-- The lists of a release, if they are there.
unfoldable pub validate_lists : (Value → Text) → Fields → Verdict Plan
unfolding check_lists as_list get str
validate_lists format release = elim (as_list (get release (str "planned_publish_order"))) [
  | none ↦ refuses
  | some order ↦ elim (as_list (get release (str "crates"))) [
    | none ↦ refuses
    | some crates ↦ require (not (is_empty crates)) (check_lists format release order crates)
  ]
]

unfoldable pub validate_release : (Value → Text) → Value → Verdict Plan
unfolding check_release validate_lists
validate_release format (obj release) =
    require (check_release format release) (validate_lists format release)
validate_release format v = refuses

unfoldable pub validate_manifest_shape : (Value → Text) → Fields → Verdict Plan
unfolding check_repository validate_release get value_eq str
validate_manifest_shape format manifest =
    require (value_eq (get manifest (str "schema_version")) (int 1)) (
      require (check_repository (get manifest (str "repository")))
        (validate_release format (get manifest (str "release"))))
