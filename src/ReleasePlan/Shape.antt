-- ===== src/ReleasePlan/Shape.antt =====
-- What an accepted release manifest says (`validate_manifest_shape` of port/release/verify.py).
use symaira_corekit.Base.{
  ◌≡◌, refl, sym, ap, ◌∙◌, subst, ◌≢◌, inl, inr, true, false, not, ◌&&◌, some, List, [], arith,
  Text, str, All, Bool-cases, Option-cases, all, all_iff, any, contains, is_empty, is_empty_iff,
  select, nat_eq, list_eq, option_eq,
}
use symaira_corekit.Base.Verdict.{accepts, and_then-accepts, require, require-accepts, ◌and_then◌}
use symaira_corekit.Consumer.Patterns.{is_release_tag}
use symaira_corekit.Consumer.Status.{is_hashable}
use symaira_corekit.Json.{
  Fields, Value, arr, as_list, bool, get, has_duplicates, int, is_str, neg, null, obj, text,
  text_that, value_eq,
}
use symaira_corekit.Json.Laws.{is_str_iff, text_that_iff}
use symaira_corekit.ReleasePlan.{
  Plan, adopted_names, check_crates, check_known, check_lists, check_order, check_provenance,
  check_release, check_repository, check_sbom, crate_names, is_false, validate_lists,
  validate_manifest_shape, validate_release,
}
use symaira_corekit.ReleasePlan.Crates.{Named, check_crates-Named}

-- The publish order lists the adopted crates, each once.
pub record IsOrder (order : List Value) (crates : List (Text × Fields)) : Type 0 where
  pub distinct : has_duplicates order ≡ false
  pub adopted : All (λ v. text_that (contains (adopted_names crates)) v ≡ true) order
  pub complete : All (λ n. any (λ v. is_str v n) order ≡ true) (adopted_names crates)

order_lem :
    (order : List Value) (crates : List (Text × Fields)) (u : Unit)
    → check_order order crates ≡ accepts u
    → IsOrder order crates
unfolding check_order
order_lem order crates u h = elim (Bool-cases (all is_hashable order)) [
  | inr e ↦ absurd (ground (arith, h, e))
  | inl e ↦
      let unknown = select (λ v. not (text_that (contains (crate_names crates)) v)) order in
      let tests =
        all (text_that (contains (adopted_names crates))) order
        && all (λ n. any (λ v. is_str v n) order) (adopted_names crates) in
      let (single, k) =
        require-accepts (not (has_duplicates order))
          (check_known unknown and_then λ known. require tests (accepts tt)) u
          (ground (arith, h, e)) in
      let (known, f, l) =
        and_then-accepts (check_known unknown) (λ known. require tests (accepts tt)) u k in
      let (passed, _) = require-accepts tests (accepts tt) u l in
      record {
        distinct = ground (arith, single);
        adopted =
            (all_iff (text_that (contains (adopted_names crates))) order).0
              (ground (arith, passed));
        complete =
            (all_iff (λ n. any (λ v. is_str v n) order) (adopted_names crates)).0
              (ground (arith, passed));
      }
]

-- A release that is planned and not published.
pub record IsPlan (format : Value → Text) (manifest : Fields) (plan : Plan) : Type 0 where
  pub crate_values : List Value
  pub release_field : get manifest (str "release") ≡ obj plan.release
  pub tag : (t : Text) × (get plan.release (str "tag") ≡ text t) × (is_release_tag t ≡ true)
  pub unpublished : is_false (get plan.release (str "publish")) ≡ true
  pub not_run : get plan.release (str "publication_status") ≡ text (str "not-run")
  pub order_field : as_list (get plan.release (str "planned_publish_order")) ≡ some plan.order
  pub crates_field : as_list (get plan.release (str "crates")) ≡ some crate_values
  pub some_crate : crate_values ≢ []
  pub named : Named [] crate_values plan.crates
  pub ordered : IsOrder plan.order plan.crates
  pub provenance : check_provenance format (get plan.release (str "provenance")) ≡ true

lists_lem :
    (format : Value → Text) (release : Fields) (order vs : List Value) (plan : Plan)
    → check_lists format release order vs ≡ accepts plan
    → (plan.release ≡ release)
      × (plan.order ≡ order)
      × Named [] vs plan.crates
      × IsOrder order plan.crates
      × (check_provenance format (get release (str "provenance")) ≡ true)
unfolding check_lists
lists_lem format release order vs plan h =
    let (crates, e, k) = and_then-accepts (check_crates [] vs) _ plan h in
    let (u, f, l) = and_then-accepts (check_order order crates) _ plan k in
    let p : check_provenance format (get release (str "provenance")) ≡ true = ground (arith, l) in
    let s : check_sbom (get release (str "sbom")) ≡ true = ground (arith, l) in
    let same : record { release = release; crates = crates; order = order } ≡ plan =
      ground (arith, l) in
    (
      ground (arith, l),
      ground (arith, l),
      subst (λ c. Named [] vs c) (ground (arith, l)) (check_crates-Named [] vs crates e),
      subst (IsOrder order) (ground (arith, l)) (order_lem order crates u f),
      p,
    )

release_lem :
    (format : Value → Text) (release : Fields)
    → check_release format release ≡ true
    → ((t : Text) × (get release (str "tag") ≡ text t) × (is_release_tag t ≡ true))
      × (is_false (get release (str "publish")) ≡ true)
      × (get release (str "publication_status") ≡ text (str "not-run"))
unfolding check_release
release_lem format release h = (
  (text_that_iff is_release_tag (get release (str "tag"))).0 (ground (arith, h)),
  ground (arith, h),
  (is_str_iff (get release (str "publication_status")) (str "not-run")).0 (ground (arith, h)),
)

plan_lem :
    (format : Value → Text) (manifest release : Fields) (order vs : List Value) (plan : Plan)
    → get manifest (str "release") ≡ obj release
    → check_release format release ≡ true
    → as_list (get release (str "planned_publish_order")) ≡ some order
    → as_list (get release (str "crates")) ≡ some vs
    → vs ≢ []
    → check_lists format release order vs ≡ accepts plan
    → IsPlan format manifest plan
plan_lem format manifest release order vs plan field' checked order_field crates_field some_crate
      h =
    let (same, same_order, named, ordered, provenance) = lists_lem format release order vs plan h in
    let (tag, unpublished, not_run) =
      release_lem format plan.release
        (subst (λ r. check_release format r ≡ true) (sym same) checked) in
    record {
      crate_values = vs;
      release_field = field' ∙ ap obj (sym same);
      tag = tag;
      unpublished = unpublished;
      not_run = not_run;
      order_field = cc (order_field, same, same_order);
      crates_field = cc (crates_field, same);
      some_crate = some_crate;
      named = named;
      ordered = subst (λ o. IsOrder o plan.crates) (sym same_order) ordered;
      provenance =
          subst (λ r. check_provenance format (get r (str "provenance")) ≡ true) (sym same)
            provenance;
    }

validate_lists_lem :
    (format : Value → Text) (manifest release : Fields) (plan : Plan)
    → get manifest (str "release") ≡ obj release
    → check_release format release ≡ true
    → validate_lists format release ≡ accepts plan
    → IsPlan format manifest plan
unfolding validate_lists
validate_lists_lem format manifest release plan field' checked h =
    elim (Option-cases (as_list (get release (str "planned_publish_order")))) [
      | inl f ↦ absurd (ground (arith, h, f))
      | inr (order, f) ↦ elim (Option-cases (as_list (get release (str "crates")))) [
        | inl g ↦ absurd (ground (arith, h, f, g))
        | inr (vs, g) ↦ elim (Bool-cases (is_empty vs)) [
          | inl c ↦ absurd (ground (arith, h, f, g, c))
          | inr c ↦
              plan_lem format manifest release order vs plan field' checked f g
                (λ k. let gone = (is_empty_iff vs).1 k in absurd (ground (arith, c, gone)))
                (ground (arith, h, f, g, c))
        ]
      ]
    ]

validate_release_lem :
    (format : Value → Text) (manifest : Fields) (v : Value) (plan : Plan)
    → get manifest (str "release") ≡ v
    → validate_release format v ≡ accepts plan
    → IsPlan format manifest plan
unfolding validate_release
validate_release_lem format manifest (obj release) plan field' h =
    let (checked, k) =
      require-accepts (check_release format release) (validate_lists format release) plan h in
    validate_lists_lem format manifest release plan field' checked k
validate_release_lem format manifest null plan field' h = absurd (ground (arith, h))
validate_release_lem format manifest (bool b) plan field' h = absurd (ground (arith, h))
validate_release_lem format manifest (int n) plan field' h = absurd (ground (arith, h))
validate_release_lem format manifest (neg n) plan field' h = absurd (ground (arith, h))
validate_release_lem format manifest (text t) plan field' h = absurd (ground (arith, h))
validate_release_lem format manifest (arr l) plan field' h = absurd (ground (arith, h))

-- An accepted manifest plans a release that is not published, under a stable tag. Its crates have distinct
-- names and stable versions; an adopted crate has at least two distinct adopters, and one that is not adopted has none
-- and is not publishable. The publish order has every adopted crate once and nothing else.
pub validate_manifest_shape-IsPlan :
    (format : Value → Text) (manifest : Fields) (plan : Plan)
    → validate_manifest_shape format manifest ≡ accepts plan
    → IsPlan format manifest plan
unfolding validate_manifest_shape
validate_manifest_shape-IsPlan format manifest plan h =
    let release = validate_release format (get manifest (str "release")) in
    let (_, k) =
      require-accepts (value_eq (get manifest (str "schema_version")) (int 1))
        (require (check_repository (get manifest (str "repository"))) release) plan h in
    let (_, l) =
      require-accepts (check_repository (get manifest (str "repository"))) release plan k in
    validate_release_lem format manifest (get manifest (str "release")) plan refl l
