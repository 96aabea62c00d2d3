-- ===== src/Consumer/Manifests/Laws.antt =====
-- What the manifests and the pins of a clean Rust check are (`_check_rust` of
-- port/consumer/verify.py).
use symaira_corekit.Base.{
  ◌≡◌, refl, ap, ◌∙◌, subst, inl, inr, true, false, some, List, [], ◌∷◌, ◌++◌, arith, Text, str,
  Option-cases, append-eq-nil, list_beq,
}
use symaira_corekit.Consumer.Findings.{returns}
use symaira_corekit.Consumer.Findings.Laws.{Check-cases}
use symaira_corekit.Consumer.Manifests.{
  Pin, check_exact, check_kind, check_spec, corekit_url, has_key, is_git_pin, is_registry_pin,
  pin_version, read_manifest, read_manifests, recorded_version, relative_to,
}
use symaira_corekit.Consumer.World.{Location, World, git}
use symaira_corekit.Json.{
  Fields, Value, arr, bool, get, has, int, is_str, neg, null, obj, text, value_eq,
}
use symaira_corekit.Json.Laws.{is_str_iff}

-- The table of a Git pin.
pub record IsGitPin (revision spec : Value) : Type 0 where
  pub table : Fields
  pub is_table : spec ≡ obj table
  pub url : get table (str "git") ≡ text corekit_url
  pub at_revision : value_eq (get table (str "rev")) revision ≡ true
  pub no_path : has table (str "path") ≡ false

-- A pin below the checkout, of exactly the recorded version, from the recorded kind of source.
pub record IsPin (checkout : Location) (rust : Fields) (pin : Pin) : Type 0 where
  pub relative : Location
  pub version : Text
  pub inside : relative_to pin.0 checkout ≡ some relative
  pub exact : pin_version pin.1 ≡ some version
  pub recorded : recorded_version rust ≡ text version
  pub from_git :
      get rust (str "status") ≡ text (str "git") → IsGitPin (get rust (str "revision")) pin.1
  pub from_registry : get rust (str "status") ≡ text (str "registry") → is_registry_pin pin.1 ≡ true

git_pin_lem :
    (revision spec : Value)
    → is_git_pin revision spec ≡ true
    → has_key spec (str "path") ≡ false
    → IsGitPin revision spec
unfolding is_git_pin has_key
git_pin_lem revision (obj d) h k = record {
  table = d;
  is_table = refl;
  url = (is_str_iff (get d (str "git")) corekit_url).0 (ground (arith, h));
  at_revision = ground (arith, h);
  no_path = k;
}
git_pin_lem revision null h k = absurd (ground (arith, h))
git_pin_lem revision (bool b) h k = absurd (ground (arith, h))
git_pin_lem revision (int n) h k = absurd (ground (arith, h))
git_pin_lem revision (neg n) h k = absurd (ground (arith, h))
git_pin_lem revision (text t) h k = absurd (ground (arith, h))
git_pin_lem revision (arr l) h k = absurd (ground (arith, h))

exact_lem :
    (repository : Text) (recorded spec : Value)
    → check_exact repository recorded spec ≡ []
    → (version : Text) × (pin_version spec ≡ some version) × (recorded ≡ text version)
unfolding check_exact
exact_lem repository recorded spec h = elim (Option-cases (pin_version spec)) [
  | inl e ↦ absurd (ground (arith, h, e))
  | inr (version, e) ↦ (version, e, (is_str_iff recorded version).0 (ground (arith, h, e)))
]

git_kind_lem :
    (repository : Text) (rust : Fields) (spec : Value)
    → check_kind repository rust spec ≡ []
    → get rust (str "status") ≡ text (str "git")
    → IsGitPin (get rust (str "revision")) spec
unfolding check_kind
git_kind_lem repository rust spec h git =
    let status = (is_str_iff (get rust (str "status")) (str "git")).1 git in
    git_pin_lem (get rust (str "revision")) spec (ground (arith, h, status))
      (ground (arith, h, status))

not_git : (v : Value) → v ≡ text (str "registry") → is_str v (str "git") ≡ false
unfolding is_str str list_beq
not_git v h = rw h refl

registry_kind_lem :
    (repository : Text) (rust : Fields) (spec : Value)
    → check_kind repository rust spec ≡ []
    → get rust (str "status") ≡ text (str "registry")
    → is_registry_pin spec ≡ true
unfolding check_kind
registry_kind_lem repository rust spec h registry =
    let status = not_git (get rust (str "status")) registry in ground (arith, h, status)

pub check_spec-IsPin :
    (repository : Text) (checkout : Location) (rust : Fields) (pin : Pin)
    → check_spec repository checkout rust pin ≡ returns []
    → IsPin checkout rust pin
unfolding check_spec
check_spec-IsPin repository checkout rust (path, spec) h =
    elim (Option-cases (relative_to path checkout)) [
      | inl e ↦ absurd (ground (arith, h, e))
      | inr (relative, e) ↦
          let clean : check_exact repository (recorded_version rust) spec
                ++ check_kind repository rust spec
              ≡ [] =
            ground (arith, h, e) in
          let (p, q) =
            (append-eq-nil (check_exact repository (recorded_version rust) spec)
                (check_kind repository rust spec)).0
              clean in
          let (version, exact, recorded) = exact_lem repository (recorded_version rust) spec p in
          record {
            relative = relative;
            version = version;
            inside = e;
            exact = exact;
            recorded = recorded;
            from_git = git_kind_lem repository rust spec q;
            from_registry = registry_kind_lem repository rust spec q;
          }
    ]

-- A manifest of the list that is read without a finding gives some of the pins.
pub data Gives (w : World) (repository : Text) (checkout workspace_root : Location)
    (version : Value) : List Value → List Pin → Type 0 where
  done : Gives w repository checkout workspace_root version [] []
  reads :
      {v : Value} {vs : List Value} {pins more : List Pin}
      → read_manifest w repository checkout workspace_root version v ≡ returns ([], pins)
      → Gives w repository checkout workspace_root version vs more
      → Gives w repository checkout workspace_root version (v ∷ vs) (pins ++ more)

pub read_manifests-Gives :
    (w : World) (repository : Text) (checkout workspace_root : Location) (version : Value)
    (vs : List Value) (pins : List Pin)
    → read_manifests w repository checkout workspace_root version vs ≡ returns ([], pins)
    → Gives w repository checkout workspace_root version vs pins
unfolding read_manifests
read_manifests-Gives w repository checkout workspace_root version [] pins h =
    let e : [] ≡ pins = ground (arith, h) in
    subst (Gives w repository checkout workspace_root version []) e done
read_manifests-Gives w repository checkout workspace_root version (v ∷ vs) pins h =
    elim (Check-cases (read_manifest w repository checkout workspace_root version v)) [
      | inr (x, e) ↦ absurd (ground (arith, h, e))
      | inl ((fs, own), e) ↦
          elim (Check-cases (read_manifests w repository checkout workspace_root version vs)) [
            | inr (x, f) ↦ absurd (ground (arith, h, e, f))
            | inl ((gs, more), f) ↦
                let (p, q) = (append-eq-nil fs gs).0 (ground (arith, h, e, f)) in
                let together : own ++ more ≡ pins = ground (arith, h, e, f) in
                subst (Gives w repository checkout workspace_root version (v ∷ vs)) together (
                  reads (e ∙ ap (λ x. returns (x, own)) p) (
                    read_manifests-Gives w repository checkout workspace_root version vs more
                      (f ∙ ap (λ x. returns (x, more)) q)))
          ]
    ]
