-- ===== src/Consumer/Verify/Corekit.antt =====
-- What clean checks of CoreKit's own release show (`verify_manifest` of port/consumer/verify.py).
use symaira_corekit.Base.{
  ◌≡◌, inl, inr, true, some, [], ◌∷◌, ◌++◌, arith, Text, str, Option-cases, append-eq-nil,
}
use symaira_corekit.Consumer.Patterns.{is_release_tag, is_revision}
use symaira_corekit.Consumer.Registry.{registry_readback}
use symaira_corekit.Consumer.Registry.Laws.{IsReadback, check_registry_readback_iff}
use symaira_corekit.Consumer.Release.{checked}
use symaira_corekit.Consumer.Release.Ancestry.{check_tag_iff}
use symaira_corekit.Consumer.Release.Laws.{Answers, checked_iff}
use symaira_corekit.Consumer.Verify.{check_corekit_registry, check_corekit_release}
use symaira_corekit.Consumer.World.{Location, World, git, tag_commit}
use symaira_corekit.Json.{Fields, get, null, text}
use symaira_corekit.Json.Laws.{is_str_iff}

-- CoreKit's own release.
pub record IsCorekit (w : World) (corekit_root : Location) (corekit registry : Fields)
    : Type 0 where
  pub tag : Text
  pub commit : Text
  pub tag_field : get corekit (str "release_tag") ≡ text tag
  pub stable : is_release_tag tag ≡ true
  pub commit_field : get corekit (str "release_commit") ≡ text commit
  pub full : is_revision commit ≡ true
  pub exists :
      (git w
        (str "show-ref" ∷ str "--verify" ∷ (str "refs/tags/" ++ tag) ∷ [])
        corekit_root).returncode
      ≡ 0
  pub resolves : Answers w (str "rev-parse" ∷ tag_commit tag ∷ []) corekit_root commit
  pub readback :
      get registry (str "status") ≡ text (str "released")
      → (d : Fields) × (registry_readback registry ≡ some d)
        × IsReadback w registry (get d (str "version")) (get d (str "checksum"))

readback_lem :
    (w : World) (registry : Fields)
    → check_corekit_registry w registry ≡ []
    → get registry (str "status") ≡ text (str "released")
    → (d : Fields) × (registry_readback registry ≡ some d)
      × IsReadback w registry (get d (str "version")) (get d (str "checksum"))
unfolding check_corekit_registry
readback_lem w registry h released =
    let s = (is_str_iff (get registry (str "status")) (str "released")).1 released in
    elim (Option-cases (registry_readback registry)) [
      | inl e ↦
          let r =
            (check_registry_readback_iff w (str "corekit") registry null null).0
              (ground (arith, h, e, s)) in
          absurd (ground (arith, e, r.found))
      | inr (d, e) ↦ (
        d,
        e,
        (check_registry_readback_iff w (str "corekit") registry (get d (str "version"))
              (get d (str "checksum"))).0
            (ground (arith, h, e, s)),
      )
    ]

pub corekit_lem :
    (w : World) (corekit_root : Location) (corekit registry : Fields)
    → check_corekit_registry w registry ++ check_corekit_release w corekit_root corekit ≡ []
    → IsCorekit w corekit_root corekit registry
unfolding check_corekit_release
corekit_lem w corekit_root corekit registry h =
    let (front, back) =
      (append-eq-nil (check_corekit_registry w registry)
          (check_corekit_release w corekit_root corekit)).0
        h in
    let tag_value = get corekit (str "release_tag") in
    let commit_value = get corekit (str "release_commit") in
    elim (Option-cases (checked is_release_tag tag_value)) [
      | inl e ↦ absurd (ground (arith, back, e))
      | inr (tag, e) ↦ elim (Option-cases (checked is_revision commit_value)) [
        | inl f ↦ absurd (ground (arith, back, e, f))
        | inr (commit, f) ↦
            let (tag_field, stable) = (checked_iff is_release_tag tag_value tag).0 e in
            let (commit_field, full) = (checked_iff is_revision commit_value commit).0 f in
            let (exists, resolves) =
              (check_tag_iff w (str "corekit") corekit_root tag commit).0
                (ground (arith, back, e, f)) in
            record {
              tag = tag;
              commit = commit;
              tag_field = tag_field;
              stable = stable;
              commit_field = commit_field;
              full = full;
              exists = exists;
              resolves = resolves;
              readback = readback_lem w registry front;
            }
      ]
    ]
