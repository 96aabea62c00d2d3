-- ===== src/Consumer/Release/Ancestry.antt =====
-- What a clean ancestry check says of the release and of the revision that adopts it
-- (`_check_release_ancestry` of port/consumer/verify.py).
use symaira_corekit.Base.{
  true, ◌≡◌, ◌≢◌, refl, ◌↔◌, ◌⊎◌, inl, inr, [], ◌∷◌, ◌++◌, Text, str, list_eq, nat_eq, arith,
  Bool-cases, Option-cases, append-eq-nil,
}
use symaira_corekit.Json.{Value, null, bool, int, neg, text, arr, obj, Fields, get, is_str, as_dict}
use symaira_corekit.Json.Laws.{is_str_iff, as_dict_iff}
use symaira_corekit.Consumer.Patterns.{is_revision}
use symaira_corekit.Consumer.World.{World, Location, git, tag_commit, commit_of}
use symaira_corekit.Consumer.Release.{
  checked, release_pair, check_tag, candidate, check_revision, is_null, check_candidate,
  check_release_ancestry,
}
use symaira_corekit.Consumer.Release.Laws.{
  Answers, prints_iff, succeeds_iff, checked_iff, IsPair, release_pair_iff,
}

-- The revision is a commit of the repository, and the release is among its ancestors.
pub record Descends (w : World) (root : Location) (commit : Text) (v : Value) : Type 0 where
  pub revision : Text
  pub field : v ≡ text revision
  pub full : is_revision revision ≡ true
  pub present : (git w (str "cat-file" ∷ str "-e" ∷ commit_of revision ∷ []) root).returncode ≡ 0
  pub ancestor :
      (git w (str "merge-base" ∷ str "--is-ancestor" ∷ commit ∷ revision ∷ []) root).returncode ≡ 0

-- Outside Git adoption the record may leave the revision out.
abbrev pub IsCandidate : World → Fields → Location → Text → Type 0
IsCandidate w rust root commit =
    ((candidate rust ≡ null) × (get rust (str "status") ≢ text (str "git")))
    ⊎ Descends w root commit (candidate rust)

check_revision_iff :
    (w : World) (repository : Text) (root : Location) (commit : Text) (v : Value)
    → (check_revision w repository root commit v ≡ []) ↔ Descends w root commit v
unfolding check_revision
check_revision_iff w repository root commit v = (
  λ h. elim (Option-cases (checked is_revision v)) [
    | inl e ↦ absurd (ground (arith, e))
    | inr (revision, e) ↦
        let (a, b) = (checked_iff is_revision v revision).0 e in
        record {
          revision = revision;
          field = a;
          full = b;
          present = (succeeds_iff w _ root).0 (ground (arith, e));
          ancestor = (succeeds_iff w _ root).0 (ground (arith, e));
        }
  ],
  λ d.
      let e = (checked_iff is_revision v d.revision).1 (d.field, d.full) in
      let f = (succeeds_iff w _ root).1 d.present in
      let g = (succeeds_iff w _ root).1 d.ancestor in ground (arith, e, f, g),
)

is_null_iff : (v : Value) → (is_null v ≡ true) ↔ (v ≡ null)
unfolding is_null
is_null_iff null = (λ h. refl, λ h. refl)
is_null_iff (bool b) = (λ h. cc, λ h. cc)
is_null_iff (int n) = (λ h. cc, λ h. cc)
is_null_iff (neg n) = (λ h. cc, λ h. cc)
is_null_iff (text t) = (λ h. cc, λ h. cc)
is_null_iff (arr l) = (λ h. cc, λ h. cc)
is_null_iff (obj d) = (λ h. cc, λ h. cc)

check_candidate_iff :
    (w : World) (repository : Text) (rust : Fields) (root : Location) (commit : Text)
    → (check_candidate w repository rust root commit ≡ []) ↔ IsCandidate w rust root commit
unfolding check_candidate
check_candidate_iff w repository rust root commit =
    let v = candidate rust in
    let status = is_str_iff (get rust (str "status")) (str "git") in
    let (to, from) = check_revision_iff w repository root commit v in
    elim (Bool-cases (is_null v)) [
      | inl e ↦
          let gone = (is_null_iff v).0 e in
          rw e (
            λ h. inl (gone, λ k. let j = status.1 k in absurd (ground arith)),
            λ h. elim h [
              | inl (_, other) ↦ elim (Bool-cases (is_str (get rust (str "status")) (str "git"))) [
                | inl k ↦ absurd (other (status.0 k))
                | inr k ↦ ground (arith, k)
              ]
              | inr d ↦ cc (gone, d.field)
            ],
          )
      | inr e ↦ rw e (
        λ h. inr (to h),
        λ h. elim h [
          | inl (gone, _) ↦ let k = (is_null_iff v).1 gone in cc (e, k)
          | inr d ↦ from d
        ],
      )
    ]

-- The release is CoreKit's, and the adopted revision descends from it.
pub record IsAncestral (w : World) (rust : Fields) (root : Location) : Type 0 where
  pub release : Fields
  pub tag : Text
  pub commit : Text
  pub entry : get rust (str "release") ≡ obj release
  pub namespace : get rust (str "release_source") ≡ text (str "corekit")
  pub pair : IsPair release tag commit
  pub exists :
      (git w (str "show-ref" ∷ str "--verify" ∷ (str "refs/tags/" ++ tag) ∷ []) root).returncode ≡ 0
  pub resolves : Answers w (str "rev-parse" ∷ tag_commit tag ∷ []) root commit
  pub adopted : IsCandidate w rust root commit

pub check_tag_iff :
    (w : World) (repository : Text) (root : Location) (tag commit : Text)
    → (check_tag w repository root tag commit ≡ []) ↔ (
        ((git w (str "show-ref" ∷ str "--verify" ∷ (str "refs/tags/" ++ tag) ∷ []) root).returncode
          ≡ 0)
        × Answers w (str "rev-parse" ∷ tag_commit tag ∷ []) root commit)
unfolding check_tag
check_tag_iff w repository root tag commit =
    let s =
      succeeds_iff w (str "show-ref" ∷ str "--verify" ∷ (str "refs/tags/" ++ tag) ∷ []) root in
    let p = prints_iff w (str "rev-parse" ∷ tag_commit tag ∷ []) root commit in
    (
      λ h. (s.0 (ground arith), p.0 (ground arith)),
      λ (a, b). let x = s.1 a in let y = p.1 b in ground arith,
    )

-- The check finds nothing exactly when the release entry is of CoreKit's namespace, its stable tag
-- exists and leads to its full commit, and the adopted revision, where one is recorded or the status
-- is "git", is a full commit that is present and has the release among its ancestors.
pub check_release_ancestry_iff :
    (w : World) (repository : Text) (rust : Fields) (root : Location)
    → (check_release_ancestry w repository rust root ≡ []) ↔ IsAncestral w rust root
unfolding check_release_ancestry
check_release_ancestry_iff w repository rust root = (
  λ h. elim (Option-cases (as_dict (get rust (str "release")))) [
    | inl e ↦ absurd (ground (arith, e))
    | inr (d, e) ↦ elim (Option-cases (release_pair d)) [
      | inl f ↦ absurd (ground (arith, e, f))
      | inr ((tag, commit), f) ↦
          let parts =
            append-eq-nil (check_tag w repository root tag commit)
              (check_candidate w repository rust root commit) in
          let (x, y) = parts.0 (ground (arith, e, f)) in
          let (a, b) = (check_tag_iff w repository root tag commit).0 x in
          record {
            release = d;
            tag = tag;
            commit = commit;
            entry = (as_dict_iff _ d).0 e;
            namespace = (is_str_iff _ (str "corekit")).0 (ground (arith, e, f));
            pair = (release_pair_iff d tag commit).0 f;
            exists = a;
            resolves = b;
            adopted = (check_candidate_iff w repository rust root commit).0 y;
          }
    ]
  ],
  λ r.
      let e = (as_dict_iff _ r.release).1 r.entry in
      let f = (release_pair_iff r.release r.tag r.commit).1 r.pair in
      let g = (is_str_iff _ (str "corekit")).1 r.namespace in
      let k = (check_tag_iff w repository root r.tag r.commit).1 (r.exists, r.resolves) in
      let m = (check_candidate_iff w repository rust root r.commit).1 r.adopted in
      ground (arith, e, f, g, k, m),
)
