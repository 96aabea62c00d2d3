-- ===== src/Consumer/Release/Laws.antt =====
-- What a clean release check says of the tag, the commit and the adopted revision
-- (`_check_consumer_release` and `_check_release_ancestry` of port/consumer/verify.py).
use symaira_corekit.Base.{
  Bool, true, ◌≡◌, ap, ◌↔◌, inl, inr, List, [], ◌∷◌, some, Text, str, ◌==◌, list_eq, list_beq_iff,
  nat_eq, arith, Bool-cases, Option-cases, and_iff, nat_beq_iff,
}
use symaira_corekit.Json.{Value, null, bool, int, neg, text, arr, obj, Fields, get, as_dict}
use symaira_corekit.Json.Laws.{is_str_iff, as_dict_iff, text-injective}
use symaira_corekit.Consumer.Patterns.{is_revision, is_release_tag}
use symaira_corekit.Consumer.World.{World, Location, git, succeeds, prints, tag_commit}
use symaira_corekit.Consumer.Release.{checked, release_pair, check_consumer_release}

-- Git succeeds, and prints the expected text.
pub record Answers (w : World) (args : List Text) (cwd : Location) (expected : Text) : Type 0 where
  pub success : (git w args cwd).returncode ≡ 0
  pub output : (git w args cwd).stdout ≡ expected

pub prints_iff :
    (w : World) (args : List Text) (cwd : Location) (expected : Text)
    → (prints w args cwd expected ≡ true) ↔ Answers w args cwd expected
unfolding prints succeeds
prints_iff w args cwd expected =
    let c = nat_beq_iff (git w args cwd).returncode 0 in
    let o = list_beq_iff (git w args cwd).stdout expected in
    let both = and_iff (succeeds w args cwd) ((git w args cwd).stdout == expected) in
    (
      λ h. let (p, q) = both.0 h in record { success = c.0 p; output = o.0 q },
      λ a. both.1 (c.1 a.success, o.1 a.output),
    )

pub succeeds_iff :
    (w : World) (args : List Text) (cwd : Location)
    → (succeeds w args cwd ≡ true) ↔ ((git w args cwd).returncode ≡ 0)
unfolding succeeds
succeeds_iff w args cwd = nat_beq_iff (git w args cwd).returncode 0

pub checked_iff :
    (p : Text → Bool) (v : Value) (t : Text)
    → (checked p v ≡ some t) ↔ ((v ≡ text t) × (p t ≡ true))
unfolding checked
checked_iff p (text s) t = elim (Bool-cases (p s)) [
  | inl e ↦ rw e (
    λ h. let same : s ≡ t = cc h in (ap text same, rw (← same) e),
    λ (h, k). ap some (text-injective s t h),
  )
  | inr e ↦ rw e (λ h. cc, λ (h, k). cc (e, k, text-injective s t h))
]
checked_iff p null t = (λ h. cc, λ h. cc (h.0))
checked_iff p (bool b) t = (λ h. cc, λ h. cc (h.0))
checked_iff p (int n) t = (λ h. cc, λ h. cc (h.0))
checked_iff p (neg n) t = (λ h. cc, λ h. cc (h.0))
checked_iff p (arr l) t = (λ h. cc, λ h. cc (h.0))
checked_iff p (obj d) t = (λ h. cc, λ h. cc (h.0))

-- A stable tag and a full commit, in the fields of the entry.
pub record IsPair (release : Fields) (tag commit : Text) : Type 0 where
  pub tag_field : get release (str "tag") ≡ text tag
  pub stable : is_release_tag tag ≡ true
  pub commit_field : get release (str "commit") ≡ text commit
  pub full : is_revision commit ≡ true

pub release_pair_iff :
    (release : Fields) (tag commit : Text)
    → (release_pair release ≡ some (tag, commit)) ↔ IsPair release tag commit
unfolding release_pair
release_pair_iff release tag commit =
    let t = checked_iff is_release_tag (get release (str "tag")) tag in
    let c = checked_iff is_revision (get release (str "commit")) commit in
    (
      λ h.
          let (a, b) = t.0 (ground arith) in
          let (p, q) = c.0 (ground arith) in
          record { tag_field = a; stable = b; commit_field = p; full = q },
      λ r.
          let x = t.1 (r.tag_field, r.stable) in
          let y = c.1 (r.commit_field, r.full) in ground arith,
    )

-- The consumer's own release is the snapshot that is checked.
pub record IsConsumerRelease (w : World) (record' : Fields) (checkout : Location) : Type 0 where
  pub release : Fields
  pub tag : Text
  pub commit : Text
  pub entry : get record' (str "consumer_release") ≡ obj release
  pub pair : IsPair release tag commit
  pub resolves : Answers w (str "rev-parse" ∷ str "--verify" ∷ tag_commit tag ∷ []) checkout commit
  pub snapshot : get record' (str "checkout_commit") ≡ text commit

-- The check finds nothing exactly when the record names a stable tag and a full commit, Git resolves
-- the tag to that commit in the checkout, and the commit is the recorded checkout commit.
pub check_consumer_release_iff :
    (w : World) (record' : Fields) (checkout : Location)
    → (check_consumer_release w record' checkout ≡ []) ↔ IsConsumerRelease w record' checkout
unfolding check_consumer_release
check_consumer_release_iff w record' checkout = (
  λ h. elim (Option-cases (as_dict (get record' (str "consumer_release")))) [
    | inl e ↦ absurd (ground (arith, e))
    | inr (d, e) ↦ elim (Option-cases (release_pair d)) [
      | inl f ↦ absurd (ground (arith, e, f))
      | inr ((tag, commit), f) ↦ record {
        release = d;
        tag = tag;
        commit = commit;
        entry = (as_dict_iff _ d).0 e;
        pair = (release_pair_iff d tag commit).0 f;
        resolves = (prints_iff w _ checkout commit).0 (ground (arith, e, f));
        snapshot = (is_str_iff _ commit).0 (ground (arith, e, f));
      }
    ]
  ],
  λ r.
      let e = (as_dict_iff _ r.release).1 r.entry in
      let f = (release_pair_iff r.release r.tag r.commit).1 r.pair in
      let g = (prints_iff w _ checkout r.commit).1 r.resolves in
      let k = (is_str_iff _ r.commit).1 r.snapshot in ground (arith, e, f, g, k),
)
