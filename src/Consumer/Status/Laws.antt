-- ===== src/Consumer/Status/Laws.antt =====
-- The Rust adoption states that a clean check admits (`_validate_rust_status` of
-- port/consumer/verify.py).
use symaira_corekit.Base.{
  true, false, ◌≡◌, refl, ◌↔◌, ◌⊎◌, inl, inr, [], Text, str, ◌==◌, list_eq, nat_eq, arith,
  Bool-cases, Option-cases,
}
use symaira_corekit.Json.{
  Value, Fields, end, field, null, bool, int, neg, text, arr, obj, get, has, is_str, as_dict,
}
use symaira_corekit.Json.Laws.{is_str_iff, as_dict_iff}
use symaira_corekit.Consumer.Findings.{returns}
use symaira_corekit.Consumer.Status.{is_hashable, is_rust_status, validate_rust_status}

-- The record names one of the three states.
pub record HasStatus (record' : Fields) : Type 0 where
  pub rust : Fields
  pub entry : get record' (str "rust") ≡ obj rust
  pub status :
      (get rust (str "status") ≡ text (str "not_adopted"))
      ⊎ ((get rust (str "status") ≡ text (str "git"))
          ⊎ (get rust (str "status") ≡ text (str "registry")))

has-get : (d : Fields) (k : Text) → has d k ≡ false → get d k ≡ null
unfolding has get
has-get end k h = refl
has-get (field j v d) k h = elim (Bool-cases (j == k)) [
  | inl e ↦ absurd (ground (arith, h, e))
  | inr e ↦ let rest : has d k ≡ false = ground (arith, h, e) in ground (arith, e, has-get d k rest)
]

text_hashable : (v : Value) → is_hashable v ≡ false → is_rust_status v ≡ false
unfolding is_hashable is_rust_status is_str
text_hashable (arr l) h = refl
text_hashable (obj d) h = refl
text_hashable null h = absurd (ground (arith, h))
text_hashable (bool b) h = absurd (ground (arith, h))
text_hashable (int n) h = absurd (ground (arith, h))
text_hashable (neg n) h = absurd (ground (arith, h))
text_hashable (text t) h = absurd (ground (arith, h))

-- The check finds nothing, and raises nothing, exactly when the record has a Rust entry with the status
-- "not_adopted", "git" or "registry".
pub validate_rust_status_iff :
    (record' : Fields) → (validate_rust_status record' ≡ returns []) ↔ HasStatus record'
unfolding validate_rust_status is_rust_status
validate_rust_status_iff record' = (
  λ h. elim (Option-cases (as_dict (get record' (str "rust")))) [
    | inl e ↦ absurd (ground (arith, h, e))
    | inr (rust, e) ↦
        let s = get rust (str "status") in
        record {
          rust = rust;
          entry = (as_dict_iff _ rust).0 e;
          status = ground (
            arith,
            h,
            e,
            is_str_iff s (str "not_adopted"),
            is_str_iff s (str "git"),
            is_str_iff s (str "registry"),
          );
        }
  ],
  λ r.
      let s = get r.rust (str "status") in
      let e = (as_dict_iff _ r.rust).1 r.entry in
      let known : is_rust_status s ≡ true = ground (
        arith,
        r.status,
        is_str_iff s (str "not_adopted"),
        is_str_iff s (str "git"),
        is_str_iff s (str "registry"),
      ) in
      elim (Bool-cases (has record' (str "rust"))) [
        | inr g ↦ let gone = has-get record' (str "rust") g in cc (gone, r.entry)
        | inl g ↦ elim (Bool-cases (is_hashable s)) [
          | inr n ↦ let bad = text_hashable s n in cc (bad, known)
          | inl n ↦ ground (arith, e, g, n, known)
        ]
      ],
)
