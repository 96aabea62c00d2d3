-- ===== src/ReleasePlan/Crates.antt =====
-- The crates of an accepted release manifest (`validate_manifest_shape` of port/release/verify.py).
use symaira_corekit.Base.{
  ◌≤◌, ◌≡◌, refl, sym, subst, inl, inr, Bool, true, false, some, List, [], ◌∷◌, arith, Text, str,
  All, Option-cases, all, all_iff, contains, is_empty, is_empty_iff, length, ltb_iff, nat_eq,
  list_eq, option_eq,
}
use symaira_corekit.Base.Verdict.{accepts, and_then-accepts}
use symaira_corekit.Json.{Fields, Value, arr, as_list, bool, get, int, neg, null, obj, text}
use symaira_corekit.Json.Laws.{text_that_iff}
use symaira_corekit.ReleasePlan.{
  as_bool, check_adoption, check_crate, check_crates, check_fields, check_name, elements,
  is_nonempty, is_version,
}

-- An entry of `release.crates`.
pub record IsCrate (name : Text) (crate : Fields) : Type 0 where
  pub adopted : Bool
  pub publishable : Bool
  pub adopters : List Value
  pub name_field : get crate (str "name") ≡ text name
  pub some_name : is_empty name ≡ false
  pub version : (t : Text) × (get crate (str "version") ≡ text t) × (is_version t ≡ true)
  pub adopted_field : as_bool (get crate (str "adopted")) ≡ some adopted
  pub publishable_field : as_bool (get crate (str "publishable")) ≡ some publishable
  pub adopters_field : as_list (get crate (str "adopters")) ≡ some adopters
  pub filled_adopters : All (λ v. is_nonempty v ≡ true) adopters
  pub independent : adopted ≡ true → 2 ≤ length (elements adopters)
  pub unadopted : adopted ≡ false → (adopters ≡ []) × (publishable ≡ false)

-- The entries are crates, and none repeats a name.
pub data Named : List Text → List Value → List (Text × Fields) → Type 0 where
  end_of_crates : {names : List Text} → Named names [] []
  one_crate :
      {names : List Text} {name : Text} {crate : Fields} {vs : List Value}
      {crates : List (Text × Fields)}
      → IsCrate name crate
      → contains names name ≡ false
      → Named (name ∷ names) vs crates
      → Named names (obj crate ∷ vs) ((name, crate) ∷ crates)

adoption_lem :
    (adopted publishable : Bool) (adopters : List Value)
    → check_adoption adopted publishable adopters ≡ true
    → (adopted ≡ true → 2 ≤ length (elements adopters))
      × (adopted ≡ false → (adopters ≡ []) × (publishable ≡ false))
unfolding check_adoption
adoption_lem adopted publishable adopters h = (
  λ a. ground (arith, h, a, ltb_iff (length (elements adopters)) 2),
  λ a. ((is_empty_iff adopters).0 (ground (arith, h, a)), ground (arith, h, a)),
)

fields_lem :
    (name : Text) (crate : Fields)
    → get crate (str "name") ≡ text name
    → is_empty name ≡ false
    → check_fields crate ≡ true
    → IsCrate name crate
unfolding check_fields
fields_lem name crate named some_name h =
    elim (Option-cases (as_bool (get crate (str "adopted")))) [
      | inl e ↦ absurd (ground (arith, h, e))
      | inr (adopted, e) ↦ elim (Option-cases (as_bool (get crate (str "publishable")))) [
        | inl f ↦ absurd (ground (arith, h, e, f))
        | inr (publishable, f) ↦ elim (Option-cases (as_list (get crate (str "adopters")))) [
          | inl g ↦ absurd (ground (arith, h, e, f, g))
          | inr (adopters, g) ↦
              let filled : all is_nonempty adopters ≡ true = ground (arith, h, e, f, g) in
              let adoption : check_adoption adopted publishable adopters ≡ true =
                ground (arith, h, e, f, g) in
              let (independent, unadopted) = adoption_lem adopted publishable adopters adoption in
              record {
                adopted = adopted;
                publishable = publishable;
                adopters = adopters;
                name_field = named;
                some_name = some_name;
                version =
                    (text_that_iff is_version (get crate (str "version"))).0 (ground (arith, h));
                adopted_field = e;
                publishable_field = f;
                adopters_field = g;
                filled_adopters = (all_iff is_nonempty adopters).0 filled;
                independent = independent;
                unadopted = unadopted;
              }
        ]
      ]
    ]

-- An entry that is accepted.
abbrev Accepted : List Text → Value → Text → Fields → Type 0
Accepted names v name crate = (v ≡ obj crate) × (contains names name ≡ false) × IsCrate name crate

name_lem :
    (names : List Text) (crate : Fields) (v : Value) (found : Text × Fields)
    → get crate (str "name") ≡ v
    → check_name names crate v ≡ accepts found
    → Accepted names (obj crate) found.0 found.1
unfolding check_name
name_lem names crate (text name) found e h =
    let same : (name, crate) ≡ found = ground (arith, h) in
    subst (λ p. Accepted names (obj crate) p.0 p.1) same
      (refl, ground (arith, h), fields_lem name crate e (ground (arith, h)) (ground (arith, h)))
name_lem names crate null found e h = absurd (ground (arith, h))
name_lem names crate (bool b) found e h = absurd (ground (arith, h))
name_lem names crate (int n) found e h = absurd (ground (arith, h))
name_lem names crate (neg n) found e h = absurd (ground (arith, h))
name_lem names crate (arr l) found e h = absurd (ground (arith, h))
name_lem names crate (obj d) found e h = absurd (ground (arith, h))

crate_lem :
    (names : List Text) (v : Value) (found : Text × Fields)
    → check_crate names v ≡ accepts found
    → Accepted names v found.0 found.1
unfolding check_crate
crate_lem names (obj crate) found h =
    name_lem names crate (get crate (str "name")) found refl (ground (arith, h))
crate_lem names null found h = absurd (ground (arith, h))
crate_lem names (bool b) found h = absurd (ground (arith, h))
crate_lem names (int n) found h = absurd (ground (arith, h))
crate_lem names (neg n) found h = absurd (ground (arith, h))
crate_lem names (text t) found h = absurd (ground (arith, h))
crate_lem names (arr l) found h = absurd (ground (arith, h))

pub check_crates-Named :
    (names : List Text) (vs : List Value) (crates : List (Text × Fields))
    → check_crates names vs ≡ accepts crates
    → Named names vs crates
unfolding check_crates
check_crates-Named names [] crates h =
    let e : [] ≡ crates = ground (arith, h) in subst (Named names []) e end_of_crates
check_crates-Named names (v ∷ vs) crates h =
    let ((name, crate), e, k) = and_then-accepts (check_crate names v) _ crates h in
    let (rest, f, l) = and_then-accepts (check_crates (name ∷ names) vs) _ crates k in
    let (is_obj, fresh, is_crate) = crate_lem names v (name, crate) e in
    let together : (name, crate) ∷ rest ≡ crates = ground (arith, l) in
    subst (Named names (v ∷ vs)) together (
      subst (λ x. Named names (x ∷ vs) ((name, crate) ∷ rest)) (sym is_obj)
        (one_crate is_crate fresh (check_crates-Named (name ∷ names) vs rest f)))
