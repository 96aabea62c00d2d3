-- ===== src/Trust/Origin.antt =====
-- What an accepted origin is (scripts/rust-port/trust.py).
use symaira_corekit.Base.{
  ℕ, ◌≡◌, refl, ap, ◌∙◌, subst, ◌≢◌, inl, inr, true, false, Option, some, List, [], ◌∷◌, ◌++◌,
  arith, Text, str, All, Bool-cases, Option-cases, contains, is_empty_iff, list_beq_iff,
  nat_beq_iff, ◌==◌, nat_eq, list_eq, option_eq, bool_eq, pair_eq,
}
use symaira_corekit.Base.Strings.{push, split_on, strip}
use symaira_corekit.Json.{Value, arr, bool, int, neg, null, obj, text}
use symaira_corekit.Trust.{
  allowed_remote, assert_origin, repository_slug_from_remote, slug_of, trimmed,
}
use symaira_corekit.Trust.Remote.{IsAddress, address_lem}

-- An owner and a name, each a text that is not empty and has no slash.
pub record IsSlug (slug : Text) : Type 0 where
  pub owner : Text
  pub name : Text
  pub parts : slug ≡ owner ++ 47 ∷ name
  pub some_owner : owner ≢ []
  pub some_name : name ≢ []
  pub plain_owner : contains owner 47 ≡ false
  pub plain_name : contains name 47 ≡ false

push_lem :
    (c : ℕ) (ps : List Text)
    → (47 == c) ≡ false
    → All (λ p. contains p 47 ≡ false) ps
    → All (λ p. contains p 47 ≡ false) (push c ps)
unfolding push
push_lem c [] h k = (ground (arith, h), tt)
push_lem c (p ∷ ps) h (k, l) = (ground (arith, h, k), l)

split_lem : (s : Text) → All (λ p. contains p 47 ≡ false) (split_on 47 s)
unfolding split_on
split_lem [] = (refl, tt)
split_lem (c ∷ s) = elim (Bool-cases (c == 47)) [
  | inl e ↦ rw (e, split_on) (refl, split_lem s)
  | inr e ↦
      let other : (47 == c) ≡ false = ground (arith, e, nat_beq_iff c 47, nat_beq_iff 47 c) in
      rw (e, split_on) (push_lem c (split_on 47 s) other (split_lem s))
]

slug_of-IsSlug :
    (parts : List Text) (slug : Text)
    → All (λ p. contains p 47 ≡ false) parts
    → slug_of parts ≡ some slug
    → IsSlug slug
unfolding slug_of
slug_of-IsSlug [] slug plain h = absurd (ground (arith, h))
slug_of-IsSlug (owner ∷ []) slug plain h = absurd (ground (arith, h))
slug_of-IsSlug (owner ∷ name ∷ []) slug (p, (q, _)) h = record {
  owner = owner;
  name = name;
  parts = ground (arith, h);
  some_owner = λ e. let gone = (is_empty_iff owner).1 e in absurd (ground (arith, h, gone));
  some_name = λ e. let gone = (is_empty_iff name).1 e in absurd (ground (arith, h, gone));
  plain_owner = p;
  plain_name = q;
}
slug_of-IsSlug (owner ∷ name ∷ other ∷ rest) slug plain h = absurd (ground (arith, h))

-- The origin of a checkout is the repository of its record.
pub record IsOrigin (git : List Text → Option Text) (v : Value) (remote : Text) : Type 0 where
  pub repository : Text
  pub given : v ≡ text repository
  pub asked : git (str "remote" ∷ str "get-url" ∷ str "origin" ∷ []) ≡ some remote
  pub address : IsAddress (strip remote) repository
  pub slug : IsSlug repository

slug_lem :
    (remote repository : Text)
    → repository_slug_from_remote remote ≡ some repository
    → (value : Text) × (allowed_remote (strip remote) ≡ some value)
      × (slug_of (split_on 47 (trimmed value)) ≡ some repository)
unfolding repository_slug_from_remote
slug_lem remote repository h = elim (Option-cases (allowed_remote (strip remote))) [
  | inl e ↦ absurd (ground (arith, h, e))
  | inr (value, e) ↦ (value, e, ground (arith, h, e))
]

-- An accepted origin is the remote that Git names. Without the white space around it, it is "git@github.com:",
-- "https://github.com/" or "http://github.com/", then the repository of the record, which is an owner and a name with
-- one slash between, then perhaps ".git", then slashes, if any, and then nothing or a text that begins with "?" or "#".
pub assert_origin-IsOrigin :
    (git : List Text → Option Text) (v : Value) (remote : Text)
    → assert_origin git v ≡ some remote
    → IsOrigin git v remote
unfolding assert_origin
assert_origin-IsOrigin git (text repository) remote h =
    let command : List Text = str "remote" ∷ str "get-url" ∷ str "origin" ∷ [] in
    elim (Option-cases (git command)) [
      | inl e ↦ absurd (ground (arith, h, e))
      | inr (found, e) ↦ elim (Option-cases (repository_slug_from_remote found)) [
        | inl f ↦ absurd (ground (arith, h, e, f))
        | inr (actual, f) ↦
            let exact : (actual == repository) ≡ true = ground (arith, h, e, f) in
            let same : actual ≡ repository = (list_beq_iff actual repository).0 exact in
            let this : found ≡ remote = ground (arith, h, e, f) in
            let (value, allowed, slug) = slug_lem remote repository (
              subst (λ r. repository_slug_from_remote r ≡ some repository) this
                (f ∙ ap some same)) in
            record {
              repository = repository;
              given = refl;
              asked = e ∙ ap some this;
              address = address_lem (strip remote) value repository allowed slug;
              slug =
                  slug_of-IsSlug (split_on 47 (trimmed value)) repository
                    (split_lem (trimmed value)) slug;
            }
      ]
    ]
assert_origin-IsOrigin git null remote h = absurd (ground (arith, h))
assert_origin-IsOrigin git (bool b) remote h = absurd (ground (arith, h))
assert_origin-IsOrigin git (int n) remote h = absurd (ground (arith, h))
assert_origin-IsOrigin git (neg n) remote h = absurd (ground (arith, h))
assert_origin-IsOrigin git (arr l) remote h = absurd (ground (arith, h))
assert_origin-IsOrigin git (obj d) remote h = absurd (ground (arith, h))
