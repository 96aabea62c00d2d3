-- ===== src/Consumer/Registry/Laws.antt =====
-- What an accepted registry read-back says (`_check_registry_readback` of port/consumer/verify.py).
use symaira_corekit.Base.{
  true, false, not, ◌≡◌, sym, ap, subst, ◌∙◌, ◌↔◌, inl, inr, ◌&&◌, List, [], ◌∷◌, some, Text, str,
  list_eq, list_beq_iff, nat_eq, all, length, arith, Option-cases, is_empty, is_empty_iff, all_iff,
  All, All-map, ◌≢◌,
}
use symaira_corekit.Base.Strings.{strip}
use symaira_corekit.Json.{
  Value, text, Fields, get, get_or, is_str, text_that, value_eq, as_list, has_duplicates,
}
use symaira_corekit.Json.Laws.{is_str_iff, text_that_iff, value_eq-text}
use symaira_corekit.Consumer.Patterns.{is_hex, is_digest, is_index_url}
use symaira_corekit.Consumer.Patterns.Laws.{is_digest_iff}
use symaira_corekit.Consumer.World.{World}
use symaira_corekit.Consumer.Registry.{
  corekit_package, registry_readback, good_owners, is_filled, is_uniform, expected_source,
  check_checksums, check_readback, check_registry_readback,
}

-- All three digests are one text of 64 lowercase hexadecimal digits, not all the same.
pub record SameDigest (a b c : Value) : Type 0 where
  pub digest : Text
  pub size : length digest ≡ 64
  pub hex : all is_hex digest ≡ true
  pub varied : is_uniform digest ≡ false
  pub first : a ≡ text digest
  pub second : b ≡ text digest
  pub third : c ≡ text digest

all_digests :
    (a b c : Value)
    → all (text_that is_digest) (a ∷ b ∷ c ∷ []) ≡ true
    → (s : Text) × (t : Text) × (u : Text) × (a ≡ text s)
      × (b ≡ text t)
      × (c ≡ text u)
      × (is_digest s ≡ true)
all_digests a b c h =
    let (s, e, k) = (text_that_iff is_digest a).0 (ground arith) in
    let (t, f, l) = (text_that_iff is_digest b).0 (ground arith) in
    let (u, g, m) = (text_that_iff is_digest c).0 (ground arith) in (s, t, u, e, f, g, k)

checksums_texts :
    (r s t u : Text)
    → is_digest s ≡ true
    → (check_checksums r (text s) (text t) (text u) ≡ [])
    → (s ≡ u) × (t ≡ s) × (is_uniform s ≡ false)
unfolding check_checksums text_that
checksums_texts r s t u k h =
    ground (arith, list_beq_iff s u, list_beq_iff t s, value_eq-text s u, value_eq-text t s)

checksums_agree :
    (r s : Text)
    → is_digest s ≡ true
    → is_uniform s ≡ false
    → check_checksums r (text s) (text s) (text s) ≡ []
unfolding check_checksums text_that
checksums_agree r s k h = ground (arith, list_beq_iff s s, value_eq-text s s)

checksums_shape :
    (r : Text) (a b c : Value)
    → check_checksums r a b c ≡ []
    → all (text_that is_digest) (a ∷ b ∷ c ∷ []) ≡ true
unfolding check_checksums
checksums_shape r a b c h = ground arith

pub check_checksums_iff :
    (r : Text) (a b c : Value) → (check_checksums r a b c ≡ []) ↔ SameDigest a b c
check_checksums_iff r a b c = (
  λ h.
      let (s, t, u, e, f, g, k) = all_digests a b c (checksums_shape r a b c h) in
      let (p, q, v) = checksums_texts r s t u k (rw (← e, ← f, ← g) h) in
      let (size, hex) = (is_digest_iff s).0 k in
      record {
        digest = s;
        size = size;
        hex = hex;
        varied = v;
        first = e;
        second = f ∙ ap text q;
        third = g ∙ ap text (sym p);
      },
  λ d.
      rw (d.first, d.second, d.third)
        (checksums_agree r d.digest ((is_digest_iff d.digest).1 (d.size, d.hex)) d.varied),
)

-- At least one owner, each a text that is not blank, and none twice.
pub record HasOwners (v : Value) : Type 0 where
  pub owners : List Value
  pub listed : as_list v ≡ some owners
  pub some_owner : owners ≢ []
  pub filled : All (λ o. (t : Text) × (o ≡ text t) × (strip t ≢ [])) owners
  pub distinct : has_duplicates owners ≡ false

is_filled_iff : (o : Value) → (is_filled o ≡ true) ↔ ((t : Text) × (o ≡ text t) × (strip t ≢ []))
unfolding is_filled
is_filled_iff o =
    let (to, from) = text_that_iff (λ t. not (is_empty (strip t))) o in
    (
      λ h. let (t, e, k) = to h in (t, e, λ blank. cc (k, (is_empty_iff (strip t)).1 blank)),
      λ (t, e, filled). from (
        t,
        e,
        ground (arith, λ (h : is_empty (strip t) ≡ true). filled ((is_empty_iff (strip t)).0 h)),
      ),
    )

good_owners_list :
    (owners : List Value)
    → ((not (is_empty owners) && all is_filled owners && not (has_duplicates owners)) ≡ true) ↔ (
        (owners ≢ [])
        × All (λ o. (t : Text) × (o ≡ text t) × (strip t ≢ [])) owners
        × (has_duplicates owners ≡ false))
good_owners_list owners =
    let e = is_empty_iff owners in
    let f = all_iff is_filled owners in
    (
      λ h. (
        λ none'. let k = e.1 none' in ground arith,
        All-map (λ o k. (is_filled_iff o).0 k) owners (f.0 (ground arith)),
        ground arith,
      ),
      λ (some_owner, filled, distinct).
          let k = f.1 (All-map (λ o m. (is_filled_iff o).1 m) owners filled) in
          ground (arith, is_empty_iff owners),
    )

pub good_owners_iff : (v : Value) → (good_owners v ≡ true) ↔ HasOwners v
unfolding good_owners
good_owners_iff v = elim (Option-cases (as_list v)) [
  | inl e ↦ rw (e, good_owners) (λ h. cc, λ o. cc (e, o.listed))
  | inr (l, e) ↦
      let (to, from) = good_owners_list l in
      rw (e, good_owners)
        (
          λ h.
              let (a, b, c) = to h in
              record { owners = l; listed = e; some_owner = a; filled = b; distinct = c },
          λ o.
              let same : o.owners ≡ l = cc (e, o.listed) in
              from (
                subst
                  (λ x.
                    (x ≢ [])
                    × All (λ o. (t : Text) × (o ≡ text t) × (strip t ≢ [])) x
                    × (has_duplicates x ≡ false))
                  same (o.some_owner, o.filled, o.distinct)),
        )
]

-- What the read-back of a released package has to say.
pub record IsReadback (w : World) (registry : Fields) (version lock_checksum : Value) : Type 0 where
  pub released : get registry (str "status") ≡ text (str "released")
  pub readback : Fields
  pub found : registry_readback registry ≡ some readback
  pub named : get readback (str "package") ≡ text corekit_package
  pub same_version : value_eq (get readback (str "version")) version ≡ true
  pub owned : HasOwners (get readback (str "owners"))
  pub index : (t : Text) × (get readback (str "index") ≡ text t) × (is_index_url t ≡ true)
  pub source :
      get_or readback (str "source") (get readback (str "evidence_source"))
      ≡ text (expected_source w version)
  pub digests :
      SameDigest
        (get readback (str "checksum"))
        (get_or readback (str "public_bytes") (get readback (str "public_bytes_sha256")))
        lock_checksum

-- The tests of the body, as one fact each.
abbrev Tests : World → Fields → Value → Value → Type 0
Tests w readback version lock_checksum =
    (is_str (get readback (str "package")) corekit_package ≡ true)
    × (value_eq (get readback (str "version")) version ≡ true)
    × (good_owners (get readback (str "owners")) ≡ true)
    × (text_that is_index_url (get readback (str "index")) ≡ true)
    × (is_str (get_or readback (str "source") (get readback (str "evidence_source")))
          (expected_source w version)
        ≡ true)
    × (check_checksums [] (get readback (str "checksum"))
          (get_or readback (str "public_bytes") (get readback (str "public_bytes_sha256")))
          lock_checksum
        ≡ [])

check_readback_iff :
    (w : World) (repository : Text) (readback : Fields) (version lock_checksum : Value)
    → (check_readback w repository readback version lock_checksum ≡ [])
      ↔ Tests w readback version lock_checksum
unfolding check_readback
check_readback_iff w repository readback version lock_checksum =
    let a = get readback (str "checksum") in
    let b = get_or readback (str "public_bytes") (get readback (str "public_bytes_sha256")) in
    let f = check_checksums_iff repository a b lock_checksum in
    let g = check_checksums_iff [] a b lock_checksum in
    (
      λ h. (
        ground arith,
        ground arith,
        ground arith,
        ground arith,
        ground arith,
        g.1 (f.0 (ground arith)),
      ),
      λ (p, q, r, s, t, u). let k = f.1 (g.0 u) in ground arith,
    )

IsReadback-Tests :
    (w : World) (registry : Fields) (version lock_checksum : Value)
    → (r : IsReadback w registry version lock_checksum) → Tests w r.readback version lock_checksum
IsReadback-Tests w registry version lock_checksum r = (
  (is_str_iff _ _).1 r.named,
  r.same_version,
  (good_owners_iff _).1 r.owned,
  (text_that_iff is_index_url _).1 r.index,
  (is_str_iff _ _).1 r.source,
  (check_checksums_iff [] _ _ lock_checksum).1 r.digests,
)

-- The check finds nothing exactly when the registry is released and its read-back names the package,
-- the expected version and the stable source, distinct owners and an index of crates.io, and gives
-- one digest for the checksum, the public bytes and the lock file.
pub check_registry_readback_iff :
    (w : World) (repository : Text) (registry : Fields) (version lock_checksum : Value)
    → (check_registry_readback w repository registry version lock_checksum ≡ [])
      ↔ IsReadback w registry version lock_checksum
unfolding check_registry_readback
check_registry_readback_iff w repository registry version lock_checksum =
    let released = is_str_iff (get registry (str "status")) (str "released") in
    elim (Option-cases (registry_readback registry)) [
      | inl e ↦ (λ h. absurd (ground arith), λ r. cc (e, r.found))
      | inr (d, e) ↦
          let body = check_readback_iff w repository d version lock_checksum in
          let named = is_str_iff (get d (str "package")) corekit_package in
          let source =
            is_str_iff (get_or d (str "source") (get d (str "evidence_source")))
              (expected_source w version) in
          let index = text_that_iff is_index_url (get d (str "index")) in
          let owners = good_owners_iff (get d (str "owners")) in
          (
            λ h.
                let (p, q, r, s, t, u) = body.0 (ground (arith, e)) in
                record {
                  released = released.0 (ground (arith, e));
                  readback = d;
                  found = e;
                  named = named.0 p;
                  same_version = q;
                  owned = owners.0 r;
                  index = index.0 s;
                  source = source.0 t;
                  digests = (check_checksums_iff [] _ _ lock_checksum).0 u;
                },
            λ r.
                let tests = IsReadback-Tests w registry version lock_checksum r in
                let clean =
                  (check_readback_iff w repository r.readback version lock_checksum).1 tests in
                let status = released.1 r.released in ground (arith, r.found),
          )
    ]
