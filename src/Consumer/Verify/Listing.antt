-- ===== src/Consumer/Verify/Listing.antt =====
-- The repositories of a report (`verify_manifest` of port/consumer/verify.py).
use symaira_corekit.Base.{
  ◌≡◌, refl, sym, ap, ◌∙◌, subst, inl, inr, Bool, true, false, ◌||◌, none, some, List, [], ◌∷◌,
  arith, Text, str, Bool-cases, Option-cases, any, contains, contains-any, length, list_beq_iff,
  ◌==◌, nat_eq, list_eq, option_eq, bool_eq, pair_eq,
}
use symaira_corekit.Base.Sorting.{
  IsSorted, any-insert_sorted, contains-sorted, insert_sorted, sorted, sorted-IsSorted, text_le,
  text_le_total, text_le_trans,
}
use symaira_corekit.Consumer.Findings.{returns}
use symaira_corekit.Consumer.Records.{checked_repositories, named_record}
use symaira_corekit.Consumer.Verify.{
  Arguments, Verification, load_manifest, report_of, verification,
}
use symaira_corekit.Consumer.Verify.Reported.{verification-Reported}
use symaira_corekit.Consumer.World.{Location, World}
use symaira_corekit.Json.{Value, as_list, get_in}

-- No text twice.
abbrev pub Distinct : List Text → Type 0
Distinct [] = Unit
Distinct (x ∷ xs) = (contains xs x ≡ false) × Distinct xs

-- The record has the shape, and names the repository.
unfoldable pub names : Text → Value → Bool
unfolding named_record
names repository v = elim (named_record v) [
  | none ↦ false
  | some (found, record') ↦ repository == found
]

contains-checked_repositories :
    (r : Text) (seen : List Text) (vs : List Value)
    → contains (checked_repositories seen vs) r ≡ (contains seen r || any (names r) vs)
unfolding checked_repositories names
contains-checked_repositories r seen [] = ground arith
contains-checked_repositories r seen (v ∷ vs) = elim (Option-cases (named_record v)) [
  | inl e ↦ ground (arith, e, contains-checked_repositories r seen vs)
  | inr ((repository, record'), e) ↦ elim (Bool-cases (contains seen repository)) [
    | inl f ↦ elim (Bool-cases (r == repository)) [
      | inl g ↦
          let same : r ≡ repository = (list_beq_iff r repository).0 g in
          let known : contains seen r ≡ true = subst (λ x. contains seen x ≡ true) (sym same) f in
          ground (arith, e, f, known, contains-checked_repositories r seen vs)
      | inr g ↦ ground (arith, e, f, g, contains-checked_repositories r seen vs)
    ]
    | inr f ↦ ground (arith, e, f, contains-checked_repositories r (repository ∷ seen) vs)
  ]
]

checked_repositories-Distinct :
    (seen : List Text) (vs : List Value) → Distinct seen → Distinct (checked_repositories seen vs)
unfolding checked_repositories
checked_repositories-Distinct seen [] h = h
checked_repositories-Distinct seen (v ∷ vs) h = elim (Option-cases (named_record v)) [
  | inl e ↦ rw (e, checked_repositories) (checked_repositories-Distinct seen vs h)
  | inr ((repository, record'), e) ↦ elim (Bool-cases (contains seen repository)) [
    | inl f ↦ rw (e, f, checked_repositories) (checked_repositories-Distinct seen vs h)
    | inr f ↦
        rw (e, f, checked_repositories)
          (checked_repositories-Distinct (repository ∷ seen) vs (f, h))
  ]
]

contains-insert_sorted :
    (a : Text) (xs : List Text) (r : Text)
    → contains (insert_sorted text_le a xs) r ≡ (r == a || contains xs r)
contains-insert_sorted a xs r =
    contains-any (insert_sorted text_le a xs) r
    ∙ (any-insert_sorted text_le (λ x. r == x) a xs
        ∙ ap (λ b. r == a || b) (sym (contains-any xs r)))

insert_sorted-Distinct :
    (a : Text) (xs : List Text)
    → contains xs a ≡ false
    → Distinct xs
    → Distinct (insert_sorted text_le a xs)
unfolding insert_sorted
insert_sorted-Distinct a [] h k = (refl, tt)
insert_sorted-Distinct a (x ∷ xs) h (k, l) = elim (Bool-cases (text_le a x)) [
  | inl e ↦ rw e (h, (k, l))
  | inr e ↦ rw e (
    ground (arith, h, k, contains-insert_sorted a xs x, list_beq_iff a x, list_beq_iff x a),
    insert_sorted-Distinct a xs (ground (arith, h)) l,
  )
]

sorted-Distinct : (xs : List Text) → Distinct xs → Distinct (sorted text_le xs)
unfolding sorted
sorted-Distinct [] h = h
sorted-Distinct (x ∷ xs) (h, k) =
    insert_sorted-Distinct x (sorted text_le xs) (contains-sorted xs x ∙ h) (sorted-Distinct xs k)

-- The list of a report, against the records of the manifest.
pub record IsListing (w : World) (args : Arguments) (report : Verification) : Type 0 where
  pub document : Value
  pub records : List Value
  pub loaded : load_manifest w (w.resolve args.manifest) ≡ returns document
  pub consumers : as_list (get_in document (str "consumers")) ≡ some records
  pub count : report.consumer_count ≡ length records
  pub in_order : IsSorted text_le report.checked_repositories
  pub distinct : Distinct report.checked_repositories
  pub complete :
      (r : Text)
      → contains report.checked_repositories r ≡ (r == str "corekit" || any (names r) records)

-- When the verification gives a report, the manifest that the command line names was loaded, the report counts the
-- elements of its `consumers` list, and it lists, in order and without repetition, exactly "corekit" and the
-- repositories that the well-formed records of that list name.
pub verification-IsListing :
    (w : World) (root : Location) (args : Arguments) (report : Verification)
    → verification w root args ≡ returns report
    → IsListing w args report
unfolding report_of
verification-IsListing w root args report h =
    let (document, loaded, (records, findings, consumers, e)) =
      verification-Reported w root args report h in
    let start = str "corekit" ∷ [] in
    let listed = checked_repositories start records in
    subst (IsListing w args) (sym e) (record {
      document = document;
      records = records;
      loaded = loaded;
      consumers = consumers;
      count = refl;
      in_order = sorted-IsSorted text_le text_le_total text_le_trans listed;
      distinct = sorted-Distinct listed (checked_repositories-Distinct start records (refl, tt));
      complete = λ r.
          ground (arith, contains-sorted listed r, contains-checked_repositories r start records);
    })
