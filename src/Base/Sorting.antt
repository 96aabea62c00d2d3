-- ===== src/Base/Sorting.antt =====
-- Python's `sorted`: a stable sort by an order given as a Boolean test, and the order of texts.
use mathlib.Core.Path.{◌≡◌, refl, sym, ◌∙◌}
use mathlib.Core.Logic.{◌↔◌, ◌≢◌, inl, inr}
use mathlib.Core.Bool.{Bool, true, false, ◌&&◌, ◌||◌}
use mathlib.Core.List.{List, [], ◌∷◌, Perm}
use mathlib.Core.List.Perm
use native.Mathlib.Omega.{arith}
use symaira_corekit.Base.Tests.{ltb, if◌then◌else◌, Bool-cases}
use symaira_corekit.Base.Lists.{all, any, All, select}
use symaira_corekit.Base.Equality.{contains, contains-any, ◌==◌, nat_eq, list_eq}
use symaira_corekit.Base.Strings.{Text}

-- Code points decide at the first place where the texts differ; a prefix comes first.
unfoldable pub text_le : Text → Text → Bool
text_le [] t = true
text_le (a ∷ s) [] = false
text_le (a ∷ s) (b ∷ t) = ltb a b || (let rest = text_le s t in if ltb b a then false else rest)

module _ {A : Type 0} (le : A → A → Bool) where
  unfoldable pub insert_sorted : A → List A → List A
  insert_sorted a [] = a ∷ []
  insert_sorted a (x ∷ xs) = if le a x then a ∷ x ∷ xs else x ∷ insert_sorted a xs

  unfoldable pub sorted : List A → List A
  unfolding insert_sorted
  sorted [] = []
  sorted (x ∷ xs) = insert_sorted x (sorted xs)

  insert_sorted-perm : (a : A) (xs : List A) → Perm (insert_sorted a xs) (a ∷ xs)
  unfolding insert_sorted
  insert_sorted-perm a [] = Perm.rfl
  insert_sorted-perm a (x ∷ xs) = elim (Bool-cases (le a x)) [
    | inl before ↦ rw before Perm.rfl
    | inr after ↦ rw after (Perm.trans (Perm.cons x (insert_sorted-perm a xs)) (Perm.swap a x xs))
  ]

  pub sorted-perm : (xs : List A) → Perm (sorted xs) xs
  unfolding sorted
  sorted-perm [] = Perm.rfl
  sorted-perm (x ∷ xs) =
      Perm.trans (insert_sorted-perm x (sorted xs)) (Perm.cons x (sorted-perm xs))

  all-insert_sorted :
      (p : A → Bool) (a : A) (xs : List A) → all p (insert_sorted a xs) ≡ (p a && all p xs)
  unfolding insert_sorted
  all-insert_sorted p a [] = refl
  all-insert_sorted p a (x ∷ xs) = ground (arith, all-insert_sorted p a xs)

  -- A test that looks at all items does not see the order.
  pub all-sorted : (p : A → Bool) (xs : List A) → all p (sorted xs) ≡ all p xs
  unfolding sorted
  all-sorted p [] = refl
  all-sorted p (x ∷ xs) = ground (arith, all-insert_sorted p x (sorted xs), all-sorted p xs)

  All-insert_sorted :
      (P : A → Type 0) (a : A) (xs : List A) → All P (insert_sorted a xs) ↔ (P a × All P xs)
  unfolding insert_sorted
  All-insert_sorted P a [] = (λ h. h, λ h. h)
  All-insert_sorted P a (x ∷ xs) = elim (Bool-cases (le a x)) [
    | inl before ↦ rw before (λ h. h, λ h. h)
    | inr after ↦
        let (to, from) = All-insert_sorted P a xs in
        rw after (λ (h, k). ((to k).0, (h, (to k).1)), λ (h, (k, m)). (k, from (h, m)))
  ]

  pub All-sorted : (P : A → Type 0) (xs : List A) → All P (sorted xs) ↔ All P xs
  unfolding sorted
  All-sorted P [] = (λ h. h, λ h. h)
  All-sorted P (x ∷ xs) =
      let (to, from) = All-insert_sorted P x (sorted xs) in
      let (there, back) = All-sorted P xs in
      (λ h. ((to h).0, there (to h).1), λ (h, k). from (h, back k))

  insert_sorted-ne-nil : (a : A) (xs : List A) → insert_sorted a xs ≢ []
  unfolding insert_sorted
  insert_sorted-ne-nil a [] h = cc
  insert_sorted-ne-nil a (x ∷ xs) h = ground arith

  pub sorted-eq-nil : (xs : List A) → (sorted xs ≡ []) ↔ (xs ≡ [])
  unfolding sorted
  sorted-eq-nil [] = (λ h. h, λ h. h)
  sorted-eq-nil (x ∷ xs) = (λ h. absurd (insert_sorted-ne-nil x (sorted xs) h), λ h. cc)

  -- Each item is at most every later one.
  abbrev pub IsSorted : List A → Type 0
  IsSorted [] = Unit
  IsSorted (x ∷ xs) = (all (le x) xs ≡ true) × IsSorted xs

  pub any-insert_sorted :
      (p : A → Bool) (a : A) (xs : List A) → any p (insert_sorted a xs) ≡ (p a || any p xs)
  unfolding insert_sorted
  any-insert_sorted p a [] = refl
  any-insert_sorted p a (x ∷ xs) = ground (arith, any-insert_sorted p a xs)

  pub any-sorted : (p : A → Bool) (xs : List A) → any p (sorted xs) ≡ any p xs
  unfolding sorted
  any-sorted p [] = refl
  any-sorted p (x ∷ xs) = ground (arith, any-insert_sorted p x (sorted xs), any-sorted p xs)

  all-select : (p q : A → Bool) (xs : List A) → all q xs ≡ true → all q (select p xs) ≡ true
  all-select p q [] h = refl
  all-select p q (x ∷ xs) h = ground (arith, all-select p q xs)

  pub IsSorted-select : (p : A → Bool) (xs : List A) → IsSorted xs → IsSorted (select p xs)
  IsSorted-select p [] h = tt
  IsSorted-select p (x ∷ xs) (h, k) = elim (Bool-cases (p x)) [
    | inl kept ↦ rw kept (all-select p (le x) xs h, IsSorted-select p xs k)
    | inr dropped ↦ rw dropped (IsSorted-select p xs k)
  ]

  module _ (total : (a b : A) → le a b ≡ false → le b a ≡ true)
      (trans : (a b c : A) → le a b ≡ true → le b c ≡ true → le a c ≡ true) where
    all-le : (a b : A) (xs : List A) → le a b ≡ true → all (le b) xs ≡ true → all (le a) xs ≡ true
    all-le a b [] h k = refl
    all-le a b (x ∷ xs) h k = ground (arith, trans a b x, all-le a b xs h)

    insert_sorted-IsSorted : (a : A) (xs : List A) → IsSorted xs → IsSorted (insert_sorted a xs)
    unfolding insert_sorted
    insert_sorted-IsSorted a [] h = (refl, tt)
    insert_sorted-IsSorted a (x ∷ xs) (h, k) = elim (Bool-cases (le a x)) [
      | inl before ↦ rw before (ground (arith, all-le a x xs before h), (h, k))
      | inr after ↦ rw after (
        ground (arith, all-insert_sorted (le x) a xs, total a x after),
        insert_sorted-IsSorted a xs k,
      )
    ]

    pub sorted-IsSorted : (xs : List A) → IsSorted (sorted xs)
    unfolding sorted
    sorted-IsSorted [] = tt
    sorted-IsSorted (x ∷ xs) = insert_sorted-IsSorted x (sorted xs) (sorted-IsSorted xs)

pub contains-sorted : (xs : List Text) (r : Text) → contains (sorted text_le xs) r ≡ contains xs r
contains-sorted xs r =
    contains-any (sorted text_le xs) r
    ∙ (any-sorted text_le (λ x. r == x) xs ∙ sym (contains-any xs r))

pub text_le_total : (s t : Text) → text_le s t ≡ false → text_le t s ≡ true
unfolding text_le
text_le_total [] t h = cc
text_le_total (a ∷ s) [] h = refl
text_le_total (a ∷ s) (b ∷ t) h = ground (arith, text_le_total s t)

pub text_le_trans : (s t u : Text) → text_le s t ≡ true → text_le t u ≡ true → text_le s u ≡ true
unfolding text_le
text_le_trans [] t u h k = refl
text_le_trans (a ∷ s) [] u h k = cc
text_le_trans (a ∷ s) (b ∷ t) [] h k = cc
text_le_trans (a ∷ s) (b ∷ t) (c ∷ u) h k = ground (arith, text_le_trans s t u)

pub text_le_antisymm : (s t : Text) → text_le s t ≡ true → text_le t s ≡ true → s ≡ t
unfolding text_le
text_le_antisymm [] [] h k = refl
text_le_antisymm [] (b ∷ t) h k = cc
text_le_antisymm (a ∷ s) [] h k = cc
text_le_antisymm (a ∷ s) (b ∷ t) h k = ground (arith, text_le_antisymm s t)
