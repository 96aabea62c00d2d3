-- ===== src/Base/Lists.antt =====
-- Lists measured by native numbers, Boolean quantifiers, and concatenations that are empty.
use Prim.Native.Nat.{ℕ, zero, suc, ◌+◌, ◌≤◌}
use mathlib.Core.Path.{◌≡◌, refl}
use mathlib.Core.Logic.{◌↔◌, inl, inr}
use mathlib.Core.Bool.{Bool, true, false, ◌&&◌, ◌||◌}
use mathlib.Core.List.{List, [], ◌∷◌, ◌++◌}
use native.Mathlib.Omega.{arith}
use symaira_corekit.Base.Tests.{if◌then◌else◌, and_iff, Bool-cases}

module _ {ℓ} {A : Type ℓ} where
  abbrev pub length : List A → ℕ
  length [] = 0
  length (x ∷ xs) = suc (length xs)

  abbrev pub take : ℕ → List A → List A
  take zero xs = []
  take (suc n) [] = []
  take (suc n) (x ∷ xs) = x ∷ take n xs

  abbrev pub drop : ℕ → List A → List A
  drop zero xs = xs
  drop (suc n) [] = []
  drop (suc n) (x ∷ xs) = drop n xs

  abbrev pub replicate : ℕ → A → List A
  replicate zero a = []
  replicate (suc n) a = a ∷ replicate n a

  abbrev pub is_empty : List A → Bool
  is_empty [] = true
  is_empty (x ∷ xs) = false

  -- `all(p(x) for x in xs)`, `any(p(x) for x in xs)` and `[x for x in xs if p(x)]`.
  abbrev pub all : (A → Bool) → List A → Bool
  all p [] = true
  all p (x ∷ xs) = p x && all p xs

  abbrev pub any : (A → Bool) → List A → Bool
  any p [] = false
  any p (x ∷ xs) = p x || any p xs

  abbrev pub select : (A → Bool) → List A → List A
  select p [] = []
  select p (x ∷ xs) = let rest = select p xs in if p x then x ∷ rest else rest

  abbrev pub All {κ} : (A → Type κ) → List A → Type κ
  All P [] = Unit
  All P (x ∷ xs) = P x × All P xs

  pub All-map {κ μ} :
      {P : A → Type κ} {Q : A → Type μ}
      → ((x : A) → P x → Q x)
      → (xs : List A) → All P xs
      → All Q xs
  All-map f [] h = tt
  All-map f (x ∷ xs) (h, k) = (f x h, All-map f xs k)

  pub is_empty_iff : (xs : List A) → (is_empty xs ≡ true) ↔ (xs ≡ [])
  is_empty_iff [] = (λ h. refl, λ h. refl)
  is_empty_iff (x ∷ xs) = ground arith

  pub all_iff : (p : A → Bool) (xs : List A) → (all p xs ≡ true) ↔ All (λ x. p x ≡ true) xs
  all_iff p [] = (λ h. tt, λ h. refl)
  all_iff p (x ∷ xs) =
      let (to, from) = all_iff p xs in
      let (fst, snd) = and_iff (p x) (all p xs) in
      (λ h. ((fst h).0, to (fst h).1), λ (h, k). snd (h, from k))

  pub select-eq-nil : (p : A → Bool) (xs : List A) → (select p xs ≡ []) ↔ All (λ x. p x ≡ false) xs
  select-eq-nil p [] = (λ h. tt, λ h. refl)
  select-eq-nil p (x ∷ xs) = elim (Bool-cases (p x)) [
    | inl kept ↦ rw kept (λ h. cc, λ (h, k). cc)
    | inr dropped ↦
        let (to, from) = select-eq-nil p xs in rw dropped (λ h. (refl, to h), λ (h, k). from k)
  ]

  pub append-eq-nil : (xs ys : List A) → (xs ++ ys ≡ []) ↔ ((xs ≡ []) × (ys ≡ []))
  append-eq-nil [] ys = ground arith
  append-eq-nil (x ∷ xs) ys = (λ h. cc, λ h. cc (h.0))

  pub length-append : (xs ys : List A) → length (xs ++ ys) ≡ length xs + length ys
  length-append [] ys = omega arith
  length-append (x ∷ xs) ys = omega (arith, length-append xs ys)

  pub all-append : (p : A → Bool) (xs ys : List A) → all p (xs ++ ys) ≡ (all p xs && all p ys)
  all-append p [] ys = refl
  all-append p (x ∷ xs) ys = ground (arith, all-append p xs ys)

  pub take-append-drop : (n : ℕ) (xs : List A) → take n xs ++ drop n xs ≡ xs
  take-append-drop zero xs = refl
  take-append-drop (suc n) [] = refl
  take-append-drop (suc n) (x ∷ xs) = rw (take-append-drop n xs)

  pub length-take-le : (n : ℕ) (xs : List A) → length (take n xs) ≤ n
  length-take-le zero xs = omega arith
  length-take-le (suc n) [] = omega arith
  length-take-le (suc n) (x ∷ xs) = omega (arith, length-take-le n xs)

module _ {ℓ κ} {A : Type ℓ} {B : Type κ} where
  -- `[y for x in xs for y in f(x)]`, and the appends of a loop over `xs`.
  abbrev pub flat_map : (A → List B) → List A → List B
  flat_map f [] = []
  flat_map f (x ∷ xs) = f x ++ flat_map f xs

  pub flat_map-eq-nil :
      (f : A → List B) (xs : List A) → (flat_map f xs ≡ []) ↔ All (λ x. f x ≡ []) xs
  flat_map-eq-nil f [] = (λ h. tt, λ h. refl)
  flat_map-eq-nil f (x ∷ xs) = (
    λ h. let (p, q) = (append-eq-nil (f x) (flat_map f xs)).0 h in (p, (flat_map-eq-nil f xs).0 q),
    λ (p, q). (append-eq-nil (f x) (flat_map f xs)).1 (p, (flat_map-eq-nil f xs).1 q),
  )
