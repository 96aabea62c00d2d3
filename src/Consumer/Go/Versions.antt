-- ===== src/Consumer/Go/Versions.antt =====
-- The versions that `parse_go_requirements` of port/consumer/verify.py gives.
use symaira_corekit.Base.{
  ◌≡◌, subst, inl, inr, Bool, true, false, not, ◌&&◌, ◌||◌, Option, none, some, List, [], ◌∷◌, ◌++◌,
  Text, str, All, Bool-cases, Option-cases, if◌then◌else◌, ◌==◌, nat_eq, list_eq, option_eq,
  bool_eq, pair_eq,
}
use symaira_corekit.Base.Strings.{remove_prefix, split_lines, starts_with, strip, words}
use symaira_corekit.Consumer.GoMod.{
  corekit_module, go_line, parse_go_requirements, require_line, require_lines, require_step,
  requirement_of,
}
use symaira_corekit.Consumer.Patterns.{is_go_version}

-- A version that a manifest declares has the shape of a Go version.
abbrev ValidPin : Option Text → Type 0
ValidPin none = Unit
ValidPin (some v) = is_go_version v ≡ true

requirement_of-ValidPin : (fields : List Text) → All ValidPin (requirement_of fields)
unfolding requirement_of
requirement_of-ValidPin [] = tt
requirement_of-ValidPin (name ∷ []) = elim (Bool-cases (name == corekit_module)) [
  | inl e ↦ rw e (tt, tt)
  | inr e ↦ rw e tt
]
requirement_of-ValidPin (name ∷ version ∷ rest) = elim (Bool-cases (name == corekit_module)) [
  | inr e ↦ rw e tt
  | inl e ↦ elim (Bool-cases (is_go_version version)) [
    | inl f ↦ rw (e, f) (f, tt)
    | inr f ↦ rw (e, f) (tt, tt)
  ]
]

if_lem {ℓ κ} :
    {A : Type ℓ} (P : A → Type κ) (b : Bool) {x y : A} → P x → P y → P (if b then x else y)
if_lem P true p q = p
if_lem P false p q = q

All-append {ℓ κ} :
    {A : Type ℓ} (P : A → Type κ) (xs ys : List A) → All P xs → All P ys → All P (xs ++ ys)
All-append P [] ys h k = k
All-append P (x ∷ xs) ys (h, hs) k = (h, All-append P xs ys hs k)

require_line-ValidPin :
    (in_require : Bool) (line : Text) → All ValidPin (require_line in_require line).1
unfolding require_line
require_line-ValidPin in_require line =
    let P : Bool × List (Option Text) → Type 0 = λ r. All ValidPin r.1 in
    if_lem P (starts_with (str "require (") line) tt (
      if_lem P (in_require && line == str ")") tt (
        if_lem P (not (in_require || starts_with (str "require ") line)) tt
          (requirement_of-ValidPin (words (strip (remove_prefix (str "require ") line))))))

require_step-ValidPin :
    (in_require : Bool) (raw : Text) → All ValidPin (require_step in_require raw).1
unfolding require_step
require_step-ValidPin in_require raw = elim (Option-cases (go_line raw)) [
  | inl e ↦ rw (e, require_step) tt
  | inr (line, e) ↦ rw (e, require_step) (require_line-ValidPin in_require line)
]

require_lines-ValidPin :
    (in_require : Bool) (lines : List Text) → All ValidPin (require_lines in_require lines)
unfolding require_lines
require_lines-ValidPin in_require [] = tt
require_lines-ValidPin in_require (raw ∷ lines) =
    All-append ValidPin (require_step in_require raw).1
      (require_lines (require_step in_require raw).0 lines) (require_step-ValidPin in_require raw)
      (require_lines-ValidPin (require_step in_require raw).0 lines)

pub sole-ValidPin :
    (t version : Text) → parse_go_requirements t ≡ some version ∷ [] → is_go_version version ≡ true
unfolding parse_go_requirements
sole-ValidPin t version h =
    (subst (All ValidPin) h (require_lines-ValidPin false (split_lines t))).0
