-- ===== src/Consumer/GoMod/Directives.antt =====
-- The replace declarations of a module file, read line by line, and the ones that leave CoreKit alone
-- (`go_corekit_replacements` of port/consumer/verify.py).
use symaira_corekit.Base.{
  ◌≤◌, ◌≡◌, refl, sym, subst, ◌≢◌, inl, inr, Bool, true, false, ◌&&◌, some, List, [], ◌∷◌, ◌++◌,
  arith, Text, str, Bool-cases, Option-cases, length, list_beq_iff, select, ◌==◌, nat_eq, list_eq,
  option_eq, bool_eq, pair_eq,
}
use symaira_corekit.Base.Cuts.{starts_with-append}
use symaira_corekit.Base.Strings.{cut_at, occurs, split_lines, starts_with, strip, words}
use symaira_corekit.Consumer.GoMod.{
  corekit_module, head_of, is_corekit, is_side, mention, replacement_of, split_arrow,
}

-- `raw_line.split("//", 1)[0].strip()`
abbrev pub cleaned : Text → Text
cleaned raw = strip (cut_at (str "//") raw)

-- From the first lines, with a block open or not, to later ones.
pub data Follows : Bool → List Text → Bool → List Text → Type 0 where
  stays_here : {b : Bool} {lines : List Text} → Follows b lines b lines
  block_opens :
      {b : Bool} {raw : Text} {lines rest : List Text}
      → cleaned raw ≡ str "replace ("
      → Follows true lines b rest
      → Follows false (raw ∷ lines) b rest
  block_closes :
      {b : Bool} {raw : Text} {lines rest : List Text}
      → cleaned raw ≡ str ")"
      → Follows false lines b rest
      → Follows true (raw ∷ lines) b rest
  line_outside :
      {b : Bool} {raw : Text} {lines rest : List Text}
      → cleaned raw ≢ str "replace ("
      → Follows false lines b rest
      → Follows false (raw ∷ lines) b rest
  line_inside :
      {b : Bool} {raw : Text} {lines rest : List Text}
      → cleaned raw ≢ str ")"
      → Follows true lines b rest
      → Follows true (raw ∷ lines) b rest

-- The declaration of a line: what follows "replace ", or, in a block, any other line that does not close it.
pub data Declares : Bool → Text → Text → Type 0 where
  single_line :
      {raw : Text} (t : Text)
      → cleaned raw ≡ str "replace " ++ t
      → cleaned raw ≢ str "replace ("
      → Declares false raw (strip t)
  group_line :
      {raw : Text} (t : Text) → cleaned raw ≡ str "replace " ++ t → Declares true raw (strip t)
  group_entry :
      {raw : Text}
      → starts_with (str "replace ") (cleaned raw) ≡ false
      → cleaned raw ≢ []
      → cleaned raw ≢ str ")"
      → Declares true raw (cleaned raw)

-- The path is neither CoreKit's module nor below it.
abbrev pub IsForeign : Text → Type 0
IsForeign path = (path ≢ corekit_module) × ((t : Text) → path ≢ (corekit_module ++ str "/") ++ t)

-- A declaration that leaves CoreKit alone: with a path and perhaps a version on both sides of its arrow, neither
-- path is CoreKit's, and any other text does not mention the module.
pub data IsClear (declaration : Text) : Type 0 where
  other_modules :
      (old new : Text) (old_version new_version : List Text)
      → words declaration ≡ (old ∷ old_version) ++ str "=>" ∷ new ∷ new_version
      → length old_version ≤ 1
      → length new_version ≤ 1
      → IsForeign old
      → IsForeign new
      → IsClear declaration
  unmentioned : occurs corekit_module declaration ≡ false → IsClear declaration

-- Every declaration of a file is clear; a file that ends in an open block does not mention the module at all.
pub record IsUnreplaced (t : Text) : Type 0 where
  pub declarations :
      (b : Bool) (raw : Text) (rest : List Text) (declaration : Text)
      → Follows false (split_lines t) b (raw ∷ rest)
      → Declares b raw declaration
      → IsClear declaration
  pub unterminated : Follows false (split_lines t) true [] → occurs corekit_module t ≡ false

is_corekit_lem : (path : Text) → is_corekit path ≡ false → IsForeign path
unfolding is_corekit
is_corekit_lem path h = (
  λ e. ground (arith, h, list_beq_iff path corekit_module, e),
  λ t e.
      let begins : starts_with (corekit_module ++ str "/") path ≡ true =
        subst (λ x. starts_with (corekit_module ++ str "/") x ≡ true) (sym e)
          (starts_with-append (corekit_module ++ str "/") t) in
      ground (arith, h, begins),
)

is_side_lem :
    (fs : List Text)
    → is_side fs ≡ true
    → (path : Text) × (version : List Text) × (fs ≡ path ∷ version) × (length version ≤ 1)
unfolding is_side
is_side_lem [] h = absurd (ground (arith, h))
is_side_lem (path ∷ []) h = (path, [], refl, omega arith)
is_side_lem (path ∷ version ∷ []) h = (path, version ∷ [], refl, omega arith)
is_side_lem (path ∷ version ∷ other ∷ rest) h = absurd (ground (arith, h))

split_arrow_lem :
    (fs old new : List Text) → split_arrow fs ≡ some (old, new) → fs ≡ old ++ str "=>" ∷ new
unfolding split_arrow
split_arrow_lem [] old new h = absurd (ground (arith, h))
split_arrow_lem (f ∷ fs) old new h = elim (Bool-cases (f == str "=>")) [
  | inl e ↦
      let none_before : [] ≡ old = ground (arith, h, e) in
      let same : fs ≡ new = ground (arith, h, e) in
      cc ((list_beq_iff f (str "=>")).0 e, none_before, same)
  | inr e ↦ elim (Option-cases (split_arrow fs)) [
    | inl g ↦ absurd (ground (arith, h, e, g))
    | inr ((old', new'), g) ↦
        let rest = split_arrow_lem fs old' new' g in
        let first : f ∷ old' ≡ old = ground (arith, h, e, g) in
        let same : new' ≡ new = ground (arith, h, e, g) in cc (rest, first, same)
  ]
]

pub mention_lem : (t : Text) → mention t ≡ [] → occurs corekit_module t ≡ false
unfolding mention
mention_lem t h = ground (arith, h)

heads_lem :
    (old new : Text) (old_version new_version : List Text)
    → select is_corekit (head_of (old ∷ old_version) ++ head_of (new ∷ new_version)) ≡ []
    → IsForeign old × IsForeign new
unfolding head_of
heads_lem old new old_version new_version h =
    (is_corekit_lem old (ground (arith, h)), is_corekit_lem new (ground (arith, h)))

pub replacement_of_lem :
    (declaration : Text) → replacement_of declaration ≡ [] → IsClear declaration
unfolding replacement_of
replacement_of_lem declaration h = elim (Option-cases (split_arrow (words declaration))) [
  | inl e ↦ unmentioned (mention_lem declaration (ground (arith, h, e)))
  | inr ((old, new), e) ↦ elim (Bool-cases (is_side old && is_side new)) [
    | inr f ↦ unmentioned (mention_lem declaration (ground (arith, h, e, f)))
    | inl f ↦
        let (path, version, parts, few) = is_side_lem old (ground (arith, f)) in
        let (path', version', parts', few') = is_side_lem new (ground (arith, f)) in
        let clean : select is_corekit (head_of old ++ head_of new) ≡ [] = ground (arith, h, e, f) in
        let (foreign, foreign') = heads_lem path path' version version' (
          subst (λ x. select is_corekit (head_of x ++ head_of (path' ∷ version')) ≡ []) parts
            (subst (λ x. select is_corekit (head_of old ++ head_of x) ≡ []) parts' clean)) in
        let arrow = split_arrow_lem (words declaration) old new e in
        other_modules path path' version version' (cc (arrow, parts, parts')) few few' foreign
          foreign'
  ]
]
