-- ===== src/Consumer/Paths/Laws.antt =====
-- What a path guard lets through (`_safe_child` and `_safe_non_symlink_child` of
-- port/consumer/verify.py).
use symaira_corekit.Base.{
  false, ◌≡◌, ◌≢◌, refl, sym, ap, subst, inl, inr, List, [], ◌∷◌, ◌++◌, some, Text, str, list_eq,
  nat_eq, contains, any, arith, Option-cases,
}
use mathlib.Core.List.{append_assoc}
use symaira_corekit.Json.{Value, null, bool, int, neg, text, arr, obj}
use symaira_corekit.Consumer.World.{
  World, Location, Entry, missing, refused, symlink, regular, directory,
}
use symaira_corekit.Consumer.Paths.{
  forbidden_parts, valid_parts, path_parts, safe, walk_parts, safe_non_symlink_child,
}

-- No step out of the tree, and no part of a generated or tooling tree.
pub record IsBelow (relative : Value) (parts : List Text) : Type 0 where
  pub source : Text
  pub given : relative ≡ text source
  pub read : path_parts source ≡ parts
  pub no_parent : contains parts (str "..") ≡ false
  pub no_forbidden : any (contains forbidden_parts) parts ≡ false

pub valid_parts-IsBelow :
    (relative : Value) (parts : List Text)
    → valid_parts relative ≡ some parts
    → IsBelow relative parts
unfolding valid_parts
valid_parts-IsBelow (text t) parts h = record {
  source = t;
  given = refl;
  read = ground arith;
  no_parent = ground arith;
  no_forbidden = ground arith;
}
valid_parts-IsBelow null parts h = cc
valid_parts-IsBelow (bool b) parts h = cc
valid_parts-IsBelow (int n) parts h = cc
valid_parts-IsBelow (neg n) parts h = cc
valid_parts-IsBelow (arr l) parts h = cc
valid_parts-IsBelow (obj d) parts h = cc

data EntryCase (e : Entry) : Type 0 where
  is_missing : e ≡ missing → EntryCase e
  is_refused : e ≡ refused → EntryCase e
  is_symlink : e ≡ symlink → EntryCase e
  is_regular : e ≡ regular → EntryCase e
  is_directory : e ≡ directory → EntryCase e

Entry-cases : (e : Entry) → EntryCase e
Entry-cases missing = is_missing refl
Entry-cases refused = is_refused refl
Entry-cases symlink = is_symlink refl
Entry-cases regular = is_regular refl
Entry-cases directory = is_directory refl

-- Some component above the end of a path is missing.
pub record IsMissingAbove (w : World) (base : Location) (parts : List Text) : Type 0 where
  pub above : List Text
  pub gone : Text
  pub left : List Text
  pub split : parts ≡ above ++ gone ∷ left
  pub absent : w.lstat (base ++ (above ++ gone ∷ [])) ≡ missing

-- On the way down the components, a link can only stand below a component that is missing.
pub NoLinks : World → Location → List Text → Type 0
NoLinks w base parts =
    (ps : List Text) (p : Text) (qs : List Text)
    → parts ≡ ps ++ p ∷ qs
    → w.lstat (base ++ (ps ++ p ∷ [])) ≡ symlink
    → IsMissingAbove w base ps

lower :
    (w : World) (base : Location) (q : Text) (ps : List Text)
    → IsMissingAbove w (base ++ q ∷ []) ps
    → IsMissingAbove w base (q ∷ ps)
lower w base q ps m = record {
  above = q ∷ m.above;
  gone = m.gone;
  left = m.left;
  split = ap (λ l. q ∷ l) m.split;
  absent =
      subst (λ l. w.lstat l ≡ missing) (append_assoc base (q ∷ []) (m.above ++ m.gone ∷ []))
        m.absent;
}

first_link :
    (w : World) (base : Location) (q p : Text) (parts qs : List Text)
    → q ∷ parts ≡ p ∷ qs
    → w.lstat (base ++ p ∷ []) ≡ symlink
    → w.lstat (base ++ q ∷ []) ≡ symlink
first_link w base q p parts qs split link =
    let same : p ≡ q = ground (arith, split) in
    subst (λ s. w.lstat (base ++ s ∷ []) ≡ symlink) same link

-- A component that is no link, and the components below it.
enter :
    (w : World) (base : Location) (q : Text) (parts : List Text)
    → NoLinks w (base ++ q ∷ []) parts
    → w.lstat (base ++ q ∷ []) ≢ symlink
    → NoLinks w base (q ∷ parts)
unfolding NoLinks
enter w base q parts deeper plain [] p qs split link =
    absurd (plain (first_link w base q p parts qs split link))
enter w base q parts deeper plain (r ∷ ps) p qs split link =
    let same : r ≡ q = ground (arith, split) in
    let there : w.lstat ((base ++ q ∷ []) ++ (ps ++ p ∷ [])) ≡ symlink =
      subst (λ l. w.lstat l ≡ symlink) (sym (append_assoc base (q ∷ []) (ps ++ p ∷ [])))
        (subst (λ s. w.lstat (base ++ (s ∷ (ps ++ p ∷ []))) ≡ symlink) same link) in
    let found = lower w base q ps (deeper ps p qs (ground (arith, split)) there) in
    subst (λ s. IsMissingAbove w base (s ∷ ps)) (sym same) found

-- Nothing below a missing component is looked at.
stop :
    (w : World) (base : Location) (q : Text) (parts : List Text)
    → w.lstat (base ++ q ∷ []) ≡ missing
    → NoLinks w base (q ∷ parts)
unfolding NoLinks
stop w base q parts gone [] p qs split link =
    absurd (ground (arith, gone, first_link w base q p parts qs split link))
stop w base q parts gone (r ∷ ps) p qs split link = record {
  above = [];
  gone = q;
  left = ps;
  split = ground (arith, split);
  absent = gone;
}

nothing : (w : World) (base : Location) → NoLinks w base []
unfolding NoLinks
nothing w base [] p qs split link = absurd (ground (arith, split))
nothing w base (r ∷ ps) p qs split link = absurd (ground (arith, split))

walk_parts-NoLinks :
    (w : World) (base path : Location) (parts : List Text) (end : Location)
    → walk_parts w base parts (safe end) ≡ safe path
    → (path ≡ end) × NoLinks w base parts
unfolding walk_parts
walk_parts-NoLinks w base path [] end h = (ground (arith, h), nothing w base)
walk_parts-NoLinks w base path (q ∷ parts) end h =
    let onward : walk_parts w (base ++ q ∷ []) parts (safe end) ≡ safe path
        → w.lstat (base ++ q ∷ []) ≢ symlink
        → (path ≡ end) × NoLinks w base (q ∷ parts) =
      λ g plain.
        let (same, deeper) = walk_parts-NoLinks w (base ++ q ∷ []) path parts end g in
        (same, enter w base q parts deeper plain) in
    elim (Entry-cases (w.lstat (base ++ q ∷ []))) [
      | is_missing e ↦ (ground (arith, h, e), stop w base q parts e)
      | is_refused e ↦ absurd (ground (arith, h, e))
      | is_symlink e ↦ absurd (ground (arith, h, e))
      | is_regular e ↦ onward (ground (arith, h, e)) (λ l. absurd (ground (arith, e, l)))
      | is_directory e ↦ onward (ground (arith, h, e)) (λ l. absurd (ground (arith, e, l)))
    ]

-- Where a guarded path lies, and what stands on the way to it.
pub record IsGuarded (w : World) (root : Location) (relative : Value) (path : Location)
    : Type 0 where
  pub parts : List Text
  pub is_below : IsBelow relative parts
  pub place : path ≡ w.resolve root ++ parts
  pub no_links : NoLinks w (w.resolve root) parts

-- A path that `_safe_non_symlink_child` returns consists of the resolved root and the parts of a relative
-- path without `..` and without a part of a generated or tooling tree, and a symbolic link on the way from the root to it
-- stands below a component that is missing.
pub safe_non_symlink_child-IsGuarded :
    (w : World) (root : Location) (relative : Value) (path : Location)
    → safe_non_symlink_child w root relative ≡ safe path
    → IsGuarded w root relative path
unfolding safe_non_symlink_child
safe_non_symlink_child-IsGuarded w root relative path h =
    elim (Option-cases (valid_parts relative)) [
      | inl e ↦ absurd (ground (arith, h, e))
      | inr (parts, e) ↦
          let below : walk_parts w (w.resolve root) parts (safe (w.resolve root ++ parts))
              ≡ safe path =
            ground (arith, h, e) in
          let (place, no_links) =
            walk_parts-NoLinks w (w.resolve root) path parts (w.resolve root ++ parts) below in
          record {
            parts = parts;
            is_below = valid_parts-IsBelow relative parts e;
            place = place;
            no_links = no_links;
          }
    ]
