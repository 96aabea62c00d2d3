-- ===== src/Lock.antt =====
-- scripts/rust-port/lock_closure.py: the packages of Cargo.lock that a set of workspace crates can
-- resolve to. `tomllib.loads` and the digest over the result are outside the model.
pub mod Edges
pub mod Resolve
pub mod Fuel
pub mod Reach
pub mod Loop
pub mod Order
pub mod Closure
use mathlib.Core.List.{reverse}
use symaira_corekit.Base.{
  ℕ, zero, suc, ◌+◌, Bool, true, false, ◌&&◌, ◌||◌, List, [], ◌∷◌, ◌++◌, Option, none, some, Text,
  ◌==◌, list_eq, nat_eq, option_eq, select, any, length, if◌then◌else◌, str, drop,
}
use symaira_corekit.Base.Sorting.{text_le, sorted}

-- A `[[package]]` table; a workspace crate has no source.
pub record Package : Type 0 where
  pub name : Text
  pub version : Text
  pub source : Option Text
  pub dependencies : List Text

pub data Error : Type 0 where
  no_packages out_of_fuel : Error
  ambiguous_edge : Text → Error
  not_local : Text → Error

pub data Result {ℓ} (A : Type ℓ) : Type ℓ where
  ok : A → Result A
  err : Error → Result A

-- The text before the first space, and what follows it: one step of `edge.split(" ", 2)`.
unfoldable pub split_space : Text → Text × Option Text
split_space [] = ([], none)
split_space (c ∷ s) =
    let (head, rest) = split_space s in if c == 32 then ([], some s) else (c ∷ head, rest)

abbrev drop_last : Text → Text
drop_last [] = []
drop_last (c ∷ []) = []
drop_last (c ∷ d ∷ s) = c ∷ drop_last (d ∷ s)

-- `s[1:-1]`
unfoldable pub inner : Text → Text
inner s = drop_last (drop 1 s)

pub record Edge : Type 0 where
  pub name : Text
  pub version : Option Text
  pub source : Option Text

unfoldable pub parse_tail : Text → Text → Edge
unfolding split_space inner
parse_tail name rest =
    let (version, source) = split_space rest in
    record {
      name = name;
      version = some version;
      source = elim source [ none ↦ none | some s ↦ some (inner s) ];
    }

-- `_parse_edge`
unfoldable pub parse_edge : Text → Edge
unfolding parse_tail
parse_edge edge =
    let (name, rest) = split_space edge in
    elim rest [
      | none ↦ record { name = name; version = none; source = none }
      | some r ↦ parse_tail name r
    ]

-- `version is None or p["version"] == version`
unfoldable pub version_fits : Option Text → Text → Bool
version_fits none w = true
version_fits (some v) w = w == v

-- `source is None or p.get("source") == source`
unfoldable pub source_fits : Option Text → Option Text → Bool
source_fits none w = true
source_fits (some s) w = w == some s

-- The filter of `resolve`, `by_name.get(name, [])` included.
unfoldable pub fits : Edge → Package → Bool
fits e p = e.name == p.name && version_fits e.version p.version && source_fits e.source p.source

unfoldable pub is_local : Text → Package → Bool
is_local root p = p.name == root && p.source == none

unfoldable pub the_only : Error → List Package → Result Package
the_only e (p ∷ []) = ok p
the_only e _ = err e

-- The loop over `roots`, and the generator that `pending.extend` runs through.
unfoldable pub resolve_all : (Text → Result Package) → List Text → Result (List Package)
resolve_all f [] = ok []
resolve_all f (t ∷ ts) =
    let rest = resolve_all f ts in
    elim (f t) [ err e ↦ err e | ok p ↦ elim rest [ err e ↦ err e | ok ps ↦ ok (p ∷ ps) ] ]

-- The two packages have the same key (name, version, source).
unfoldable pub same_key : Package → Package → Bool
same_key p q = q.name == p.name && q.version == p.version && q.source == p.source

-- `key in seen`
abbrev pub is_seen : Package → List Package → Bool
is_seen p seen = any (same_key p) seen

-- The dependency edges of all packages, counted.
unfoldable pub edges : List Package → ℕ
edges [] = 0
edges (p ∷ ps) = length p.dependencies + edges ps

-- `package.get("source") or ""`
unfoldable pub source_or_empty : Package → Text
source_or_empty p = elim p.source [ none ↦ [] | some s ↦ s ]

-- The order of the tuples (name, version, source or "").
unfoldable pub package_le : Package → Package → Bool
unfolding source_or_empty
package_le p q =
    if p.name == q.name
    then if p.version == q.version
      then text_le (source_or_empty p) (source_or_empty q)
      else text_le p.version q.version
    else text_le p.name q.name

module _ (packages : List Package) where
  unfoldable pub resolve : Text → Result Package
  unfolding parse_edge fits version_fits source_fits the_only
  resolve edge = the_only (ambiguous_edge edge) (select (fits (parse_edge edge)) packages)

  unfoldable pub local_root : Text → Result Package
  unfolding is_local the_only
  local_root root = the_only (not_local root) (select (is_local root) packages)

  -- The `while` loop. The head of `pending` is the end of the Python list, which `pop` takes, and
  -- `seen` is in the order of insertion.
  unfoldable pub visit : ℕ → List Package → List Package → Result (List Package)
  visit fuel [] seen = ok seen
  visit zero (p ∷ pending) seen = err out_of_fuel
  visit (suc fuel) (p ∷ pending) seen = elim (is_seen p seen) [
    | true ↦ visit fuel pending seen
    | false ↦ elim (resolve_all resolve p.dependencies) [
      | err e ↦ err e
      | ok more ↦ visit fuel (reverse more ++ pending) (seen ++ p ∷ [])
    ]
  ]

  -- The start list and the loop, from the second loop of the function on.
  unfoldable pub closure_from : List Text → Result (List Package)
  closure_from roots = elim (resolve_all local_root roots) [
    | err e ↦ err e
    | ok start ↦ elim (visit (length start + edges packages) (reverse start) []) [
      | err e ↦ err e
      | ok seen ↦ ok (sorted package_le seen)
    ]
  ]

-- `closure_packages` over the package list of the decoded file.
unfoldable pub closure : List Package → List Text → Result (List Package)
closure [] roots = err no_packages
closure (p ∷ ps) roots = closure_from (p ∷ ps) roots
