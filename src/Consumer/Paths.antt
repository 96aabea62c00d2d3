-- ===== src/Consumer/Paths.antt =====
-- The path guards of port/consumer/verify.py. A relative path is read as pathlib reads it: its parts
-- between slashes, without the empty ones and the single dots.
pub mod Laws
use symaira_corekit.Base.{
  Bool, true, false, not, ◌&&◌, ◌||◌, List, [], ◌∷◌, ◌++◌, Option, none, some, Text, str, ◌==◌,
  list_eq, nat_eq, contains, any, select, is_empty, if◌then◌else◌, ℕ,
}
use symaira_corekit.Base.Strings.{strip, starts_with, split_on}
use symaira_corekit.Json.{Value, text}
use symaira_corekit.Consumer.World.{
  World, Location, Entry, missing, refused, symlink, regular, directory,
}

-- `FORBIDDEN_PATH_PARTS`
unfoldable pub forbidden_parts : List Text
unfolding str
forbidden_parts =
    str ".agents"
    ∷ str ".agentsroom"
    ∷ str ".app-test-build"
    ∷ str ".build"
    ∷ str ".claude"
    ∷ str ".coverage-html"
    ∷ str ".cursor"
    ∷ str ".mypy_cache"
    ∷ str ".omo"
    ∷ str ".opencode"
    ∷ str ".phase0-evidence"
    ∷ str ".playwright-cli"
    ∷ str ".playwright-mcp"
    ∷ str ".pytest_cache"
    ∷ str ".ruff_cache"
    ∷ str ".sisyphus"
    ∷ str ".swiftpm"
    ∷ str ".venv"
    ∷ str ".windsurf"
    ∷ str ".worktrees"
    ∷ str "build"
    ∷ str "coverage"
    ∷ str "dist"
    ∷ str "node_modules"
    ∷ str "target"
    ∷ str "target-run"
    ∷ str "vendor"
    ∷ []

abbrev slash : ℕ
slash = 47

abbrev is_part : Text → Bool
is_part p = not (is_empty p) && not (p == str ".")

-- `Path(relative).parts` of a relative path
unfoldable pub path_parts : Text → List Text
unfolding str split_on
path_parts relative = select is_part (split_on slash relative)

unfoldable pub last_part : List Text → Text
last_part [] = []
last_part (p ∷ []) = p
last_part (p ∷ q ∷ r) = last_part (q ∷ r)

-- `Path(relative).name`
unfoldable pub path_name : Text → Text
unfolding path_parts last_part
path_name relative = last_part (path_parts relative)

-- `_validate_relative_path`; `none` is its ValueError.
unfoldable pub valid_parts : Value → Option (List Text)
unfolding strip starts_with str path_parts
valid_parts (text relative) =
    if is_empty (strip relative) || starts_with (str "/") relative
    then none
    else if contains (path_parts relative) (str "..")
        || any (contains forbidden_parts) (path_parts relative)
    then none
    else some (path_parts relative)
valid_parts _ = none

unfoldable pub is_prefix : List Text → List Text → Bool
is_prefix [] l = true
is_prefix (p ∷ ps) [] = false
is_prefix (p ∷ ps) (q ∷ l) = p == q && is_prefix ps l

-- `_safe_child`; `none` is its ValueError.
unfoldable pub safe_child : World → Location → Value → Option Location
unfolding is_prefix
safe_child w root relative = elim (valid_parts relative) [
  | none ↦ none
  | some parts ↦
      let base = w.resolve root in
      let candidate = w.resolve (base ++ parts) in
      if is_prefix base candidate then some candidate else none
]

-- The outcome of `_safe_non_symlink_child`: its path, its ValueError, or an OSError of `lstat`.
pub data Guarded : Type 0 where
  safe : Location → Guarded
  unsafe failed : Guarded

-- The loop over the components; the first that is missing ends it.
unfoldable pub walk_parts : World → Location → List Text → Guarded → Guarded
walk_parts w current [] result = result
walk_parts w current (p ∷ ps) result =
    let rest = walk_parts w (current ++ p ∷ []) ps result in
    elim (w.lstat (current ++ p ∷ [])) [
      | symlink ↦ unsafe
      | missing ↦ result
      | refused ↦ failed
      | regular ↦ rest
      | directory ↦ rest
    ]

unfoldable pub safe_non_symlink_child : World → Location → Value → Guarded
unfolding walk_parts
safe_non_symlink_child w root relative = elim (valid_parts relative) [
  | none ↦ unsafe
  | some parts ↦ let base = w.resolve root in walk_parts w base parts (safe (base ++ parts))
]

-- `_regular_non_symlink`
unfoldable pub regular_non_symlink : World → Location → Bool
regular_non_symlink w path = elim (w.lstat path) [ regular ↦ true | _ ↦ false ]
