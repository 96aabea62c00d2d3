-- ===== src/Trust.antt =====
-- `repository_slug_from_remote` and `assert_origin` of scripts/rust-port/trust.py.
pub mod Remote
pub mod Origin
use mathlib.Core.List.{reverse}
use symaira_corekit.Base.{
  ℕ, suc, not, ◌||◌, Option, none, some, List, [], ◌∷◌, ◌++◌, Text, str, drop, if◌then◌else◌,
  is_empty, ◌==◌, nat_eq, list_eq, option_eq, bool_eq, pair_eq,
}
use symaira_corekit.Base.Strings.{cut_at, remove_prefix, split_on, starts_with, strip}
use symaira_corekit.Json.{Value, text}

-- What follows the first of the allowed prefixes; `none` is the ValueError.
unfoldable pub allowed_remote : Text → Option Text
unfolding starts_with remove_prefix str
allowed_remote value =
    if starts_with (str "git@github.com:") value
    then some (remove_prefix (str "git@github.com:") value)
    else if starts_with (str "https://github.com/") value
    then some (remove_prefix (str "https://github.com/") value)
    else if starts_with (str "http://github.com/") value
    then some (remove_prefix (str "http://github.com/") value)
    else none

-- `value.rstrip("/")`, on the text read backwards.
unfoldable pub skip_slashes : Text → Text
skip_slashes [] = []
skip_slashes (c ∷ s) = let rest = skip_slashes s in if c == 47 then rest else c ∷ s

-- `value.split("?", 1)[0].split("#", 1)[0].rstrip("/")`, without the ending ".git".
unfoldable pub trimmed : Text → Text
unfolding cut_at skip_slashes starts_with str
trimmed value =
    let backwards = skip_slashes (reverse (cut_at (str "#") (cut_at (str "?") value))) in
    reverse (if starts_with (str "tig.") backwards then drop 4 backwards else backwards)

-- The owner and the name, joined again.
unfoldable pub slug_of : List Text → Option Text
slug_of (owner ∷ name ∷ []) =
    if is_empty owner || is_empty name then none else some (owner ++ 47 ∷ name)
slug_of parts = none

unfoldable pub repository_slug_from_remote : Text → Option Text
unfolding allowed_remote trimmed slug_of split_on strip
repository_slug_from_remote remote = elim (allowed_remote (strip remote)) [
  | none ↦ none
  | some value ↦ slug_of (split_on 47 (trimmed value))
]

unfoldable pub count : ℕ → Text → ℕ
count c [] = 0
count c (d ∷ s) = let rest = count c s in if d == c then suc rest else rest

-- `assert_origin`, where `git` gives the stripped output of a command that succeeds: the remote, or an error.
unfoldable pub assert_origin : (List Text → Option Text) → Value → Option Text
unfolding count repository_slug_from_remote str
assert_origin git (text repository) =
    if not (count 47 repository == 1)
    then none
    else elim (git (str "remote" ∷ str "get-url" ∷ str "origin" ∷ [])) [
      | none ↦ none
      | some remote ↦ elim (repository_slug_from_remote remote) [
        | none ↦ none
        | some actual ↦ if actual == repository then some remote else none
      ]
    ]
assert_origin git v = none
