-- ===== src/Consumer/GoMod.antt =====
-- The Go module files of port/consumer/verify.py: `parse_go_requirements`, `go_corekit_replacements`,
-- `parse_go_pins` and `parse_go_pin`.
pub mod Directives
pub mod Replacements
use symaira_corekit.Base.{
  Bool, true, false, not, ◌&&◌, ◌||◌, Option, none, some, List, [], ◌∷◌, ◌++◌, Text, str,
  if◌then◌else◌, is_empty, select, ◌==◌, nat_eq, list_eq, option_eq, bool_eq, pair_eq,
}
use symaira_corekit.Base.Strings.{
  cut_at, occurs, remove_prefix, rstrip, split_lines, starts_with, strip, words,
}
use symaira_corekit.Consumer.Patterns.{is_go_version}

-- `COREKIT_MODULE`
unfoldable pub corekit_module : Text
unfolding str
corekit_module = str "github.com/danieljustus/symaira-corekit"

-- `COREKIT_MODULE + "/"` begins the path, or it is the module.
unfoldable pub is_corekit : Text → Bool
unfolding starts_with corekit_module
is_corekit t = t == corekit_module || starts_with (corekit_module ++ str "/") t

-- A line without its comment: none for an empty line and for a comment line.
unfoldable pub go_line : Text → Option Text
unfolding strip starts_with occurs cut_at rstrip str
go_line raw =
    let line = strip raw in
    if is_empty line || starts_with (str "//") line
    then none
    else some (if occurs (str "//") line then rstrip (cut_at (str "//") line) else line)

-- What a require declaration adds: nothing for another module, none for a malformed version.
unfoldable pub requirement_of : List Text → List (Option Text)
unfolding corekit_module is_go_version
requirement_of [] = []
requirement_of (name ∷ []) = if name == corekit_module then none ∷ [] else []
requirement_of (name ∷ version ∷ rest) =
    if name == corekit_module
    then (if is_go_version version then some version else none) ∷ []
    else []

-- One line under the flag `in_require`: the flag behind it, and what it adds.
unfoldable pub require_line : Bool → Text → Bool × List (Option Text)
unfolding remove_prefix strip words requirement_of str starts_with
require_line in_require line =
    if starts_with (str "require (") line
    then (true, [])
    else if in_require && line == str ")"
    then (false, [])
    else if not (in_require || starts_with (str "require ") line)
    then (in_require, [])
    else (in_require, requirement_of (words (strip (remove_prefix (str "require ") line))))

unfoldable pub require_step : Bool → Text → Bool × List (Option Text)
unfolding go_line require_line
require_step in_require raw = elim (go_line raw) [
  | none ↦ (in_require, [])
  | some line ↦ require_line in_require line
]

unfoldable pub require_lines : Bool → List Text → List (Option Text)
unfolding require_step
require_lines in_require [] = []
require_lines in_require (raw ∷ lines) =
    let (flag, found) = require_step in_require raw in found ++ require_lines flag lines

unfoldable pub parse_go_requirements : Text → List (Option Text)
unfolding split_lines require_lines
parse_go_requirements text' = require_lines false (split_lines text')

-- The two sides of the first arrow.
unfoldable pub split_arrow : List Text → Option (List Text × List Text)
unfolding str
split_arrow [] = none
split_arrow (f ∷ fs) =
    let rest = split_arrow fs in
    if f == str "=>"
    then some ([], fs)
    else elim rest [ none ↦ none | some (old, new) ↦ some (f ∷ old, new) ]

-- The mention of a declaration that is not understood.
unfoldable pub mention : Text → List Text
unfolding corekit_module occurs
mention declaration = if occurs corekit_module declaration then corekit_module ∷ [] else []

-- A path and perhaps a version.
unfoldable pub is_side : List Text → Bool
is_side (path ∷ []) = true
is_side (path ∷ version ∷ []) = true
is_side _ = false

unfoldable pub head_of : List Text → List Text
head_of [] = []
head_of (f ∷ fs) = f ∷ []

unfoldable pub replacement_of : Text → List Text
unfolding words split_arrow mention is_side head_of is_corekit
replacement_of declaration = elim (split_arrow (words declaration)) [
  | none ↦ mention declaration
  | some (old, new) ↦
      if is_side old && is_side new
      then select is_corekit (head_of old ++ head_of new)
      else mention declaration
]

unfoldable pub replace_line : Bool → Text → Bool × List Text
unfolding remove_prefix strip replacement_of str starts_with
replace_line in_block line =
    if not in_block && line == str "replace ("
    then (true, [])
    else if in_block && line == str ")"
    then (false, [])
    else if not in_block && not (starts_with (str "replace ") line)
    then (in_block, [])
    else (
      in_block,
      replacement_of (
          if starts_with (str "replace ") line
          then strip (remove_prefix (str "replace ") line)
          else line),
    )

unfoldable pub replace_step : Bool → Text → Bool × List Text
unfolding cut_at strip replace_line str
replace_step in_block raw =
    let line = strip (cut_at (str "//") raw) in
    if is_empty line then (in_block, []) else replace_line in_block line

-- The lines, and the flag at the end of the file.
unfoldable pub replace_lines : Bool → List Text → Bool × List Text
unfolding replace_step
replace_lines in_block [] = (in_block, [])
replace_lines in_block (raw ∷ lines) =
    let (flag, found) = replace_step in_block raw in
    let (last, more) = replace_lines flag lines in (last, found ++ more)

unfoldable pub go_corekit_replacements : Text → List Text
unfolding split_lines replace_lines mention
go_corekit_replacements text' =
    let (open_block, found) = replace_lines false (split_lines text') in
    found ++ (if open_block then mention text' else [])

-- `[version for version in ... if version is not None]`
unfoldable pub valid_pins : List (Option Text) → List Text
valid_pins [] = []
valid_pins (none ∷ l) = valid_pins l
valid_pins (some version ∷ l) = version ∷ valid_pins l

unfoldable pub parse_go_pins : Text → List Text
unfolding parse_go_requirements valid_pins
parse_go_pins text' = valid_pins (parse_go_requirements text')

unfoldable pub only_pin : List (Option Text) → Option Text
only_pin (version ∷ []) = version
only_pin _ = none

unfoldable pub parse_go_pin : Text → Option Text
unfolding parse_go_requirements only_pin
parse_go_pin text' = only_pin (parse_go_requirements text')
