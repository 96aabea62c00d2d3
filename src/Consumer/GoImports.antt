-- ===== src/Consumer/GoImports.antt =====
-- The Go lexer of port/consumer/verify.py: `_skip_go_ignored`, `_skip_go_string`, `_go_import_string`
-- and `go_imports`. An index into the text is the text from that index on; an index behind the end
-- is the empty text. Each loop is on fuel, and the length of the text is enough.
pub mod Progress
pub mod Ends
use symaira_corekit.Base.{
  ℕ, zero, suc, Bool, true, false, not, ◌&&◌, ◌||◌, Option, none, some, List, [], ◌∷◌, ◌++◌, Text,
  str, drop, if◌then◌else◌, length, ltb, ◌==◌, nat_eq, list_eq, option_eq, bool_eq, pair_eq,
}
use symaira_corekit.Base.Strings.{before, is_space, starts_with}
use symaira_corekit.Consumer.World.{Letters}
use symaira_corekit.Regex.{between}

unfoldable pub is_alpha : Letters → ℕ → Bool
is_alpha u c = if ltb c 128 then between b'A' b'Z' c || between b'a' b'z' c else u.alpha c

unfoldable pub is_alnum : Letters → ℕ → Bool
is_alnum u c =
    if ltb c 128
    then between b'0' b'9' c || between b'A' b'Z' c || between b'a' b'z' c
    else u.alnum c

unfoldable pub is_word : Letters → ℕ → Bool
unfolding is_alnum
is_word u c = is_alnum u c || c == b'_'

-- Behind the first line feed, and behind the first `*/`; the end of the text where there is none.
unfoldable pub after_line : Text → Text
after_line [] = []
after_line (c ∷ s) = let rest = after_line s in if c == 10 then s else rest

unfoldable pub after_comment : Text → Text
after_comment [] = []
after_comment (c ∷ []) = []
after_comment (c ∷ d ∷ s) =
    let rest = after_comment (d ∷ s) in if c == b'*' && d == b'/' then s else rest

-- One round of `_skip_go_ignored`: none when the loop breaks.
unfoldable pub ignored : Text → Option Text
unfolding is_space after_line after_comment
ignored [] = none
ignored (c ∷ []) = if is_space c then some [] else none
ignored (c ∷ d ∷ s) =
    if is_space c
    then some (d ∷ s)
    else if c == b'/' && d == b'/'
    then some (after_line s)
    else if c == b'/' && d == b'*'
    then some (after_comment s)
    else none

unfoldable pub skip_rounds : ℕ → Text → Text
unfolding ignored
skip_rounds zero s = s
skip_rounds (suc fuel) s = elim (ignored s) [ none ↦ s | some rest ↦ skip_rounds fuel rest ]

-- `_skip_go_ignored`
unfoldable pub skip_go_ignored : Text → Text
unfolding skip_rounds
skip_go_ignored s = skip_rounds (length s) s

-- The loop of `_skip_go_string` behind the opening quote; `escaped` skips the character after a
-- backslash.
unfoldable pub string_rest : ℕ → Bool → Text → Text
string_rest quote escaped [] = []
string_rest quote escaped (c ∷ s) =
    let rest = string_rest quote (not escaped && not (quote == b'`') && c == b'\\') s in
    if not escaped && c == quote then s else rest

-- `_skip_go_string`
unfoldable pub skip_go_string : Text → Text
unfolding string_rest
skip_go_string [] = []
skip_go_string (quote ∷ s) = string_rest quote false s

-- The loop of `_go_import_string`: the text up to the closing quote, unless a backslash or the end of the
-- text comes first. The flag tells the two apart.
unfoldable pub quoted : Text → Option (Text × Text) × Bool
quoted [] = (none, false)
quoted (c ∷ s) =
    let (found, escaped) = quoted s in
    if c == b'\\'
    then (none, true)
    else if c == b'"'
    then (some ([], s), false)
    else (elim found [ none ↦ none | some (t, rest) ↦ some (c ∷ t, rest) ], escaped)

unfoldable pub go_import_string : Text → Option Text × Text
unfolding quoted skip_go_string
go_import_string [] = (none, [])
go_import_string (c ∷ s) =
    if not (c == b'"')
    then (none, c ∷ s)
    else let (found, escaped) = quoted s in
      elim found [
        | some (t, rest) ↦ (some t, rest)
        | none ↦ (none, if escaped then skip_go_string (c ∷ s) else [])
      ]

-- The characters of a class, and what follows them.
unfoldable pub span : (ℕ → Bool) → Text → Text × Text
span p [] = ([], [])
span p (c ∷ s) = let (w, rest) = span p s in if p c then (c ∷ w, rest) else ([], c ∷ s)

abbrev pub skip_class : (ℕ → Bool) → Text → Text
skip_class p s = (span p s).1

-- `index = index_after if index_after > index else index + 1`
unfoldable pub advance : Text → Text → Text
advance before after = if ltb (length after) (length before) then after else drop 1 before

-- `[imported] if imported is not None`
abbrev pub found_import : Option Text → List Text
found_import none = []
found_import (some t) = t ∷ []

-- The alias of a line in an import block.
unfoldable pub skip_alias : Letters → Text → Text
unfolding is_alpha is_word span skip_go_ignored
skip_alias u [] = []
skip_alias u (c ∷ s) =
    if c == b'.' || c == b'_' || is_alpha u c
    then skip_go_ignored (skip_class (is_word u) s)
    else c ∷ s

-- The loop over an import block: what it finds, and what follows the block.
unfoldable pub import_block : Letters → ℕ → Text → List Text × Text
unfolding skip_alias go_import_string advance skip_go_ignored
import_block u zero s = ([], s)
import_block u (suc fuel) s = elim (skip_go_ignored s) [
  | [] ↦ ([], [])
  | c ∷ t ↦
      let here = skip_alias u (c ∷ t) in
      let (imported, after) = go_import_string here in
      let (more, rest) = import_block u fuel (advance here after) in
      if c == b')' then ([], t) else (found_import imported ++ more, rest)
]

-- The optional alias of a single import.
unfoldable pub skip_name : Letters → Text → Text
unfolding is_alnum span skip_go_ignored
skip_name u [] = []
skip_name u (c ∷ s) =
    if c == b'"'
    then c ∷ s
    else skip_go_ignored (skip_class (λ d. is_alnum u d || d == b'.' || d == b'_') (c ∷ s))

-- A single import, with its optional alias.
unfoldable pub single_import : Letters → Text → List Text × Text
unfolding skip_name go_import_string advance
single_import u s =
    let here = skip_name u s in
    let (imported, after) = go_import_string here in (found_import imported, advance here after)

-- What follows the word `import`.
unfoldable pub import_clause : Letters → Text → List Text × Text
unfolding skip_go_ignored import_block single_import
import_clause u s = elim (skip_go_ignored s) [
  | [] ↦ single_import u []
  | c ∷ t ↦ if c == b'(' then import_block u (length t) t else single_import u (c ∷ t)
]

-- One round of `go_imports`: what it finds, and where the next round begins.
unfoldable pub import_round : Letters → ℕ → Text → List Text × Text
unfolding is_alpha is_word span skip_go_ignored skip_go_string import_clause starts_with str
import_round u c s =
    let (word, rest) = span (is_word u) s in
    if starts_with (str "//") (c ∷ s) || starts_with (str "/*") (c ∷ s)
    then ([], skip_go_ignored (c ∷ s))
    else if c == b'"' || c == 39 || c == b'`'
    then ([], skip_go_string (c ∷ s))
    else if is_alpha u c || c == b'_'
    then (if c ∷ word == str "import" then import_clause u rest else ([], rest))
    else ([], s)

unfoldable pub imports_from : Letters → ℕ → Text → List Text
unfolding import_round
imports_from u fuel [] = []
imports_from u zero (c ∷ s) = []
imports_from u (suc fuel) (c ∷ s) =
    let (found, rest) = import_round u c s in found ++ imports_from u fuel rest

unfoldable pub go_imports : Letters → Text → List Text
unfolding imports_from
go_imports u text' = imports_from u (length text') text'
