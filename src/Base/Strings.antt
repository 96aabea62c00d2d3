-- ===== src/Base/Strings.antt =====
-- Python's `str` as the list of its code points, and the methods that the scripts call.
use Prim.Native.Nat.{ℕ}
use Prim.Native.Char.{code}
use Prim.Native.String.{String}
use mathlib.Core.Bool.{Bool, true, false, ◌&&◌, ◌||◌}
use mathlib.Core.Option.{Option, none, some}
use mathlib.Core.List.{List, [], ◌∷◌, ◌++◌, reverse}
use symaira_corekit.Base.Tests.{leb, if◌then◌else◌}
use symaira_corekit.Base.Lists.{is_empty}
use symaira_corekit.Base.Equality.{◌==◌, nat_eq}

abbrev pub Text : Type 0
Text = List ℕ

-- A literal. It is shut, so that a proof compares literals only where it opens it.
unfoldable pub str : String → Text
str String.[] = []
str (String.◌∷◌ c s) = code c ∷ str s

-- `c.isspace()`: the code points that `strip` and `split` take for white space.
unfoldable pub is_space : ℕ → Bool
is_space c =
    leb 9 c && leb c 13
    || leb 28 c && leb c 32
    || c == 133
    || c == 160
    || c == 5760
    || leb 8192 c && leb c 8202
    || c == 8232
    || c == 8233
    || c == 8239
    || c == 8287
    || c == 12288

unfoldable pub lstrip : Text → Text
lstrip [] = []
lstrip (c ∷ s) = let rest = lstrip s in if is_space c then rest else c ∷ s

-- What is left behind the trailing white space of a text.
unfoldable pub rstrip : Text → Text
unfolding lstrip
rstrip s = reverse (lstrip (reverse s))

unfoldable pub strip : Text → Text
unfolding rstrip lstrip is_space
strip s = rstrip (lstrip s)

unfoldable pub starts_with : Text → Text → Bool
starts_with [] s = true
starts_with (p ∷ ps) [] = false
starts_with (p ∷ ps) (c ∷ s) = p == c && starts_with ps s

-- `sep.join(parts)`
unfoldable pub join : Text → List Text → Text
join sep [] = []
join sep (p ∷ []) = p
join sep (p ∷ q ∷ r) = p ++ sep ++ join sep (q ∷ r)

-- `s.removeprefix(p)`
unfoldable pub remove_prefix : Text → Text → Text
remove_prefix [] s = s
remove_prefix (p ∷ ps) [] = []
remove_prefix (p ∷ ps) (c ∷ s) = if starts_with (p ∷ ps) (c ∷ s) then remove_prefix ps s else c ∷ s

-- The text before the first occurrence of `sub`, if there is one: `s.split(sub, 1)[0]`.
unfoldable pub before : Text → Text → Option Text
unfolding starts_with
before sub [] = if is_empty sub then some [] else none
before sub (c ∷ s) =
    let rest = before sub s in
    if starts_with sub (c ∷ s) then some [] else elim rest [ none ↦ none | some t ↦ some (c ∷ t) ]

-- `sub in s`
unfoldable pub occurs : Text → Text → Bool
unfolding before
occurs sub s = elim (before sub s) [ none ↦ false | some t ↦ true ]

-- `s.split(sub, 1)[0]`
unfoldable pub cut_at : Text → Text → Text
unfolding before
cut_at sub s = elim (before sub s) [ none ↦ s | some t ↦ t ]

-- The character belongs to the first item.
unfoldable pub push : ℕ → List Text → List Text
push c [] = (c ∷ []) ∷ []
push c (l ∷ ls) = (c ∷ l) ∷ ls

-- `s.split(sep)` at one separating character: never empty.
unfoldable pub split_on : ℕ → Text → List Text
unfolding push
split_on sep [] = [] ∷ []
split_on sep (c ∷ s) = let rest = split_on sep s in if c == sep then [] ∷ rest else push c rest

-- The line boundaries of `splitlines`.
unfoldable pub is_break : ℕ → Bool
is_break c = leb 10 c && leb c 13 || leb 28 c && leb c 30 || c == 133 || c == 8232 || c == 8233

-- `cr`: the character before was a carriage return, which a line feed joins.
unfoldable pub lines_from : Bool → Text → List Text
unfolding is_break push
lines_from cr [] = []
lines_from cr (c ∷ s) =
    let rest = lines_from (c == 13) s in
    if cr && c == 10 then rest else if is_break c then [] ∷ rest else push c rest

-- `s.splitlines()`
unfoldable pub split_lines : Text → List Text
unfolding lines_from
split_lines s = lines_from false s

unfoldable pub flush : Text → List Text → List Text
flush [] ws = ws
flush (c ∷ w) ws = (c ∷ w) ∷ ws

-- The word that the text begins with, and the words behind it.
unfoldable pub scan_words : Text → Text × List Text
unfolding is_space flush
scan_words [] = ([], [])
scan_words (c ∷ s) =
    let (w, ws) = scan_words s in if is_space c then ([], flush w ws) else (c ∷ w, ws)

-- `s.split()`
unfoldable pub words : Text → List Text
unfolding scan_words
words s = let (w, ws) = scan_words s in flush w ws
