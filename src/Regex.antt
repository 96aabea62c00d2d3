-- ===== src/Regex.antt =====
-- Python's `re.fullmatch` for patterns without groups that are read back: a pattern is data, and a
-- text is matched by taking derivatives.
pub mod Laws
use symaira_corekit.Base.{
  ℕ, zero, suc, Bool, true, false, ◌&&◌, ◌||◌, ◌==◌, nat_eq, List, [], ◌∷◌, Text, leb,
  if◌then◌else◌, contains, str,
}

pub data Regex : Type 0 where
  never empty : Regex
  set : (ℕ → Bool) → Regex
  seq alt : Regex → Regex → Regex
  star : Regex → Regex

-- The empty text matches.
unfoldable pub nullable : Regex → Bool
nullable never = false
nullable empty = true
nullable (set p) = false
nullable (seq r q) = nullable r && nullable q
nullable (alt r q) = nullable r || nullable q
nullable (star r) = true

-- What has to follow the character `c`.
unfoldable pub derive : Regex → ℕ → Regex
unfolding nullable
derive never c = never
derive empty c = never
derive (set p) c = if p c then empty else never
derive (seq r q) c =
    let second = derive q c in
    let first = seq (derive r c) q in if nullable r then alt first second else first
derive (alt r q) c = alt (derive r c) (derive q c)
derive (star r) c = seq (derive r c) (star r)

unfoldable pub fullmatch : Regex → Text → Bool
unfolding derive
fullmatch r [] = nullable r
fullmatch r (c ∷ s) = fullmatch (derive r c) s

-- `[0-9]`, `[1-9]`, `[0-9a-f]`, `[0-9A-Za-z-]`: ranges of code points.
abbrev pub between : ℕ → ℕ → ℕ → Bool
between a b c = leb a c && leb c b

abbrev pub char : ℕ → Regex
char a = set (λ c. c == a)

abbrev pub literal : Text → Regex
literal [] = empty
literal (c ∷ s) = seq (char c) (literal s)

abbrev pub optional : Regex → Regex
optional r = alt r empty

abbrev pub plus : Regex → Regex
plus r = seq r (star r)

-- `r{n}`
abbrev pub times : ℕ → Regex → Regex
times zero r = empty
times (suc n) r = seq r (times n r)
