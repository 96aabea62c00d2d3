-- ===== src/Consumer/GoImports/Progress.antt =====
-- How far the functions of the Go lexer of port/consumer/verify.py go on in the text.
use symaira_corekit.Base.{
  ℕ, zero, suc, ◌-◌, ◌≤◌, ◌<◌, ◌≡◌, ap, ◌≢◌, inl, inr, Bool, true, false, not, ◌&&◌, ◌||◌, none,
  some, [], ◌∷◌, arith, Text, str, Bool-cases, List-cases, Option-cases, length, ◌==◌, nat_eq,
  list_eq, option_eq, bool_eq, pair_eq,
}
use symaira_corekit.Base.Strings.{starts_with}
use symaira_corekit.Consumer.GoImports.{
  advance, after_comment, after_line, go_import_string, ignored, import_block, import_clause,
  import_round, is_alnum, is_word, quoted, single_import, skip_alias, skip_class, skip_go_ignored,
  skip_go_string, skip_name, skip_rounds, span, string_rest,
}
use symaira_corekit.Consumer.World.{Letters}

after_line-le : (s : Text) → length (after_line s) ≤ length s
unfolding after_line
after_line-le [] = omega arith
after_line-le (c ∷ s) = ground (arith, after_line-le s)

after_comment-le : (s : Text) → length (after_comment s) ≤ length s
unfolding after_comment
after_comment-le [] = omega arith
after_comment-le (c ∷ []) = omega arith
after_comment-le (c ∷ d ∷ s) = ground (arith, after_comment-le (d ∷ s))

pub ignored-lt : (s rest : Text) → ignored s ≡ some rest → length rest < length s
unfolding ignored
ignored-lt [] rest h = absurd (ground (arith, h))
ignored-lt (c ∷ []) rest h = ground (arith, h)
ignored-lt (c ∷ d ∷ s) rest h = ground (arith, h, after_line-le s, after_comment-le s)

skip_rounds-le : (fuel : ℕ) (s : Text) → length (skip_rounds fuel s) ≤ length s
unfolding skip_rounds
skip_rounds-le zero s = omega arith
skip_rounds-le (suc fuel) s = elim (Option-cases (ignored s)) [
  | inl e ↦ ground (arith, e)
  | inr (rest, e) ↦ ground (arith, e, ignored-lt s rest e, skip_rounds-le fuel rest)
]

pub skip_go_ignored-le : (s : Text) → length (skip_go_ignored s) ≤ length s
unfolding skip_go_ignored
skip_go_ignored-le s = skip_rounds-le (length s) s

-- Where the loop takes a first round, it moves on.
skip_go_ignored-lt :
    (c : ℕ) (s rest : Text)
    → ignored (c ∷ s) ≡ some rest
    → length (skip_go_ignored (c ∷ s)) ≤ length s
unfolding skip_go_ignored skip_rounds
skip_go_ignored-lt c s rest e =
    ground (arith, e, ignored-lt (c ∷ s) rest e, skip_rounds-le (length s) rest)

string_rest-le :
    (quote : ℕ) (escaped : Bool) (s : Text) → length (string_rest quote escaped s) ≤ length s
unfolding string_rest
string_rest-le quote escaped [] = omega arith
string_rest-le quote escaped (c ∷ s) =
    ground (arith, string_rest-le quote (not escaped && not (quote == b'`') && c == b'\\') s)

skip_go_string-le : (c : ℕ) (s : Text) → length (skip_go_string (c ∷ s)) ≤ length s
unfolding skip_go_string
skip_go_string-le c s = string_rest-le c false s

pub span-le : (p : ℕ → Bool) (s : Text) → length (span p s).1 ≤ length s
unfolding span
span-le p [] = omega arith
span-le p (c ∷ s) = ground (arith, span-le p s)

-- What the loop of an import string leaves.
quoted-le : (s t rest : Text) → (quoted s).0 ≡ some (t, rest) → length rest < length s
unfolding quoted
quoted-le [] t rest h = absurd (ground (arith, h))
quoted-le (c ∷ s) t rest h = elim (Option-cases (quoted s).0) [
  | inl e ↦ ground (arith, h, e)
  | inr ((t', rest'), e) ↦ ground (arith, h, e, quoted-le s t' rest' e)
]

pub go_import_string-le : (s : Text) → length (go_import_string s).1 ≤ length s
unfolding go_import_string
go_import_string-le [] = omega arith
go_import_string-le (c ∷ s) = elim (Option-cases (quoted s).0) [
  | inl e ↦ ground (arith, e, skip_go_string-le c s)
  | inr ((t, rest), e) ↦ ground (arith, e, quoted-le s t rest e)
]

-- An advance leaves less than there was, unless nothing was there.
pub advance-le : (before after : Text) → length (advance before after) ≤ length before - 1
unfolding advance
advance-le [] after = ground arith
advance-le (c ∷ s) after = ground arith

pub skip_alias-le : (u : Letters) (s : Text) → length (skip_alias u s) ≤ length s
unfolding skip_alias
skip_alias-le u [] = omega arith
skip_alias-le u (c ∷ s) =
    ground (arith, span-le (is_word u) s, skip_go_ignored-le (skip_class (is_word u) s))

pub skip_name-le : (u : Letters) (s : Text) → length (skip_name u s) ≤ length s
unfolding skip_name
skip_name-le u [] = omega arith
skip_name-le u (c ∷ s) =
    let p : ℕ → Bool = λ d. is_alnum u d || d == b'.' || d == b'_' in
    ground (arith, span-le p (c ∷ s), skip_go_ignored-le (skip_class p (c ∷ s)))

-- The rest of the block at a round that does not close it.
pub block_next :
    (u : Letters) (c : ℕ) (t : Text)
    → length (advance (skip_alias u (c ∷ t)) (go_import_string (skip_alias u (c ∷ t))).1) ≤ length t
block_next u c t =
    let here = skip_alias u (c ∷ t) in
    omega (arith, advance-le here (go_import_string here).1, skip_alias-le u (c ∷ t))

pub import_block-le :
    (u : Letters) (fuel : ℕ) (s : Text) → length (import_block u fuel s).1 ≤ length s
unfolding import_block
import_block-le u zero s = omega arith
import_block-le u (suc fuel) s = elim (List-cases (skip_go_ignored s)) [
  | inl e ↦ ground (arith, e)
  | inr (c, t, e) ↦
      let here = skip_alias u (c ∷ t) in
      let next = advance here (go_import_string here).1 in
      let size : suc (length t) ≤ length s = omega (arith, skip_go_ignored-le s, ap length e) in
      ground (arith, e, size, block_next u c t, import_block-le u fuel next)
]

pub import_clause-le : (u : Letters) (s : Text) → length (import_clause u s).1 ≤ length s
unfolding import_clause single_import
import_clause-le u s = elim (List-cases (skip_go_ignored s)) [
  | inl e ↦ ground (
    arith,
    e,
    skip_name-le u [],
    advance-le (skip_name u []) (go_import_string (skip_name u [])).1,
  )
  | inr (c, t, e) ↦
      let here = skip_name u (c ∷ t) in
      let size : suc (length t) ≤ length s = omega (arith, skip_go_ignored-le s, ap length e) in
      ground (
        arith,
        e,
        size,
        import_block-le u (length t) t,
        skip_name-le u (c ∷ t),
        advance-le here (go_import_string here).1,
      )
]

is_comment : Text → Bool
unfolding starts_with str
is_comment s = starts_with (str "//") s || starts_with (str "/*") s

comment-ignored : (s : Text) → is_comment s ≡ true → ignored s ≢ none
unfolding is_comment ignored
comment-ignored [] h k = absurd (ground (arith, h))
comment-ignored (c ∷ []) h k = absurd (ground (arith, h))
comment-ignored (c ∷ d ∷ s) h k = absurd (ground (arith, h, k))

comment_le :
    (c : ℕ) (s : Text) → is_comment (c ∷ s) ≡ true → length (skip_go_ignored (c ∷ s)) ≤ length s
comment_le c s h = elim (Option-cases (ignored (c ∷ s))) [
  | inl e ↦ absurd (comment-ignored (c ∷ s) h e)
  | inr (rest, e) ↦ skip_go_ignored-lt c s rest e
]

pub import_round-le : (u : Letters) (c : ℕ) (s : Text) → length (import_round u c s).1 ≤ length s
unfolding import_round is_comment
import_round-le u c s =
    let rest = (span (is_word u) s).1 in
    let plain : length rest ≤ length s = span-le (is_word u) s in
    let clause : length (import_clause u rest).1 ≤ length rest = import_clause-le u rest in
    let literal = skip_go_string-le c s in
    elim (Bool-cases (is_comment (c ∷ s))) [
      | inl e ↦ let shorter = comment_le c s e in ground (arith, e, shorter)
      | inr e ↦ ground (arith, e, plain, clause, literal)
    ]
