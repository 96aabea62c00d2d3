-- ===== src/Consumer/GoImports/Ends.antt =====
-- The loops of the Go lexer of port/consumer/verify.py, as the rounds that they take.
use symaira_corekit.Base.{
  ℕ, zero, suc, ◌≤◌, ◌≡◌, refl, ap, ◌∙◌, ◌≢◌, inl, inr, none, some, List, [], ◌∷◌, ◌++◌, arith,
  Text, Bool-cases, List-cases, Option-cases, length, nat_beq_iff, ◌==◌, nat_eq, list_eq, option_eq,
  bool_eq, pair_eq,
}
use symaira_corekit.Consumer.GoImports.{
  advance, found_import, go_import_string, go_imports, ignored, import_block, import_round,
  imports_from, skip_alias, skip_go_ignored, skip_rounds,
}
use symaira_corekit.Consumer.GoImports.Progress.{
  block_next, ignored-lt, import_round-le, skip_go_ignored-le,
}
use symaira_corekit.Consumer.World.{Letters}

-- The rounds of `_skip_go_ignored` from a text to where its loop breaks.
pub data Skips : Text → Text → Type 0 where
  breaks : {s : Text} → ignored s ≡ none → Skips s s
  skips : {s : Text} (r : Text) {t : Text} → ignored s ≡ some r → Skips r t → Skips s t

-- The rounds of the loop over an import block: it ends at the end of the text or behind a closing parenthesis; any
-- other round may find an import, and the next one begins at the index that the code advances to.
pub data Reads (u : Letters) : Text → List Text → Text → Type 0 where
  ended : {s : Text} → skip_go_ignored s ≡ [] → Reads u s [] []
  closed : {s : Text} (t : Text) → skip_go_ignored s ≡ b')' ∷ t → Reads u s [] t
  line :
      {s : Text} (c : ℕ) (t : Text) {more : List Text} {rest : Text}
      → skip_go_ignored s ≡ c ∷ t
      → c ≢ b')'
      → Reads u
          (advance (skip_alias u (c ∷ t)) (go_import_string (skip_alias u (c ∷ t))).1)
          more
          rest
      → Reads u s (found_import (go_import_string (skip_alias u (c ∷ t))).0 ++ more) rest

-- The rounds of `go_imports` up to the end of the text.
pub data Lexes (u : Letters) : Text → List Text → Type 0 where
  at_end : Lexes u [] []
  one_round :
      (c : ℕ) (s : Text) {more : List Text}
      → Lexes u (import_round u c s).1 more
      → Lexes u (c ∷ s) ((import_round u c s).0 ++ more)

nothing_ignored : ignored [] ≡ none
unfolding ignored
nothing_ignored = refl

nothing_left : skip_go_ignored [] ≡ []
unfolding skip_go_ignored skip_rounds
nothing_left = refl

skip_rounds-Skips : (fuel : ℕ) (s : Text) → length s ≤ fuel → Skips s (skip_rounds fuel s)
unfolding skip_rounds
skip_rounds-Skips zero [] h = breaks nothing_ignored
skip_rounds-Skips zero (c ∷ s) h = absurd (omega (arith, h))
skip_rounds-Skips (suc fuel) s h = elim (Option-cases (ignored s)) [
  | inl e ↦ rw (e, skip_rounds) (breaks e)
  | inr (rest, e) ↦
      let shorter = ignored-lt s rest e in
      rw (e, skip_rounds) (skips rest e (skip_rounds-Skips fuel rest (omega (arith, shorter, h))))
]

import_block-Reads :
    (u : Letters) (fuel : ℕ) (s : Text)
    → length s ≤ fuel
    → Reads u s (import_block u fuel s).0 (import_block u fuel s).1
unfolding import_block
import_block-Reads u zero [] h = ended nothing_left
import_block-Reads u zero (c ∷ s) h = absurd (omega (arith, h))
import_block-Reads u (suc fuel) s h = elim (List-cases (skip_go_ignored s)) [
  | inl e ↦ rw (e, import_block) (ended e)
  | inr (c, t, e) ↦ elim (Bool-cases (c == b')')) [
    | inl f ↦ rw (e, f, import_block) (closed t (e ∙ ap (λ d. d ∷ t) ((nat_beq_iff c b')').0 f)))
    | inr f ↦
        let here = skip_alias u (c ∷ t) in
        let after = advance here (go_import_string here).1 in
        let size : suc (length t) ≤ length s = omega (arith, skip_go_ignored-le s, ap length e) in
        let shorter : length after ≤ fuel = omega (arith, block_next u c t, size, h) in
        rw (e, f, import_block)
          (line c t e (λ k. ground (arith, f, (nat_beq_iff c b')').1 k))
            (import_block-Reads u fuel after shorter))
  ]
]

imports_from-Lexes :
    (u : Letters) (fuel : ℕ) (s : Text) → length s ≤ fuel → Lexes u s (imports_from u fuel s)
unfolding imports_from
imports_from-Lexes u fuel [] h = at_end
imports_from-Lexes u zero (c ∷ s) h = absurd (omega (arith, h))
imports_from-Lexes u (suc fuel) (c ∷ s) h =
    let shorter = import_round-le u c s in
    one_round c s (imports_from-Lexes u fuel (import_round u c s).1 (omega (arith, shorter, h)))

-- From every text each of the lexer's loops comes to its own end in finitely many of its rounds: `_skip_go_ignored` to
-- where its loop breaks, the loop over an import block to a closing parenthesis or the end of the text, and
-- `go_imports` to the end of the text; what those rounds find, in their order, is what each returns.
pub go_imports_ends :
    (u : Letters) (s : Text)
    → Skips s (skip_go_ignored s)
      × Reads u s (import_block u (length s) s).0 (import_block u (length s) s).1
      × Lexes u s (go_imports u s)
unfolding skip_go_ignored go_imports
go_imports_ends u s = (
  skip_rounds-Skips (length s) s (omega arith),
  import_block-Reads u (length s) s (omega arith),
  imports_from-Lexes u (length s) s (omega arith),
)
