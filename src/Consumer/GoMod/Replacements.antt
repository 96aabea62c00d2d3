-- ===== src/Consumer/GoMod/Replacements.antt =====
-- What `go_corekit_replacements` of port/consumer/verify.py lets pass.
use symaira_corekit.Base.{
  ◌≡◌, refl, sym, ap, ◌∙◌, subst, ◌≢◌, inl, inr, Bool, true, false, List, [], ◌∷◌, ◌++◌, arith,
  Text, str, Bool-cases, append-eq-nil, if◌then◌else◌, is_empty, is_empty_iff, list_beq,
  list_beq_iff, ◌==◌, nat_eq, list_eq, option_eq, bool_eq, pair_eq,
}
use symaira_corekit.Base.Cuts.{remove_prefix-append, starts_with-append}
use symaira_corekit.Base.Strings.{remove_prefix, split_lines, starts_with, strip}
use symaira_corekit.Consumer.GoMod.{
  go_corekit_replacements, mention, replace_line, replace_lines, replace_step, replacement_of,
}
use symaira_corekit.Consumer.GoMod.Directives.{
  Declares, Follows, IsUnreplaced, block_closes, block_opens, cleaned, group_entry, group_line,
  line_inside, line_outside, mention_lem, replacement_of_lem, single_line, stays_here,
}

-- What a line adds is nothing, and neither is what the lines behind it add.
lines_lem :
    (b : Bool) (raw : Text) (lines : List Text)
    → (replace_lines b (raw ∷ lines)).1 ≡ []
    → ((replace_step b raw).1 ≡ []) × ((replace_lines (replace_step b raw).0 lines).1 ≡ [])
unfolding replace_lines
lines_lem b raw lines h =
    (append-eq-nil (replace_step b raw).1 (replace_lines (replace_step b raw).0 lines).1).0 h

flag_lem :
    (b c : Bool) (raw : Text) (lines : List Text)
    → (replace_step b raw).0 ≡ c
    → (replace_lines b (raw ∷ lines)).1 ≡ []
    → ((replace_lines c lines).1 ≡ [])
      × ((replace_lines b (raw ∷ lines)).0 ≡ (replace_lines c lines).0)
unfolding replace_lines
flag_lem b c raw lines e h = (
  subst (λ x. (replace_lines x lines).1 ≡ []) e (lines_lem b raw lines h).1,
  ap (λ x. (replace_lines x lines).0) e,
)

outside_flag : (raw : Text) → cleaned raw ≢ str "replace (" → (replace_step false raw).0 ≡ false
unfolding replace_step replace_line
outside_flag raw h = ground (arith, h, list_beq_iff (cleaned raw) (str "replace ("))

inside_flag : (raw : Text) → cleaned raw ≢ str ")" → (replace_step true raw).0 ≡ true
unfolding replace_step replace_line
inside_flag raw h = ground (arith, h, list_beq_iff (cleaned raw) (str ")"))

opener :
    (if is_empty (str "replace (") then (false, []) else replace_line false (str "replace (")).0
    ≡ true
unfolding replace_line str list_beq
opener = refl

closer : (if is_empty (str ")") then (true, []) else replace_line true (str ")")).0 ≡ false
unfolding replace_line str list_beq
closer = refl

opens_flag : (raw : Text) → cleaned raw ≡ str "replace (" → (replace_step false raw).0 ≡ true
unfolding replace_step
opens_flag raw h =
    subst (λ x. (if is_empty x then (false, []) else replace_line false x).0 ≡ true) (sym h) opener

closes_flag : (raw : Text) → cleaned raw ≡ str ")" → (replace_step true raw).0 ≡ false
unfolding replace_step
closes_flag raw h =
    subst (λ x. (if is_empty x then (true, []) else replace_line true x).0 ≡ false) (sym h) closer

follows_lem :
    {b c : Bool} {lines rest : List Text}
    → Follows b lines c rest
    → (replace_lines b lines).1 ≡ []
    → ((replace_lines c rest).1 ≡ []) × ((replace_lines b lines).0 ≡ (replace_lines c rest).0)
follows_lem stays_here h = (h, refl)
follows_lem (block_opens {raw = raw} {lines = lines} e f) h =
    let (k, flag) = flag_lem false true raw lines (opens_flag raw e) h in
    let (l, rest) = follows_lem f k in (l, flag ∙ rest)
follows_lem (block_closes {raw = raw} {lines = lines} e f) h =
    let (k, flag) = flag_lem true false raw lines (closes_flag raw e) h in
    let (l, rest) = follows_lem f k in (l, flag ∙ rest)
follows_lem (line_outside {raw = raw} {lines = lines} e f) h =
    let (k, flag) = flag_lem false false raw lines (outside_flag raw e) h in
    let (l, rest) = follows_lem f k in (l, flag ∙ rest)
follows_lem (line_inside {raw = raw} {lines = lines} e f) h =
    let (k, flag) = flag_lem true true raw lines (inside_flag raw e) h in
    let (l, rest) = follows_lem f k in (l, flag ∙ rest)

no_closer : starts_with (str "replace ") (str ")") ≡ false
unfolding starts_with str
no_closer = refl

no_line : starts_with (str "replace ") [] ≡ false
unfolding starts_with str
no_line = refl

not_empty : (x : Text) → starts_with (str "replace ") x ≡ true → is_empty x ≡ false
not_empty [] h = absurd (ground (arith, h, no_line))
not_empty (c ∷ x) h = refl

not_closer : (x : Text) → starts_with (str "replace ") x ≡ true → (x == str ")") ≡ false
not_closer x h = elim (Bool-cases (x == str ")")) [
  | inr e ↦ e
  | inl e ↦
      let bad : starts_with (str "replace ") (str ")") ≡ true =
        subst (λ y. starts_with (str "replace ") y ≡ true) ((list_beq_iff x (str ")")).0 e) h in
      absurd (ground (arith, bad, no_closer))
]

-- A line that begins with "replace ".
directive_lem :
    (x t : Text)
    → x ≡ str "replace " ++ t
    → (starts_with (str "replace ") x ≡ true)
      × (strip (remove_prefix (str "replace ") x) ≡ strip t)
      × (is_empty x ≡ false)
      × ((x == str ")") ≡ false)
directive_lem x t e =
    let begins : starts_with (str "replace ") x ≡ true =
      subst (λ y. starts_with (str "replace ") y ≡ true) (sym e)
        (starts_with-append (str "replace ") t) in
    (
      begins,
      ap (λ y. strip (remove_prefix (str "replace ") y)) e
          ∙ ap strip (remove_prefix-append (str "replace ") t),
      not_empty x begins,
      not_closer x begins,
    )

declares_lem :
    {b : Bool} {raw declaration : Text}
    → Declares b raw declaration
    → (replace_step b raw).1 ≡ []
    → replacement_of declaration ≡ []
unfolding replace_step replace_line
declares_lem (single_line {raw = raw} t e h) k =
    let (begins, same, some_text, open_line) = directive_lem (cleaned raw) t e in
    subst (λ d. replacement_of d ≡ []) same
      (ground (arith, k, begins, some_text, h, list_beq_iff (cleaned raw) (str "replace (")))
declares_lem (group_line {raw = raw} t e) k =
    let (begins, same, some_text, open_line) = directive_lem (cleaned raw) t e in
    subst (λ d. replacement_of d ≡ []) same (ground (arith, k, begins, some_text, open_line))
declares_lem (group_entry {raw = raw} e h l) k =
    ground (arith, k, e, list_beq_iff (cleaned raw) (str ")"), is_empty_iff (cleaned raw), h, l)

at_end_flag : (b : Bool) → (replace_lines b []).0 ≡ b
unfolding replace_lines
at_end_flag b = refl

pub go_corekit_replacements-IsUnreplaced :
    (t : Text) → go_corekit_replacements t ≡ [] → IsUnreplaced t
unfolding go_corekit_replacements
go_corekit_replacements-IsUnreplaced t h =
    let lines = split_lines t in
    let (open_block, found) = replace_lines false lines in
    let (clean, kept) = (append-eq-nil found (if open_block then mention t else [])).0 h in
    record {
      declarations = λ b raw rest declaration follows declares.
          let (k, flag) = follows_lem follows clean in
          replacement_of_lem declaration (declares_lem declares (lines_lem b raw rest k).0);
      unterminated = λ follows.
          let (k, flag) = follows_lem follows clean in
          mention_lem t (ground (arith, kept, flag, at_end_flag true));
    }
