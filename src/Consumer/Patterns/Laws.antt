-- ===== src/Consumer/Patterns/Laws.antt =====
-- What the patterns of the verifier accept, in plain terms.
use symaira_corekit.Base.{
  ℕ, zero, suc, Bool, true, ◌≡◌, refl, ap, sym, ◌∙◌, ◌↔◌, [], ◌∷◌, ◌++◌, Text, arith, length, all,
  subst, and_iff,
}
use symaira_corekit.Regex.{set, times, fullmatch}
use symaira_corekit.Regex.Laws.{Matches, fullmatch_iff}
use symaira_corekit.Consumer.Patterns.{is_hex, is_revision, is_digest}

-- `[p]{n}`: so many characters of the class.
times_iff :
    (p : ℕ → Bool) (n : ℕ) (s : Text)
    → Matches (times n (set p)) s ↔ ((length s ≡ n) × (all p s ≡ true))
times_iff p zero [] = (λ h. (refl, refl), λ h. refl)
times_iff p zero (c ∷ s) = (λ h. cc, λ h. absurd (omega (arith, h.0)))
times_iff p (suc n) [] = (λ (a, b, e, (d, f, k), m). cc (e, f), λ h. absurd (omega (arith, h.0)))
times_iff p (suc n) (c ∷ s) = (
  λ (a, b, e, (d, f, k), m).
      let (size, class) = (times_iff p n b).0 m in
      let whole : c ∷ s ≡ d ∷ b = e ∙ ap (λ t. t ++ b) f in
      subst (λ t. (length t ≡ suc n) × (all p t ≡ true)) (sym whole)
        (ap suc size, (and_iff (p d) (all p b)).1 (k, class)),
  λ (size, class).
      let (k, rest) = (and_iff (p c) (all p s)).0 class in
      (c ∷ [], s, refl, (c, refl, k), (times_iff p n s).1 (omega (arith, size), rest)),
)

fullmatch-times :
    (p : ℕ → Bool) (n : ℕ) (s : Text)
    → (fullmatch (times n (set p)) s ≡ true) ↔ ((length s ≡ n) × (all p s ≡ true))
fullmatch-times p n s =
    let (to, from) = fullmatch_iff (times n (set p)) s in
    let (there, back) = times_iff p n s in (λ h. there (to h), λ h. from (back h))

-- A revision is forty lowercase hexadecimal digits.
pub is_revision_iff :
    (s : Text) → (is_revision s ≡ true) ↔ ((length s ≡ 40) × (all is_hex s ≡ true))
unfolding is_revision
is_revision_iff s = fullmatch-times is_hex 40 s

pub is_digest_iff : (s : Text) → (is_digest s ≡ true) ↔ ((length s ≡ 64) × (all is_hex s ≡ true))
unfolding is_digest
is_digest_iff s = fullmatch-times is_hex 64 s
