-- ===== src/Base/Cuts.antt =====
-- How a text is put together from what `startswith`, `removeprefix`, `split` and a cut leave of it.
use symaira_corekit.Base.{
  ℕ, ◌≡◌, refl, sym, ap, ◌∙◌, ◌≢◌, ◌⊎◌, inl, inr, true, List, [], ◌∷◌, ◌++◌, arith, Text,
  Bool-cases, Option-cases, nat_beq_iff, ◌==◌, nat_eq, list_eq, option_eq, bool_eq, pair_eq,
}
use symaira_corekit.Base.Strings.{before, cut_at, join, push, remove_prefix, split_on, starts_with}

pub starts_with-append : (p s : Text) → starts_with p (p ++ s) ≡ true
unfolding starts_with
starts_with-append [] s = refl
starts_with-append (c ∷ p) s = ground (arith, starts_with-append p s, nat_beq_iff c c)

pub prefix_lem : (p s : Text) → starts_with p s ≡ true → s ≡ p ++ remove_prefix p s
unfolding starts_with remove_prefix
prefix_lem [] s h = refl
prefix_lem (c ∷ p) [] h = absurd (ground (arith, h))
prefix_lem (c ∷ p) (d ∷ s) h =
    let first : (c == d) ≡ true = ground (arith, h) in
    let others : starts_with p s ≡ true = ground (arith, h) in
    rw (first, others) (cc ((nat_beq_iff c d).0 first, prefix_lem p s others))

pub remove_prefix-append : (p s : Text) → remove_prefix p (p ++ s) ≡ s
unfolding remove_prefix starts_with
remove_prefix-append [] s = refl
remove_prefix-append (c ∷ p) s =
    ground (arith, starts_with-append p s, nat_beq_iff c c, remove_prefix-append p s)

-- What follows the text before one character: nothing, or that character first.
abbrev pub Behind : ℕ → Text → Type 0
Behind c s = (s ≡ []) ⊎ ((t : Text) × (s ≡ c ∷ t))

pub cut_lem : (c : ℕ) (s : Text) → (tail : Text) × (s ≡ cut_at (c ∷ []) s ++ tail) × Behind c tail
unfolding cut_at before starts_with
cut_lem c [] = ([], refl, inl refl)
cut_lem c (d ∷ s) = elim (Bool-cases (c == d)) [
  | inl e ↦ (d ∷ s, ground (arith, e), inr (s, ap (λ x. x ∷ s) (sym ((nat_beq_iff c d).0 e))))
  | inr e ↦
      let (tail, parts, behind) = cut_lem c s in
      elim (Option-cases (before (c ∷ []) s)) [
        | inl f ↦ (tail, ground (arith, e, f, parts), behind)
        | inr (t, f) ↦ (tail, ground (arith, e, f, parts), behind)
      ]
]

join-push : (sep : Text) (c : ℕ) (ps : List Text) → join sep (push c ps) ≡ c ∷ join sep ps
unfolding join push
join-push sep c [] = refl
join-push sep c (p ∷ []) = refl
join-push sep c (p ∷ q ∷ r) = refl

push-ne-nil : (c : ℕ) (ps : List Text) → push c ps ≢ []
unfolding push
push-ne-nil c [] h = cc
push-ne-nil c (p ∷ ps) h = cc

split_on-ne-nil : (c : ℕ) (s : Text) → split_on c s ≢ []
unfolding split_on
split_on-ne-nil c [] h = cc
split_on-ne-nil c (d ∷ s) h = elim (Bool-cases (d == c)) [
  | inl e ↦ ground (arith, h, e)
  | inr e ↦ push-ne-nil d (split_on c s) (ground (arith, h, e))
]

join-first : (sep : Text) (ps : List Text) → ps ≢ [] → join sep ([] ∷ ps) ≡ sep ++ join sep ps
unfolding join
join-first sep [] h = absurd (h refl)
join-first sep (p ∷ ps) h = refl

only_empty : (c : ℕ) → join (c ∷ []) ([] ∷ []) ≡ []
unfolding join
only_empty c = refl

pub join-split_on : (c : ℕ) (s : Text) → join (c ∷ []) (split_on c s) ≡ s
unfolding split_on
join-split_on c [] = only_empty c
join-split_on c (d ∷ s) = elim (Bool-cases (d == c)) [
  | inl e ↦
      let first = join-first (c ∷ []) (split_on c s) (split_on-ne-nil c s) in
      rw (e, split_on)
        (first
          ∙ (ap (λ t. c ∷ t) (join-split_on c s) ∙ ap (λ x. x ∷ s) (sym ((nat_beq_iff d c).0 e))))
  | inr e ↦
      rw (e, split_on) (join-push (c ∷ []) d (split_on c s) ∙ ap (λ t. d ∷ t) (join-split_on c s))
]
