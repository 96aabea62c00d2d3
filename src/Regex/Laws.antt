-- ===== src/Regex/Laws.antt =====
-- The matcher decides the texts that a pattern stands for.
use symaira_corekit.Base.{
  ℕ, Bool, true, ◌≡◌, refl, sym, ap, ◌∙◌, ◌↔◌, ◌⊎◌, inl, inr, nat_eq, [], ◌∷◌, ◌++◌, Text,
  if◌then◌else◌, Bool-cases, and_iff, or_iff, append-eq-nil, subst,
}
use symaira_corekit.Regex.{Regex, never, empty, set, seq, alt, star, nullable, derive, fullmatch}

-- Any number of texts of `P`, one behind the other.
pub data Star (P : Text → Type 0) : Text → Type 0 where
  stop : {s : Text} → s ≡ [] → Star P s
  more : {s : Text} (a b : Text) → s ≡ a ++ b → P a → Star P b → Star P s

-- The texts of a pattern.
abbrev pub Matches : Regex → Text → Type 0
Matches never s = ⊥
Matches empty s = s ≡ []
Matches (set p) s = (c : ℕ) × (s ≡ c ∷ []) × (p c ≡ true)
Matches (seq r q) s = (a : Text) × (b : Text) × (s ≡ a ++ b) × Matches r a × Matches q b
Matches (alt r q) s = Matches r s ⊎ Matches q s
Matches (star r) s = Star (Matches r) s

-- Where a text that begins with `c` is cut in two.
uncons_append :
    (c : ℕ) (s a b : Text)
    → c ∷ s ≡ a ++ b
    → ((a ≡ []) × (b ≡ c ∷ s)) ⊎ ((d : Text) × (a ≡ c ∷ d) × (s ≡ d ++ b))
uncons_append c s [] b h = inl (refl, sym h)
uncons_append c s (d ∷ a) b h = inr (a, cc h, ap tail h)
  where
    tail : Text → Text
    tail [] = []
    tail (x ∷ xs) = xs

Star-uncons :
    {P : Text → Type 0} {u : Text} (c : ℕ) (s : Text)
    → Star P u
    → u ≡ c ∷ s
    → (a : Text) × (b : Text) × (s ≡ a ++ b) × P (c ∷ a) × Star P b
Star-uncons c s (stop e) h = cc
Star-uncons {P} c s (more a b e p w) h = elim (uncons_append c s a b (sym h ∙ e)) [
  | inl (none, rest) ↦ Star-uncons c s w rest
  | inr (d, q, rest) ↦ (d, b, rest, subst P q p, w)
]

nullable_iff : (r : Regex) → (nullable r ≡ true) ↔ Matches r []
unfolding nullable
nullable_iff never = (λ h. cc, λ h. absurd h)
nullable_iff empty = (λ h. refl, λ h. refl)
nullable_iff (set p) = (λ h. cc, λ h. cc (h.1))
nullable_iff (seq r q) = (
  λ h.
      let (f, g) = (and_iff (nullable r) (nullable q)).0 h in
      ([], [], refl, (nullable_iff r).0 f, (nullable_iff q).0 g),
  λ (a, b, e, m, n).
      let (f, g) = (append-eq-nil a b).0 (sym e) in
      (and_iff (nullable r) (nullable q)).1
        ((nullable_iff r).1 (subst (Matches r) f m), (nullable_iff q).1 (subst (Matches q) g n)),
)
nullable_iff (alt r q) = (
  λ h. elim ((or_iff (nullable r) (nullable q)).0 h) [
    | inl f ↦ inl ((nullable_iff r).0 f)
    | inr g ↦ inr ((nullable_iff q).0 g)
  ],
  λ h.
      (or_iff (nullable r) (nullable q)).1
        (elim h [ inl m ↦ inl ((nullable_iff r).1 m) | inr n ↦ inr ((nullable_iff q).1 n) ]),
)
nullable_iff (star r) = (λ h. stop refl, λ h. refl)

-- Both readings of a sequence, from those of its parts.
module _ (r q r' q' : Regex) (c : ℕ) (s : Text)
    (first : (t : Text) → Matches r' t ↔ Matches r (c ∷ t))
    (second : Matches q' s ↔ Matches q (c ∷ s)) where
  seq_first : Matches (seq r' q) s → Matches (seq r q) (c ∷ s)
  seq_first (a, b, e, m, n) = (c ∷ a, b, ap (λ t. c ∷ t) e, (first a).0 m, n)

  seq_to :
      Matches (if nullable r then alt (seq r' q) q' else seq r' q) s → Matches (seq r q) (c ∷ s)
  seq_to h = elim (Bool-cases (nullable r)) [
    | inl e ↦ elim (subst (λ b. Matches (if b then alt (seq r' q) q' else seq r' q) s) e h) [
      | inl m ↦ seq_first m
      | inr n ↦ ([], c ∷ s, refl, (nullable_iff r).0 e, second.0 n)
    ]
    | inr e ↦ seq_first (subst (λ b. Matches (if b then alt (seq r' q) q' else seq r' q) s) e h)
  ]

  seq_from :
      Matches (seq r q) (c ∷ s) → Matches (if nullable r then alt (seq r' q) q' else seq r' q) s
  seq_from (a, b, e, m, n) = elim (uncons_append c s a b e) [
    | inl (f, g) ↦
        rw ((nullable_iff r).1 (subst (Matches r) f m)) (inr (second.1 (subst (Matches q) g n)))
    | inr (d, f, g) ↦
        let part : Matches (seq r' q) s = (d, b, g, (first d).1 (subst (Matches r) f m), n) in
        elim (Bool-cases (nullable r)) [ inl k ↦ rw k (inl part) | inr k ↦ rw k part ]
  ]

set_iff :
    (p : ℕ → Bool) (c : ℕ) (s : Text)
    → Matches (if p c then empty else never) s ↔ Matches (set p) (c ∷ s)
set_iff p c s = elim (Bool-cases (p c)) [
  | inl e ↦ rw e (λ h. (c, ap (λ t. c ∷ t) h, e), λ h. tail_nil (h.1))
  | inr e ↦ rw e (λ h. absurd h, λ (d, h, k). cc (e, k, h))
]
  where
    tail_nil : {d : ℕ} → c ∷ s ≡ d ∷ [] → s ≡ []
    tail_nil h = cc

derive_iff : (r : Regex) (c : ℕ) (s : Text) → Matches (derive r c) s ↔ Matches r (c ∷ s)
unfolding derive
derive_iff never c s = (λ h. h, λ h. h)
derive_iff empty c s = (λ h. absurd h, λ h. cc)
derive_iff (set p) c s = set_iff p c s
derive_iff (seq r q) c s = (
  seq_to r q (derive r c) (derive q c) c s (derive_iff r c) (derive_iff q c s),
  seq_from r q (derive r c) (derive q c) c s (derive_iff r c) (derive_iff q c s),
)
derive_iff (alt r q) c s =
    let (f, g) = derive_iff r c s in
    let (k, l) = derive_iff q c s in
    (
      λ h. elim h [ inl m ↦ inl (f m) | inr n ↦ inr (k n) ],
      λ h. elim h [ inl m ↦ inl (g m) | inr n ↦ inr (l n) ],
    )
derive_iff (star r) c s = (
  λ (a, b, e, m, w). more (c ∷ a) b (ap (λ t. c ∷ t) e) ((derive_iff r c a).0 m) w,
  λ h. let (a, b, e, m, w) = Star-uncons c s h refl in (a, b, e, (derive_iff r c a).1 m, w),
)

-- The matcher accepts a text exactly when the pattern stands for it.
pub fullmatch_iff : (r : Regex) (s : Text) → (fullmatch r s ≡ true) ↔ Matches r s
unfolding fullmatch
fullmatch_iff r [] = nullable_iff r
fullmatch_iff r (c ∷ s) =
    let (to, from) = fullmatch_iff (derive r c) s in
    let (there, back) = derive_iff r c s in (λ h. there (to h), λ m. from (back m))
