-- ===== src/Lock/Resolve.antt =====
-- What it means for `resolve` and for the roots to succeed: exactly one package fits.
use mathlib.Core.List.{Memᴰ, reverse, reverse-cons}
use mathlib.Core.List.Memᴰ
use symaira_corekit.Base.{
  suc, Bool, true, ◌≡◌, refl, ◌⊎◌, inl, inr, List, [], ◌∷◌, Text, arith, select, Bool-cases, ap,
  sym, subst, length, length-append, ◌∙◌,
}
use symaira_corekit.Lock.{
  Package, Error, Result, ok, err, ambiguous_edge, not_local, the_only, resolve, local_root,
  resolve_all, fits, is_local, parse_edge,
}

pub the_only-eq-ok : (e : Error) (l : List Package) (q : Package) → the_only e l ≡ ok q → l ≡ q ∷ []
unfolding the_only
the_only-eq-ok e [] q h = cc
the_only-eq-ok e (p ∷ []) q h = ground arith
the_only-eq-ok e (p ∷ r ∷ l) q h = cc

the_only-eq-err : (e d : Error) (l : List Package) → the_only e l ≡ err d → d ≡ e
unfolding the_only
the_only-eq-err e d [] h = ground arith
the_only-eq-err e d (p ∷ []) h = cc
the_only-eq-err e d (p ∷ r ∷ l) h = ground arith

module _ (f : Package → Bool) where
  pub mem-of_select :
      (l : List Package) (q : Package) → Memᴰ q (select f l) → Memᴰ q l × (f q ≡ true)
  mem-of_select [] q m = absurd (Memᴰ.not-nil m)
  mem-of_select (p ∷ l) q m = elim (Bool-cases (f p)) [
    | inl kept ↦ elim (Memᴰ.cases_cons (rw kept at m)) [
      | inl e ↦ (Memᴰ.head e, ap f e ∙ kept)
      | inr n ↦ let (there, passes) = mem-of_select l q n in (Memᴰ.tail there, passes)
    ]
    | inr dropped ↦
        let (there, passes) = mem-of_select l q (rw dropped at m) in (Memᴰ.tail there, passes)
  ]

  pub mem-select : (l : List Package) (q : Package) → Memᴰ q l → f q ≡ true → Memᴰ q (select f l)
  mem-select [] q m h = m
  mem-select (p ∷ l) q m h = elim (Memᴰ.cases_cons m) [
    | inl e ↦ rw (sym (ap f e) ∙ h) (Memᴰ.head e)
    | inr n ↦ elim (Bool-cases (f p)) [
      | inl kept ↦ rw kept (Memᴰ.tail (mem-select l q n h))
      | inr dropped ↦ rw dropped (mem-select l q n h)
    ]
  ]

  -- Where one package alone passes a test, it is of the list, and equal to any that passes.
  pub only_one :
      (l : List Package) (q : Package)
      → select f l ≡ q ∷ []
      → Memᴰ q l × (f q ≡ true) × ((r : Package) → Memᴰ r l → f r ≡ true → r ≡ q)
  only_one l q h =
      let (there, passes) = mem-of_select l q (rw h (Memᴰ.head refl)) in
      (there, passes, λ r m p. Memᴰ.eq_of_singleton (subst (Memᴰ r) h (mem-select l r m p)))

module _ (packages : List Package) (t : Text) where
  pub resolve-eq-ok :
      (q : Package) → resolve packages t ≡ ok q → select (fits (parse_edge t)) packages ≡ q ∷ []
  unfolding resolve
  resolve-eq-ok q h = the_only-eq-ok _ _ q h

  pub local_root-eq-ok :
      (q : Package) → local_root packages t ≡ ok q → select (is_local t) packages ≡ q ∷ []
  unfolding local_root
  local_root-eq-ok q h = the_only-eq-ok _ _ q h

  pub resolve-eq-err : (e : Error) → resolve packages t ≡ err e → e ≡ ambiguous_edge t
  unfolding resolve
  resolve-eq-err e h = the_only-eq-err _ e _ h

  pub local_root-eq-err : (e : Error) → local_root packages t ≡ err e → e ≡ not_local t
  unfolding local_root
  local_root-eq-err e h = the_only-eq-err _ e _ h

abbrev ok_or : Package → Result Package → Package
ok_or d (ok a) = a
ok_or d (err c) = d

pub ok-injective : {a b : Package} → ok a ≡ ok b → a ≡ b
ok-injective {a} h = ap (ok_or a) h

pub Result-cases {ℓ} :
    {A : Type ℓ} (r : Result A) → ((a : A) × (r ≡ ok a)) ⊎ ((e : Error) × (r ≡ err e))
Result-cases (ok a) = inl (a, refl)
Result-cases (err e) = inr (e, refl)

-- The packages that the texts resolve to: as many, and one for each.
pub record Resolved (f : Text → Result Package) (ts : List Text) (qs : List Package) : Type 0 where
  pub size : length qs ≡ length ts
  pub source : (q : Package) → Memᴰ q qs → (t : Text) × Memᴰ t ts × (f t ≡ ok q)
  pub target : (t : Text) → Memᴰ t ts → (q : Package) × Memᴰ q qs × (f t ≡ ok q)

module _ (f : Text → Result Package) where
  Resolved-cons :
      (t : Text) (q : Package) (ts : List Text) (qs : List Package)
      → f t ≡ ok q
      → Resolved f ts qs
      → Resolved f (t ∷ ts) (q ∷ qs)
  Resolved-cons t q ts qs e r = record {
    size = ap suc r.size;
    source = λ p m. elim (Memᴰ.cases_cons m) [
      | inl same ↦ (t, Memᴰ.head refl, e ∙ ap ok (sym same))
      | inr n ↦ let (u, there, h) = r.source p n in (u, Memᴰ.tail there, h)
    ];
    target = λ u m. elim (Memᴰ.cases_cons m) [
      | inl same ↦ (q, Memᴰ.head refl, ap f same ∙ e)
      | inr n ↦ let (p, there, h) = r.target u n in (p, Memᴰ.tail there, h)
    ];
  }

  -- Either all texts resolve, or the failure is that of one of them.
  pub resolve_all-cases :
      (ts : List Text)
      → ((qs : List Package) × (resolve_all f ts ≡ ok qs) × Resolved f ts qs)
        ⊎ ((e : Error) × (t : Text) × (resolve_all f ts ≡ err e) × Memᴰ t ts × (f t ≡ err e))
  unfolding resolve_all
  resolve_all-cases [] = inl (
    [],
    refl,
    record {
      size = refl;
      source = λ q m. absurd (Memᴰ.not-nil m);
      target = λ t m. absurd (Memᴰ.not-nil m);
    },
  )
  resolve_all-cases (t ∷ ts) = elim (Result-cases (f t)) [
    | inr (e, h) ↦ inr (e, t, rw (h, resolve_all), Memᴰ.head refl, h)
    | inl (q, h) ↦ elim (resolve_all-cases ts) [
      | inr (e, u, k, m, fails) ↦ inr (e, u, rw (h, k, resolve_all), Memᴰ.tail m, fails)
      | inl (qs, k, r) ↦ inl (q ∷ qs, rw (h, k, resolve_all), Resolved-cons t q ts qs h r)
    ]
  ]

module _ {A : Type 0} where
  pub mem-reverse : (a : A) (l : List A) → Memᴰ a l → Memᴰ a (reverse l)
  mem-reverse a [] m = m
  mem-reverse a (x ∷ l) m = rw reverse-cons (elim (Memᴰ.cases_cons m) [
    | inl e ↦ Memᴰ.append_right (reverse l) (Memᴰ.head e)
    | inr n ↦ Memᴰ.append_left (x ∷ []) (mem-reverse a l n)
  ])

  pub mem-of_reverse : (a : A) (l : List A) → Memᴰ a (reverse l) → Memᴰ a l
  mem-of_reverse a [] m = m
  mem-of_reverse a (x ∷ l) m = elim (Memᴰ.append_cases (reverse l) (rw reverse-cons at m)) [
    | inl n ↦ Memᴰ.tail (mem-of_reverse a l n)
    | inr last ↦ Memᴰ.head (Memᴰ.eq_of_singleton last)
  ]

  pub length-reverse : (l : List A) → length (reverse l) ≡ length l
  length-reverse [] = refl
  length-reverse (x ∷ l) =
      rw reverse-cons (omega (arith, length-append (reverse l) (x ∷ []), length-reverse l))
