-- ===== src/Lock/Loop.antt =====
-- The invariant of the `while` loop, and what the loop returns.
use mathlib.Core.List.{Memᴰ, reverse}
use mathlib.Core.List.Memᴰ
use symaira_corekit.Base.{
  ℕ, suc, zero, ◌+◌, ◌≤◌, true, false, ◌≡◌, refl, ◌⊎◌, inl, inr, List, [], ◌∷◌, ◌++◌, Text, arith,
  Bool-cases, sym, subst, length, length-append, ◌∙◌,
}
use symaira_corekit.Lock.{
  Package, Error, Result, ok, err, same_key, is_seen, resolve, local_root, visit, ambiguous_edge,
}
use symaira_corekit.Lock.Resolve.{
  ok-injective, Resolved, resolve_all-cases, mem-reverse, mem-of_reverse, length-reverse,
  resolve-eq-err,
}
use symaira_corekit.Lock.Fuel.{same_key_symm, is_seen-append, open_edges, open_edges-visit}
use symaira_corekit.Lock.Reach.{Reach, step, Reach-IsUnique}

-- No key stands twice.
abbrev pub Distinct : List Package → Type 0
Distinct [] = Unit
Distinct (p ∷ ps) = (is_seen p ps ≡ false) × Distinct ps

Distinct-append :
    (ps : List Package) (p : Package) → Distinct ps → is_seen p ps ≡ false → Distinct (ps ++ p ∷ [])
Distinct-append [] p d new = (refl, tt)
Distinct-append (q ∷ ps) p d new = (
  ground (arith, is_seen-append q p ps, same_key_symm p q),
  Distinct-append ps p d.1 (ground arith),
)

-- A package whose key is seen is itself seen, if its key names it alone.
mem-of_is_seen :
    (packages : List Package) (q : Package) (seen : List Package)
    → ((r : Package) → Memᴰ r packages → same_key q r ≡ true → r ≡ q)
    → ((r : Package) → Memᴰ r seen → Memᴰ r packages)
    → is_seen q seen ≡ true
    → Memᴰ q seen
mem-of_is_seen packages q [] alone listed h = cc
mem-of_is_seen packages q (r ∷ seen) alone listed h = elim (Bool-cases (same_key q r)) [
  | inl same ↦ Memᴰ.head (sym (alone r (listed r (Memᴰ.head refl)) same))
  | inr differ ↦
      Memᴰ.tail
        (mem-of_is_seen packages q seen alone (λ s m. listed s (Memᴰ.tail m)) (ground arith))
]

module _ (packages : List Package) (roots : List Text) where
  pub record Inv (pending seen : List Package) : Type 0 where
    pub queued : (q : Package) → Memᴰ q pending → Reach packages roots q
    pub sound : (q : Package) → Memᴰ q seen → Reach packages roots q
    pub source :
        (t : Text) (q : Package)
        → Memᴰ t roots
        → local_root packages t ≡ ok q
        → Memᴰ q seen ⊎ Memᴰ q pending
    pub resolved :
        (p : Package) (t : Text)
        → Memᴰ p seen
        → Memᴰ t p.dependencies
        → (q : Package) × (resolve packages t ≡ ok q)
    pub closed :
        (p q : Package) (t : Text)
        → Memᴰ p seen
        → Memᴰ t p.dependencies
        → resolve packages t ≡ ok q
        → Memᴰ q seen ⊎ Memᴰ q pending
    pub distinct : Distinct seen

  -- An edge of a package that is reached, which is not of exactly one package.
  pub record Fault (e : Error) : Type 0 where
    pub owner : Package
    pub edge : Text
    pub reached : Reach packages roots owner
    pub listed : Memᴰ edge owner.dependencies
    pub fails : resolve packages edge ≡ err e
    pub kind : e ≡ ambiguous_edge edge

  -- What the loop may return.
  abbrev pub Outcome : Result (List Package) → Type 0
  Outcome (ok seen) = Inv [] seen
  Outcome (err e) = Fault e

  module _ (p : Package) (pending seen : List Package) (inv : Inv (p ∷ pending) seen) where
    here : Reach packages roots p
    here = inv.queued p (Memᴰ.head refl)

    mem-seen : is_seen p seen ≡ true → Memᴰ p seen
    mem-seen h =
        mem-of_is_seen packages p seen (Reach-IsUnique packages roots p here).alone
          (λ r m. (Reach-IsUnique packages roots r (inv.sound r m)).listed) h

    -- What is seen or pending stays so when a seen package leaves the stack.
    drop_seen :
        Memᴰ p seen
        → (q : Package) → Memᴰ q seen ⊎ Memᴰ q (p ∷ pending)
        → Memᴰ q seen ⊎ Memᴰ q pending
    drop_seen m q (inl s) = inl s
    drop_seen m q (inr n) = elim (Memᴰ.cases_cons n) [ inl e ↦ inl (Memᴰ.cast e m) | inr k ↦ inr k ]

    Inv-skip : is_seen p seen ≡ true → Inv pending seen
    Inv-skip h = record {
      queued = λ q m. inv.queued q (Memᴰ.tail m);
      sound = inv.sound;
      source = λ t q m e. drop_seen (mem-seen h) q (inv.source t q m e);
      resolved = inv.resolved;
      closed = λ r q t m d e. drop_seen (mem-seen h) q (inv.closed r q t m d e);
      distinct = inv.distinct;
    }

    module _ (qs : List Package) (r : Resolved (resolve packages) p.dependencies qs) where
      move :
          (q : Package)
          → Memᴰ q seen ⊎ Memᴰ q (p ∷ pending)
          → Memᴰ q (seen ++ p ∷ []) ⊎ Memᴰ q (reverse qs ++ pending)
      move q (inl s) = inl (Memᴰ.append_left _ s)
      move q (inr n) = elim (Memᴰ.cases_cons n) [
        | inl e ↦ inl (Memᴰ.append_right seen (Memᴰ.head e))
        | inr k ↦ inr (Memᴰ.append_right (reverse qs) k)
      ]

      -- The edges of the package that is taken up lead to packages that are pushed.
      pushed :
          (t : Text) (q : Package)
          → Memᴰ t p.dependencies
          → resolve packages t ≡ ok q
          → Memᴰ q (reverse qs ++ pending)
      pushed t q m e =
          let (s, there, f) = r.target t m in
          Memᴰ.append_left pending (mem-reverse q qs (Memᴰ.cast (ok-injective (sym e ∙ f)) there))

      Inv-visit : is_seen p seen ≡ false → Inv (reverse qs ++ pending) (seen ++ p ∷ [])
      Inv-visit new = record {
        queued = λ q m. elim (Memᴰ.append_cases (reverse qs) m) [
          | inl n ↦ let (t, listed, e) = r.source q (mem-of_reverse q qs n) in step here listed e
          | inr k ↦ inv.queued q (Memᴰ.tail k)
        ];
        sound = λ q m. elim (Memᴰ.append_cases seen m) [
          | inl n ↦ inv.sound q n
          | inr last ↦ inv.queued q (Memᴰ.head (Memᴰ.eq_of_singleton last))
        ];
        source = λ t q m e. move q (inv.source t q m e);
        resolved = λ s t m d. elim (Memᴰ.append_cases seen m) [
          | inl n ↦ inv.resolved s t n d
          | inr last ↦
              let (q, there, e) =
                r.target t
                  (subst (λ (x : Package). Memᴰ t x.dependencies) (Memᴰ.eq_of_singleton last) d) in
              (q, e)
        ];
        closed = λ s q t m d e. elim (Memᴰ.append_cases seen m) [
          | inl n ↦ move q (inv.closed s q t n d e)
          | inr last ↦ inr (
              pushed t q
                (subst (λ (x : Package). Memᴰ t x.dependencies) (Memᴰ.eq_of_singleton last) d) e)
        ];
        distinct = Distinct-append seen p inv.distinct new;
      }

  -- With fuel for the stack and for the edges of what has not been met, the loop returns: a set that
  -- keeps the invariant with nothing pending, or a fault.
  pub visit-Outcome :
      (fuel : ℕ) (pending seen : List Package)
      → Inv pending seen
      → length pending + open_edges packages seen ≤ fuel
      → Outcome (visit packages fuel pending seen)
  unfolding visit
  visit-Outcome fuel [] seen inv h = inv
  visit-Outcome zero (p ∷ pending) seen inv h = absurd (omega arith)
  visit-Outcome (suc fuel) (p ∷ pending) seen inv h = elim (Bool-cases (is_seen p seen)) [
    | inl old ↦
        rw (old, visit)
          (visit-Outcome fuel pending seen (Inv-skip p pending seen inv old) (omega arith))
    | inr new ↦ elim (resolve_all-cases (resolve packages) p.dependencies) [
      | inr (e, t, k, m, fails) ↦
          rw (new, k, visit)
            (record {
              owner = p;
              edge = t;
              reached = here p pending seen inv;
              listed = m;
              fails = fails;
              kind = resolve-eq-err packages t e fails;
            })
      | inl (qs, k, r) ↦
          let listed = (Reach-IsUnique packages roots p (here p pending seen inv)).listed in
          rw (new, k, visit)
            (visit-Outcome fuel (reverse qs ++ pending) (seen ++ p ∷ [])
              (Inv-visit p pending seen inv qs r new)
              (omega (
                arith,
                r.size,
                length-reverse qs,
                length-append (reverse qs) pending,
                open_edges-visit packages seen p listed new,
              )))
    ]
  ]
