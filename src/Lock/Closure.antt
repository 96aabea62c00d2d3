-- ===== src/Lock/Closure.antt =====
-- `closure_packages` as a whole: the set that it returns, and the faults for which it fails.
use mathlib.Core.List.{Memᴰ, reverse}
use mathlib.Core.List.Memᴰ
use symaira_corekit.Base.{
  ◌+◌, ◌≡◌, ◌≢◌, refl, ◌↔◌, ◌⊎◌, inl, inr, List, [], ◌∷◌, Text, arith, length, ◌∙◌, sym, subst,
}
use symaira_corekit.Base.Sorting.{sorted, IsSorted, sorted-IsSorted}
use symaira_corekit.Lock.{
  Package, Error, ok, err, package_le, edges, resolve, local_root, visit, closure, closure_from,
  not_local,
}
use symaira_corekit.Lock.Resolve.{
  ok-injective, Result-cases, Resolved, resolve_all-cases, mem-reverse, mem-of_reverse,
  length-reverse, local_root-eq-err,
}
use symaira_corekit.Lock.Fuel.{open_edges-nil}
use symaira_corekit.Lock.Reach.{Reach, root, step}
use symaira_corekit.Lock.Loop.{Distinct, Inv, Fault, Outcome, visit-Outcome}
use symaira_corekit.Lock.Order.{package_le_total, package_le_trans, mem-sorted, Distinct-sorted}

module _ (packages : List Package) (roots : List Text) where
  -- The result: the packages on the dependency paths, each once, in order, with no edge left open.
  pub record IsClosure (out : List Package) : Type 0 where
    pub exact : (q : Package) → Memᴰ q out ↔ Reach packages roots q
    pub distinct : Distinct out
    pub in_order : IsSorted package_le out
    pub resolved :
        (p : Package) (t : Text)
        → Reach packages roots p
        → Memᴰ t p.dependencies
        → (q : Package) × (resolve packages t ≡ ok q)
    pub rooted : (t : Text) → Memᴰ t roots → (q : Package) × (local_root packages t ≡ ok q)

  -- A root that is not exactly one local package.
  pub record RootFault (e : Error) : Type 0 where
    pub name : Text
    pub listed : Memᴰ name roots
    pub fails : local_root packages name ≡ err e
    pub kind : e ≡ not_local name

  Reach-mem :
      (seen : List Package)
      → Inv packages roots [] seen
      → (q : Package) → Reach packages roots q
      → Memᴰ q seen
  Reach-mem seen inv q (root {t} m e) = elim (inv.source t q m e) [
    | inl s ↦ s
    | inr n ↦ absurd (Memᴰ.not-nil n)
  ]
  Reach-mem seen inv q (step {p} {t} w m e) = elim (inv.closed p q t (Reach-mem seen inv p w) m e) [
    | inl s ↦ s
    | inr n ↦ absurd (Memᴰ.not-nil n)
  ]

  sorted-IsClosure :
      (seen qs : List Package)
      → Resolved (local_root packages) roots qs
      → Inv packages roots [] seen
      → IsClosure (sorted package_le seen)
  sorted-IsClosure seen qs r inv = record {
    exact = λ q.
        let (to, from) = mem-sorted package_le q seen in
        (λ m. inv.sound q (to m), λ w. from (Reach-mem seen inv q w));
    distinct = Distinct-sorted package_le seen inv.distinct;
    in_order = sorted-IsSorted package_le package_le_total package_le_trans seen;
    resolved = λ p t w m. inv.resolved p t (Reach-mem seen inv p w) m;
    rooted = λ t m. let (q, there, e) = r.target t m in (q, e);
  }

  Inv-start :
      (qs : List Package)
      → Resolved (local_root packages) roots qs
      → Inv packages roots (reverse qs) []
  Inv-start qs r = record {
    queued = λ q m. let (t, there, e) = r.source q (mem-of_reverse q qs m) in root there e;
    sound = λ q m. absurd (Memᴰ.not-nil m);
    source = λ t q m e.
        let (p, there, f) = r.target t m in
        inr (mem-reverse q qs (Memᴰ.cast (ok-injective (sym e ∙ f)) there));
    resolved = λ p t m d. absurd (Memᴰ.not-nil m);
    closed = λ p q t m d e. absurd (Memᴰ.not-nil m);
    distinct = tt;
  }

  closure_from-cases :
      ((out : List Package) × (closure_from packages roots ≡ ok out) × IsClosure out)
      ⊎ ((e : Error) × (closure_from packages roots ≡ err e)
          × (RootFault e ⊎ Fault packages roots e))
  unfolding closure_from
  closure_from-cases = elim (resolve_all-cases (local_root packages) roots) [
    | inr (e, t, k, m, fails) ↦ inr (
      e,
      rw (k, closure_from),
      inl (record {
        name = t;
        listed = m;
        fails = fails;
        kind = local_root-eq-err packages t e fails;
      }),
    )
    | inl (qs, k, r) ↦
        let fuel = length qs + edges packages in
        let outcome =
          visit-Outcome packages roots fuel (reverse qs) [] (Inv-start qs r)
            (omega (arith, length-reverse qs, open_edges-nil packages)) in
        elim (Result-cases (visit packages fuel (reverse qs) [])) [
          | inl (seen, v) ↦ inl (
            sorted package_le seen,
            rw (k, v, closure_from),
            sorted-IsClosure seen qs r (subst (Outcome packages roots) v outcome),
          )
          | inr (e, v) ↦
              inr (e, rw (k, v, closure_from), inr (subst (Outcome packages roots) v outcome))
        ]
  ]

-- Over a file with packages the closure returns: either the packages on the dependency paths from
-- the roots, each once and in order, where every root and every edge on a path names exactly one
-- package, or the error of a root or of an edge of a package on a path that does not.
pub closure-cases :
    (packages : List Package) (roots : List Text)
    → packages ≢ []
    → ((out : List Package) × (closure packages roots ≡ ok out) × IsClosure packages roots out)
      ⊎ ((e : Error) × (closure packages roots ≡ err e)
          × (RootFault packages roots e ⊎ Fault packages roots e))
unfolding closure
closure-cases [] roots h = absurd (h refl)
closure-cases (p ∷ ps) roots h = closure_from-cases (p ∷ ps) roots
