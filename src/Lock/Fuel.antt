-- ===== src/Lock/Fuel.antt =====
-- The fuel of the loop: a round takes a package off the stack, and pushes the dependencies of a
-- package only the first time that its key is met.
use mathlib.Core.List.{Memᴰ}
use mathlib.Core.List.Memᴰ
use symaira_corekit.Base.{
  ℕ, ◌+◌, ◌≤◌, true, false, ◌≡◌, refl, inl, inr, List, [], ◌∷◌, ◌++◌, arith, ◌||◌, list_beq_iff,
  option_beq_iff, list_eq, nat_eq, option_eq, if◌then◌else◌, ap, length,
}
use symaira_corekit.Lock.{Package, same_key, is_seen, edges}

pub same_key_refl : (p : Package) → same_key p p ≡ true
unfolding same_key
same_key_refl p = ground (
  arith,
  list_beq_iff p.name p.name,
  list_beq_iff p.version p.version,
  option_beq_iff p.source p.source,
)

pub same_key-eq :
    (p q : Package)
    → same_key p q ≡ true
    → (q.name ≡ p.name) × (q.version ≡ p.version) × (q.source ≡ p.source)
unfolding same_key
same_key-eq p q h = ground (
  arith,
  list_beq_iff q.name p.name,
  list_beq_iff q.version p.version,
  option_beq_iff q.source p.source,
)

pub same_key_symm : (p q : Package) → same_key p q ≡ same_key q p
unfolding same_key
same_key_symm p q = ground (
  arith,
  list_beq_iff p.name q.name,
  list_beq_iff p.version q.version,
  option_beq_iff p.source q.source,
  list_beq_iff q.name p.name,
  list_beq_iff q.version p.version,
  option_beq_iff q.source p.source,
)

pub is_seen-append :
    (p q : Package) (seen : List Package)
    → is_seen p (seen ++ q ∷ []) ≡ (is_seen p seen || same_key p q)
is_seen-append p q [] = ground arith
is_seen-append p q (r ∷ seen) = ground (arith, is_seen-append p q seen)

-- The edges of the packages whose key has not been met.
pub open_edges : List Package → List Package → ℕ
open_edges [] seen = 0
open_edges (p ∷ ps) seen =
    (if is_seen p seen then 0 else length p.dependencies) + open_edges ps seen

pub open_edges-nil : (ps : List Package) → open_edges ps [] ≡ edges ps
unfolding open_edges edges
open_edges-nil [] = refl
open_edges-nil (p ∷ ps) = omega (arith, open_edges-nil ps)

open_edges-grow :
    (ps seen : List Package) (p : Package) → open_edges ps (seen ++ p ∷ []) ≤ open_edges ps seen
unfolding open_edges
open_edges-grow [] seen p = omega arith
open_edges-grow (q ∷ ps) seen p = ground (arith, is_seen-append q p seen, open_edges-grow ps seen p)

-- What is pushed for a new package leaves the open edges.
pub open_edges-visit :
    (ps seen : List Package) (p : Package)
    → Memᴰ p ps
    → is_seen p seen ≡ false
    → open_edges ps (seen ++ p ∷ []) + length p.dependencies ≤ open_edges ps seen
unfolding open_edges
open_edges-visit [] seen p m new = absurd (Memᴰ.not-nil m)
open_edges-visit (q ∷ ps) seen p m new = elim (Memᴰ.cases_cons m) [
  | inl e ↦ ground (
    arith,
    e,
    is_seen-append q p seen,
    same_key_refl p,
    open_edges-grow ps seen p,
    ap (λ (r : Package). is_seen r seen) e,
    ap (λ (r : Package). same_key r p) e,
    ap (λ (r : Package). length r.dependencies) e,
  )
  | inr n ↦ ground (arith, is_seen-append q p seen, open_edges-visit ps seen p n new)
]
