-- ===== src/Consumer/Findings/Laws.antt =====
-- A sequence of checks finds nothing exactly when each of them does.
use symaira_corekit.Base.{
  ◌≡◌, refl, ap, ◌↔◌, ◌⊎◌, inl, inr, Bool, true, List, [], ◌∷◌, arith, All, append-eq-nil,
}
use symaira_corekit.Consumer.Findings.{
  Check, Finding, Raised, Report, each, need, raises, returns, ◌then_check◌,
}

pub need_iff : (b : Bool) (f : Finding) → (need b (f ∷ []) ≡ []) ↔ (b ≡ true)
need_iff b f = ground arith

pub returns-injective : (fs gs : Report) → returns fs ≡ returns gs → fs ≡ gs
returns-injective fs gs h = ground (arith, h)

pub then_check-nil :
    (c d : Check Report) → c then_check d ≡ returns [] → (c ≡ returns []) × (d ≡ returns [])
unfolding ◌then_check◌
then_check-nil (returns fs) (returns gs) h =
    let (p, q) = (append-eq-nil fs gs).0 (ground (arith, h)) in (ap returns p, ap returns q)
then_check-nil (returns fs) (raises e) h = absurd (ground (arith, h))
then_check-nil (raises e) d h = absurd (ground (arith, h))

pub then_check_iff :
    (c d : Check Report) → (c then_check d ≡ returns []) ↔ ((c ≡ returns []) × (d ≡ returns []))
unfolding ◌then_check◌
then_check_iff c d = (then_check-nil c d, λ (p, q). ground (arith, p, q))

pub each_iff {ℓ} :
    {A : Type ℓ} (f : A → Check Report) (xs : List A)
    → (each f xs ≡ returns []) ↔ All (λ x. f x ≡ returns []) xs
unfolding each
each_iff f [] = (λ h. tt, λ h. refl)
each_iff f (x ∷ xs) = (
  λ h. let (p, q) = then_check-nil (f x) (each f xs) h in (p, (each_iff f xs).0 q),
  λ (p, q). (then_check_iff (f x) (each f xs)).1 (p, (each_iff f xs).1 q),
)

pub Check-cases :
    {A : Type 0} (c : Check A) → ((a : A) × (c ≡ returns a)) ⊎ ((e : Raised) × (c ≡ raises e))
Check-cases (returns a) = inl (a, refl)
Check-cases (raises e) = inr (e, refl)
