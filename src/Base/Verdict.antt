-- ===== src/Base/Verdict.antt =====
-- The outcome of a step that may fail.

use mathlib.Core.Path.{◌≡◌, refl}
use mathlib.Core.Logic.{◌⊎◌, inl, inr}
use mathlib.Core.Bool.{Bool, true, false}
use native.Mathlib.Omega.{arith}
use symaira_corekit.Base.Tests.{if◌then◌else◌}

-- A value, a failure that the program reports, or an exception that leaves it.
pub data Verdict (A : Type 0) : Type 0 where
  accepts : A → Verdict A
  refuses crashes : Verdict A

-- `if not ok: fail(...)`
abbrev pub require : {A : Type 0} → Bool → Verdict A → Verdict A
require ok rest = if ok then rest else refuses

infixr 15 ◌and_then◌
unfoldable pub ◌and_then◌ : {A B : Type 0} → Verdict A → (A → Verdict B) → Verdict B
accepts a and_then f = f a
refuses and_then f = refuses
crashes and_then f = crashes

-- A sequence that accepts, accepts in both of its parts.
pub and_then-accepts :
    {A B : Type 0} (v : Verdict A) (f : A → Verdict B) (b : B)
    → (v and_then f) ≡ accepts b
    → (a : A) × (v ≡ accepts a) × (f a ≡ accepts b)
unfolding ◌and_then◌
and_then-accepts (accepts a) f b h = (a, refl, h)
and_then-accepts refuses f b h = absurd (ground (arith, h))
and_then-accepts crashes f b h = absurd (ground (arith, h))

pub require-accepts :
    {A : Type 0} (ok : Bool) (v : Verdict A) (a : A)
    → require ok v ≡ accepts a
    → (ok ≡ true) × (v ≡ accepts a)
require-accepts true v a h = (refl, h)
require-accepts false v a h = absurd (ground (arith, h))

pub Verdict-cases :
    {A : Type 0} (v : Verdict A) → ((a : A) × (v ≡ accepts a)) ⊎ ((v ≡ refuses) ⊎ (v ≡ crashes))
Verdict-cases (accepts a) = inl (a, refl)
Verdict-cases refuses = inr (inl refl)
Verdict-cases crashes = inr (inr refl)
