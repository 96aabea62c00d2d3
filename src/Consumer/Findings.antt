-- ===== src/Consumer/Findings.antt =====
-- The findings of the verifier, the exceptions that its checks let through, and their sequencing.
pub mod Laws
use symaira_corekit.Base.{Bool, List, [], ◌∷◌, ◌++◌, Text, if◌then◌else◌}

-- `Finding`, without its `message`: no part of the program reads the wording.
pub record Finding : Type 0 where
  pub repository : Text
  pub code : Text

-- What a check may raise. Around the verification, `main` turns all but the last into the exit status 2; the last is the
-- `TypeError` of a list or dict that is looked up in a set.
pub data Raised : Type 0 where
  os_error value_error toml_error runtime_error type_error : Raised

pub data Check (A : Type 0) : Type 0 where
  returns : A → Check A
  raises : Raised → Check A

abbrev pub Report : Type 0
Report = List Finding

-- `_add(findings, repository, code, ...)`
abbrev pub add : Text → Text → Report
add repository code = record { repository = repository; code = code } ∷ []

-- `if not ok: _add(...)`
abbrev pub need : Bool → Report → Report
need ok fs = if ok then [] else fs

-- One check after the other, on the same list.
infixl 20 ◌then_check◌
unfoldable pub ◌then_check◌ : Check Report → Check Report → Check Report
returns fs then_check returns gs = returns (fs ++ gs)
returns fs then_check raises e = raises e
raises e then_check n = raises e

-- A loop whose body is a check.
unfoldable pub each {ℓ} : {A : Type ℓ} → (A → Check Report) → List A → Check Report
unfolding ◌then_check◌
each f [] = returns []
each f (x ∷ xs) = f x then_check each f xs
