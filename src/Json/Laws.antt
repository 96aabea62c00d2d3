-- ===== src/Json/Laws.antt =====
-- The tests on decoded documents, as equations.
use symaira_corekit.Base.{
  Bool, true, ◌≡◌, refl, sym, subst, some, ◌==◌, ◌↔◌, Text, ap, list_eq, nat_eq, list_beq_iff,
}
use symaira_corekit.Json.{
  Value, null, bool, int, neg, text, arr, obj, Fields, is_str, text_that, value_eq, as_dict,
}

abbrev text_or : Text → Value → Text
text_or d (text t) = t
text_or d _ = d

pub text-injective : (s t : Text) → text s ≡ text t → s ≡ t
text-injective s t h = ap (text_or s) h

pub is_str_iff : (v : Value) (s : Text) → (is_str v s ≡ true) ↔ (v ≡ text s)
unfolding is_str
is_str_iff (text t) s =
    let (to, from) = list_beq_iff t s in (λ h. ap text (to h), λ h. from (text-injective t s h))
is_str_iff null s = (λ h. cc, λ h. cc)
is_str_iff (bool b) s = (λ h. cc, λ h. cc)
is_str_iff (int n) s = (λ h. cc, λ h. cc)
is_str_iff (neg n) s = (λ h. cc, λ h. cc)
is_str_iff (arr l) s = (λ h. cc, λ h. cc)
is_str_iff (obj d) s = (λ h. cc, λ h. cc)

pub text_that_iff :
    (p : Text → Bool) (v : Value)
    → (text_that p v ≡ true) ↔ ((t : Text) × (v ≡ text t) × (p t ≡ true))
unfolding text_that
text_that_iff p (text t) =
    (λ h. (t, refl, h), λ (s, e, h). subst (λ x. p x ≡ true) (sym (text-injective t s e)) h)
text_that_iff p null = (λ h. cc, λ h. cc (h.1))
text_that_iff p (bool b) = (λ h. cc, λ h. cc (h.1))
text_that_iff p (int n) = (λ h. cc, λ h. cc (h.1))
text_that_iff p (neg n) = (λ h. cc, λ h. cc (h.1))
text_that_iff p (arr l) = (λ h. cc, λ h. cc (h.1))
text_that_iff p (obj d) = (λ h. cc, λ h. cc (h.1))

pub value_eq-text : (s t : Text) → value_eq (text s) (text t) ≡ (s == t)
unfolding value_eq
value_eq-text s t = refl

abbrev fields_or : Fields → Value → Fields
fields_or d (obj e) = e
fields_or d _ = d

pub obj-injective : (d e : Fields) → obj d ≡ obj e → d ≡ e
obj-injective d e h = ap (fields_or d) h

pub as_dict_iff : (v : Value) (d : Fields) → (as_dict v ≡ some d) ↔ (v ≡ obj d)
unfolding as_dict
as_dict_iff (obj e) d = (λ h. cc h, λ h. cc h)
as_dict_iff null d = (λ h. cc, λ h. cc)
as_dict_iff (bool b) d = (λ h. cc, λ h. cc)
as_dict_iff (int n) d = (λ h. cc, λ h. cc)
as_dict_iff (neg n) d = (λ h. cc, λ h. cc)
as_dict_iff (text t) d = (λ h. cc, λ h. cc)
as_dict_iff (arr l) d = (λ h. cc, λ h. cc)
