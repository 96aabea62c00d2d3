-- ===== src/Json.antt =====
-- Decoded JSON and TOML documents, and the accesses that the scripts make to them
-- (`json.loads`, `tomllib.loads`, `dict.get`, `isinstance` on the results).
pub mod Laws
use symaira_corekit.Base.{
  ℕ, suc, ◌||◌, ◌&&◌, any, Option, none, some, bool_eq, Bool, true, false, List, [], ◌∷◌, ◌==◌,
  Text, if◌then◌else◌, list_eq, nat_eq,
}

mutual
  -- The numbers of a document are its integers: `neg n` is -(n + 1).
  pub data Value : Type 0 where
    null : Value
    bool : Bool → Value
    int : ℕ → Value
    neg : ℕ → Value
    text : Text → Value
    arr : Items → Value
    obj : Fields → Value

  pub data Items : Type 0 where
    nil : Items
    cons : Value → Items → Items

  -- A decoded dict holds a key once.
  pub data Fields : Type 0 where
    end : Fields
    field : Text → Value → Fields → Fields

unfoldable pub to_list : Items → List Value
to_list nil = []
to_list (cons v vs) = v ∷ to_list vs

-- `d.items()`
unfoldable pub entries : Fields → List (Text × Value)
entries end = []
entries (field k v d) = (k, v) ∷ entries d

-- `d.keys()`
unfoldable pub keys : Fields → List Text
keys end = []
keys (field k v d) = k ∷ keys d

-- `d.get(k)`: Python's None is the JSON null.
unfoldable pub get : Fields → Text → Value
get end k = null
get (field j v d) k = if j == k then v else get d k

-- `k in d`
unfoldable pub has : Fields → Text → Bool
has end k = false
has (field j v d) k = if j == k then true else has d k

-- `v.get(k) if isinstance(v, dict) else None`
unfoldable pub get_in : Value → Text → Value
unfolding get
get_in (obj d) k = get d k
get_in _ k = null

-- `v == s`, for a text `s`
unfoldable pub is_str : Value → Text → Bool
is_str (text t) s = t == s
is_str _ s = false

-- `isinstance(v, str)`
unfoldable pub is_text : Value → Bool
is_text (text t) = true
is_text _ = false

-- `isinstance(v, str) and p(v)`
unfoldable pub text_that : (Text → Bool) → Value → Bool
text_that p (text t) = p t
text_that p _ = false

-- `d.get(k, v)`: the default stands in for a missing key only.
unfoldable pub get_or : Fields → Text → Value → Value
unfolding has get
get_or d k v = if has d k then get d k else v

-- `isinstance(v, dict)`, with the dict.
unfoldable pub as_dict : Value → Option Fields
as_dict (obj d) = some d
as_dict _ = none

-- `isinstance(v, list)`, with the list.
unfoldable pub as_list : Value → Option (List Value)
unfolding to_list
as_list (arr l) = some (to_list l)
as_list _ = none

unfoldable pub size : Fields → ℕ
size end = 0
size (field k v d) = suc (size d)

-- Python's `==`: a Boolean equals the number 0 or 1, and dicts are equal in any order.
unfoldable mutual
  pub value_eq : Value → Value → Bool
  value_eq null null = true
  value_eq (bool b) (bool c) = b == c
  value_eq (bool b) (int n) = (if b then 1 else 0) == n
  value_eq (int n) (bool c) = n == (if c then 1 else 0)
  value_eq (int n) (int m) = n == m
  value_eq (neg n) (neg m) = n == m
  value_eq (text s) (text t) = s == t
  value_eq (arr l) (arr m) = items_eq l m
  value_eq (obj d) (obj e) = size d == size e && fields_eq d e
  value_eq _ _ = false

  pub items_eq : Items → Items → Bool
  items_eq nil nil = true
  items_eq (cons v l) (cons w m) = value_eq v w && items_eq l m
  items_eq _ _ = false

  pub fields_eq : Fields → Fields → Bool
  fields_eq end e = true
  fields_eq (field k v d) e = has e k && value_eq v (get e k) && fields_eq d e

-- `v != 0`, negated
unfoldable pub is_zero : Value → Bool
unfolding value_eq
is_zero v = value_eq v (int 0)

-- `len(set(values)) != len(values)`
unfoldable pub has_duplicates : List Value → Bool
has_duplicates [] = false
has_duplicates (v ∷ l) = any (value_eq v) l || has_duplicates l
