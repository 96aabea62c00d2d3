-- ===== src/Lock/Order.antt =====
-- The order of the result: names, then versions, then sources, each by code points.
use mathlib.Core.List.{Memᴰ}
use mathlib.Core.List.Memᴰ
use symaira_corekit.Base.{
  Bool, true, false, ◌≡◌, refl, inl, inr, List, [], ◌∷◌, arith, ◌==◌, list_beq_iff, list_eq, nat_eq,
  Text, if◌then◌else◌, Bool-cases, ◌↔◌,
}
use symaira_corekit.Base.Sorting.{
  text_le, text_le_total, text_le_trans, text_le_antisymm, sorted, insert_sorted, any-sorted,
  any-insert_sorted,
}
use symaira_corekit.Lock.{Package, package_le, source_or_empty, same_key, is_seen}
use symaira_corekit.Lock.Fuel.{same_key_symm}
use symaira_corekit.Lock.Loop.{Distinct}

pub package_le_total : (p q : Package) → package_le p q ≡ false → package_le q p ≡ true
unfolding package_le
package_le_total p q h = ground (
  arith,
  list_beq_iff p.name q.name,
  list_beq_iff q.name p.name,
  list_beq_iff p.version q.version,
  list_beq_iff q.version p.version,
  text_le_total p.name q.name,
  text_le_total p.version q.version,
  text_le_total (source_or_empty p) (source_or_empty q),
)

-- The lexicographic step: the texts decide where they differ, and the tests break a tie.
lex_trans :
    (x y z : Text) (xy yz xz : Bool)
    → (xy ≡ true → yz ≡ true → xz ≡ true)
    → (if x == y then xy else text_le x y) ≡ true
    → (if y == z then yz else text_le y z) ≡ true
    → (if x == z then xz else text_le x z) ≡ true
lex_trans x y z xy yz xz tie h k = ground (
  arith,
  list_beq_iff x y,
  list_beq_iff y z,
  list_beq_iff x z,
  text_le_trans x y z,
  text_le_antisymm x y,
)

pub package_le_trans :
    (p q r : Package) → package_le p q ≡ true → package_le q r ≡ true → package_le p r ≡ true
unfolding package_le
package_le_trans p q r h k =
    lex_trans p.name q.name r.name _ _ _
      (lex_trans p.version q.version r.version _ _ _
        (text_le_trans (source_or_empty p) (source_or_empty q) (source_or_empty r)))
      h k

module _ (le : Package → Package → Bool) where
  mem-insert_sorted :
      (a q : Package) (l : List Package) → Memᴰ q (insert_sorted le a l) ↔ (Memᴰ q (a ∷ l))
  unfolding insert_sorted
  mem-insert_sorted a q [] = (λ m. m, λ m. m)
  mem-insert_sorted a q (x ∷ l) = elim (Bool-cases (le a x)) [
    | inl before ↦ rw before (λ m. m, λ m. m)
    | inr after ↦
        let (to, from) = mem-insert_sorted a q l in
        rw after (
          λ m. elim (Memᴰ.cases_cons m) [
            | inl e ↦ Memᴰ.tail (Memᴰ.head e)
            | inr n ↦ elim (Memᴰ.cases_cons (to n)) [
              | inl e ↦ Memᴰ.head e
              | inr k ↦ Memᴰ.tail (Memᴰ.tail k)
            ]
          ],
          λ m. elim (Memᴰ.cases_cons m) [
            | inl e ↦ Memᴰ.tail (from (Memᴰ.head e))
            | inr n ↦ elim (Memᴰ.cases_cons n) [
              | inl e ↦ Memᴰ.head e
              | inr k ↦ Memᴰ.tail (from (Memᴰ.tail k))
            ]
          ],
        )
  ]

  pub mem-sorted : (q : Package) (l : List Package) → Memᴰ q (sorted le l) ↔ Memᴰ q l
  unfolding sorted
  mem-sorted q [] = (λ m. m, λ m. m)
  mem-sorted q (x ∷ l) =
      let (to, from) = mem-insert_sorted x q (sorted le l) in
      let (there, back) = mem-sorted q l in
      (
        λ m. elim (Memᴰ.cases_cons (to m)) [ inl e ↦ Memᴰ.head e | inr n ↦ Memᴰ.tail (there n) ],
        λ m. elim (Memᴰ.cases_cons m) [
          | inl e ↦ from (Memᴰ.head e)
          | inr n ↦ from (Memᴰ.tail (back n))
        ],
      )

  Distinct-insert_sorted :
      (a : Package) (l : List Package)
      → is_seen a l ≡ false
      → Distinct l
      → Distinct (insert_sorted le a l)
  unfolding insert_sorted
  Distinct-insert_sorted a [] new d = (refl, tt)
  Distinct-insert_sorted a (x ∷ l) new d = elim (Bool-cases (le a x)) [
    | inl before ↦ rw before (new, d)
    | inr after ↦ rw after (
      ground (arith, any-insert_sorted le (same_key x) a l, same_key_symm a x),
      Distinct-insert_sorted a l (ground arith) d.1,
    )
  ]

  pub Distinct-sorted : (l : List Package) → Distinct l → Distinct (sorted le l)
  unfolding sorted
  Distinct-sorted [] d = tt
  Distinct-sorted (x ∷ l) (new, d) =
      Distinct-insert_sorted x (sorted le l) (ground (arith, any-sorted le (same_key x) l))
        (Distinct-sorted l d)
