-- ===== src/Lock/Reach.antt =====
-- Dependency paths from the roots, and why a key names one package of the file on them.
use mathlib.Core.List.{Memᴰ}
use symaira_corekit.Base.{true, ◌≡◌, List, Text}
use symaira_corekit.Lock.{Package, ok, same_key, resolve, local_root, fits, parse_edge, is_local}
use symaira_corekit.Lock.Resolve.{only_one, resolve-eq-ok, local_root-eq-ok}
use symaira_corekit.Lock.Fuel.{same_key-eq}

module _ (packages : List Package) (roots : List Text) where
  -- The dependency paths from the roots.
  pub data Reach : Package → Type 0 where
    root : {t : Text} {q : Package} → Memᴰ t roots → local_root packages t ≡ ok q → Reach q
    step :
        {p : Package} {t : Text} {q : Package}
        → Reach p
        → Memᴰ t p.dependencies
        → resolve packages t ≡ ok q
        → Reach q

  -- A package that is reached is of the file, and no other of the file has its key.
  pub record IsUnique (q : Package) : Type 0 where
    pub listed : Memᴰ q packages
    pub alone : (r : Package) → Memᴰ r packages → same_key q r ≡ true → r ≡ q

  fits-same_key :
      (t : Text) (q r : Package)
      → same_key q r ≡ true
      → fits (parse_edge t) q ≡ true
      → fits (parse_edge t) r ≡ true
  unfolding fits same_key
  fits-same_key t q r k f =
      let (n, v, s) = same_key-eq q r k in rw (n, v, s, fits) (unfold fits in f)

  is_local-same_key :
      (t : Text) (q r : Package) → same_key q r ≡ true → is_local t q ≡ true → is_local t r ≡ true
  unfolding is_local same_key
  is_local-same_key t q r k f =
      let (n, _, s) = same_key-eq q r k in rw (n, s, is_local) (unfold is_local in f)

  pub Reach-IsUnique : (q : Package) → Reach q → IsUnique q
  Reach-IsUnique q (root {t} m h) =
      let (there, passes, one) =
        only_one (is_local t) packages q (local_root-eq-ok packages t q h) in
      record { listed = there; alone = λ r n k. one r n (is_local-same_key t q r k passes) }
  Reach-IsUnique q (step {p} {t} w m h) =
      let (there, passes, one) =
        only_one (fits (parse_edge t)) packages q (resolve-eq-ok packages t q h) in
      record { listed = there; alone = λ r n k. one r n (fits-same_key t q r k passes) }
