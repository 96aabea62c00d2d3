-- ===== src/Consumer/Cargo/Laws.antt =====
-- What a clean check of a consumer without the crate shows (`_check_not_adopted_rust` of
-- port/consumer/verify.py).
use symaira_corekit.Base.{
  ◌≡◌, inl, inr, false, some, List, [], arith, Text, All, All-map, Option-cases, flat_map,
  flat_map-eq-nil,
}
use symaira_corekit.Consumer.Cargo.{
  check_cargo_file, check_not_adopted_rust, contains_package, tracked_cargo_files, tracked_document,
}
use symaira_corekit.Consumer.World.{Location, World}
use symaira_corekit.Json.{Fields}

-- Each tracked manifest and lock file is a guarded document without the package.
pub record IsAbsent (w : World) (checkout : Location) : Type 0 where
  pub paths : List Text
  pub tracked : tracked_cargo_files w checkout ≡ some paths
  pub absent :
      All
        (λ p.
          (document : Fields) × (tracked_document w checkout p ≡ some document)
          × (contains_package p document ≡ false))
        paths

cargo_file_lem :
    (w : World) (repository : Text) (checkout : Location) (p : Text)
    → check_cargo_file w repository checkout p ≡ []
    → (document : Fields) × (tracked_document w checkout p ≡ some document)
      × (contains_package p document ≡ false)
unfolding check_cargo_file
cargo_file_lem w repository checkout p h = elim (Option-cases (tracked_document w checkout p)) [
  | inl e ↦ absurd (ground (arith, h, e))
  | inr (document, e) ↦ (document, e, ground (arith, h, e))
]

pub check_not_adopted_rust-IsAbsent :
    (w : World) (repository : Text) (checkout : Location)
    → check_not_adopted_rust w repository checkout ≡ []
    → IsAbsent w checkout
unfolding check_not_adopted_rust
check_not_adopted_rust-IsAbsent w repository checkout h =
    elim (Option-cases (tracked_cargo_files w checkout)) [
      | inl e ↦ absurd (ground (arith, h, e))
      | inr (paths, e) ↦
          let clean : flat_map (check_cargo_file w repository checkout) paths ≡ [] =
            ground (arith, h, e) in
          record {
            paths = paths;
            tracked = e;
            absent =
                All-map (cargo_file_lem w repository checkout) paths
                  ((flat_map-eq-nil (check_cargo_file w repository checkout) paths).0 clean);
          }
    ]
