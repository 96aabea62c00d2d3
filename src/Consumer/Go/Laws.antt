-- ===== src/Consumer/Go/Laws.antt =====
-- What a clean Go check shows (`_check_go` of port/consumer/verify.py).
use symaira_corekit.Base.{
  ◌≡◌, ap, ◌∙◌, ◌≢◌, ◌⊎◌, inl, inr, true, false, not, some, List, [], ◌∷◌, arith, Text, str, All,
  All-map, Bool-cases, List-cases, Option-cases, all, any, flat_map, flat_map-eq-nil, is_empty_iff,
  select, select-eq-nil, ◌==◌, nat_eq, list_eq, option_eq, bool_eq, pair_eq,
}
use symaira_corekit.Consumer.Evidence.{go_retired}
use symaira_corekit.Consumer.Findings.{add, each, need, returns}
use symaira_corekit.Consumer.Findings.Laws.{
  Check-cases, each_iff, returns-injective, then_check-nil,
}
use symaira_corekit.Consumer.Go.{
  check_go, check_go_replacements, check_go_retired, check_imports, check_module_file, check_pin,
  check_pins, guarded_text, is_consistent, is_foreign, ls_files, pin_versions, tracked_go_files,
  tracked_go_imports, tracked_go_module_files,
}
use symaira_corekit.Consumer.Go.Pins.{HasPin, pin_lem, same_versions}
use symaira_corekit.Consumer.Go.Versions.{sole-ValidPin}
use symaira_corekit.Consumer.GoMod.{go_corekit_replacements}
use symaira_corekit.Consumer.GoMod.Directives.{IsUnreplaced}
use symaira_corekit.Consumer.GoMod.Replacements.{go_corekit_replacements-IsUnreplaced}
use symaira_corekit.Consumer.Paths.{path_parts}
use symaira_corekit.Consumer.Patterns.{is_go_version}
use symaira_corekit.Consumer.Release.{repository_of}
use symaira_corekit.Consumer.Release.Laws.{Answers, succeeds_iff}
use symaira_corekit.Consumer.World.{Location, World, git}
use symaira_corekit.Json.{Fields, Value, arr, as_list, get, nil, value_eq}

-- A tracked module file that can be read and whose replace declarations leave CoreKit alone.
abbrev pub Unreplaced : World → Location → Text → Type 0
Unreplaced w checkout relative =
    (t : Text) × (guarded_text w checkout relative ≡ some t) × IsUnreplaced t

module_file_lem :
    (w : World) (repository : Text) (checkout : Location) (relative : Text)
    → check_module_file w repository checkout relative ≡ []
    → Unreplaced w checkout relative
unfolding check_module_file
module_file_lem w repository checkout relative h =
    elim (Option-cases (guarded_text w checkout relative)) [
      | inl e ↦ absurd (ground (arith, h, e))
      | inr (t, e) ↦
          let none_found : go_corekit_replacements t ≡ [] =
            (is_empty_iff (go_corekit_replacements t)).0 (ground (arith, h, e)) in
          (t, e, go_corekit_replacements-IsUnreplaced t none_found)
    ]

replacements_lem :
    (w : World) (repository : Text) (checkout : Location)
    → check_go_replacements w repository checkout ≡ []
    → (paths : List Text) × (tracked_go_module_files w checkout ≡ some paths)
      × All (Unreplaced w checkout) paths
unfolding check_go_replacements
replacements_lem w repository checkout h =
    elim (Option-cases (tracked_go_module_files w checkout)) [
      | inl e ↦ absurd (ground (arith, h, e))
      | inr (paths, e) ↦
          let clean : flat_map (check_module_file w repository checkout) paths ≡ [] =
            ground (arith, h, e) in
          (
            paths,
            e,
            All-map (module_file_lem w repository checkout) paths
                ((flat_map-eq-nil (check_module_file w repository checkout) paths).0 clean),
          )
    ]

-- Some tracked Go file imports the module.
imports_lem :
    (w : World) (repository : Text) (checkout : Location)
    → check_imports w repository checkout ≡ returns []
    → (i : Text) × (rest : List Text) × (tracked_go_imports w checkout ≡ returns (i ∷ rest))
unfolding check_imports
imports_lem w repository checkout h = elim (Check-cases (tracked_go_imports w checkout)) [
  | inr (x, e) ↦ absurd (ground (arith, h, e))
  | inl (imports, e) ↦ elim (Option-cases (tracked_go_files w checkout)) [
    | inl f ↦ absurd (ground (arith, h, e, f))
    | inr (paths, f) ↦ elim (List-cases imports) [
      | inl g ↦ absurd (ground (arith, h, e, f, g))
      | inr (i, rest, g) ↦ (i, rest, e ∙ ap returns g)
    ]
  ]
]

-- The pins of a consumer of the Go module.
pub record IsPinned (w : World) (record' : Fields) (checkout : Location) : Type 0 where
  pub pins : List Value
  pub version : Text
  pub modules : List Text
  pub importer : Text
  pub importers : List Text
  pub listed_pins : as_list (get record' (str "pins")) ≡ some pins
  pub some_pin : pins ≢ []
  pub full : is_go_version version ≡ true
  pub pinned : All (HasPin w checkout version) pins
  pub module_files : tracked_go_module_files w checkout ≡ some modules
  pub unreplaced : All (Unreplaced w checkout) modules
  pub imported : tracked_go_imports w checkout ≡ returns (importer ∷ importers)

-- A consumer that gave Go up.
pub record IsRetired (w : World) (record' : Fields) (checkout : Location) : Type 0 where
  pub no_pins : value_eq (get record' (str "pins")) (arr nil) ≡ true
  pub tracked : List Text
  pub asked : ls_files w checkout (str "--" ∷ str "*.go" ∷ []) ≡ some tracked
  pub left_out : All (λ path. any is_foreign (path_parts path) ≡ true) tracked
  pub no_module : Answers w (str "ls-files" ∷ str "--" ∷ str "go.mod" ∷ []) checkout []

-- The tracked Go files, of which none is looked at.
no_files_lem :
    (w : World) (checkout : Location)
    → tracked_go_files w checkout ≡ some []
    → (tracked : List Text) × (ls_files w checkout (str "--" ∷ str "*.go" ∷ []) ≡ some tracked)
      × All (λ path. any is_foreign (path_parts path) ≡ true) tracked
unfolding tracked_go_files
no_files_lem w checkout h = elim (Option-cases (ls_files w checkout (str "--" ∷ str "*.go" ∷ []))) [
  | inl e ↦ absurd (ground (arith, h, e))
  | inr (tracked, e) ↦
      let kept = λ (path : Text). not (any is_foreign (path_parts path)) in
      let none_kept : select kept tracked ≡ [] = ground (arith, h, e) in
      (
        tracked,
        e,
        All-map (λ path dropped. ground (arith, dropped)) tracked
            ((select-eq-nil kept tracked).0 none_kept),
      )
]

retired_lem :
    (w : World) (record' : Fields) (checkout : Location)
    → check_go_retired w record' checkout ≡ []
    → IsRetired w record' checkout
unfolding check_go_retired
retired_lem w record' checkout h = elim (Option-cases (tracked_go_files w checkout)) [
  | inl e ↦ absurd (ground (arith, h, e))
  | inr (paths, e) ↦
      let command : List Text = str "ls-files" ∷ str "--" ∷ str "go.mod" ∷ [] in
      let none_left : paths ≡ [] = (is_empty_iff paths).0 (ground (arith, h, e)) in
      let (tracked, asked, left_out) = no_files_lem w checkout (e ∙ ap some none_left) in
      record {
        no_pins = ground (arith, h);
        tracked = tracked;
        asked = asked;
        left_out = left_out;
        no_module = record {
          success = (succeeds_iff w command checkout).0 (ground (arith, h, e));
          output = (is_empty_iff (git w command checkout).stdout).0 (ground (arith, h, e));
        };
      }
]

pins_lem :
    (w : World) (record' : Fields) (checkout : Location) (repository : Text) (v : Value)
    (pins : List Value)
    → as_list (get record' (str "pins")) ≡ some (v ∷ pins)
    → check_go_replacements w repository checkout ≡ []
    → check_pins w repository checkout (v ∷ pins) ≡ returns []
    → IsPinned w record' checkout
unfolding check_pins is_consistent
pins_lem w record' checkout repository v pins e unreplaced h =
    let (front, imports) = then_check-nil _ (check_imports w repository checkout) h in
    let (each_pin, same) =
      then_check-nil (each (check_pin w repository checkout) (v ∷ pins))
        (returns (
          need (is_consistent (flat_map (pin_versions w checkout) (v ∷ pins)))
            (add repository (str "go.pin.inconsistent"))))
        front in
    let pinned =
      All-map (pin_lem w repository checkout) (v ∷ pins)
        ((each_iff (check_pin w repository checkout) (v ∷ pins)).0 each_pin) in
    let ((version, first, found), rest) = pinned in
    let agree : all (λ x. x == version) (flat_map (pin_versions w checkout) pins) ≡ true =
      ground (arith, same, found) in
    let (modules, module_files, kept) = replacements_lem w repository checkout unreplaced in
    let (importer, importers, imported) = imports_lem w repository checkout imports in
    record {
      pins = v ∷ pins;
      version = version;
      modules = modules;
      importer = importer;
      importers = importers;
      listed_pins = e;
      some_pin = λ k. cc;
      full = sole-ValidPin first.contents_of version first.sole;
      pinned = (first, same_versions w checkout version pins rest agree);
      module_files = module_files;
      unreplaced = kept;
      imported = imported;
    }

pub check_go_cases :
    (w : World) (record' : Fields) (checkout : Location)
    → check_go w record' checkout ≡ returns []
    → ((go_retired record' ≡ true) × IsRetired w record' checkout)
      ⊎ ((go_retired record' ≡ false) × IsPinned w record' checkout)
unfolding check_go
check_go_cases w record' checkout h = elim (Bool-cases (go_retired record')) [
  | inl r ↦ inl (r, retired_lem w record' checkout (ground (arith, h, r)))
  | inr r ↦
      let repository = repository_of record' in
      elim (Option-cases (as_list (get record' (str "pins")))) [
        | inl e ↦
            let (_, bad) =
              then_check-nil (returns (check_go_replacements w repository checkout))
                (returns (add repository (str "go.manifests"))) (ground (arith, h, r, e)) in
            absurd (ground (arith, bad))
        | inr (pins, e) ↦ elim (List-cases pins) [
          | inl f ↦
              let (_, bad) =
                then_check-nil (returns (check_go_replacements w repository checkout))
                  (returns (add repository (str "go.manifests"))) (ground (arith, h, r, e, f)) in
              absurd (ground (arith, bad))
          | inr (v, rest, f) ↦
              let (unreplaced, clean) =
                then_check-nil (returns (check_go_replacements w repository checkout))
                  (check_pins w repository checkout (v ∷ rest)) (ground (arith, h, r, e, f)) in
              inr (
                r,
                pins_lem w record' checkout repository v rest (e ∙ ap some f)
                    (returns-injective _ [] unreplaced) clean,
              )
        ]
      ]
]
