-- ===== src/Consumer/Go.antt =====
-- The Go checks of port/consumer/verify.py: the tracked files, `_check_go_replacements`,
-- `tracked_go_imports`, `_check_go_retired` and `_check_go`.
pub mod Pins
pub mod Versions
pub mod Laws
use symaira_corekit.Base.{
  Bool, true, false, not, ◌&&◌, ◌||◌, Option, none, some, List, [], ◌∷◌, ◌++◌, Text, str, all, any,
  flat_map, if◌then◌else◌, is_empty, leb, length, select, ◌==◌, nat_eq, list_eq, option_eq, bool_eq,
  pair_eq,
}
use symaira_corekit.Base.Strings.{join, split_on}
use symaira_corekit.Consumer.Evidence.{go_retired}
use symaira_corekit.Consumer.Findings.{
  Check, Report, add, each, need, os_error, raises, returns, value_error, ◌then_check◌,
}
use symaira_corekit.Consumer.GoImports.{go_imports}
use symaira_corekit.Consumer.GoMod.{
  go_corekit_replacements, is_corekit, parse_go_pins, parse_go_requirements,
}
use symaira_corekit.Consumer.Paths.{
  failed, path_name, path_parts, regular_non_symlink, safe, safe_non_symlink_child, unsafe,
}
use symaira_corekit.Consumer.Release.{repository_of}
use symaira_corekit.Consumer.World.{
  Location, World, contents, git, prints, succeeds, undecodable, unreadable,
}
use symaira_corekit.Json.{Fields, Value, arr, as_list, get, nil, text, value_eq}

-- `(item for item in output.split("\0") if item)`
unfoldable pub listed : Text → List Text
unfolding split_on
listed output = select (λ t. not (is_empty t)) (split_on 0 output)

-- The output of `ls-files`, if it succeeds.
unfoldable pub ls_files : World → Location → List Text → Option (List Text)
unfolding succeeds git listed
ls_files w checkout args =
    let command = str "ls-files" ∷ str "-z" ∷ args in
    if succeeds w command checkout then some (listed (git w command checkout).stdout) else none

abbrev pub is_foreign : Text → Bool
is_foreign part = part == str ".git" || part == str ".worktrees" || part == str "vendor"

-- `_tracked_go_files`; `none` is its False.
unfoldable pub tracked_go_files : World → Location → Option (List Text)
unfolding ls_files path_parts str
tracked_go_files w checkout = elim (ls_files w checkout (str "--" ∷ str "*.go" ∷ [])) [
  | none ↦ none
  | some paths ↦ some (select (λ t. not (any is_foreign (path_parts t))) paths)
]

-- `_tracked_go_module_files`
unfoldable pub tracked_go_module_files : World → Location → Option (List Text)
unfolding ls_files path_name str
tracked_go_module_files w checkout = elim (ls_files w checkout []) [
  | none ↦ none
  | some paths ↦
      some (select (λ t. path_name t == str "go.mod" || path_name t == str "go.work") paths)
]

-- `path.relative_to(checkout).as_posix()` of `checkout / relative`.
unfoldable pub posix : Text → Text
unfolding join path_parts str
posix relative = join (str "/") (path_parts relative)

-- The text of a tracked file that the guard lets pass.
unfoldable pub guarded_text : World → Location → Text → Option Text
unfolding safe_non_symlink_child posix path_parts
guarded_text w checkout relative =
    elim (safe_non_symlink_child w checkout (text (posix relative))) [
      | unsafe ↦ none
      | failed ↦ none
      | safe path ↦ elim (w.read_text (checkout ++ path_parts relative)) [
        | contents t ↦ some t
        | unreadable ↦ none
        | undecodable ↦ none
      ]
    ]

unfoldable pub check_module_file : World → Text → Location → Text → Report
unfolding guarded_text go_corekit_replacements
check_module_file w repository checkout relative = elim (guarded_text w checkout relative) [
  | none ↦ add repository (str "go.manifest.read")
  | some t ↦
      need (is_empty (go_corekit_replacements t)) (add repository (str "go.replace.forbidden"))
]

unfoldable pub check_go_replacements : World → Text → Location → Report
unfolding tracked_go_module_files check_module_file
check_go_replacements w repository checkout = elim (tracked_go_module_files w checkout) [
  | none ↦ add repository (str "go.manifests.unavailable")
  | some paths ↦ flat_map (check_module_file w repository checkout) paths
]

-- The files with an import of CoreKit. A file that cannot be read is passed over; one that is no UTF-8
-- raises a ValueError.
unfoldable pub importing : World → Location → List Text → Check (List Text)
unfolding path_parts posix go_imports is_corekit
importing w checkout [] = returns []
importing w checkout (relative ∷ paths) =
    let rest = importing w checkout paths in
    elim (w.read_text (checkout ++ path_parts relative)) [
      | undecodable ↦ raises value_error
      | unreadable ↦ rest
      | contents t ↦ elim rest [
        | raises e ↦ raises e
        | returns found ↦
            returns
              (if any is_corekit (go_imports w.letters t) then posix relative ∷ found else found)
      ]
    ]

-- `tracked_go_imports`
unfoldable pub tracked_go_imports : World → Location → Check (List Text)
unfolding tracked_go_files importing
tracked_go_imports w checkout = elim (tracked_go_files w checkout) [
  | none ↦ returns []
  | some paths ↦ importing w checkout paths
]

unfoldable pub check_go_retired : World → Fields → Location → Report
unfolding tracked_go_files value_eq
check_go_retired w record' checkout =
    let repository = repository_of record' in
    let tracked_mod = str "ls-files" ∷ str "--" ∷ str "go.mod" ∷ [] in
    need (value_eq (get record' (str "pins")) (arr nil)) (add repository (str "go.retired.pins"))
    ++ elim (tracked_go_files w checkout) [
      | none ↦ add repository (str "go.imports.unavailable")
      | some paths ↦
          if not (succeeds w tracked_mod checkout)
          then add repository (str "go.imports.unavailable")
          else need (is_empty paths && is_empty (git w tracked_mod checkout).stdout)
              (add repository (str "go.retired.present"))
    ]

-- What a declared manifest gives: the code of the finding that keeps it out, or its text.
pub data PinFile : Type 0 where
  refused_pin : Text → PinFile
  readable : Text → PinFile

unfoldable pub pin_file : World → Location → Value → Check PinFile
unfolding safe_non_symlink_child regular_non_symlink prints
pin_file w checkout (text relative) = elim (safe_non_symlink_child w checkout (text relative)) [
  | unsafe ↦ returns (refused_pin (str "go.manifest.path"))
  | failed ↦ raises os_error
  | safe path ↦
      if not (regular_non_symlink w path)
      then returns (refused_pin (str "go.manifest.missing"))
      else if not (
          prints w (str "ls-files" ∷ str "--error-unmatch" ∷ str "--" ∷ relative ∷ []) checkout
            relative)
      then returns (refused_pin (str "go.manifest.untracked"))
      else elim (w.read_text path) [
        | contents t ↦ returns (readable t)
        | unreadable ↦ returns (refused_pin (str "go.manifest.read"))
        | undecodable ↦ returns (refused_pin (str "go.manifest.read"))
      ]
]
pin_file w checkout v = returns (refused_pin (str "go.manifest.path"))

abbrev is_valid : Option Text → Bool
is_valid none = false
is_valid (some v) = true

-- The tests of the declarations of one manifest.
unfoldable pub check_requirements : Text → List (Option Text) → Report
check_requirements repository requirements =
    if is_empty requirements
    then add repository (str "go.pin.missing")
    else need (leb (length requirements) 1) (add repository (str "go.pin.duplicate"))
      ++ need (all is_valid requirements) (add repository (str "go.pin.invalid"))

unfoldable pub check_pin : World → Text → Location → Value → Check Report
unfolding pin_file check_requirements parse_go_requirements
check_pin w repository checkout v = elim (pin_file w checkout v) [
  | raises e ↦ raises e
  | returns p ↦ returns (elim p [
    | refused_pin code ↦ add repository code
    | readable t ↦ check_requirements repository (parse_go_requirements t)
  ])
]

-- What the manifest adds to `found`.
unfoldable pub pin_versions : World → Location → Value → List Text
unfolding pin_file parse_go_pins
pin_versions w checkout v = elim (pin_file w checkout v) [
  | raises e ↦ []
  | returns p ↦ elim p [ refused_pin code ↦ [] | readable t ↦ parse_go_pins t ]
]

-- `not (found and len(set(found)) != 1)`
unfoldable pub is_consistent : List Text → Bool
is_consistent [] = true
is_consistent (v ∷ vs) = all (λ x. x == v) vs

unfoldable pub check_imports : World → Text → Location → Check Report
unfolding tracked_go_files tracked_go_imports
check_imports w repository checkout = elim (tracked_go_imports w checkout) [
  | raises e ↦ raises e
  | returns imports ↦ elim (tracked_go_files w checkout) [
    | none ↦ returns (add repository (str "go.imports.unavailable"))
    | some paths ↦
        returns (need (not (is_empty imports)) (add repository (str "go.imports.missing")))
  ]
]

-- The checks of a non-empty array of pins.
unfoldable pub check_pins : World → Text → Location → List Value → Check Report
unfolding each check_pin pin_versions is_consistent check_imports ◌then_check◌
check_pins w repository checkout pins =
    each (check_pin w repository checkout) pins
    then_check returns (
        need (is_consistent (flat_map (pin_versions w checkout) pins))
          (add repository (str "go.pin.inconsistent")))
    then_check check_imports w repository checkout

unfoldable pub check_go : World → Fields → Location → Check Report
unfolding go_retired check_go_retired check_go_replacements check_pins ◌then_check◌
check_go w record' checkout =
    let repository = repository_of record' in
    if go_retired record'
    then returns (check_go_retired w record' checkout)
    else returns (check_go_replacements w repository checkout)
      then_check elim (as_list (get record' (str "pins"))) [
        | none ↦ returns (add repository (str "go.manifests"))
        | some pins ↦
            if is_empty pins
            then returns (add repository (str "go.manifests"))
            else check_pins w repository checkout pins
      ]
