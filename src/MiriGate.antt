-- ===== src/MiriGate.antt =====
-- scripts/rust-port/miri_gate.py. The lines it prints are left out.
pub mod Laws
use symaira_corekit.Base.{
  ℕ, Bool, not, ◌&&◌, ◌||◌, Option, none, some, List, [], ◌∷◌, ◌++◌, Text, str, all, any, contains,
  is_empty, ◌==◌, nat_eq, list_eq, option_eq, bool_eq, pair_eq,
}
use symaira_corekit.Base.Strings.{occurs, strip}
use symaira_corekit.Base.Verdict.{Verdict, accepts, crashes, refuses, require, ◌and_then◌}
use symaira_corekit.Json.{Value, as_list, get_in, text}

-- A process: its status and its output, a timeout, or an OSError at its start.
pub data Ran : Type 0 where
  finished : ℕ → Text → Ran
  timed_out not_started : Ran

-- The variable `MIRIFLAGS` of a process: as it is for the gate, taken out, or set.
pub data Flags : Type 0 where
  inherited removed : Flags
  set_to : Text → Flags

-- What the gate asks of the system. A command comes with its `MIRIFLAGS`.
pub record Host : Type 0 where
  pub run : List Text → Flags → Ran
  pub json_loads : Text → Option Value
  -- `s.lower()`
  pub lower : Text → Text

-- The three sets of packages; an excluded package has its reason.
pub record Partition : Type 0 where
  pub pure : List Text
  pub non_isolated : List Text
  pub excluded : List (Text × Text)

unfoldable pub packages_of_gate : Partition
unfolding str
packages_of_gate = record {
  pure =
      str "symaira-core-exit"
      ∷ str "symaira-core-version"
      ∷ str "symaira-core-env"
      ∷ str "symaira-core-log"
      ∷ str "symaira-core-mcp"
      ∷ [];
  non_isolated =
      str "symaira-core-mcpcfg"
      ∷ str "symaira-core-config"
      ∷ str "symaira-core-fs"
      ∷ str "symaira-core-secretref"
      ∷ str "symaira-contract-fixtures"
      ∷ str "symaira-core-foundation"
      ∷ [];
  excluded =
      (
        str "symaira-core-llm",
        str
            "HTTP networking and TLS execution are covered by the native LLM contract gate, not Miri",
      )
      ∷ (
        str "symaira-core-sqlite",
        str "bundled SQLite FFI and unsupported native filesystem flags",
      )
      ∷ (
        str "symaira-core-update",
        str
            "local HTTP cache, filesystem and symlink extraction contracts are covered by the native update contract gate",
      )
      ∷ [];
}

unfoldable pub negative_package : Text
unfolding str
negative_package = str "symaira-contract-fixtures"

unfoldable pub negative_test : Text
unfolding str
negative_test = str "con_001_exit_fixture_is_valid_and_byte_stable"

unfoldable pub expensive_test : Text
unfolding str
expensive_test = str "frame_parser_fuzz_smoke_10000"

-- A process that has to succeed, within a timeout: `check=True` raises otherwise.
unfoldable pub checked_run : Host → List Text → Flags → Verdict Text
checked_run m command flags = elim (m.run command flags) [
  | timed_out ↦ refuses
  | not_started ↦ refuses
  | finished code output ↦ require (code == 0) (accepts output)
]

-- `package["name"]` of each package. Cargo gives each a text; what it does not give is an exception here.
unfoldable pub names_of : List Value → Verdict (List Text)
unfolding get_in ◌and_then◌ str
names_of [] = accepts []
names_of (v ∷ vs) = elim (get_in v (str "name")) [
  | text name ↦ names_of vs and_then λ names. accepts (name ∷ names)
  | _ ↦ crashes
]

unfoldable pub cargo_packages : Host → Verdict (List Text)
unfolding checked_run names_of as_list get_in ◌and_then◌ str
cargo_packages m =
    checked_run m
      (str "cargo" ∷ str "metadata" ∷ str "--no-deps" ∷ str "--format-version" ∷ str "1" ∷ [])
      inherited
    and_then λ output. elim (m.json_loads output) [
      | none ↦ refuses
      | some v ↦ elim (as_list (get_in v (str "packages"))) [
        | none ↦ crashes
        | some packages ↦ names_of packages
      ]
    ]

unfoldable pub excluded_names : List (Text × Text) → List Text
excluded_names [] = []
excluded_names ((name, reason) ∷ rest) = name ∷ excluded_names rest

abbrev pub is_reason : Text × Text → Bool
is_reason (name, reason) = not (is_empty (strip reason))

abbrev pub overlaps : List Text → List Text → Bool
overlaps xs ys = any (contains ys) xs

-- `pure | non_isolated | excluded`
abbrev pub all_packages : Partition → List Text
all_packages p = p.pure ++ (p.non_isolated ++ excluded_names p.excluded)

-- No package is in two sets, and each exclusion has its reason.
unfoldable pub is_documented : Partition → Bool
unfolding excluded_names strip
is_documented p =
    not (
      overlaps p.pure p.non_isolated
      || overlaps p.pure (excluded_names p.excluded)
      || overlaps p.non_isolated (excluded_names p.excluded))
    && all is_reason p.excluded

-- The sets are the packages of the workspace.
unfoldable pub is_exhaustive : Partition → List Text → Bool
unfolding excluded_names negative_package
is_exhaustive p expected =
    all (contains expected) (all_packages p)
    && all (contains (all_packages p)) expected
    && contains p.non_isolated negative_package

unfoldable pub validate_package_partition : Host → Partition → Verdict Unit
unfolding is_documented cargo_packages is_exhaustive ◌and_then◌
validate_package_partition m p =
    require (is_documented p)
      (cargo_packages m and_then λ expected. require (is_exhaustive p expected) (accepts tt))

-- `("-p", package)` for each package.
unfoldable pub selection : List Text → List Text
unfolding str
selection [] = []
selection (name ∷ names) = str "-p" ∷ name ∷ selection names

unfoldable pub miri_command : List Text → Option Text → List Text
unfolding selection expensive_test str
miri_command packages test =
    (str "cargo" ∷ str "+nightly" ∷ str "miri" ∷ str "test" ∷ [])
    ++ (selection packages
        ++ (elim test [ none ↦ [] | some name ↦ str "--test" ∷ str "con_001" ∷ [] ]
            ++ (str "--all-features" ∷ str "--locked" ∷ elim test [
              | none ↦ str "--" ∷ str "--skip" ∷ expensive_test ∷ []
              | some name ↦ str "--" ∷ str "--exact" ∷ name ∷ []
            ])))

-- `run_gate_command`
unfoldable pub run_gate_command : Host → List Text → Flags → Verdict Unit
unfolding checked_run ◌and_then◌
run_gate_command m command flags = checked_run m command flags and_then λ output. accepts tt

-- A fixture with input and output has to fail under isolation, and for that reason.
unfoldable pub negative_isolation_probe : Host → Verdict Unit
unfolding miri_command negative_package negative_test occurs str
negative_isolation_probe m =
    elim (m.run (miri_command (negative_package ∷ []) (some negative_test)) removed) [
      | timed_out ↦ refuses
      | not_started ↦ refuses
      | finished code output ↦
          require
            (not (code == 0)
              && occurs (str "open") (m.lower output)
              && occurs (str "isolation") (m.lower output))
            (accepts tt)
    ]

-- The one option of the command line.
pub data Mode : Type 0 where
  self_test run_probe run_gate : Mode

unfoldable pub isolation_disabled : Text
unfolding str
isolation_disabled = str "-Zmiri-disable-isolation"

unfoldable pub run_chosen : Host → Partition → Mode → Verdict Unit
unfolding run_gate_command miri_command negative_isolation_probe isolation_disabled ◌and_then◌
run_chosen m p self_test = accepts tt
run_chosen m p run_probe = negative_isolation_probe m
run_chosen m p run_gate = run_gate_command m (miri_command p.pure none) removed and_then λ done.
    run_gate_command m (miri_command p.non_isolated none) (set_to isolation_disabled)

unfoldable pub run_mode : Host → Partition → Mode → Verdict Unit
unfolding validate_package_partition run_chosen ◌and_then◌
run_mode m p mode = validate_package_partition m p and_then λ done. run_chosen m p mode

-- The exit status; `none` is an exception that leaves the program.
unfoldable pub main : Host → Mode → Option ℕ
unfolding run_mode packages_of_gate
main m mode = elim (run_mode m packages_of_gate mode) [
  | accepts done ↦ some 0
  | refuses ↦ some 1
  | crashes ↦ none
]
