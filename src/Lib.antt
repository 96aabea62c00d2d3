-- ===== src/Lib.antt =====
-- A model of the Python tooling of symaira-corekit that decides whether evidence is accepted, with
-- proofs of what an accepted piece of evidence shows.
--
-- The tooling consists of fail-closed checks. Each reads documents (JSON, TOML), files and the answers
-- of Git, and reports findings; no finding means that the evidence is accepted. The parts:
--
-- MergeGate: scripts/rust-port/ci_merge_gate.py. `evaluate` and `main` over the job results of a
--   workflow run. `json.loads` is a parameter of `main`.
-- Lock: scripts/rust-port/lock_closure.py. `_parse_edge` is `parse_edge`, and `closure_packages` is
--   `closure`, with its inner function `resolve` and its work list `visit`. The loop is on fuel. One turn for
--   every root and every dependency edge of the file is enough, since a package is expanded once.
--   The decoding of the file, its tables without a name or a version, and the digest of the result are left out.
-- Consumer: port/consumer/verify.py.
--   Consumer/Findings: `Finding` without its message, and the findings of one check as its result.
--   Consumer/Patterns: the regular expressions, matched by derivatives (Regex).
--   Consumer/World: the answers of Git, of the file system, of the decoders and of SHA-256, as the fields of
--     a record. They do not change while a check runs. The limits of `json.loads` are an answer; those of
--     `tomllib.loads` are left out.
--   Consumer/Paths: `_validate_relative_path`, `_safe_child`, `_safe_non_symlink_child` and
--     `_regular_non_symlink`.
--   Consumer/Release: `_check_consumer_release` and `_check_release_ancestry`.
--   Consumer/Registry: `_registry_readback` and `_check_registry_readback`.
--   Consumer/Rollback: `_artifact_digest` and `_check_rollback_transition`.
--   Consumer/Status: `_expected_rust`, `_validate_rust_status`, `_cargo_version` and
--   `_exact_cargo_version`. The TypeError that a list or dict as status causes is an outcome.
--   Consumer/Provenance: `_check_rust_build_provenance`.
--   Consumer/Reports and Consumer/Evidence: `_check_evidence`, which calls the checks of Provenance and
--   Rollback, and `_go_retired`.
--   Consumer/Snapshot: `_check_checkout_snapshot`; `os.walk` gives a tree, walked from the top down.
--   Consumer/GoMod: `parse_go_requirements`, `go_corekit_replacements`, `parse_go_pins` and `parse_go_pin`;
--     Consumer/GoMod/Directives describes the replace declarations of a file on their own.
--   Consumer/GoImports: the lexer `go_imports` with its three helpers. Its loops are on fuel, and the length
--     of the text is enough, since every round takes a character; Consumer/GoImports/Ends has their rounds as
--     relations without fuel.
--   Consumer/Go: `_tracked_go_files`, `_tracked_go_module_files`, `_check_go_replacements`,
--     `tracked_go_imports`, `_check_go_retired` and `_check_go`.
--   Consumer/Cargo: `cargo_specs`, the tracked Cargo files and `_check_not_adopted_rust`.
--   Consumer/Manifests and Consumer/Rust: `_check_rust`, first its manifests and pins, then its lock file.
--   Consumer/Records and Consumer/Verify: `canonical_checkout`, `verify_manifest` with its loop over the
--     records, and `main` from the parsed command line over the writing of the report to the exit status. What is
--     printed is left out.
-- ReleasePlan: port/release/verify.py. `validate_manifest_shape` stands in ReleasePlan; ReleasePlan/Sources has
--   `read_json`, `safe_repository_path`, `cargo_metadata`, `validate_workspace`, `validate_adoption`,
--   `validate_git_provenance` and `validate_clean_source` over the record Machine, which answers for commands,
--   files and decoders; ReleasePlan/Run has `package_candidates`, `semver_baseline`, `dry_run_packages` and `main`. An
--   outcome is a value, a refusal (exit status 1) or an exception that the program does not catch.
-- MiriGate: scripts/rust-port/miri_gate.py, over the record Host, which answers for processes. `main` takes the one
--   option of the command line. A process inherits MIRIFLAGS, runs without it, or with a value of the gate.
-- Trust: `repository_slug_from_remote` and `assert_origin` of scripts/rust-port/trust.py. `git` is a parameter; the
--   workspace paths and the requests to GitHub are left out. Trust/Remote takes a remote apart.
-- Json: decoded documents, with Python's equality and `dict.get`. Numbers with a fraction are left out.
-- Base: shared names and lemmas; a text is the list of its code points. Base/Cuts has how texts are put together from
--   what `startswith`, `removeprefix` and `split` leave, Base/Sorting is `sorted`, and Base/Verdict
--   the outcome of a step of ReleasePlan and MiriGate.
-- Tests: concrete runs, and one instance of each theorem.
--
-- The checks of Consumer share the document type of Json and the record World; Rollback uses the path
-- guards of Paths, and Registry and Rollback the digest pattern of Patterns. Records calls the checks of
-- Status, Snapshot, Release, Go, Rust and Evidence on one checkout, and Verify calls Records.
--
-- Outside the model: the wording of messages, measurement, process creation, the oracles in Go and
-- the Rust crates.

pub mod Base
pub mod Json
pub mod Regex
pub mod MergeGate
pub mod MiriGate
pub mod Lock
pub mod Consumer
pub mod ReleasePlan
pub mod Trust
pub mod Tests
