-- ===== src/Consumer.antt =====
-- port/consumer/verify.py: the fail-closed verifier of the consumers' CoreKit pins. Each check of the
-- program appends to one list of findings; here it returns the findings that it appends.
pub mod Findings
pub mod Patterns
pub mod Paths
pub mod World
pub mod Registry
pub mod Release
pub mod Rollback
pub mod Status
pub mod Provenance
pub mod Reports
pub mod Evidence
pub mod GoMod
pub mod GoImports
pub mod Go
pub mod Snapshot
pub mod Cargo
pub mod Manifests
pub mod Rust
pub mod Records
pub mod Verify
