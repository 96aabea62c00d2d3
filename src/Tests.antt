-- ===== src/Tests.antt =====
-- Runs of the definitions on small inputs, and the theorems at inputs that meet their hypotheses.
pub mod MergeGates
pub mod Locks
pub mod Consumers
pub mod Builds
pub mod Evidences
pub mod Releases
pub mod Plans
pub mod MiriRuns
pub mod Origins
pub mod Replacements
