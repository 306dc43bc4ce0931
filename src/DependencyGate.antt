-- ===== src/DependencyGate.antt =====
-- security/dependency-scan/gate.mjs: the gate on the advisories of `npm audit --json`.
pub mod Advisories
pub mod Exceptions
pub mod Evaluation
pub mod Command
mod Tests
