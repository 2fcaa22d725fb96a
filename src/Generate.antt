-- ===== src/Generate.antt =====
-- gazelle/closure_js/generate.go: the rules of a directory.
pub mod Imports
pub mod Rules
pub mod State
pub mod Extension
pub mod Existing
pub mod Files
pub mod Attrs
pub mod Emit
pub mod Panic
pub mod Run
pub mod Named
pub mod Invariant
pub mod Visit
pub mod PerFile
pub mod Directory
pub mod Covered
pub mod Known
pub mod Total
pub mod Result
