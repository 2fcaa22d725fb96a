-- ===== src/Tests.antt =====
-- Runs of the definitions on small inputs, and the theorems at concrete inputs.
pub mod Files
pub mod Config
pub mod Directory
pub mod Modules
pub mod Resolve
pub mod Generate
pub mod Odd
pub mod EndToEnd
