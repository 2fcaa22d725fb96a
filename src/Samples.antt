-- ===== src/Samples.antt =====
-- Concrete functions that meet the laws of the interfaces of Gazelle.antt, for the tests.
pub mod Label
pub mod Build
