-- ===== src/Core.antt =====
-- crates/paur-core/src: the types that every crate shares.
pub mod Name
pub mod Flags
pub mod Variants
pub mod Auth
pub mod Config
