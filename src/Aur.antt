-- ===== src/Aur.antt =====
-- crates/paur-aur/src: what the program knows of the Arch User Repository.
pub mod Info
pub mod Srcinfo
pub mod Refs
