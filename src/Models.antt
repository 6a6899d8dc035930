-- ===== src/Models.antt =====
-- src/models.rs: model names, their aliases, mappings and fallbacks.
pub mod Family
pub mod Catalogue
pub mod Alias
pub mod Documented
pub mod Glob
pub mod Mappings
pub mod Presets
